-- ===== src/Tests/AnyTls.antt =====
-- The AnyTLS client of protocol/anytls on concrete inputs.
use rabbit_digger_pro.AnyTls.Frame.{
  Frame, encode_frame, read_frame, Fits, cmd_heart_request, cmd_fin,
}
use rabbit_digger_pro.AnyTls.Padding.{check, range, parse, apply_padding, check_mark}
use rabbit_digger_pro.AnyTls.Padding.Transparent.{concat, Waste, apply_padding-Waste}
use rabbit_digger_pro.AnyTls.Reader.{ReaderState, read_all}
use rabbit_digger_pro.AnyTls.Reader.Frames.{encoded, encode_all, after_frames, read_all-encode_all}
use rabbit_digger_pro.AnyTls.Writer.{AnyTlsStream}
use rabbit_digger_pro.AnyTls.Writer.Writes.{
  write_chunks, frames, unread, got, write_chunks-read_all, poll_read_order,
}
use rabbit_digger_pro.AnyTls.Writer.Writes
use rabbit_digger_pro.Address.{strip_suffix}
use rabbit_digger_pro.Base.{
  suc, ◌≡◌, ◌≢◌, refl, List, [], ◌∷◌, ◌++◌, some, Bool, true, false, Bytes, length, map, arith,
  read_exact,
}
use rabbit_digger_pro.Base.Decimal.{parse_uint}
use rabbit_digger_pro.Base.Map

abbrev hello : Frame
hello = record { cmd = 2; sid = 0x0102_0304; payload = b'a' ∷ b'b' ∷ b'c' ∷ [] }

hello-Fits : Fits hello
hello-Fits = record { cmd = omega arith; sid = omega arith; payload = omega arith }

header_bytes : encode_frame hello ≡ some (2 ∷ 1 ∷ 2 ∷ 3 ∷ 4 ∷ 0 ∷ 3 ∷ b'a' ∷ b'b' ∷ b'c' ∷ [])
unfolding encode_frame
header_bytes = refl

any_text : Bytes → Bool
any_text _ = true

-- `stop=3` and `1=9-4,c` on two lines.
small_scheme :
    parse any_text (
      b's' ∷ b't' ∷ b'o' ∷ b'p' ∷ b'=' ∷ b'3' ∷ 10 ∷ b'1' ∷ b'=' ∷ b'9' ∷ b'-' ∷ b'4' ∷ b',' ∷ b'c'
      ∷ [])
    ≡ some (record {
      raw =
          b's' ∷ b't' ∷ b'o' ∷ b'p' ∷ b'=' ∷ b'3' ∷ 10 ∷ b'1' ∷ b'=' ∷ b'9' ∷ b'-' ∷ b'4' ∷ b','
          ∷ b'c' ∷ [];
      stop = 3;
      scheme = (1, range 4 9 ∷ check ∷ []) ∷ [];
    })
unfolding parse any_text strip_suffix Map.insert parse_uint
small_scheme = refl

abbrev word : Bytes
word = b'h' ∷ b'e' ∷ b'l' ∷ b'l' ∷ b'o' ∷ []

abbrev padded : List Bytes
padded = (b'h' ∷ b'e' ∷ []) ∷ (b'l' ∷ b'l' ∷ b'o' ∷ 0 ∷ 0 ∷ 0 ∷ 0 ∷ 0 ∷ 0 ∷ 2 ∷ 0 ∷ 0 ∷ []) ∷ []

padding_run : apply_padding (2 ∷ 12 ∷ check_mark ∷ 12 ∷ []) word ≡ some padded
unfolding apply_padding encode_frame
padding_run = refl

apply_padding-Waste_example : ((w : Bytes) × (concat padded ≡ word ++ w) × Waste w) × (padded ≢ [])
apply_padding-Waste_example = apply_padding-Waste (2 ∷ 12 ∷ check_mark ∷ 12 ∷ []) word padding_run

abbrev start : ReaderState
start = record { padding = record { raw = []; stop = 0; scheme = [] }; delivered = []; sent = [] }

abbrev beat : Frame
beat = record { cmd = cmd_heart_request; sid = 5; payload = [] }

abbrev cut_short : Bytes
cut_short = 2 ∷ 0 ∷ []

abbrev goodbye : Frame
goodbye = record { cmd = cmd_fin; sid = 5; payload = [] }

abbrev talk : List Frame
talk = hello ∷ beat ∷ goodbye ∷ hello ∷ []

read_all-encode_all_example :
    read_all any_text 5 (λ n. true) start (encode_all talk ++ cut_short)
    ≡ some (after_frames any_text 5 (λ n. true) start talk)
unfolding read_frame read_exact
read_all-encode_all_example =
    read_all-encode_all any_text 5 (λ n. true) start talk cut_short
      (
        hello-Fits,
        (
          record { cmd = omega arith; sid = omega arith; payload = omega arith },
          (
            record { cmd = omega arith; sid = omega arith; payload = omega arith },
            (hello-Fits, tt),
          ),
        ),
      )
      refl

abbrev stream : AnyTlsStream
stream = record {
  sid = 1;
  written = [];
  writable = true;
  read_rx = word ∷ [];
  ended = false;
  read_buf = [];
  closed = false;
}

write_chunks-read_all_example :
    (ps : List Bytes) × (write_chunks (suc (length word)) stream word
      ≡ some (record stream { written = [] ++ map encoded (frames 1 ps) }))
    × (Writes.concat ps ≡ word)
    × (read_all any_text 1 (λ n. true) start (encode_all (frames 1 ps))
        ≡ some (record start { delivered = [] ++ ps }))
write_chunks-read_all_example =
    write_chunks-read_all any_text stream word start (omega arith) refl refl
