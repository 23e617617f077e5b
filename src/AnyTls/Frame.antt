-- ===== src/AnyTls/Frame.antt =====
-- Frames of protocol/anytls/src/proto.rs, as they are encoded and as the client reads them off the
-- stream. An assertion that fails gives `none`.
use rabbit_digger_pro.Address.{Address, socket_addr, domain, v4, v6}
use rabbit_digger_pro.Base.{
  byte_at, ℕ, ◌+◌, ◌^◌, ◌<◌, ◌≤◌, ◌≡◌, refl, ap, ◌∙◌, ◌∷◌, ◌++◌, Option, none, some, Bytes, ltb,
  leb, if◌then◌else◌, length, take, drop, read_exact, to_be_bytes, from_be_bytes, from_be-to_be,
  arith, read_exact-append,
}
use rabbit_digger_pro.Base.Optional.{◌>>=◌}

abbrev pub cmd_waste : ℕ
cmd_waste = 0

abbrev pub cmd_syn : ℕ
cmd_syn = 1

abbrev pub cmd_psh : ℕ
cmd_psh = 2

abbrev pub cmd_fin : ℕ
cmd_fin = 3

abbrev pub cmd_settings : ℕ
cmd_settings = 4

abbrev pub cmd_alert : ℕ
cmd_alert = 5

abbrev pub cmd_update_padding_scheme : ℕ
cmd_update_padding_scheme = 6

abbrev pub cmd_heart_request : ℕ
cmd_heart_request = 8

abbrev pub cmd_heart_response : ℕ
cmd_heart_response = 9

abbrev pub header_len : ℕ
header_len = 7

pub record Frame : Type 0 where
  pub cmd : ℕ
  pub sid : ℕ
  pub payload : Bytes

unfoldable pub encode_frame : Frame → Option Bytes
encode_frame frame =
    if leb (length frame.payload) 65_535
    then some (
        frame.cmd
        ∷ (to_be_bytes 4 frame.sid ++ (to_be_bytes 2 (length frame.payload) ++ frame.payload)))
    else none

-- A header has seven bytes.
unfoldable pub decode_header : Bytes → ℕ × ℕ × ℕ
decode_header header = (
  byte_at header 0,
  from_be_bytes (take 4 (drop 1 header)),
  from_be_bytes (take 2 (drop 5 header)),
)

unfoldable pub read_payload : ℕ × ℕ × ℕ → Bytes → Option (Frame × Bytes)
read_payload (cmd, sid, len) s = do
  (payload, rest) ← read_exact len s
  some (record { cmd = cmd; sid = sid; payload = payload }, rest)

-- The head of the reader's loop: a frame and the rest of the stream.
unfoldable pub read_frame : Bytes → Option (Frame × Bytes)
unfolding decode_header read_payload
read_frame stream = do
  (header, rest) ← read_exact header_len stream
  read_payload (decode_header header) rest

-- `none` is the error for a domain that is too long.
unfoldable pub encode_socks_addr : Address → Option Bytes
encode_socks_addr (socket_addr socket) = elim socket.ip [
  | v4 octets ↦ some (1 ∷ (octets ++ to_be_bytes 2 socket.port))
  | v6 octets ↦ some (4 ∷ (octets ++ to_be_bytes 2 socket.port))
]
encode_socks_addr (domain d port) =
    if ltb 255 (length d) then none else some (3 ∷ length d ∷ (d ++ to_be_bytes 2 port))

-- The fields of a frame fit its header.
pub record Fits (f : Frame) : Type 0 where
  pub cmd : f.cmd < 256
  pub sid : f.sid < 2 ^ 32
  pub payload : length f.payload ≤ 65_535

pub encode_frame-Fits :
    (f : Frame)
    → Fits f
    → encode_frame f
      ≡ some (f.cmd ∷ (to_be_bytes 4 f.sid ++ (to_be_bytes 2 (length f.payload) ++ f.payload)))
unfolding encode_frame
encode_frame-Fits f fits = let small = fits.payload in ground arith

abbrev header : Frame → Bytes
header f = f.cmd ∷ (to_be_bytes 4 f.sid ++ to_be_bytes 2 (length f.payload))

header_split :
    (f : Frame) (rest : Bytes)
    → read_exact header_len
        ((f.cmd ∷ (to_be_bytes 4 f.sid ++ (to_be_bytes 2 (length f.payload) ++ f.payload))) ++ rest)
      ≡ some (header f, f.payload ++ rest)
unfolding read_exact
header_split f rest = refl

read_split :
    (f : Frame) (rest : Bytes)
    → read_frame
        ((f.cmd ∷ (to_be_bytes 4 f.sid ++ (to_be_bytes 2 (length f.payload) ++ f.payload))) ++ rest)
      ≡ read_payload (decode_header (header f)) (f.payload ++ rest)
unfolding read_frame
read_split f rest = rw (header_split f rest, read_frame) refl

decode_header-header :
    (f : Frame) → Fits f → decode_header (header f) ≡ (f.cmd, f.sid, length f.payload)
unfolding decode_header
decode_header-header f fits =
    let sid = from_be-to_be 4 f.sid fits.sid in
    let len = from_be-to_be 2 (length f.payload) (omega (arith, fits.payload)) in
    ground (arith, sid, len)

-- A frame whose fields fit is encoded, and read back off the stream whatever follows it.
pub read_frame-encode_frame :
    (f : Frame) (rest : Bytes)
    → Fits f
    → (bytes : Bytes) × (encode_frame f ≡ some bytes)
      × (read_frame (bytes ++ rest) ≡ some (f, rest))
      × (length bytes ≡ header_len + length f.payload)
unfolding read_payload
read_frame-encode_frame f rest fits = (
  f.cmd ∷ (to_be_bytes 4 f.sid ++ (to_be_bytes 2 (length f.payload) ++ f.payload)),
  encode_frame-Fits f fits,
  read_split f rest
      ∙ ap (λ h. read_payload h (f.payload ++ rest)) (decode_header-header f fits)
      ∙ rw (read_exact-append f.payload rest, read_payload) refl,
  omega arith,
)
