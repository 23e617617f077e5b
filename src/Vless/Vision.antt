-- ===== src/Vless/Vision.antt =====
-- `VisionStream` of protocol/vless/src/common.rs: payloads in frames with padding, and their decoder,
-- which passes everything through once a frame says so, or the stream does not begin with the user id.
pub mod Frames
pub mod Pending
pub mod Poll
pub mod Rounds
pub mod Settled
pub mod Total
pub mod Chunks
use Prim.Native.Nat.{bit_or}
use rabbit_digger_pro.Base.{
  ℕ, zero, suc, ◌+◌, ◌*◌, List, [], ◌∷◌, ◌++◌, Option, none, some, Bool, true, false, not, ◌&&◌,
  Bytes, ltb, ◌==◌, if◌then◌else◌, length, take, drop, min, is_empty, bytes_eq, to_be_bytes,
}

abbrev pub max_vision_content : ℕ
max_vision_content = 65_535

-- The fields beside `inner`; `shared_read_raw` is the value of the flag, if there is one.
pub record VisionStream : Type 0 where
  pub user_id : Bytes
  pub wrote_uuid : Bool
  pub write_pending : Bytes
  pub write_payload_len : ℕ
  pub read_buf : Bytes
  pub read_pending : Bytes
  pub expect_uuid : Bool
  pub remaining_header : ℕ
  pub current_command : ℕ
  pub remaining_content : ℕ
  pub remaining_padding : ℕ
  pub direct_mode : Bool
  pub shared_read_raw : Option Bool

unfoldable pub new : Bytes → Option Bool → VisionStream
new user_id shared = record {
  user_id = user_id;
  wrote_uuid = false;
  write_pending = [];
  write_payload_len = 0;
  read_buf = [];
  read_pending = [];
  expect_uuid = true;
  remaining_header = 0;
  current_command = 0;
  remaining_content = 0;
  remaining_padding = 0;
  direct_mode = false;
  shared_read_raw = shared;
}

-- How much of `buf` goes into the frame, and the stream with the frame behind what is pending.
unfoldable pub enqueue_write : VisionStream → Bytes → ℕ × VisionStream
enqueue_write v buf =
    let payload_len = min (length buf) max_vision_content in
    let prefix : Bytes = if v.wrote_uuid then [] else v.user_id in
    (
      payload_len,
      record v {
        write_pending =
            v.write_pending
            ++ (prefix
                ++ (0 ∷ (to_be_bytes 2 payload_len ++ (to_be_bytes 2 0 ++ take payload_len buf))));
        wrote_uuid = true;
        write_payload_len = payload_len;
      },
    )

-- What a part of the loop's body does: go on with the next part, or return.
pub data Flow : Type 0 where
  go : VisionStream → Flow
  return : VisionStream → Flow

-- Everything that is buffered goes through.
unfoldable pub pass_through : VisionStream → VisionStream
pass_through v = record v { read_pending = v.read_pending ++ v.read_buf; read_buf = [] }

-- What has come differs from the beginning of the user id.
unfoldable pub differs : Bytes → Bytes → Bool
differs user_id buf =
    let prefix_len = min (length buf) (length user_id) in
    ltb 0 prefix_len && not (bytes_eq (take prefix_len buf) (take prefix_len user_id))

-- `if self.expect_uuid`.
unfoldable pub read_uuid : VisionStream → Flow
unfolding pass_through differs
read_uuid v =
    if not v.expect_uuid
    then go v
    else if differs v.user_id v.read_buf
    then return (record (pass_through v) { direct_mode = true })
    else if ltb (length v.read_buf) 21
    then return v
    else go (record v { read_buf = drop 16 v.read_buf; expect_uuid = false; remaining_header = 5 })

-- `match self.remaining_header`, which is at most 5.
unfoldable pub set_field : ℕ → ℕ → VisionStream → VisionStream
set_field n b v =
    if n == 5
    then record v { current_command = b }
    else if n == 4
    then record v { remaining_content = b * 256 }
    else if n == 3
    then record v { remaining_content = bit_or v.remaining_content b }
    else if n == 2
    then record v { remaining_padding = b * 256 }
    else record v { remaining_padding = bit_or v.remaining_padding b }

-- `while self.remaining_header > 0`, on a buffer that has as many bytes.
unfoldable pub read_fields : ℕ → Bytes → VisionStream → VisionStream
unfolding set_field
read_fields zero buf v = record v { read_buf = buf; remaining_header = 0 }
read_fields (suc n) [] v = v
read_fields (suc n) (b ∷ buf) v = read_fields n buf (set_field (suc n) b v)

-- `if self.remaining_header > 0`.
unfoldable pub read_header : VisionStream → Flow
unfolding read_fields
read_header v =
    if v.remaining_header == 0
    then go v
    else if ltb (length v.read_buf) v.remaining_header
    then return v
    else go (read_fields v.remaining_header v.read_buf v)

-- The content and the padding, of which the buffer has all.
unfoldable pub take_content : VisionStream → VisionStream
take_content v = record v {
  read_pending = v.read_pending ++ take v.remaining_content v.read_buf;
  read_buf = drop v.remaining_padding (drop v.remaining_content v.read_buf);
  remaining_content = 0;
  remaining_padding = 0;
}

unfoldable pub set_shared : VisionStream → Option Bool
set_shared v = elim v.shared_read_raw [
  | none ↦ none
  | some flag ↦ some (if v.current_command == 2 then true else flag)
]

-- The end of a frame: its command says whether another one follows.
unfoldable pub end_frame : VisionStream → Flow
unfolding pass_through set_shared
end_frame v =
    if v.current_command == 0
    then go (record v { remaining_header = 5 })
    else return (pass_through (record v { direct_mode = true; shared_read_raw = set_shared v }))

unfoldable pub read_content : VisionStream → Flow
unfolding take_content end_frame
read_content v =
    if ltb (length v.read_buf) (v.remaining_content + v.remaining_padding)
    then return v
    else end_frame (take_content v)

abbrev pub and_then : Flow → (VisionStream → Flow) → Flow
and_then (go v) f = f v
and_then (return v) f = return v

-- `if self.direct_mode`.
unfoldable pub pass_direct : VisionStream → Flow
unfolding pass_through
pass_direct v = if v.direct_mode then return (pass_through v) else go v

-- The body of the loop.
unfoldable pub decode_frame : VisionStream → Flow
unfolding pass_direct read_uuid read_header read_content
decode_frame v =
    and_then (pass_direct v)
      (λ v. and_then (read_uuid v) (λ v. and_then (read_header v) read_content))

-- The loop; `none` when the fuel runs out.
unfoldable pub decode_loop : ℕ → VisionStream → Option VisionStream
unfolding decode_frame
decode_loop zero v = none
decode_loop (suc fuel) v = elim (decode_frame v) [
  | go v' ↦ decode_loop fuel v'
  | return v' ↦ some v'
]

-- Each round but the first takes five bytes or more.
unfoldable pub try_decode_frames : VisionStream → Option VisionStream
unfolding decode_loop
try_decode_frames v = decode_loop (suc (suc (length v.read_buf))) v
