-- ===== src/AnyTls/Padding.antt =====
-- `PaddingScheme`, `apply_padding` and `auth_prefix` of protocol/anytls/src/proto.rs. An `i32` is its
-- 32 bits. The check of UTF-8, the digests and the random draw are parameters.
pub mod Transparent
use rabbit_digger_pro.Address.{strip_suffix}
use rabbit_digger_pro.AnyTls.Frame.{Frame, encode_frame, cmd_waste, header_len}
use rabbit_digger_pro.Base.{
  ℕ, zero, suc, ◌+◌, ◌-◌, ◌%◌, ◌^◌, List, [], ◌∷◌, ◌++◌, Option, none, some, Bytes, Bool, true,
  false, ltb, leb, ◌==◌, ◌||◌, ◌&&◌, if◌then◌else◌, length, take, drop, is_empty, replicate,
  to_be_bytes, map, bytes_eq,
}
use rabbit_digger_pro.Base.Decimal.{parse_uint}
use rabbit_digger_pro.Base.Map
use rabbit_digger_pro.Base.Map.{nat_key}
use rabbit_digger_pro.Base.Optional.{◌>>=◌, ◌>>◌, when, unwrap_or}

pub data PaddingPart : Type 0 where
  check : PaddingPart
  range : ℕ → ℕ → PaddingPart

pub record PaddingScheme : Type 0 where
  pub raw : Bytes
  pub stop : ℕ
  pub scheme : List (ℕ × List PaddingPart)

-- `str::lines`, behind the text `line` of the line that is read: the end of a line is `\n` or `\r\n`.
unfoldable pub lines_from : Bytes → Bytes → List Bytes
lines_from line [] = if is_empty line then [] else line ∷ []
lines_from line (c ∷ cs) = elim (c == 10) [
  | true ↦ unwrap_or (strip_suffix 13 line) line ∷ lines_from [] cs
  | false ↦ lines_from (line ++ c ∷ []) cs
]

-- `str::split_once`.
unfoldable pub split_once : ℕ → Bytes → Option (Bytes × Bytes)
split_once sep [] = none
split_once sep (c ∷ cs) =
    let rest = split_once sep cs in
    if c == sep then some ([], cs) else (do (front, back) ← rest; some (c ∷ front, back))

abbrev add_front : ℕ → List Bytes → List Bytes
add_front c [] = (c ∷ []) ∷ []
add_front c (piece ∷ pieces) = (c ∷ piece) ∷ pieces

-- `str::split`.
unfoldable pub split : ℕ → Bytes → List Bytes
split sep [] = [] ∷ []
split sep (c ∷ cs) = let rest = split sep cs in if c == sep then [] ∷ rest else add_front c rest

unfoldable pub ordered : ℕ → ℕ → Option PaddingPart
ordered min max =
    if min == 0 || max == 0
    then none
    else some (if ltb max min then range max min else range min max)

-- One part of a line; `none` is a part that is passed over.
unfoldable pub parse_part : Bytes → Option PaddingPart
unfolding ordered split_once
parse_part raw_part = if bytes_eq raw_part (b'c' ∷ []) then some check else (do
  (min_text, max_text) ← split_once b'-' raw_part
  min ← parse_uint (2 ^ 64) min_text
  max ← parse_uint (2 ^ 64) max_text
  ordered min max)

unfoldable pub parse_parts : List Bytes → List PaddingPart
unfolding parse_part
parse_parts [] = []
parse_parts (raw_part ∷ rest) = elim (parse_part raw_part) [
  | none ↦ parse_parts rest
  | some part ↦ part ∷ parse_parts rest
]

-- One line, with `stop` and `scheme` as they stand.
unfoldable pub parse_line :
    Bytes → Option ℕ × List (ℕ × List PaddingPart) → Option ℕ × List (ℕ × List PaddingPart)
unfolding parse_parts split_once split
parse_line line (stop, scheme) = elim (split_once b'=' line) [
  | none ↦ (stop, scheme)
  | some (key, value) ↦
      if bytes_eq key (b's' ∷ b't' ∷ b'o' ∷ b'p' ∷ [])
      then (parse_uint (2 ^ 32) value, scheme)
      else elim (parse_uint (2 ^ 32) key) [
        | none ↦ (stop, scheme)
        | some pkt ↦ (stop, Map.insert pkt (parse_parts (split b',' value)) scheme)
      ]
]

unfoldable pub parse_lines :
    List Bytes → Option ℕ × List (ℕ × List PaddingPart) → Option ℕ × List (ℕ × List PaddingPart)
unfolding parse_line
parse_lines [] state = state
parse_lines (line ∷ rest) state = parse_lines rest (parse_line line state)

unfoldable pub parse : (Bytes → Bool) → Bytes → Option PaddingScheme
unfolding parse_lines lines_from
parse is_utf8 raw =
    if is_utf8 raw
    then (do
      let (stop, scheme) = parse_lines (lines_from [] raw) (none, [])
      n ← stop
      some (record { raw = raw; stop = n; scheme = scheme }))
    else none

-- `-1` as an `i32`.
abbrev pub check_mark : ℕ
check_mark = 2 ^ 32 - 1

abbrev pub as_i32 : ℕ → ℕ
as_i32 n = n % 2 ^ 32

-- The sign is extended.
abbrev pub as_usize : ℕ → ℕ
as_usize i = if ltb i (2 ^ 31) then i else i + (2 ^ 64 - 2 ^ 32)

-- `draw min max` is `rand::random_range(min..max)`.
unfoldable pub part_size : (ℕ → ℕ → ℕ) → PaddingPart → ℕ
part_size draw check = check_mark
part_size draw (range min max) = if min == max then as_i32 min else as_i32 (draw min max)

unfoldable pub generate_record_payload_sizes : (ℕ → ℕ → ℕ) → PaddingScheme → ℕ → List ℕ
unfolding part_size
generate_record_payload_sizes draw padding pkt =
    if leb padding.stop pkt then [] else elim (Map.lookup pkt padding.scheme) [
      | none ↦ []
      | some parts ↦ map (part_size draw) parts
    ]

unfoldable pub encode_waste_frame : ℕ → Option Bytes
encode_waste_frame padding_len =
    encode_frame (record { cmd = cmd_waste; sid = 0; payload = replicate padding_len 0 })

-- A chunk that takes the last of the payload, filled up to `size` where a frame has room.
unfoldable pub last_chunk : ℕ → Bytes → Option Bytes
unfolding encode_waste_frame
last_chunk size chunk =
    let padding_len = size - (length chunk + header_len) in
    if ltb 0 padding_len
    then (do waste ← encode_waste_frame padding_len; some (chunk ++ waste))
    else some chunk

-- The loop of `apply_padding`: the chunks, and what is left of the payload. `none` is the failed
-- assertion of a frame that is too long.
unfoldable pub pad_loop : List ℕ → Bytes → Option (List Bytes × Bytes)
unfolding last_chunk
pad_loop [] payload = some ([], payload)
pad_loop (i ∷ sizes) payload = elim (i == check_mark) [
  | true ↦ elim (is_empty payload) [ true ↦ some ([], payload) | false ↦ pad_loop sizes payload ]
  | false ↦
      let size = as_usize i in
      elim (ltb size (length payload)) [
        | true ↦ do
          (out, left) ← pad_loop sizes (drop size payload)
          some (take size payload ∷ out, left)
        | false ↦ do
          chunk ← (if is_empty payload then encode_waste_frame size else last_chunk size payload)
          (out, left) ← pad_loop sizes []
          some (chunk ∷ out, left)
      ]
]

abbrev pub or_one : List Bytes → List Bytes
or_one [] = [] ∷ []
or_one (c ∷ cs) = c ∷ cs

-- `apply_padding`, with the sizes that `generate_record_payload_sizes` gives.
unfoldable pub apply_padding : List ℕ → Bytes → Option (List Bytes)
unfolding pad_loop
apply_padding [] payload = some (payload ∷ [])
apply_padding (i ∷ sizes) payload = do
  (out, left) ← pad_loop (i ∷ sizes) payload
  some (or_one (if is_empty left then out else out ++ left ∷ []))

-- The first size, if it is positive.
unfoldable pub auth_padding_len : List ℕ → ℕ
auth_padding_len [] = 0
auth_padding_len (i ∷ _) = if ltb 0 i && ltb i (2 ^ 31) then i else 0

-- `auth_prefix`, with the digest of the password and the sizes of packet 0.
unfoldable pub auth_prefix : Bytes → List ℕ → Option Bytes
unfolding auth_padding_len
auth_prefix digest sizes =
    let padding_len = auth_padding_len sizes in
    if leb padding_len 65_535
    then some (digest ++ (to_be_bytes 2 padding_len ++ replicate padding_len 0))
    else none

-- The text `v=2`, `client=rdp/anytls` and the digest of the scheme, a line each; `md5_hex` is a
-- parameter.
unfoldable pub encode_settings : (Bytes → Bytes) → PaddingScheme → Bytes
encode_settings md5_hex padding =
    (b'v' ∷ b'=' ∷ b'2' ∷ 10 ∷ b'c' ∷ b'l' ∷ b'i' ∷ b'e' ∷ b'n' ∷ b't' ∷ b'=' ∷ b'r' ∷ b'd' ∷ b'p'
      ∷ b'/' ∷ b'a' ∷ b'n' ∷ b'y' ∷ b't' ∷ b'l' ∷ b's' ∷ 10 ∷ b'p' ∷ b'a' ∷ b'd' ∷ b'd' ∷ b'i'
      ∷ b'n' ∷ b'g' ∷ b'-' ∷ b'm' ∷ b'd' ∷ b'5' ∷ b'=' ∷ [])
    ++ md5_hex padding.raw
