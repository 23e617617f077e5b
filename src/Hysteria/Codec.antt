-- ===== src/Hysteria/Codec.antt =====
-- protocol/hysteria/src/codec.rs: QUIC variable-length integers and the TCP messages, and the
-- header part of `hy2_handle_tcp_stream` in protocol/hysteria/src/server.rs.
pub mod Varint
use Prim.Native.Nat.{bit_and, bit_or}
use rabbit_digger_pro.Base.{
  ℕ, ◌+◌, ◌-◌, ◌*◌, ◌/◌, ◌^◌, List, [], ◌∷◌, ◌++◌, Option, none, some, Bytes, ltb, ◌==◌,
  if◌then◌else◌, length, take, drop, to_be_bytes, from_be_bytes, read_exact,
}

unfoldable pub varint_len : ℕ → ℕ
varint_len x =
    if ltb x (2 ^ 6) then 1 else if ltb x (2 ^ 14) then 2 else if ltb x (2 ^ 30) then 4 else 8

-- `out` with the integer appended.
unfoldable pub write_varint : Bytes → ℕ → Bytes
write_varint out x =
    if ltb x (2 ^ 6)
    then out ++ to_be_bytes 1 x
    else if ltb x (2 ^ 14)
    then out ++ to_be_bytes 2 (bit_or x (1 * 2 ^ 14))
    else if ltb x (2 ^ 30)
    then out ++ to_be_bytes 4 (bit_or x (2 * 2 ^ 30))
    else out ++ to_be_bytes 8 (bit_or x (3 * 2 ^ 62))

-- A form of `len` bytes behind the two tag bits of its first byte.
unfoldable pub decode_form : ℕ → ℕ → Bytes → Option (ℕ × ℕ)
decode_form len first rest =
    if ltb (length (first ∷ rest)) len
    then none
    else some (from_be_bytes (bit_and first 0x3f ∷ take (len - 1) rest), len)

-- The value and the number of bytes that it takes.
unfoldable pub decode_varint : Bytes → Option (ℕ × ℕ)
unfolding decode_form
decode_varint [] = none
decode_varint (first ∷ rest) =
    let tag = first / 64 in
    if tag == 0
    then some (bit_and first 0x3f, 1)
    else if tag == 1
    then decode_form 2 first rest
    else if tag == 2
    then decode_form 4 first rest
    else if tag == 3
    then decode_form 8 first rest
    else none

-- The length that the tag bits of the first byte announce.
unfoldable pub form_len : ℕ → ℕ
form_len first =
    let tag = first / 64 in
    if tag == 0
    then 1
    else if tag == 1
    then 2
    else if tag == 2
    then 4
    else if tag == 3
    then 8
    else 1

-- `read_quic_varint` on what the stream has left: the value, and the rest of the stream.
unfoldable pub read_quic_varint : Bytes → Option (ℕ × Bytes)
unfolding form_len
read_quic_varint [] = none
read_quic_varint (first ∷ rest) = elim (read_exact (form_len first - 1) rest) [
  | none ↦ none
  | some (buf, after) ↦ elim (decode_varint (first ∷ buf)) [
    | none ↦ none
    | some (v, _) ↦ some (v, after)
  ]
]
