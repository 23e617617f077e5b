-- ===== src/Vless/Xudp.antt =====
-- `XudpCodec` of protocol/vless/src/common.rs: UDP packets on a stream. A packet to the address of the
-- last one carries no address. The codec's state is `last_addr`.
pub mod RoundTrip
use rabbit_digger_pro.Address.{Address}
use rabbit_digger_pro.Address.Same.{same_address}
use rabbit_digger_pro.Base.{
  byte_at, ℕ, ◌+◌, List, [], ◌∷◌, ◌++◌, Option, none, some, Bool, true, false, not, ◌&&◌, ◌||◌,
  Bytes, ltb, ◌==◌, if◌then◌else◌, length, take, drop, get_elem?, to_be_bytes, from_be_bytes,
}
use rabbit_digger_pro.Base.Optional.{unwrap_or}
use rabbit_digger_pro.Base.Result.{
  unexpected_eof, invalid_data, Result, ok, err, ◌>>=◌, ◌>>◌, ensure, ok_or,
}
use rabbit_digger_pro.Vless.Address.{write_address_buf, read_address_buf}

abbrev pub Item : Type 0
Item = Bytes × Address

unfoldable pub use_compact : Option Address → Address → Bool
use_compact none addr = false
use_compact (some last) addr = same_address last addr

-- The metadata, and `last_addr` behind it.
unfoldable pub write_meta : Option Address → Address → Result (Bytes × Option Address)
unfolding use_compact
write_meta last addr =
    if use_compact last addr
    then ok (0 ∷ 0 ∷ 2 ∷ 1 ∷ [], last)
    else (do meta ← write_address_buf (0 ∷ 0 ∷ 1 ∷ 1 ∷ 2 ∷ []) addr; ok (meta, some addr))

-- `encode`: `dst` with the packet appended, and the codec; on an error neither changes.
unfoldable pub encode : Option Address → Item → Bytes → Result (Option Address × Bytes)
unfolding write_meta
encode last (payload, addr) dst = do
  ensure (not (ltb 65_535 (length payload))) invalid_data
  (meta, last) ← write_meta last addr
  ok (
    last,
    dst ++ (to_be_bytes 2 (length meta) ++ (meta ++ (to_be_bytes 2 (length payload) ++ payload))),
  )

-- What `decode` returns, and the codec and the buffer that it leaves.
abbrev pub Decoded : Type 0
Decoded = Result (Option Item) × Option Address × Bytes

-- The address that the metadata names behind its first four bytes, and `last_addr` behind it.
unfoldable pub meta_address : Option Address → ℕ → Bytes → Result (Address × Option Address)
meta_address last packet_type [] = do addr ← ok_or last invalid_data; ok (addr, last)
meta_address last packet_type (network ∷ rest) = do
  ensure (network == 2) invalid_data
  (addr, rest) ← read_address_buf rest
  ok (addr, if (packet_type == 1) || (packet_type == 2) then some addr else last)

unfoldable pub decode_payload : Address → Option Address → Bytes → Decoded
decode_payload addr last src =
    if ltb (length src) 2
    then (ok none, last, src)
    else let payload_len = from_be_bytes (take 2 src) in
      if ltb (length src) (2 + payload_len)
      then (ok none, last, src)
      else (ok (some (take payload_len (drop 2 src), addr)), last, drop payload_len (drop 2 src))

-- Behind the tests of the length and of the type: the metadata, and the rest of the buffer.
unfoldable pub decode_packet : Option Address → Bytes → Bytes → Decoded
unfolding meta_address decode_payload
decode_packet last meta src = elim (meta_address last (byte_at meta 2) (drop 4 meta)) [
  | ok (addr, last') ↦ decode_payload addr last' src
  | err e ↦ (err e, last, src)
]

-- A packet of type 4 is passed over.
unfoldable decode_keep_alive : Option Address → Bytes → Decoded
decode_keep_alive last src =
    let payload_len = from_be_bytes (take 2 src) in
    if ltb (length src) (2 + payload_len)
    then (ok none, last, src)
    else (ok none, last, drop (2 + payload_len) src)

unfoldable decode_type : Option Address → ℕ → Bytes → Decoded
unfolding decode_packet decode_keep_alive
decode_type last meta_len src =
    let packet_type = byte_at src 4 in
    if packet_type == 4
    then decode_keep_alive last (drop meta_len (drop 2 src))
    else if not (packet_type == 1) && not (packet_type == 2)
    then (err invalid_data, last, src)
    else decode_packet last (take meta_len (drop 2 src)) (drop meta_len (drop 2 src))

unfoldable pub decode : Option Address → Bytes → Decoded
unfolding decode_type
decode last src =
    if ltb (length src) 2
    then (ok none, last, src)
    else let meta_len = from_be_bytes (take 2 src) in
      if ltb meta_len 4
      then (err invalid_data, last, src)
      else if ltb (length src) (2 + meta_len + 2)
      then (ok none, last, src)
      else decode_type last meta_len src
