-- ===== src/Hysteria/Udp/Wire.antt =====
-- The datagrams of protocol/hysteria/src/udp.rs: built by `poll_send_to`, parsed by `recv_loop`.
pub mod RoundTrip
use rabbit_digger_pro.Base.{
  byte_at, ℕ, zero, suc, ◌+◌, ◌-◌, ◌*◌, ◌/◌, ◌%◌, List, [], ◌∷◌, ◌++◌, Option, none, some, Bytes,
  Bool, true, false, ◌&&◌, ltb, leb, ◌==◌, if◌then◌else◌, length, take, drop, get_elem?, set,
  replicate, min, to_be_bytes, from_be_bytes,
}
use rabbit_digger_pro.Base.Optional.{unwrap_or}
use rabbit_digger_pro.Hysteria.Codec.{varint_len, write_varint, decode_varint}

-- What a datagram carries.
pub record Packet : Type 0 where
  pub session_id : ℕ
  pub packet_id : ℕ
  pub frag_id : ℕ
  pub frag_count : ℕ
  pub address : Bytes
  pub payload : Bytes

-- The datagram that `poll_send_to` builds for one fragment.
unfoldable pub encode_datagram : Packet → Bytes
encode_datagram p =
    let out =
      to_be_bytes 4 p.session_id
      ++ to_be_bytes 2 p.packet_id
      ++ ((p.frag_id % 256) ∷ (p.frag_count % 256) ∷ []) in
    (write_varint out (length p.address) ++ p.address) ++ p.payload

-- The head of `recv_loop`; `none` is a datagram that is passed over.
unfoldable pub parse_datagram : Bytes → Option Packet
parse_datagram d =
    if ltb (length d) (4 + 2 + 1 + 1) then none else elim (decode_varint (drop 8 d)) [
      | none ↦ none
      | some (addr_len, vi_len) ↦
          let rest = drop vi_len (drop 8 d) in
          if ltb (length rest) addr_len
          then none
          else some (record {
            session_id = from_be_bytes (take 4 d);
            packet_id = from_be_bytes (take 2 (drop 4 d));
            frag_id = byte_at d 6;
            frag_count = byte_at d 7;
            address = take addr_len rest;
            payload = drop addr_len rest;
          })
    ]
