-- ===== src/Hysteria/Udp/Wire/RoundTrip.antt =====
-- A datagram is parsed to the packet that it was built from.
use rabbit_digger_pro.Base.{
  ◌%◌, ◌^◌, ◌<◌, ◌≡◌, [], ◌∷◌, ◌++◌, some, Bytes, arith, append_assoc, length, drop, length-append,
  take-length_append, drop-length_append, to_be_bytes, from_be-to_be,
}
use rabbit_digger_pro.Hysteria.Codec.{varint_len, write_varint}
use rabbit_digger_pro.Hysteria.Codec.Varint.{
  write_varint-append, decode-write_varint, length-write_varint,
}
use rabbit_digger_pro.Hysteria.Udp.Wire.{Packet, encode_datagram, parse_datagram}

-- The fields of a packet fit the header.
pub record Fits (p : Packet) : Type 0 where
  pub session : p.session_id < 2 ^ 32
  pub packet : p.packet_id < 2 ^ 16
  pub frag : p.frag_id < 256
  pub count : p.frag_count < 256
  pub address : length p.address < 2 ^ 62

abbrev head : Packet → Bytes
head p =
    to_be_bytes 4 p.session_id
    ++ to_be_bytes 2 p.packet_id
    ++ ((p.frag_id % 256) ∷ (p.frag_count % 256) ∷ [])

pub encode_layout :
    (p : Packet)
    → encode_datagram p ≡ head p ++ (write_varint [] (length p.address) ++ (p.address ++ p.payload))
unfolding encode_datagram
encode_layout p = simp (write_varint-append (head p) (length p.address), append_assoc)

parse_body :
    (p : Packet)
    → Fits p
    → parse_datagram (head p ++ (write_varint [] (length p.address) ++ (p.address ++ p.payload)))
      ≡ some p
unfolding parse_datagram
parse_body p f =
    let size = write_varint [] (length p.address) in
    let tail = p.address ++ p.payload in
    let dropped : drop (varint_len (length p.address)) (size ++ tail) ≡ tail =
      rw (← length-write_varint (length p.address)) (drop-length_append size tail) in
    ground (
      arith,
      decode-write_varint (length p.address) tail f.address,
      dropped,
      length-append p.address p.payload,
      take-length_append p.address p.payload,
      drop-length_append p.address p.payload,
      from_be-to_be 4 p.session_id f.session,
      from_be-to_be 2 p.packet_id f.packet,
    )

-- A packet whose fields fit is read back from its datagram.
pub parse-encode_datagram : (p : Packet) → Fits p → parse_datagram (encode_datagram p) ≡ some p
parse-encode_datagram p f = rw (encode_layout p) (parse_body p f)
