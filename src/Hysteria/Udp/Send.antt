-- ===== src/Hysteria/Udp/Send.antt =====
-- `poll_send_to` of protocol/hysteria/src/udp.rs: a payload is cut into fragments.
pub mod Slices
use rabbit_digger_pro.Base.{
  ℕ, zero, suc, ◌+◌, ◌-◌, ◌*◌, ◌/◌, ◌%◌, List, [], ◌∷◌, ◌++◌, Option, none, some, Bytes, Bool, true,
  false, ◌&&◌, ltb, leb, ◌==◌, if◌then◌else◌, length, take, drop, get_elem?, set, replicate, min,
  to_be_bytes, from_be_bytes,
}
use rabbit_digger_pro.Hysteria.Codec.{varint_len}
use rabbit_digger_pro.Hysteria.Udp.Wire.{Packet, encode_datagram}

pub data SendError : Type 0 where
  size_too_small payload_too_large : SendError

pub data SendResult : Type 0 where
  ok : List Bytes → SendResult
  err : SendError → SendResult

unfoldable pub header_len : Bytes → ℕ
header_len address = 4 + 2 + 1 + 1 + varint_len (length address) + length address

unfoldable pub frag_count_of : ℕ → ℕ → ℕ
frag_count_of per_frag len =
    let count = (len + per_frag - 1) / per_frag in if ltb count 1 then 1 else count

-- `buf[start..end]` of the fragment.
unfoldable pub frag_payload : ℕ → Bytes → ℕ → Bytes
frag_payload per_frag buf frag_id =
    let start = frag_id * per_frag in
    let end = min ((frag_id + 1) * per_frag) (length buf) in take (end - start) (drop start buf)

-- `for frag_id in from..`, `left` rounds.
unfoldable pub datagrams_from : Packet → ℕ → Bytes → ℕ → ℕ → List Bytes
unfolding encode_datagram frag_payload
datagrams_from p per_frag buf from zero = []
datagrams_from p per_frag buf from (suc left) =
    encode_datagram (record p { frag_id = from; payload = frag_payload per_frag buf from })
    ∷ datagrams_from p per_frag buf (from + 1) left

-- `poll_send_to` on a session that is ready, behind the choice of its packet id: the datagrams
-- that it sends. `limit` is the size of the largest datagram.
unfoldable pub fragment : ℕ → ℕ → ℕ → Bytes → Bytes → SendResult
fragment limit session_id packet_id address buf =
    if leb limit (header_len address)
    then err size_too_small
    else let per_frag = limit - header_len address in
      let count = frag_count_of per_frag (length buf) in
      if ltb 255 count
      then err payload_too_large
      else ok (
          datagrams_from
            (record {
              session_id = session_id;
              packet_id = packet_id;
              frag_id = 0;
              frag_count = count;
              address = address;
              payload = [];
            })
            per_frag buf 0 count)
