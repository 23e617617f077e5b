-- ===== src/Tests/Hysteria.antt =====
-- The Hysteria 2 messages and datagrams of protocol/hysteria on concrete inputs.
use rabbit_digger_pro.Address.{socket_at, v4, SocketAddr, Address, domain, to_string, to_normalized}
use rabbit_digger_pro.Base.{
  ◌<◌, ◌≤◌, ◌≡◌, refl, List, ◌∷◌, [], ◌++◌, some, none, Bool, true, Bytes, All, arith, length, drop,
  ◌==◌, if◌then◌else◌, ltb, ◌&&◌, map,
}
use mathlib.Core.Option
use rabbit_digger_pro.Base.Map
use rabbit_digger_pro.Base.Map.{nat_key, pair_key}
use rabbit_digger_pro.Base.Decimal.{u16_to_string}
use rabbit_digger_pro.Base.Utf8
use rabbit_digger_pro.Base.Utf8.{from_utf8_lossy}
use rabbit_digger_pro.Hysteria.Codec.{write_varint, decode_varint, read_quic_varint, varint_len}
use rabbit_digger_pro.Hysteria.Codec.Varint.{read_quic_varint-decode}
use rabbit_digger_pro.Hysteria.Messages
use rabbit_digger_pro.Hysteria.Messages.{
  Result, remote, read_tcp_request, write_tcp_request_with_padding, read_tcp_response,
  write_tcp_response, discard_padding,
}
use rabbit_digger_pro.Hysteria.Messages.RoundTrip.{read-write_tcp_request, read-write_tcp_response}
use rabbit_digger_pro.Hysteria.Udp.Wire.{Packet, encode_datagram, parse_datagram}
use rabbit_digger_pro.Hysteria.Udp.Wire.RoundTrip.{parse-encode_datagram}
use rabbit_digger_pro.Hysteria.Udp.Send
use rabbit_digger_pro.Hysteria.Udp.Send.{fragment}
use rabbit_digger_pro.Hysteria.Udp.Send.Slices.{IsRun, joined, fragment_sound}
use rabbit_digger_pro.Hysteria.Udp.Receive.{Reassembly, RecvState, add_fragment}
use rabbit_digger_pro.Hysteria.Udp.Receive.Joining.{concat, IsPartial, add_fragment_sound}
use rabbit_digger_pro.Hysteria.Udp.Server.{
  UdpState, Noted, server_add_fragment, server_receive, server_add_fragment-add_fragment,
  server_receive-address,
}
use rabbit_digger_pro.Hysteria.Udp.Delivery.{recv_all}
use rabbit_digger_pro.Hysteria.Udp.Reply.{reply_datagrams, reply_per_frag, recv_all-reply_datagrams}
use rabbit_digger_pro.Tests.Text.{stroke_text}

-- The sample of RFC 9000, appendix A.1.
sample : write_varint [] 494878333 ≡ 0x9d ∷ 0x7f ∷ 0x3e ∷ 0x7d ∷ []
unfolding write_varint
sample = refl

read_quic_varint-decode_example :
    read_quic_varint (0x7b ∷ 0xbd ∷ 1 ∷ [])
    ≡ Option.map
        (λ r. (r.0, drop r.1 (0x7b ∷ 0xbd ∷ 1 ∷ [])))
        (decode_varint (0x7b ∷ 0xbd ∷ 1 ∷ []))
read_quic_varint-decode_example = read_quic_varint-decode 0x7b (0xbd ∷ 1 ∷ []) (omega arith)

two_bytes : decode_varint (0x7b ∷ 0xbd ∷ []) ≡ some (15293, 2)
unfolding decode_varint
two_bytes = refl

abbrev two : Bytes
two = 0x7b ∷ 0xbd ∷ []

ascii : Bytes → Bool
ascii [] = true
ascii (c ∷ cs) = ltb c 128 && ascii cs

abbrev target : Address
target = domain (b'a' ∷ b'.' ∷ b'b' ∷ []) 80

to_string-target : to_string stroke_text target ≡ b'a' ∷ b'.' ∷ b'b' ∷ b':' ∷ b'8' ∷ b'0' ∷ []
unfolding to_string u16_to_string
to_string-target = refl

ascii-target : ascii (to_string stroke_text target) ≡ true
unfolding ascii to_string u16_to_string
ascii-target = refl

target-length :
    (0 < length (to_string stroke_text target)) × (length (to_string stroke_text target) ≤ 1024)
target-length = rw to_string-target (omega arith, omega arith)

read-write_tcp_request_example :
    read_tcp_request stroke_text ascii
      (write_tcp_request_with_padding stroke_text [] target (b'x' ∷ b'y' ∷ []) ++ b'!' ∷ [])
    ≡ Messages.ok (to_normalized stroke_text target, b'!' ∷ [])
read-write_tcp_request_example =
    read-write_tcp_request stroke_text ascii target (b'x' ∷ b'y' ∷ []) (b'!' ∷ []) (omega arith)
      target-length.0 target-length.1 ascii-target (omega arith)

-- A byte that begins no character, and a character that is cut short.
lossy :
    from_utf8_lossy (b'a' ∷ 0xff ∷ 0xe2 ∷ 0x82 ∷ b'b' ∷ [])
    ≡ b'a' ∷ 0xef ∷ 0xbf ∷ 0xbd ∷ 0xef ∷ 0xbf ∷ 0xbd ∷ b'b' ∷ []
unfolding from_utf8_lossy
lossy = refl

read-write_tcp_response_example :
    (read_tcp_response (write_tcp_response [] 0x01 (b'n' ∷ b'o' ∷ []) (b'x' ∷ []) ++ b'!' ∷ []) ≡ (
      if 0x01 == 0x00
      then Messages.ok (b'!' ∷ [])
      else Messages.err (remote (from_utf8_lossy (b'n' ∷ b'o' ∷ [])))))
    × (Utf8.is_utf8 (b'n' ∷ b'o' ∷ []) ≡ true
        → from_utf8_lossy (b'n' ∷ b'o' ∷ []) ≡ b'n' ∷ b'o' ∷ [])
read-write_tcp_response_example =
    read-write_tcp_response 0x01 (b'n' ∷ b'o' ∷ []) (b'x' ∷ []) (b'!' ∷ []) (omega arith)
      (omega arith)

abbrev padding : Bytes
padding = b'x' ∷ b'y' ∷ []

abbrev second : Packet
second = record {
  session_id = 7;
  packet_id = 9;
  frag_id = 1;
  frag_count = 2;
  address = b'h' ∷ [];
  payload = b'd' ∷ b'o' ∷ [];
}

parse-encode_datagram_example : parse_datagram (encode_datagram second) ≡ some second
parse-encode_datagram_example = parse-encode_datagram second (record {
  session = omega arith;
  packet = omega arith;
  frag = omega arith;
  count = omega arith;
  address = omega arith;
})

abbrev payload : Bytes
payload = 1 ∷ 2 ∷ 3 ∷ 4 ∷ 5 ∷ []

-- A datagram of 13 bytes has room for three bytes of payload beside this address.
abbrev datagrams : List Bytes
datagrams =
    (0 ∷ 0 ∷ 0 ∷ 7 ∷ 0 ∷ 9 ∷ 0 ∷ 2 ∷ 1 ∷ b'h' ∷ 1 ∷ 2 ∷ 3 ∷ [])
    ∷ (0 ∷ 0 ∷ 0 ∷ 7 ∷ 0 ∷ 9 ∷ 1 ∷ 2 ∷ 1 ∷ b'h' ∷ 4 ∷ 5 ∷ [])
    ∷ []

sent : fragment 13 7 9 (b'h' ∷ []) payload ≡ Send.ok datagrams
unfolding fragment Send.header_len varint_len Send.frag_count_of Send.datagrams_from write_varint
sent = refl

fragment_sound_example :
    (ps : List Packet) × (datagrams ≡ map encode_datagram ps)
    × IsRun (b'h' ∷ []) 7 9 (length ps) 0 ps
    × (joined ps ≡ payload)
    × All (λ q. length (encode_datagram q) ≤ 13) ps
    × (1 ≤ length ps)
    × (length ps ≤ 255)
fragment_sound_example = fragment_sound 13 7 9 (b'h' ∷ []) payload sent

abbrev parts : List Bytes
parts = (b'u' ∷ []) ∷ (b'd' ∷ b'o' ∷ []) ∷ []

abbrev first_in : Reassembly
first_in = record {
  frag_count = 2;
  frags = some (b'u' ∷ []) ∷ none ∷ [];
  received = 1;
  created_at = 5;
}

add_fragment_sound_example :
    ((e' : Reassembly) → (add_fragment 5 first_in second).0 ≡ some e' → IsPartial parts e')
    × ((whole : Bytes) → (add_fragment 5 first_in second).1 ≡ some whole → whole ≡ concat parts)
add_fragment_sound_example =
    add_fragment_sound 5 parts first_in second (omega arith) refl (λ _. refl)
      (record { count = refl; slots = (refl, tt); counted = refl })

abbrev peer : SocketAddr
peer = socket_at (v4 (10 ∷ 0 ∷ 0 ∷ 1 ∷ [])) 53

abbrev listening : RecvState
listening = record { id_to_peer = (7, peer) ∷ []; reassembly = []; last_prune = 0 }

abbrev waiting : UdpState
waiting = record {
  sessions = (7, 1) ∷ (8, 2) ∷ [];
  id_to_addr = (7, b'g' ∷ []) ∷ [];
  reassembly = [];
  last_prune = 0;
}

-- Three bytes of payload fit beside the text of `target`.
abbrev forwarded : List Bytes
forwarded =
    (0 ∷ 0 ∷ 0 ∷ 7 ∷ 0 ∷ 9 ∷ 0 ∷ 2 ∷ 6 ∷ b'a' ∷ b'.' ∷ b'b' ∷ b':' ∷ b'8' ∷ b'0' ∷ 1 ∷ 2 ∷ 3 ∷ [])
    ∷ (0 ∷ 0 ∷ 0 ∷ 7 ∷ 0 ∷ 9 ∷ 1 ∷ 2 ∷ 6 ∷ b'a' ∷ b'.' ∷ b'b' ∷ b':' ∷ b'8' ∷ b'0' ∷ 4 ∷ 5 ∷ [])
    ∷ []

one_or_two : Send.frag_count_of (reply_per_frag 13 (b'h' ∷ [])) 5 ≤ 255
unfolding Send.frag_count_of reply_per_frag Send.header_len varint_len
one_or_two = omega arith

recv_all-reply_datagrams_example :
    recv_all 100 listening (reply_datagrams 13 7 9 (b'h' ∷ []) payload)
    ≡ record { peer = peer; payload = payload } ∷ []
unfolding Map.lookup
recv_all-reply_datagrams_example =
    recv_all-reply_datagrams 100 13 7 9 (b'h' ∷ []) payload peer listening one_or_two (omega arith)
      (omega arith) (omega arith) refl refl (omega arith)

server_add_fragment-add_fragment_example :
    (second.frag_id < second.frag_count
      → server_add_fragment 5 first_in second ≡ add_fragment 5 first_in second)
    × (second.frag_count ≤ second.frag_id
        → (server_add_fragment 5 first_in second ≡ (none, none))
          × ((add_fragment 5 first_in second).1 ≡ none))
server_add_fragment-add_fragment_example = server_add_fragment-add_fragment 5 first_in second

server_receive-address_example : Noted 7 (b'h' ∷ []) 8 waiting (server_receive 100 waiting second).0
server_receive-address_example = server_receive-address 100 waiting second 8
