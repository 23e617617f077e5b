-- ===== src/Tests/Vless.antt =====
-- The streams and headers of protocol/vless on concrete inputs.
use rabbit_digger_pro.Address.{socket_at, Address, domain, socket_addr, v4}
use rabbit_digger_pro.Base.{
  ◌≡◌, refl, sym, inr, List, [], ◌∷◌, ◌++◌, Option, some, none, true, false, Bytes, length, arith,
  drop, if◌then◌else◌, ◌==◌, bytes_eq, to_be_bytes,
}
use rabbit_digger_pro.Base.Result.{ok, err, permission_denied, invalid_data}
use rabbit_digger_pro.Base.Utf8.{is_utf8, trim}
use rabbit_digger_pro.Vless.Header.{
  NormalizedFlow, normalize, flow_vision, vless_version, command_tcp, build_request_header,
  read_request, read_request_header,
}
use rabbit_digger_pro.Vless.Header.RoundTrip.{
  target, read_request_header-user, read_request_header-build_request_header,
}
use rabbit_digger_pro.Vless.Prefix
use rabbit_digger_pro.Vless.Prefix.{poll_write, poll_front}
use rabbit_digger_pro.Vless.Prefix.Retry.{retry, retry_first_write}
use rabbit_digger_pro.Vless.Prefix.Twice.{poll_write_twice}
use rabbit_digger_pro.Base.Stream.{Source, bytes, nothing, Sink, ready, pending, room, not_ready}
use rabbit_digger_pro.Vless.Response
use rabbit_digger_pro.Vless.Response.Reading.{reads, reads-new, Before}
use rabbit_digger_pro.Vless.Response.{ResponseHeaderStream}
use rabbit_digger_pro.Vless.Vision.{VisionStream, new, enqueue_write, try_decode_frames}
use rabbit_digger_pro.Vless.Vision.Chunks.{decode_chunks, decode_chunks-try_decode_frames}
use rabbit_digger_pro.Vless.Vision.Frames.{write_all, taken, decode_chunks-write_all}
use rabbit_digger_pro.Vless.Vision.Poll
use rabbit_digger_pro.Vless.Vision.Poll.{Polled, poll_read}
use rabbit_digger_pro.Vless.Vision.Poll.Reading.{decoded, Passes, poll_read-Passes}
use rabbit_digger_pro.Vless.Vision.Poll.Writing.{Puts, to_write, poll_write-Puts}
use rabbit_digger_pro.Vless.Vision.Rounds.{feed}
use rabbit_digger_pro.Vless.Xudp.{Item, decode}
use rabbit_digger_pro.Vless.Xudp.RoundTrip.{
  meta, decode_split, encode_all, decode_all, decode_all-encode_all,
}

-- A flow with blanks around it, an ideographic space among them.
padded_flow :
    normalize (some (32 ∷ (flow_vision ++ (0xe3 ∷ 0x80 ∷ 0x80 ∷ 10 ∷ []))))
    ≡ ok (record { flow = some flow_vision })
unfolding normalize trim
padded_flow = refl

abbrev user : Bytes
user = 1 ∷ 2 ∷ 3 ∷ 4 ∷ 5 ∷ 6 ∷ 7 ∷ 8 ∷ 9 ∷ 10 ∷ 11 ∷ 12 ∷ 13 ∷ 14 ∷ 15 ∷ 16 ∷ []

abbrev vision : NormalizedFlow
vision = record { flow = some flow_vision }

abbrev site : Address
site = domain (b'a' ∷ b'.' ∷ b'b' ∷ []) 443

read_request_header-user_example :
    read_request_header user (0 ∷ ((9 ∷ drop 1 user) ++ 0 ∷ 1 ∷ [])) ≡ (
      if ◌==◌ 0 vless_version
      then (if bytes_eq (9 ∷ drop 1 user) user
          then read_request (0 ∷ 1 ∷ [])
          else err permission_denied)
      else err invalid_data)
read_request_header-user_example =
    read_request_header-user user 0 (9 ∷ drop 1 user) (0 ∷ 1 ∷ []) refl

site_utf8 : is_utf8 (b'a' ∷ b'.' ∷ b'b' ∷ []) ≡ true
unfolding is_utf8
site_utf8 = refl

read_request_header-build_request_header_example :
    (bytes : Bytes) × (build_request_header user vision command_tcp site ≡ ok bytes)
    × ((rest : Bytes)
        → read_request_header user (bytes ++ rest)
          ≡ ok (
            record { command = command_tcp; addr = target command_tcp site; flow = vision },
            rest,
          ))
read_request_header-build_request_header_example =
    read_request_header-build_request_header user vision command_tcp site refl (inr refl)
      (omega arith, omega arith, site_utf8)

abbrev local_host : Address
local_host = socket_addr (socket_at (v4 (127 ∷ 0 ∷ 0 ∷ 1 ∷ [])) 5353)

abbrev two_packets : List Item
two_packets = (b'o' ∷ b'n' ∷ b'e' ∷ [], local_host) ∷ (b't' ∷ b'w' ∷ b'o' ∷ [], local_host) ∷ []

decode_all-encode_all_example :
    (last : Option Address) × (bytes : Bytes) × (encode_all none two_packets []
      ≡ ok (last, [] ++ bytes))
    × (decode_all 2 none (bytes ++ 0 ∷ []) ≡ some (two_packets, last, 0 ∷ []))
decode_all-encode_all_example = decode_all-encode_all none two_packets [] (0 ∷ []) (omega arith)

decode_split_example :
    decode none (
      to_be_bytes 2 (length (meta none local_host))
      ++ (meta none local_host ++ (0 ∷ 3 ∷ b'o' ∷ [])))
    ≡ (ok none, some local_host, 0 ∷ 3 ∷ b'o' ∷ [])
decode_split_example =
    decode_split none (b'o' ∷ b'n' ∷ b'e' ∷ []) (b'o' ∷ []) local_host (omega arith) (omega arith)

abbrev stream : VisionStream
stream = new user none

decode_chunks-try_decode_frames_example :
    (w : VisionStream) × (decode_chunks stream ((1 ∷ 2 ∷ []) ∷ (9 ∷ 4 ∷ []) ∷ []) ≡ some w)
    × (try_decode_frames (feed stream (1 ∷ 2 ∷ 9 ∷ 4 ∷ [])) ≡ some w)
unfolding new
decode_chunks-try_decode_frames_example =
    decode_chunks-try_decode_frames stream (1 ∷ 2 ∷ []) ((9 ∷ 4 ∷ []) ∷ []) refl

-- One frame, of two bytes, behind the user id.
one_frame :
    (write_all stream ((b'h' ∷ b'i' ∷ []) ∷ [])).write_pending
    ≡ user ++ (0 ∷ 0 ∷ 2 ∷ 0 ∷ 0 ∷ b'h' ∷ b'i' ∷ [])
unfolding new enqueue_write
one_frame = refl

decode_chunks-write_all_example :
    (w : VisionStream) × (decode_chunks
        (new user (some false))
        ((user ++ 0 ∷ []) ∷ (0 ∷ 2 ∷ 0 ∷ 0 ∷ b'h' ∷ b'i' ∷ []) ∷ [])
      ≡ some w)
    × (w.read_pending ≡ taken stream ((b'h' ∷ b'i' ∷ []) ∷ []))
decode_chunks-write_all_example =
    decode_chunks-write_all user none (some false) ((b'h' ∷ b'i' ∷ []) ∷ []) (user ++ 0 ∷ [])
      ((0 ∷ 2 ∷ 0 ∷ 0 ∷ b'h' ∷ b'i' ∷ []) ∷ []) refl (sym one_frame)

abbrev slow : Sink
slow = record { sent = []; accepts = room 1 ∷ not_ready ∷ room 2 ∷ room 9 ∷ [] }

retry_first_write_example :
    let (polled, p) = retry 4 (Prefix.new slow (b'h' ∷ [])) (b'a' ∷ b'b' ∷ []) in
    (polled ≡ ready 2)
    × (p.inner.sent ≡ b'h' ∷ b'a' ∷ b'b' ∷ [])
    × (p.unsent ≡ [])
    × (p.prefix_sent ≡ true)
retry_first_write_example =
    retry_first_write slow (b'h' ∷ []) (b'a' ∷ b'b' ∷ []) (omega arith)
      ((λ e. cc), ((λ e. cc), ((λ e. cc), ((λ e. cc), tt)))) (omega arith)

poll_write_twice_example :
    let sink : Sink = record { sent = []; accepts = room 1 ∷ room 3 ∷ room 3 ∷ [] } in
    let (first, p) = poll_write (Prefix.new sink (b'h' ∷ [])) (b'a' ∷ b'b' ∷ []) in
    let (front, q) = poll_front p in
    let (again, r) = poll_write q (b'a' ∷ b'b' ∷ []) in
    (first ≡ pending)
    × (front ≡ ready tt)
    × (again ≡ ready 2)
    × (r.inner.sent ≡ b'h' ∷ b'a' ∷ b'b' ∷ b'a' ∷ b'b' ∷ [])
poll_write_twice_example =
    poll_write_twice [] (b'h' ∷ []) (b'a' ∷ b'b' ∷ []) 1 (omega arith) (omega arith)

abbrev one_piece : Source
one_piece = bytes (user ++ (0 ∷ 0 ∷ 2 ∷ 0 ∷ 0 ∷ b'h' ∷ [])) ∷ bytes (b'i' ∷ []) ∷ []

poll_read-Passes_example :
    (x : Polled) × (poll_read 24 stream one_piece 2 ≡ some x) × Passes (decoded stream one_piece) x
unfolding new
poll_read-Passes_example =
    poll_read-Passes stream one_piece 2 (record { sixteen = refl; settled = λ e. refl })

poll_write-Puts_example :
    Puts
      (slow.sent ++ to_write stream (b'h' ∷ b'i' ∷ []))
      (Poll.poll_write stream slow (b'h' ∷ b'i' ∷ []))
poll_write-Puts_example = poll_write-Puts stream slow (b'h' ∷ b'i' ∷ [])

-- A header with two bytes behind it, in three pieces.
abbrev pieces : Source
pieces = bytes (0 ∷ []) ∷ nothing ∷ bytes (2 ∷ 7 ∷ []) ∷ bytes (8 ∷ b'h' ∷ b'i' ∷ []) ∷ []

reads-new_example :
    (got : Bytes) × (left : Bytes) × (st : ResponseHeaderStream) × (later : Source) × (reads
        (4 ∷ 1 ∷ 1 ∷ [])
        Response.new
        pieces
      ≡ some (got, st, later))
    × (got ++ left ≡ b'h' ∷ b'i' ∷ [])
    × Before st later left
reads-new_example =
    reads-new (4 ∷ 1 ∷ 1 ∷ []) pieces 2 (7 ∷ 8 ∷ []) (b'h' ∷ b'i' ∷ []) (omega arith) refl refl
      (tt, (tt, (tt, (tt, tt))))
