-- ===== src/Hysteria/Udp/Reply.antt =====
-- From the server to the client: what `udp_session_loop` of protocol/hysteria/src/server.rs sends,
-- `recv_loop` of udp.rs puts together.
use rabbit_digger_pro.Address.{SocketAddr}
use rabbit_digger_pro.Base.{
  ℕ, ◌+◌, ◌-◌, ◌^◌, ◌<◌, ◌≤◌, ◌≡◌, refl, ap, ◌∙◌, List, [], ◌∷◌, none, some, Bytes, false, arith,
  length, ltb, leb, if◌then◌else◌,
}
use rabbit_digger_pro.Base.Map
use rabbit_digger_pro.Base.Map.{nat_key, pair_key}
use rabbit_digger_pro.Hysteria.Udp.Delivery.{recv_all, recv_packets}
use rabbit_digger_pro.Hysteria.Udp.Receive.{RecvState, reassembly_max_entries}
use rabbit_digger_pro.Hysteria.Udp.Send.{ok, fragment, header_len, frag_count_of, datagrams_from}
use rabbit_digger_pro.Hysteria.Udp.Send.Slices.{fragment_sound}

-- `max.saturating_sub(header_len).max(1)`.
unfoldable pub reply_per_frag : ℕ → Bytes → ℕ
reply_per_frag limit address =
    let room = limit - header_len address in if ltb room 1 then 1 else room

-- The datagrams for what the session's socket has received; none if they would be too many. `limit` is
-- the size of the largest datagram, or 1200.
unfoldable pub reply_datagrams : ℕ → ℕ → ℕ → Bytes → Bytes → List Bytes
unfolding reply_per_frag
reply_datagrams limit session_id packet_id address buf =
    let per_frag = reply_per_frag limit address in
    let count = frag_count_of per_frag (length buf) in
    if ltb 255 count
    then []
    else datagrams_from
        (record {
          session_id = session_id;
          packet_id = packet_id;
          frag_id = 0;
          frag_count = count;
          address = address;
          payload = [];
        })
        per_frag buf 0 count

-- The client would cut it alike, were its limit above the head of a datagram.
reply_datagrams-fragment :
    (limit sid pid : ℕ) (address buf : Bytes)
    → frag_count_of (reply_per_frag limit address) (length buf) ≤ 255
    → fragment (header_len address + reply_per_frag limit address) sid pid address buf
      ≡ ok (reply_datagrams limit sid pid address buf)
unfolding fragment reply_datagrams
reply_datagrams-fragment limit sid pid address buf few =
    let per_frag = reply_per_frag limit address in
    let head = header_len address in
    let cut : head + per_frag - head ≡ per_frag = omega arith in
    let room : leb (head + per_frag) head ≡ false =
      ground (arith, reply_per_frag_pos limit address) in
    let fits : ltb 255 (frag_count_of per_frag (length buf)) ≡ false = ground arith in
    rw (fragment, reply_datagrams, room, cut, fits) refl
  where
    reply_per_frag_pos : (limit : ℕ) (address : Bytes) → 0 < reply_per_frag limit address
    reply_per_frag_pos limit address = unfold reply_per_frag in ground arith

-- What the socket of a session receives at the server comes to the client whole and once, from the
-- peer that the session stands for there: at most 255 fragments come in in order within one reading of
-- the clock, no fragment of that session and packet id waits, and fewer than 2048 packets wait.
pub recv_all-reply_datagrams :
    (now limit sid pid : ℕ) (address buf : Bytes) (peer : SocketAddr) (st : RecvState)
    → frag_count_of (reply_per_frag limit address) (length buf) ≤ 255
    → sid < 2 ^ 32
    → pid < 2 ^ 16
    → length address < 2 ^ 62
    → Map.lookup sid st.id_to_peer ≡ some peer
    → Map.lookup (sid, pid) st.reassembly ≡ none
    → length st.reassembly < reassembly_max_entries
    → recv_all now st (reply_datagrams limit sid pid address buf)
      ≡ record { peer = peer; payload = buf } ∷ []
recv_all-reply_datagrams now limit sid pid address buf peer st few b₁ b₂ b₃ known absent room =
    let (ps, coded, run, whole, _, some_, few') =
      fragment_sound (header_len address + reply_per_frag limit address) sid pid address buf
        (reply_datagrams-fragment limit sid pid address buf few) in
    rw coded (
      recv_packets now peer address sid pid b₁ b₂ b₃ st ps run few' some_ known absent room
      ∙ ap (λ b. record { peer = peer; payload = b } ∷ []) whole)
