-- ===== src/Hysteria/Udp/Delivery.antt =====
-- What `recv_loop` does with the datagrams of one packet that come in order.
use rabbit_digger_pro.Address.{SocketAddr}
use rabbit_digger_pro.Base.{
  ℕ, suc, ◌+◌, ◌^◌, ◌<◌, ◌≤◌, ◌≡◌, refl, ap, ◌∙◌, List, [], ◌∷◌, ◌++◌, Option, none, some, Bytes,
  arith, length, get_elem?, set, replicate, min, map, append_assoc, append-nil, length-append,
  le→leb, leb, ◌==◌, true, false,
}
use rabbit_digger_pro.Base.Map
use rabbit_digger_pro.Base.Map.{nat_key, pair_key}
use rabbit_digger_pro.Hysteria.Udp.Wire.{Packet, encode_datagram}
use rabbit_digger_pro.Hysteria.Udp.Wire.RoundTrip.{Fits, parse-encode_datagram}
use rabbit_digger_pro.Hysteria.Udp.Send.Slices.{joined, IsRun}
use rabbit_digger_pro.Hysteria.Udp.Receive.{
  Reassembly, RecvState, IncomingPacket, is_expired, prune_reassembly, new_reassembly, fill_slot,
  join_frags, add_fragment, receive, receive_pruned, recv_datagram, to_incoming,
  reassembly_max_entries,
}
use rabbit_digger_pro.Hysteria.Udp.Receive.Joining.{concat}
use rabbit_digger_pro.Hysteria.Udp.Receive.Waiting.{Holds, entry_of, prune-Holds, receive-Holds}

unfoldable pub push_out : Option IncomingPacket → List IncomingPacket → List IncomingPacket
push_out none ps = ps
push_out (some p) ps = p ∷ ps

-- What is sent on while datagrams come in within one reading of the clock.
unfoldable pub recv_all : ℕ → RecvState → List Bytes → List IncomingPacket
unfolding push_out
recv_all now st [] = []
recv_all now st (d ∷ ds) =
    let (st', out) = recv_datagram now st d in push_out out (recv_all now st' ds)

-- The entry of a packet whose first fragments have come.
abbrev progress : ℕ → List Bytes → ℕ → Reassembly
progress now done left = record {
  frag_count = length done + left;
  frags = map some done ++ replicate left none;
  received = length done;
  created_at = now;
}

next_slot :
    (done : List Bytes) (left : ℕ)
    → get_elem? (map some done ++ replicate (suc left) none) (length done) ≡ some none
next_slot [] left = refl
next_slot (d ∷ done) left = next_slot done left

set_next :
    (done : List Bytes) (left : ℕ) (b : Bytes)
    → set (map some done ++ replicate (suc left) none) (length done) (some b)
      ≡ map some (done ++ b ∷ []) ++ replicate left none
set_next [] left b = refl
set_next (d ∷ done) left b = ap (◌∷◌ (some d)) (set_next done left b)

length-snoc : (done : List Bytes) (b : Bytes) → length (done ++ b ∷ []) ≡ suc (length done)
length-snoc done b = omega (arith, length-append done (b ∷ []))

fill_next :
    (now : ℕ) (done : List Bytes) (left : ℕ) (b : Bytes)
    → length done + suc left ≤ 255
    → fill_slot (progress now done (suc left)) (length done) b ≡ progress now (done ++ b ∷ []) left
unfolding fill_slot
fill_next now done left b few =
    let size = length-snoc done b in
    let count : length done + suc left ≡ length (done ++ b ∷ []) + left = omega arith in
    let more : min 255 (length done + 1) ≡ length (done ++ b ∷ []) = omega arith in
    rw (next_slot done left, fill_slot) (rw (set_next done left b, more, count))

join_done : (done : List Bytes) → join_frags (map some done ++ replicate 0 none) ≡ concat done
unfolding join_frags
join_done [] = refl
join_done (d ∷ done) = ap (◌++◌ d) (join_done done)

concat-snoc : (done : List Bytes) (b : Bytes) → concat (done ++ b ∷ []) ≡ concat done ++ b
concat-snoc [] b = append-nil b
concat-snoc (d ∷ done) b = rw (concat-snoc done b, append_assoc)

-- The next fragment, when more are to come, and the last one.
add_next :
    (now : ℕ) (done : List Bytes) (left : ℕ) (p : Packet)
    → length done + suc (suc left) ≤ 255
    → p.frag_id ≡ length done
    → p.frag_count ≡ length done + suc (suc left)
    → add_fragment now (progress now done (suc (suc left))) p
      ≡ (some (progress now (done ++ p.payload ∷ []) (suc left)), none)
unfolding add_fragment
add_next now done left p few own count =
    let filled = fill_next now done (suc left) p.payload few in
    let size = length-snoc done p.payload in
    let other : (length (done ++ p.payload ∷ []) == length done + suc (suc left)) ≡ false =
      ground arith in
    let young : is_expired now (progress now done (suc (suc left))) ≡ false = ground arith in
    let low : leb (length done + suc (suc left)) (length done) ≡ false = ground arith in
    let same : (length done + suc (suc left) == length done + suc (suc left)) ≡ true =
      ground arith in
    rw (count, own) (rw (same, young, low) (rw filled (rw other)))

add_last :
    (now : ℕ) (done : List Bytes) (p : Packet)
    → length done + 1 ≤ 255
    → p.frag_id ≡ length done
    → p.frag_count ≡ length done + 1
    → add_fragment now (progress now done 1) p ≡ (none, some (concat (done ++ p.payload ∷ [])))
unfolding add_fragment
add_last now done p few own count =
    let filled = fill_next now done 0 p.payload few in
    let size = length-snoc done p.payload in
    let complete : (length (done ++ p.payload ∷ []) == length done + 1) ≡ true = ground arith in
    let young : is_expired now (progress now done 1) ≡ false = ground arith in
    let low : leb (length done + 1) (length done) ≡ false = ground arith in
    let same : (length done + 1 == length done + 1) ≡ true = ground arith in
    rw (count, own)
      (rw (same, young, low) (rw filled (rw complete (rw (join_done (done ++ p.payload ∷ []))))))

-- One datagram on its way: what the receiver does with the packet that it encodes.
pub recv_encoded :
    (now : ℕ) (st : RecvState) (p : Packet)
    → Fits p
    → recv_datagram now st (encode_datagram p) ≡ receive now st p
unfolding recv_datagram
recv_encoded now st p f = rw (parse-encode_datagram p f, recv_datagram)

-- What one fragment does when it comes in, given what it does to its entry.
recv_step :
    (now : ℕ) (peer : SocketAddr) (st : RecvState) (p : Packet) (o e' : Option Reassembly)
    (whole : Option Bytes)
    → Fits p
    → 1 < p.frag_count
    → Map.lookup p.session_id st.id_to_peer ≡ some peer
    → Holds now (p.session_id, p.packet_id) o st.reassembly
    → add_fragment now (entry_of now p.frag_count o) p ≡ (e', whole)
    → ((e : Reassembly) → e' ≡ some e → e.created_at ≡ now)
    → (st' : RecvState) × (recv_datagram now st (encode_datagram p) ≡ (st', to_incoming peer whole))
      × (Map.lookup p.session_id st'.id_to_peer ≡ some peer)
      × Holds now (p.session_id, p.packet_id) e' st'.reassembly
recv_step now peer st p o e' whole fits several known h added made =
    let (sent, peers, held) = receive-Holds now st p peer o known several h e' whole added made in
    ((receive now st p).0, rw (recv_encoded now st p fits) (rw (← sent) refl), rw peers known, held)

unfoldable pub OfRun : Bytes → ℕ → ℕ → ℕ → ℕ → Packet → Type 0
OfRun address sid pid count from p =
    (p.session_id ≡ sid)
    × (p.packet_id ≡ pid)
    × (p.frag_id ≡ from)
    × (p.frag_count ≡ count)
    × (p.address ≡ address)

pub run-Fits :
    (address : Bytes) (sid pid count : ℕ)
    → sid < 2 ^ 32
    → pid < 2 ^ 16
    → length address < 2 ^ 62
    → count ≤ 255
    → (from : ℕ) (p : Packet) → OfRun address sid pid count from p
    → from < count
    → Fits p
unfolding OfRun
run-Fits address sid pid count b₁ b₂ b₃ few from p (s, k, f, c, a) low = record {
  session = omega arith;
  packet = omega arith;
  frag = omega arith;
  count = omega arith;
  address = rw a b₃;
}

recv_run :
    (now : ℕ) (peer : SocketAddr) (address : Bytes) (sid pid count : ℕ)
    → sid < 2 ^ 32
    → pid < 2 ^ 16
    → length address < 2 ^ 62
    → 1 < count
    → count ≤ 255
    → (st : RecvState) (done : List Bytes) (p : Packet) (ps : List Packet) (o : Option Reassembly)
    → IsRun address sid pid count (length done) (p ∷ ps)
    → count ≡ length done + length (p ∷ ps)
    → Map.lookup sid st.id_to_peer ≡ some peer
    → Holds now (sid, pid) o st.reassembly
    → entry_of now count o ≡ progress now done (length (p ∷ ps))
    → recv_all now st (map encode_datagram (p ∷ ps))
      ≡ record { peer = peer; payload = concat done ++ joined (p ∷ ps) } ∷ []
unfolding recv_all OfRun
recv_run now peer address sid pid count b₁ b₂ b₃ several few st done p [] o ((s, k, f, c, a), run)
      size known h entry =
    let fits : Fits p =
      run-Fits address sid pid count b₁ b₂ b₃ few (length done) p (s, k, f, c, a) (omega arith) in
    let entry' : entry_of now p.frag_count o ≡ progress now done 1 =
      ap (λ n. entry_of now n o) c ∙ entry in
    let last = add_last now done p (omega arith) f (omega arith) in
    let added : add_fragment now (entry_of now p.frag_count o) p
        ≡ (none, some (concat (done ++ p.payload ∷ []))) =
      rw entry' last in
    let (st', here, _, _) =
      recv_step now peer st p o none (some (concat (done ++ p.payload ∷ []))) fits (omega arith)
        (rw s known) (rw (s, k) h) added (λ e no. absurd (ground arith)) in
    rw (here, recv_all) (rw (concat-snoc done p.payload, append-nil p.payload))
recv_run now peer address sid pid count b₁ b₂ b₃ several few st done p (q ∷ qs) o
      ((s, k, f, c, a), run) size known h entry =
    let fits : Fits p =
      run-Fits address sid pid count b₁ b₂ b₃ few (length done) p (s, k, f, c, a) (omega arith) in
    let done' = done ++ p.payload ∷ [] in
    let e' = progress now done' (suc (length qs)) in
    let entry' : entry_of now p.frag_count o ≡ progress now done (suc (suc (length qs))) =
      ap (λ n. entry_of now n o) c ∙ entry in
    let added : add_fragment now (entry_of now p.frag_count o) p ≡ (some e', none) =
      rw entry' (add_next now done (length qs) p (omega arith) f (omega arith)) in
    let (st', here, known', h') =
      recv_step now peer st p o (some e') none fits (omega arith) (rw s known) (rw (s, k) h) added
        (λ e same. ground arith) in
    let longer = length-snoc done p.payload in
    let index : length done' ≡ length done + 1 = omega arith in
    let rest =
      recv_run now peer address sid pid count b₁ b₂ b₃ several few st' done' q qs (some e')
        (rw index run) (omega arith) (rw (← s) known') (rw (← s, ← k) h') refl in
    rw (here, recv_all) (rw rest (rw (concat-snoc done p.payload, append_assoc)))

-- A packet of one fragment is sent on at once.
recv_single :
    (now : ℕ) (peer : SocketAddr) (st : RecvState) (p : Packet) (o : Option Reassembly)
    (key : ℕ × ℕ)
    → Fits p
    → p.frag_count ≤ 1
    → Map.lookup p.session_id st.id_to_peer ≡ some peer
    → Holds now key o st.reassembly
    → (recv_datagram now st (encode_datagram p)).1
      ≡ some (record { peer = peer; payload = p.payload })
unfolding receive receive_pruned
recv_single now peer st p o key fits single known h =
    let (kept, peers) = prune-Holds now key o st h in
    let known' : Map.lookup p.session_id (prune_reassembly now st).id_to_peer ≡ some peer =
      rw peers known in
    rw (recv_encoded now st p fits)
      (rw (known', receive, receive_pruned) (rw (le→leb p.frag_count 1 single)))

pub recv_packets :
    (now : ℕ) (peer : SocketAddr) (address : Bytes) (sid pid : ℕ)
    → sid < 2 ^ 32
    → pid < 2 ^ 16
    → length address < 2 ^ 62
    → (st : RecvState) (ps : List Packet) → IsRun address sid pid (length ps) 0 ps
    → length ps ≤ 255
    → 1 ≤ length ps
    → Map.lookup sid st.id_to_peer ≡ some peer
    → Map.lookup (sid, pid) st.reassembly ≡ none
    → length st.reassembly < reassembly_max_entries
    → recv_all now st (map encode_datagram ps) ≡ record { peer = peer; payload = joined ps } ∷ []
unfolding recv_all OfRun new_reassembly
recv_packets now peer address sid pid b₁ b₂ b₃ st [] run few some_ known absent room =
    absurd (omega arith)
recv_packets now peer address sid pid b₁ b₂ b₃ st (p ∷ []) ((s, k, f, c, a), run) few some_ known
      absent room =
    let fits : Fits p = run-Fits address sid pid 1 b₁ b₂ b₃ few 0 p (s, k, f, c, a) (omega arith) in
    let here =
      recv_single now peer st p none (sid, pid) fits (omega arith) (rw s known) (absent, room) in
    rw (here, recv_all) (rw (append-nil p.payload))
recv_packets now peer address sid pid b₁ b₂ b₃ st (p ∷ q ∷ ps) run few some_ known absent room =
    let count = suc (suc (length ps)) in
    recv_run now peer address sid pid count b₁ b₂ b₃ (omega arith) few st [] p (q ∷ ps) none run
      (omega arith) known (absent, room)
      (ap
        (λ n. record {
          frag_count = n;
          frags = replicate count none;
          received = 0;
          created_at = now;
        })
        (omega arith))
