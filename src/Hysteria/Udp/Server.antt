-- ===== src/Hysteria/Udp/Server.antt =====
-- `hy2_udp_loop` and `prune_reassembly` of protocol/hysteria/src/server.rs: the server's receiver. A
-- session is named by a number, for the task that it stands for.
use rabbit_digger_pro.Address.{Address, IpText, into_address}
use rabbit_digger_pro.Base.{
  ℕ, ◌-◌, ◌<◌, ◌≤◌, ◌≡◌, ◌≢◌, refl, ap, ◌∙◌, List, [], Option, none, some, Bytes, Bool, ◌&&◌, ◌||◌,
  not, ltb, leb, ◌==◌, if◌then◌else◌, length, bytes_eq, bytes_eq_iff, arith, Bool-cases,
  Option-cases, inl, inr, lt→leb,
}
use rabbit_digger_pro.Base.Map
use rabbit_digger_pro.Base.Map.{nat_key, pair_key, lookup-insert, lookup-remove, same_self}
use rabbit_digger_pro.Base.Optional.{unwrap_or, ◌>>=◌}
use rabbit_digger_pro.Hysteria.Udp.Receive.{
  Reassembly, is_expired, retain_fresh, new_reassembly, fill_slot, join_frags, add_fragment,
  put_back, reassembly_prune_interval, reassembly_max_entries,
}
use rabbit_digger_pro.Hysteria.Udp.Wire.{Packet, parse_datagram}

pub record UdpState : Type 0 where
  pub sessions : List (ℕ × ℕ)
  pub id_to_addr : List (ℕ × Bytes)
  pub reassembly : List ((ℕ × ℕ) × Reassembly)
  pub last_prune : ℕ

unfoldable pub prune_server : ℕ → UdpState → UdpState
unfolding retain_fresh
prune_server now st =
    if ltb (now - st.last_prune) reassembly_prune_interval
      && ltb (length st.reassembly) reassembly_max_entries
    then st
    else let kept = retain_fresh now st.reassembly in
      record st {
        reassembly = if ltb reassembly_max_entries (length kept) then [] else kept;
        last_prune = now;
      }

-- The address of a session: a new one ends the session of the old one.
unfoldable pub note_address : ℕ → Bytes → UdpState → UdpState
note_address session_id addr_str st = elim (Map.lookup session_id st.id_to_addr) [
  | none ↦ record st { id_to_addr = Map.insert session_id addr_str st.id_to_addr }
  | some old ↦ if bytes_eq old addr_str then st else record st {
    sessions = Map.remove session_id st.sessions;
    id_to_addr = Map.insert session_id addr_str st.id_to_addr;
  }
]

-- What a fragment does to the entry of its packet.
unfoldable pub server_add_fragment : ℕ → Reassembly → Packet → Option Reassembly × Option Bytes
unfolding fill_slot join_frags
server_add_fragment now e p =
    if is_expired now e
    then (none, none)
    else if not (e.frag_count == p.frag_count) || leb p.frag_count p.frag_id
    then (none, none)
    else let e' = fill_slot e p.frag_id p.payload in
      if e'.received == p.frag_count then (none, some (join_frags e'.frags)) else (some e', none)

abbrev pub to_session : ℕ → Option Bytes → Option (ℕ × Bytes)
to_session session_id none = none
to_session session_id (some payload) = some (session_id, payload)

-- The body of the loop behind the head of the datagram: the state, and what is sent to a session's
-- target.
unfoldable pub server_receive : ℕ → UdpState → Packet → UdpState × Option (ℕ × Bytes)
unfolding prune_server note_address new_reassembly server_add_fragment
server_receive now st₀ p =
    let st = note_address p.session_id p.address (prune_server now st₀) in
    if leb p.frag_count 1
    then (st, some (p.session_id, p.payload))
    else let key : ℕ × ℕ = (p.session_id, p.packet_id) in
      let entry = unwrap_or (Map.lookup key st.reassembly) (new_reassembly now p.frag_count) in
      let (kept, whole) = server_add_fragment now entry p in
      (record st { reassembly = put_back key kept st.reassembly }, to_session p.session_id whole)

-- One round of the loop; `is_utf8` is the check of the address.
unfoldable pub server_datagram :
    (Bytes → Bool) → ℕ → UdpState → Bytes → UdpState × Option (ℕ × Bytes)
unfolding parse_datagram server_receive
server_datagram is_utf8 now st d = elim (parse_datagram d) [
  | none ↦ (st, none)
  | some p ↦ if is_utf8 p.address then server_receive now st p else (st, none)
]

-- The target of a task that `udp_send_to_target` starts for a session; `none` is one of its errors.
unfoldable pub session_target : IpText → UdpState → ℕ → Option Address
session_target t st session_id = do
  addr_str ← Map.lookup session_id st.id_to_addr
  into_address t addr_str

-- The server and the client do the same with every fragment whose index is below its count. One
-- whose index is not makes the server drop the entry and send nothing, and sends nothing at the
-- client either.
pub server_add_fragment-add_fragment :
    (now : ℕ) (e : Reassembly) (p : Packet)
    → (p.frag_id < p.frag_count → server_add_fragment now e p ≡ add_fragment now e p)
      × (p.frag_count ≤ p.frag_id
          → (server_add_fragment now e p ≡ (none, none)) × ((add_fragment now e p).1 ≡ none))
unfolding server_add_fragment add_fragment
server_add_fragment-add_fragment now e p =
    ((λ low. ground (arith, lt→leb p.frag_count p.frag_id low)), (λ high. ground arith))

-- What a session stands for once an address was noted for it.
abbrev pub Noted : ℕ → Bytes → ℕ → UdpState → UdpState → Type 0
Noted session_id addr_str id st st' =
    (Map.lookup session_id st'.id_to_addr ≡ some addr_str)
    × ((old : Bytes)
        → Map.lookup session_id st.id_to_addr ≡ some old
        → old ≢ addr_str
        → Map.lookup session_id st'.sessions ≡ none)
    × (Map.lookup session_id st.id_to_addr ≡ some addr_str → st'.sessions ≡ st.sessions)
    × (id ≢ session_id
        → (Map.lookup id st'.id_to_addr ≡ Map.lookup id st.id_to_addr)
          × (Map.lookup id st'.sessions ≡ Map.lookup id st.sessions))

note_address-Noted :
    (session_id : ℕ) (addr_str : Bytes) (id : ℕ) (st : UdpState)
    → Noted session_id addr_str id st (note_address session_id addr_str st)
unfolding note_address
note_address-Noted session_id addr_str id st =
    let same = same_self ⦃e = nat_key⦄ session_id in
    let there = lookup-insert session_id session_id addr_str st.id_to_addr in
    let others = lookup-insert session_id id addr_str st.id_to_addr in
    let gone = lookup-remove session_id session_id st.sessions in
    let kept = lookup-remove session_id id st.sessions in
    elim (Option-cases (Map.lookup session_id st.id_to_addr)) [
      | inl absent ↦ ground (arith, same, there, others, gone, kept)
      | inr (old, was) ↦
          let decide = bytes_eq_iff old addr_str in
          ground (arith, same, there, others, gone, kept, decide)
    ]

prune_server_sessions :
    (now : ℕ) (st : UdpState)
    → ((prune_server now st).sessions ≡ st.sessions)
      × ((prune_server now st).id_to_addr ≡ st.id_to_addr)
unfolding prune_server
prune_server_sessions now st = ground arith

server_receive_noted :
    (now : ℕ) (st : UdpState) (p : Packet)
    → let noted = note_address p.session_id p.address (prune_server now st) in
      ((server_receive now st p).0.sessions ≡ noted.sessions)
      × ((server_receive now st p).0.id_to_addr ≡ noted.id_to_addr)
unfolding server_receive
server_receive_noted now st p = elim (Bool-cases (leb p.frag_count 1)) [
  | inl one ↦ rw (one, server_receive) (refl, refl)
  | inr more ↦ rw (more, server_receive) (refl, refl)
]

-- After a packet, its session stands for the address that the packet carries; if it stood for another
-- before, the session's task is let go, and otherwise it is kept. No other session is touched.
pub server_receive-address :
    (now : ℕ) (st : UdpState) (p : Packet) (id : ℕ)
    → Noted p.session_id p.address id st (server_receive now st p).0
server_receive-address now st p id =
    let (sessions, addrs) = server_receive_noted now st p in
    let (sessions', addrs') = prune_server_sessions now st in
    let (a, b, c, d) = note_address-Noted p.session_id p.address id (prune_server now st) in
    (
      rw addrs a,
      (λ old was differs. rw sessions (b old (rw addrs' was) differs)),
      (λ was. sessions ∙ c (rw addrs' was) ∙ sessions'),
      (λ other.
          let (x, y) = d other in
          (
            ap (Map.lookup id) addrs ∙ x ∙ ap (Map.lookup id) addrs',
            ap (Map.lookup id) sessions ∙ y ∙ ap (Map.lookup id) sessions',
          )),
    )
