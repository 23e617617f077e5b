-- ===== src/Hysteria/Udp/Receive.antt =====
-- `recv_loop` and `prune_reassembly` of protocol/hysteria/src/udp.rs: fragments are put together.
-- Instants are milliseconds; the two readings of the clock in one round are one value, and
-- `duration_since` is 0 where it would be negative.
pub mod Joining
pub mod Waiting
use rabbit_digger_pro.Address.{SocketAddr}
use rabbit_digger_pro.Base.{
  ℕ, zero, suc, ◌+◌, ◌-◌, ◌*◌, ◌/◌, ◌%◌, List, [], ◌∷◌, ◌++◌, Option, none, some, Bytes, Bool, true,
  false, ◌&&◌, not, ltb, leb, ◌==◌, if◌then◌else◌, length, take, drop, get_elem?, set, replicate,
  min, to_be_bytes, from_be_bytes,
}
use rabbit_digger_pro.Base.Map
use rabbit_digger_pro.Base.Map.{nat_key, pair_key}
use rabbit_digger_pro.Base.Optional.{unwrap_or}
use rabbit_digger_pro.Hysteria.Udp.Wire.{Packet, parse_datagram}

pub record Reassembly : Type 0 where
  pub frag_count : ℕ
  pub frags : List (Option Bytes)
  pub received : ℕ
  pub created_at : ℕ

pub record IncomingPacket : Type 0 where
  pub peer : SocketAddr
  pub payload : Bytes

-- The part of `Hy2UdpState` that the receiver uses.
pub record RecvState : Type 0 where
  pub id_to_peer : List (ℕ × SocketAddr)
  pub reassembly : List ((ℕ × ℕ) × Reassembly)
  pub last_prune : ℕ

abbrev pub reassembly_ttl : ℕ
reassembly_ttl = 10_000

abbrev pub reassembly_prune_interval : ℕ
reassembly_prune_interval = 1_000

abbrev pub reassembly_max_entries : ℕ
reassembly_max_entries = 2048

abbrev pub is_expired : ℕ → Reassembly → Bool
is_expired now e = ltb reassembly_ttl (now - e.created_at)

unfoldable pub retain_fresh : ℕ → List ((ℕ × ℕ) × Reassembly) → List ((ℕ × ℕ) × Reassembly)
retain_fresh now [] = []
retain_fresh now ((k, e) ∷ m) =
    let rest = retain_fresh now m in if is_expired now e then rest else (k, e) ∷ rest

abbrev pub recent : ℕ → RecvState → Bool
recent now st =
    ltb (now - st.last_prune) reassembly_prune_interval
    && ltb (length st.reassembly) reassembly_max_entries

unfoldable pub prune_reassembly : ℕ → RecvState → RecvState
unfolding retain_fresh
prune_reassembly now st =
    if recent now st
    then st
    else let kept = retain_fresh now st.reassembly in
      record st {
        reassembly = if ltb reassembly_max_entries (length kept) then [] else kept;
        last_prune = now;
      }

unfoldable pub new_reassembly : ℕ → ℕ → Reassembly
new_reassembly now frag_count = record {
  frag_count = frag_count;
  frags = replicate frag_count none;
  received = 0;
  created_at = now;
}

-- A fragment goes into an empty slot, and is dropped where the slot is taken. `received` is a
-- `u8` that saturates.
unfoldable pub fill_slot : Reassembly → ℕ → Bytes → Reassembly
fill_slot e frag_id payload = elim (get_elem? e.frags frag_id) [
  | some none ↦ record e {
    frags = set e.frags frag_id (some payload);
    received = min 255 (e.received + 1);
  }
  | _ ↦ e
]

unfoldable pub join_frags : List (Option Bytes) → Bytes
join_frags [] = []
join_frags (none ∷ fs) = join_frags fs
join_frags (some b ∷ fs) = b ++ join_frags fs

-- What a fragment does to the entry of its packet: the entry that is kept, if any, and the whole
-- payload, if this fragment completes it.
unfoldable pub add_fragment : ℕ → Reassembly → Packet → Option Reassembly × Option Bytes
unfolding fill_slot join_frags
add_fragment now e p =
    if not (e.frag_count == p.frag_count)
    then (none, none)
    else if is_expired now e
    then (none, none)
    else if leb p.frag_count p.frag_id
    then (some e, none)
    else let e' = fill_slot e p.frag_id p.payload in
      if e'.received == p.frag_count then (none, some (join_frags e'.frags)) else (some e', none)

abbrev pub put_back :
    ℕ × ℕ → Option Reassembly → List ((ℕ × ℕ) × Reassembly) → List ((ℕ × ℕ) × Reassembly)
put_back key none m = Map.remove key m
put_back key (some e) m = Map.insert key e m

abbrev pub to_incoming : SocketAddr → Option Bytes → Option IncomingPacket
to_incoming peer none = none
to_incoming peer (some payload) = some (record { peer = peer; payload = payload })

-- The body of `recv_loop` behind the pruning: the state, and what is sent on.
unfoldable pub receive_pruned : ℕ → RecvState → Packet → RecvState × Option IncomingPacket
unfolding new_reassembly add_fragment
receive_pruned now st p = elim (Map.lookup p.session_id st.id_to_peer) [
  | none ↦ (st, none)
  | some peer ↦
      if leb p.frag_count 1
      then (st, to_incoming peer (some p.payload))
      else let key : ℕ × ℕ = (p.session_id, p.packet_id) in
        let entry = unwrap_or (Map.lookup key st.reassembly) (new_reassembly now p.frag_count) in
        let (kept, whole) = add_fragment now entry p in
        (record st { reassembly = put_back key kept st.reassembly }, to_incoming peer whole)
]

-- The body of `recv_loop` behind the head of the datagram.
unfoldable pub receive : ℕ → RecvState → Packet → RecvState × Option IncomingPacket
unfolding prune_reassembly receive_pruned
receive now st p = receive_pruned now (prune_reassembly now st) p

-- One round of `recv_loop`.
unfoldable pub recv_datagram : ℕ → RecvState → Bytes → RecvState × Option IncomingPacket
unfolding parse_datagram receive
recv_datagram now st d = elim (parse_datagram d) [ none ↦ (st, none) | some p ↦ receive now st p ]
