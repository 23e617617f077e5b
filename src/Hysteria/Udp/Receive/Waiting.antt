-- ===== src/Hysteria/Udp/Receive/Waiting.antt =====
-- What the receiver's table holds for one packet, across pruning and across a fragment.
use rabbit_digger_pro.Address.{SocketAddr}
use rabbit_digger_pro.Base.{
  ℕ, ◌<◌, ◌≤◌, ◌≡◌, refl, ap, List, [], ◌∷◌, Option, none, some, Bytes, arith, length, le→ltb,
  lt→leb, ◌⊎◌, Bool-cases, inl, inr, false,
}
use rabbit_digger_pro.Base.Map
use rabbit_digger_pro.Base.Map.{nat_key, pair_key, lookup-remove, length-remove-le, same_self}
use rabbit_digger_pro.Base.Optional.{unwrap_or}
use rabbit_digger_pro.Hysteria.Udp.Wire.{Packet}
use rabbit_digger_pro.Hysteria.Udp.Receive.{
  Reassembly, RecvState, is_expired, retain_fresh, prune_reassembly, new_reassembly, add_fragment,
  put_back, receive, receive_pruned, recent, to_incoming, reassembly_max_entries,
}

abbrev Table : Type 0
Table = List ((ℕ × ℕ) × Reassembly)

-- The entry of `key` in the table: none, or one that was made in the present round of the clock,
-- with room for the other entries.
abbrev pub Holds : ℕ → ℕ × ℕ → Option Reassembly → Table → Type 0
Holds now key none m = (Map.lookup key m ≡ none) × (length m < reassembly_max_entries)
Holds now key (some e) m =
    (rest : Table) × (m ≡ (key, e) ∷ rest)
    × (Map.lookup key rest ≡ none)
    × (length rest < reassembly_max_entries)
    × (e.created_at ≡ now)

length-retain_fresh-le : (now : ℕ) (m : Table) → length (retain_fresh now m) ≤ length m
unfolding retain_fresh
length-retain_fresh-le now [] = omega arith
length-retain_fresh-le now ((k, e) ∷ m) = ground (arith, length-retain_fresh-le now m)

lookup-retain_fresh :
    (now : ℕ) (key : ℕ × ℕ) (m : Table)
    → Map.lookup key m ≡ none
    → Map.lookup key (retain_fresh now m) ≡ none
unfolding retain_fresh Map.lookup
lookup-retain_fresh now key [] h = refl
lookup-retain_fresh now key ((k, e) ∷ m) h = ground (arith, lookup-retain_fresh now key m)

retain_fresh-Holds :
    (now : ℕ) (key : ℕ × ℕ) (o : Option Reassembly) (m : Table)
    → Holds now key o m
    → Holds now key o (retain_fresh now m) × (length (retain_fresh now m) ≤ reassembly_max_entries)
unfolding retain_fresh
retain_fresh-Holds now key none m (absent, room) = (
  (lookup-retain_fresh now key m absent, omega (arith, length-retain_fresh-le now m)),
  omega (arith, length-retain_fresh-le now m),
)
retain_fresh-Holds now key (some e) m (rest, split, absent, room, made) =
    let young : is_expired now e ≡ false = ground arith in
    let whole : retain_fresh now m ≡ (key, e) ∷ retain_fresh now rest =
      rw split (rw (young, retain_fresh)) in
    (
      (
        retain_fresh now rest,
        whole,
        lookup-retain_fresh now key rest absent,
        omega (arith, length-retain_fresh-le now rest),
        made,
      ),
      omega (arith, ap length whole, length-retain_fresh-le now rest),
    )

prune-cases :
    (now : ℕ) (st : RecvState)
    → length (retain_fresh now st.reassembly) ≤ reassembly_max_entries
    → (prune_reassembly now st ≡ st)
      ⊎ (prune_reassembly now st
          ≡ record st { reassembly = retain_fresh now st.reassembly; last_prune = now })
unfolding prune_reassembly
prune-cases now st room =
    let uncleared = le→ltb reassembly_max_entries (length (retain_fresh now st.reassembly)) room in
    elim (Bool-cases (recent now st)) [
      | inl skip ↦ inl (rw skip)
      | inr due ↦ inr (rw (due, uncleared))
    ]

-- Pruning keeps the entry that is waited for, and no session's peer is forgotten.
pub prune-Holds :
    (now : ℕ) (key : ℕ × ℕ) (o : Option Reassembly) (st : RecvState)
    → Holds now key o st.reassembly
    → Holds now key o (prune_reassembly now st).reassembly
      × ((prune_reassembly now st).id_to_peer ≡ st.id_to_peer)
prune-Holds now key o st h =
    let (kept, room) = retain_fresh-Holds now key o st.reassembly h in
    elim (prune-cases now st room) [ inl skip ↦ rw skip (h, refl) | inr due ↦ rw due (kept, refl) ]

Holds-remove :
    (now : ℕ) (key : ℕ × ℕ) (o : Option Reassembly) (m : Table)
    → Holds now key o m
    → Holds now key none (Map.remove key m)
unfolding Map.remove
Holds-remove now key none m (absent, room) =
    (rw (lookup-remove key key m, same_self key) refl, omega (arith, length-remove-le key m))
Holds-remove now key (some e) m (rest, split, absent, room, made) =
    let gone : Map.remove key m ≡ Map.remove key rest = rw split (rw (same_self key)) in
    rw gone (
      rw (lookup-remove key key rest, same_self key) refl,
      omega (arith, length-remove-le key rest),
    )

-- The table after a fragment, by the entry that is kept.
Holds-put_back :
    (now : ℕ) (key : ℕ × ℕ) (o kept : Option Reassembly) (m : Table)
    → Holds now key o m
    → ((e : Reassembly) → kept ≡ some e → e.created_at ≡ now)
    → Holds now key kept (put_back key kept m)
unfolding Map.insert
Holds-put_back now key o none m h made = Holds-remove now key o m h
Holds-put_back now key o (some e) m h made =
    let (absent, room) = Holds-remove now key o m h in
    (Map.remove key m, refl, absent, room, made e refl)

lookup-Holds :
    (now : ℕ) (key : ℕ × ℕ) (o : Option Reassembly) (m : Table)
    → Holds now key o m
    → Map.lookup key m ≡ o
unfolding Map.lookup
lookup-Holds now key none m h = h.0
lookup-Holds now key (some e) m (rest, split, _, _, _) = rw split (rw (same_self key))

-- The entry that a fragment is added to.
abbrev pub entry_of : ℕ → ℕ → Option Reassembly → Reassembly
entry_of now count o = unwrap_or o (new_reassembly now count)

receive_several :
    (now : ℕ) (st : RecvState) (p : Packet) (peer : SocketAddr) (o : Option Reassembly)
    → Map.lookup p.session_id (prune_reassembly now st).id_to_peer ≡ some peer
    → 1 < p.frag_count
    → Map.lookup (p.session_id, p.packet_id) (prune_reassembly now st).reassembly ≡ o
    → (e' : Option Reassembly) (whole : Option Bytes)
    → add_fragment now (entry_of now p.frag_count o) p ≡ (e', whole)
    → receive now st p ≡ (
      record (prune_reassembly now st) {
        reassembly = put_back (p.session_id, p.packet_id) e' (prune_reassembly now st).reassembly;
      },
      to_incoming peer whole,
    )
unfolding receive receive_pruned
receive_several now st p peer o known several found e' whole added =
    rw (known, receive, receive_pruned) (rw (lt→leb p.frag_count 1 several, found, added))

-- One fragment of a packet of several: what becomes of the table and what is sent on.
pub receive-Holds :
    (now : ℕ) (st : RecvState) (p : Packet) (peer : SocketAddr) (o : Option Reassembly)
    → Map.lookup p.session_id st.id_to_peer ≡ some peer
    → 1 < p.frag_count
    → Holds now (p.session_id, p.packet_id) o st.reassembly
    → (e' : Option Reassembly) (whole : Option Bytes)
    → add_fragment now (entry_of now p.frag_count o) p ≡ (e', whole)
    → ((e : Reassembly) → e' ≡ some e → e.created_at ≡ now)
    → ((receive now st p).1 ≡ to_incoming peer whole)
      × ((receive now st p).0.id_to_peer ≡ st.id_to_peer)
      × Holds now (p.session_id, p.packet_id) e' (receive now st p).0.reassembly
receive-Holds now st p peer o known several h e' whole added made =
    let key : ℕ × ℕ = (p.session_id, p.packet_id) in
    let (kept, peers) = prune-Holds now key o st h in
    let known' : Map.lookup p.session_id (prune_reassembly now st).id_to_peer ≡ some peer =
      rw peers known in
    let found = lookup-Holds now key o (prune_reassembly now st).reassembly kept in
    rw (receive_several now st p peer o known' several found e' whole added)
      (refl, peers, Holds-put_back now key o e' (prune_reassembly now st).reassembly kept made)
