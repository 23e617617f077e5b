-- ===== src/Hysteria/Udp/Receive/Joining.antt =====
-- Whatever order the fragments of a packet come in, and however often, what is sent on is the
-- payload that they were cut from.
use rabbit_digger_pro.Base.{
  ℕ, zero, suc, ◌+◌, ◌<◌, ◌≤◌, ◌≡◌, refl, ap, sym, ◌∙◌, List, [], ◌∷◌, ◌++◌, Option, none, some,
  Bytes, arith, length, get_elem?, set, replicate, min, Option-cases, inl, inr, ◌⊎◌,
}
use rabbit_digger_pro.Hysteria.Udp.Wire.{Packet}
use rabbit_digger_pro.Hysteria.Udp.Receive.{
  Reassembly, new_reassembly, fill_slot, join_frags, add_fragment,
}

abbrev pub concat : List Bytes → Bytes
concat [] = []
concat (b ∷ bs) = b ++ concat bs

-- Each slot is empty or holds the fragment of its place.
abbrev pub Agrees : List (Option Bytes) → List Bytes → Type 0
Agrees [] [] = Unit {0}
Agrees (none ∷ s) (f ∷ fs) = Agrees s fs
Agrees (some b ∷ s) (f ∷ fs) = (b ≡ f) × Agrees s fs
Agrees [] (f ∷ fs) = ⊥
Agrees (b ∷ s) [] = ⊥

abbrev pub filled : List (Option Bytes) → ℕ
filled [] = 0
filled (none ∷ s) = filled s
filled (some b ∷ s) = suc (filled s)

-- What the receiver knows of the packet whose fragments are `fs`.
pub record IsPartial (fs : List Bytes) (e : Reassembly) : Type 0 where
  pub count : e.frag_count ≡ length fs
  pub slots : Agrees e.frags fs
  pub counted : e.received ≡ filled e.frags

filled-le : (s : List (Option Bytes)) (fs : List Bytes) → Agrees s fs → filled s ≤ length fs
filled-le [] [] a = omega arith
filled-le (none ∷ s) (f ∷ fs) a = omega (arith, filled-le s fs a)
filled-le (some b ∷ s) (f ∷ fs) a = omega (arith, filled-le s fs a.1)
filled-le [] (f ∷ fs) a = elim a [ ]
filled-le (b ∷ s) [] a =
    absurd (elim b as (λ o. Agrees (o ∷ s) [] → ⊥) [ none ↦ λ h. h | some x ↦ λ h. h ] a)

join_full :
    (s : List (Option Bytes)) (fs : List Bytes)
    → Agrees s fs
    → filled s ≡ length fs
    → join_frags s ≡ concat fs
unfolding join_frags
join_full [] [] a h = refl
join_full (none ∷ s) (f ∷ fs) a h = absurd (omega (arith, filled-le s fs a))
join_full (some b ∷ s) (f ∷ fs) a h = rw (a.0, join_full s fs a.1 (omega arith))
join_full [] (f ∷ fs) a h = elim a [ ]
join_full (some b ∷ s) [] a h = elim a [ ]
join_full (none ∷ s) [] a h = elim a [ ]

Agrees-set :
    (s : List (Option Bytes)) (fs : List Bytes) (i : ℕ) (b : Bytes)
    → Agrees s fs
    → get_elem? fs i ≡ some b
    → Agrees (set s i (some b)) fs
Agrees-set [] [] i b a h = tt
Agrees-set (none ∷ s) (f ∷ fs) zero b a h = (cc, a)
Agrees-set (some c ∷ s) (f ∷ fs) zero b a h = (cc, a.1)
Agrees-set (none ∷ s) (f ∷ fs) (suc i) b a h = Agrees-set s fs i b a h
Agrees-set (some c ∷ s) (f ∷ fs) (suc i) b a h = (a.0, Agrees-set s fs i b a.1 h)
Agrees-set [] (f ∷ fs) i b a h = elim a [ ]
Agrees-set (some c ∷ s) [] i b a h = elim a [ ]
Agrees-set (none ∷ s) [] i b a h = elim a [ ]

filled-set :
    (s : List (Option Bytes)) (i : ℕ) (b : Bytes)
    → get_elem? s i ≡ some none
    → filled (set s i (some b)) ≡ suc (filled s)
filled-set [] i b h = cc
filled-set (none ∷ s) zero b h = refl
filled-set (some c ∷ s) zero b h = absurd (ground arith)
filled-set (none ∷ s) (suc i) b h = filled-set s i b h
filled-set (some c ∷ s) (suc i) b h = ap suc (filled-set s i b h)

Agrees-replicate : (fs : List Bytes) → Agrees (replicate (length fs) none) fs
Agrees-replicate [] = tt
Agrees-replicate (f ∷ fs) = Agrees-replicate fs

filled-replicate : (n : ℕ) → filled (replicate n none) ≡ 0
filled-replicate zero = refl
filled-replicate (suc n) = filled-replicate n

pub new-IsPartial : (now : ℕ) (fs : List Bytes) → IsPartial fs (new_reassembly now (length fs))
unfolding new_reassembly
new-IsPartial now fs = record {
  count = refl;
  slots = Agrees-replicate fs;
  counted = sym (filled-replicate (length fs));
}

fill_slot-cases :
    (e : Reassembly) (i : ℕ) (b : Bytes)
    → ((get_elem? e.frags i ≡ some none)
        × (fill_slot e i b
            ≡ record e { frags = set e.frags i (some b); received = min 255 (e.received + 1) }))
      ⊎ (fill_slot e i b ≡ e)
unfolding fill_slot
fill_slot-cases e i b = elim (Option-cases (get_elem? e.frags i)) [
  | inl out ↦ inr (rw (out, fill_slot))
  | inr (some c, taken) ↦ inr (rw (taken, fill_slot))
  | inr (none, free) ↦ inl (free, rw (free, fill_slot))
]

fill_slot-IsPartial :
    (fs : List Bytes) (e : Reassembly) (i : ℕ) (b : Bytes)
    → length fs ≤ 255
    → get_elem? fs i ≡ some b
    → IsPartial fs e
    → IsPartial fs (fill_slot e i b)
fill_slot-IsPartial fs e i b few own v = elim (fill_slot-cases e i b) [
  | inr same ↦ rw same v
  | inl (free, filling) ↦
      let more = filled-set e.frags i b free in
      let slots = Agrees-set e.frags fs i b v.slots own in
      let room = filled-le (set e.frags i (some b)) fs slots in
      let counted = v.counted in
      rw filling (record { count = v.count; slots = slots; counted = omega arith })
]

-- Which entry is kept, and what is sent on.
add_fragment-kept :
    (now : ℕ) (e : Reassembly) (p : Packet) {e' : Reassembly}
    → (add_fragment now e p).0 ≡ some e'
    → (e' ≡ e) ⊎ ((p.frag_id < p.frag_count) × (e' ≡ fill_slot e p.frag_id p.payload))
unfolding add_fragment
add_fragment-kept now e p h = ground arith

add_fragment-whole :
    (now : ℕ) (e : Reassembly) (p : Packet) {whole : Bytes}
    → (add_fragment now e p).1 ≡ some whole
    → (p.frag_id < p.frag_count)
      × ((fill_slot e p.frag_id p.payload).received ≡ p.frag_count)
      × (whole ≡ join_frags (fill_slot e p.frag_id p.payload).frags)
unfolding add_fragment
add_fragment-whole now e p h = ground arith

-- Take a packet of at most 255 fragments `fs` and an entry that agrees with them. A datagram that
-- brings one of the fragments, again or out of order or not, or one out of range, leaves an entry
-- that agrees with them or none, and what is sent on, if anything, is `fs` joined in order.
pub add_fragment_sound :
    (now : ℕ) (fs : List Bytes) (e : Reassembly) (p : Packet)
    → length fs ≤ 255
    → p.frag_count ≡ length fs
    → (p.frag_id < length fs → get_elem? fs p.frag_id ≡ some p.payload)
    → IsPartial fs e
    → ((e' : Reassembly) → (add_fragment now e p).0 ≡ some e' → IsPartial fs e')
      × ((whole : Bytes) → (add_fragment now e p).1 ≡ some whole → whole ≡ concat fs)
add_fragment_sound now fs e p few count own v = (kept, sent)
  where
    next : p.frag_id < p.frag_count → IsPartial fs (fill_slot e p.frag_id p.payload)
    next low = fill_slot-IsPartial fs e p.frag_id p.payload few (own (omega arith)) v

    kept : (e' : Reassembly) → (add_fragment now e p).0 ≡ some e' → IsPartial fs e'
    kept e' h = elim (add_fragment-kept now e p h) [
      | inl same ↦ rw same v
      | inr (low, filling) ↦ rw filling (next low)
    ]

    sent : (whole : Bytes) → (add_fragment now e p).1 ≡ some whole → whole ≡ concat fs
    sent whole h =
        let (low, complete, joined) = add_fragment-whole now e p h in
        let v' = next low in
        let counted = v'.counted in
        joined ∙ join_full (fill_slot e p.frag_id p.payload).frags fs v'.slots (omega arith)
