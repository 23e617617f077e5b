-- ===== src/Rules/Domain/Meaning.antt =====
-- What the patterns of a domain matcher mean.
use rabbit_digger_pro.Base.{
  ◌≡◌, ◌≢◌, refl, ap, sym, ◌∙◌, List, [], ◌∷◌, ◌++◌, Bytes, Bool, true, false, ◌||◌, ◌==◌, bytes_eq,
  bytes_eq_iff, ℕ, Bool-cases, subst, ◌↔◌, ◌⊎◌, inl, inr, arith,
}
use rabbit_digger_pro.Rules.Domain.{
  Method, keyword, suffix, match_all, DomainMatcher, starts_with, ends_with, contains, test_match,
  test_one, test_any, test, merge,
}

abbrev pub Decides : Bool → Type 0 → Type 0
Decides b P = (b ≡ true) ↔ P

abbrev pub Any : (Bytes → Type 0) → List Bytes → Type 0
Any P [] = ⊥
Any P (x ∷ xs) = P x ⊎ Any P xs

abbrev pub EndsWith : Bytes → Bytes → Type 0
EndsWith s p = (front : Bytes) × (s ≡ front ++ p)

abbrev pub Contains : Bytes → Bytes → Type 0
Contains s p = (front : Bytes) × (back : Bytes) × (s ≡ front ++ (p ++ back))

-- What a pattern means.
abbrev pub Matches : Method → Bytes → Bytes → Type 0
Matches keyword s p = Contains s p
Matches suffix s p = EndsWith s p
Matches match_all s p =
    ((d : Bytes) × (p ≡ b'+' ∷ b'.' ∷ d) × ((s ≡ d) ⊎ EndsWith s (b'.' ∷ d)))
    ⊎ (((d : Bytes) → p ≢ b'+' ∷ b'.' ∷ d) × (s ≡ p))

or-Decides : (a b : Bool) {P Q : Type 0} → Decides a P → Decides b Q → Decides (a || b) (P ⊎ Q)
or-Decides true b (p, p') (q, q') = (λ _. inl (p refl), λ _. refl)
or-Decides false b {P} {Q} (p, p') (q, q') =
    ((λ e. inr (q e)), (λ h. elim h [ inl x ↦ absurd (false_true (p' x)) | inr y ↦ q' y ]))
  where
    false_true : false ≡ true → ⊥
    false_true e = ground arith

map-Decides : {b : Bool} {P Q : Type 0} → (P → Q) → (Q → P) → Decides b P → Decides b Q
map-Decides f g (p, p') = ((λ e. f (p e)), (λ q. p' (g q)))

nil_cons : (p : ℕ) (l : Bytes) → [] ≡ p ∷ l → ⊥
nil_cons p l e = ground arith

cons_inv : (c p : ℕ) (cs l : Bytes) → c ∷ cs ≡ p ∷ l → (c ≡ p) × (cs ≡ l)
cons_inv c p cs l e = ground arith

starts_with-Decides : (s p : Bytes) → Decides (starts_with s p) ((back : Bytes) × (s ≡ p ++ back))
unfolding starts_with
starts_with-Decides s [] = (λ _. (s, refl), λ _. refl)
starts_with-Decides [] (p ∷ ps) =
    (λ e. absurd (ground arith), λ h. absurd (nil_cons p (ps ++ h.0) h.1))
starts_with-Decides (c ∷ cs) (p ∷ ps) =
    let (there, back) = starts_with-Decides cs ps in
    elim (Bool-cases (c == p)) [
      | inl same ↦
          let eq : c ≡ p = ground arith in
          rw same (
            (λ e. let (b, h) = there e in (b, rw (eq, h))),
            (λ h. back (h.0, (cons_inv c p cs (ps ++ h.0) h.1).1)),
          )
      | inr other ↦ rw other (
        (λ e. absurd (ground arith)),
        (λ h. let eq = (cons_inv c p cs (ps ++ h.0) h.1).0 in absurd (ground arith)),
      )
    ]

ends_with-Decides : (s p : Bytes) → Decides (ends_with s p) (EndsWith s p)
unfolding ends_with
ends_with-Decides [] p = map-Decides (λ e. ([], e)) (nil_end p) (bytes_eq_iff [] p)
  where
    nil_end : (p : Bytes) → EndsWith [] p → [] ≡ p
    nil_end p ([], e) = e
    nil_end p (c ∷ cs, e) = absurd (nil_cons c (cs ++ p) e)
ends_with-Decides (c ∷ cs) p = map-Decides shorten lengthen (
    or-Decides (bytes_eq (c ∷ cs) p) (ends_with cs p) (bytes_eq_iff (c ∷ cs) p)
      (ends_with-Decides cs p))
  where
    shorten : (c ∷ cs ≡ p) ⊎ EndsWith cs p → EndsWith (c ∷ cs) p
    shorten (inl e) = ([], e)
    shorten (inr (front, e)) = (c ∷ front, ap (◌∷◌ c) e)

    lengthen : EndsWith (c ∷ cs) p → (c ∷ cs ≡ p) ⊎ EndsWith cs p
    lengthen ([], e) = inl e
    lengthen (a ∷ front, e) = inr (front, (cons_inv c a cs (front ++ p) e).1)

contains-Decides : (s p : Bytes) → Decides (contains s p) (Contains s p)
unfolding contains
contains-Decides [] p = map-Decides (λ h. ([], h.0, h.1)) (at_front p) (starts_with-Decides [] p)
  where
    at_front : (p : Bytes) → Contains [] p → (back : Bytes) × ([] ≡ p ++ back)
    at_front p ([], back, e) = (back, e)
    at_front p (c ∷ cs, back, e) = absurd (nil_cons c (cs ++ (p ++ back)) e)
contains-Decides (c ∷ cs) p = map-Decides later earlier (
    or-Decides (starts_with (c ∷ cs) p) (contains cs p) (starts_with-Decides (c ∷ cs) p)
      (contains-Decides cs p))
  where
    later : ((back : Bytes) × (c ∷ cs ≡ p ++ back)) ⊎ Contains cs p → Contains (c ∷ cs) p
    later (inl (back, e)) = ([], back, e)
    later (inr (front, back, e)) = (c ∷ front, back, ap (◌∷◌ c) e)

    earlier : Contains (c ∷ cs) p → ((back : Bytes) × (c ∷ cs ≡ p ++ back)) ⊎ Contains cs p
    earlier ([], back, e) = inl (back, e)
    earlier (a ∷ front, back, e) = inr (front, back, (cons_inv c a cs (front ++ (p ++ back)) e).1)

plain-Decides :
    (s p : Bytes)
    → ((d : Bytes) → p ≢ b'+' ∷ b'.' ∷ d)
    → Decides (bytes_eq s p) (Matches match_all s p)
plain-Decides s p other = map-Decides (λ e. inr (other, e)) same (bytes_eq_iff s p)
  where
    same : Matches match_all s p → s ≡ p
    same (inl (d, e, _)) = absurd (other d e)
    same (inr (_, e)) = e

below-Decides :
    (s d : Bytes)
    → Decides (ends_with s (b'.' ∷ d) || bytes_eq s d) (Matches match_all s (b'+' ∷ b'.' ∷ d))
below-Decides s d = map-Decides there back (
    or-Decides (ends_with s (b'.' ∷ d)) (bytes_eq s d) (ends_with-Decides s (b'.' ∷ d))
      (bytes_eq_iff s d))
  where
    there : EndsWith s (b'.' ∷ d) ⊎ (s ≡ d) → Matches match_all s (b'+' ∷ b'.' ∷ d)
    there (inl h) = inl (d, refl, inr h)
    there (inr e) = inl (d, refl, inl e)

    tail_eq : (d' : Bytes) → (b'+' ∷ b'.' ∷ d) ≡ b'+' ∷ b'.' ∷ d' → d ≡ d'
    tail_eq d' e = (cons_inv b'.' b'.' d d' (cons_inv b'+' b'+' (b'.' ∷ d) (b'.' ∷ d') e).1).1

    back : Matches match_all s (b'+' ∷ b'.' ∷ d) → EndsWith s (b'.' ∷ d) ⊎ (s ≡ d)
    back (inl (d', e, inl h)) = inr (h ∙ sym (tail_eq d' e))
    back (inl (d', e, inr h)) = inl (subst (λ q. EndsWith s (b'.' ∷ q)) (sym (tail_eq d' e)) h)
    back (inr (other, e)) = absurd (other d refl)

test_match-Decides : (s p : Bytes) → Decides (test_match s p) (Matches match_all s p)
unfolding test_match
test_match-Decides s [] = plain-Decides s [] (λ d e. nil_cons b'+' (b'.' ∷ d) e)
test_match-Decides s (a ∷ []) =
    plain-Decides s (a ∷ []) (λ d e. nil_cons b'.' d (cons_inv a b'+' [] (b'.' ∷ d) e).1)
test_match-Decides s (a ∷ b ∷ d) = elim (Bool-cases (a == b'+')) [
  | inr other ↦ rw other (
      plain-Decides s (a ∷ b ∷ d)
        (λ d' e. let eq = (cons_inv a b'+' (b ∷ d) (b'.' ∷ d') e).0 in absurd (ground arith)))
  | inl plus ↦ elim (Bool-cases (b == b'.')) [
    | inr other ↦
        rw (plus, other)
          (plain-Decides s (a ∷ b ∷ d) (λ d' e.
            let eq = (cons_inv b b'.' d d' (cons_inv a b'+' (b ∷ d) (b'.' ∷ d') e).1).0 in
            absurd (ground arith)))
    | inl dot ↦
        let is_plus : a ≡ b'+' = ground arith in
        let is_dot : b ≡ b'.' = ground arith in rw (is_plus, is_dot) (below-Decides s d)
  ]
]

test_one-Decides : (m : Method) (s p : Bytes) → Decides (test_one m s p) (Matches m s p)
unfolding test_one
test_one-Decides keyword s p = contains-Decides s p
test_one-Decides suffix s p = ends_with-Decides s p
test_one-Decides match_all s p = test_match-Decides s p

test_any-Decides :
    (m : Method) (s : Bytes) (ds : List Bytes) → Decides (test_any m s ds) (Any (Matches m s) ds)
unfolding test_any
test_any-Decides m s [] = ((λ e. absurd (ground arith)), (λ h. absurd h))
test_any-Decides m s (d ∷ ds) =
    or-Decides (test_one m s d) (test_any m s ds) (test_one-Decides m s d) (test_any-Decides m s ds)

-- A domain passes the test of a matcher exactly if one of its patterns holds of it: a keyword that it
-- contains; a suffix that it ends with; a pattern `+.d`, if it is `d` or ends with `.d`; or any other
-- pattern that it is equal to.
pub test-Decides :
    (m : DomainMatcher) (s : Bytes) → Decides (test m s) (Any (Matches m.method s) m.domain)
unfolding test
test-Decides m s = test_any-Decides m.method s m.domain

test_any-append :
    (m : Method) (s : Bytes) (a b : List Bytes)
    → test_any m s (a ++ b) ≡ (test_any m s a || test_any m s b)
unfolding test_any
test_any-append m s [] b = refl
test_any-append m s (d ∷ a) b = ground (arith, test_any-append m s a b)

-- A merged matcher tests the domains of both by the method of the first; where the two methods are
-- the same, it passes exactly what one of the two passes.
pub test-merge :
    (a b : DomainMatcher) (s : Bytes)
    → (test (merge a b) s ≡ (test a s || test (record b { method = a.method }) s))
      × (a.method ≡ b.method → test (merge a b) s ≡ (test a s || test b s))
unfolding merge test
test-merge a b s =
    let both = test_any-append a.method s a.domain b.domain in
    (
      both,
      (λ e.
          subst
            (λ m.
              test_any a.method s (a.domain ++ b.domain)
              ≡ (test_any a.method s a.domain || test_any m s b.domain))
            e both),
    )
