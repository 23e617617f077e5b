-- ===== src/Rules/Net/Cached.antt =====
-- The cache does not change which rule is chosen.
use rabbit_digger_pro.Base.{
  ℕ, suc, ◌+◌, ◌≡◌, refl, List, [], ◌∷◌, Option, none, some, get_elem?, arith, if◌then◌else◌,
  Bool-cases, map, inl, inr, ap, sym, ◌∙◌, subst,
}
use rabbit_digger_pro.Rules.Net.{
  World, LruCache, MatchContext, RuleItem, Choice, chosen, not_matched, match_rule, find_rule, hit,
  miss, get_rule,
}

module _ (w : World) where
  -- The first rule that matches.
  unfoldable pub first_match : List (RuleItem w) → MatchContext → Choice w
  first_match [] c = not_matched
  first_match (r ∷ rs) c =
      let rest = first_match rs c in if match_rule w r.matcher c then chosen r else rest

  -- `i` is the place of the first rule that matches.
  abbrev pub IsFirst : List (RuleItem w) → MatchContext → ℕ → Type 0
  IsFirst rules c i =
      (r : RuleItem w) × (get_elem? rules i ≡ some r) × (first_match rules c ≡ chosen r)

  data Search (i : ℕ) (rules : List (RuleItem w)) (c : MatchContext) : Type 0 where
    found :
        (j : ℕ) (r : RuleItem w)
        → find_rule w i rules c ≡ some (i + j, r)
        → get_elem? rules j ≡ some r
        → first_match rules c ≡ chosen r
        → Search i rules c
    absent : find_rule w i rules c ≡ none → first_match rules c ≡ not_matched → Search i rules c

  find_rule-Search : (i : ℕ) (rules : List (RuleItem w)) (c : MatchContext) → Search i rules c
  unfolding find_rule first_match
  find_rule-Search i [] c = absent refl refl
  find_rule-Search i (r ∷ rs) c = elim (Bool-cases (match_rule w r.matcher c)) [
    | inl match' ↦
        found 0 r (rw match' (ap (λ k. some (k, r)) (sym (zero_right i)))) refl (rw match' refl)
    | inr other ↦ elim (find_rule-Search (suc i) rs c) [
      | found j r' a b d ↦
          found (suc j) r' (rw other (a ∙ ap (λ k. some (k, r')) (step i j))) b (rw other d)
      | absent a d ↦ absent (rw other a) (rw other d)
    ]
  ]
    where
      zero_right : (i : ℕ) → i + 0 ≡ i
      zero_right i = omega arith

      step : (i j : ℕ) → suc i + j ≡ i + suc j
      step i j = omega arith

  module _ (lru : LruCache) where
    -- What the cache gives is right.
    pub Truthful : List (RuleItem w) → lru.Cache → Type 0
    Truthful rules cache =
        (k : MatchContext) (i : ℕ) → (lru.get k cache).0 ≡ some i → IsFirst rules k i

    Right : List (RuleItem w) → MatchContext → Choice w × lru.Cache → Type 0
    Right rules c (choice, cache) = (choice ≡ first_match rules c) × Truthful rules cache

    miss-Right :
        (rules : List (RuleItem w)) (c : MatchContext) (cache : lru.Cache)
        → Truthful rules cache
        → Right rules c (miss w lru rules c cache)
    unfolding miss Right Truthful
    miss-Right rules c cache truthful = elim (find_rule-Search 0 rules c) [
      | absent e first ↦ rw (miss, e) (sym first, truthful)
      | found j r e at first ↦
          rw (miss, e)
            (
              sym first,
              λ k i h. elim (lru.get-insert c k cache (0 + j) i h) [
                | inl (same, place) ↦
                    subst (λ x. IsFirst rules x i) (sym same)
                      (subst (λ x. IsFirst rules c x) (start place) (r, at, first))
                | inr before ↦ truthful k i before
              ],
            )
    ]
      where
        start : {i j : ℕ} → i ≡ 0 + j → j ≡ i
        start e = omega arith

    hit-Right :
        (rules : List (RuleItem w)) (c : MatchContext) (cache : lru.Cache) (i : ℕ)
        → IsFirst rules c i
        → Truthful rules cache
        → Right rules c (hit w lru rules i, cache)
    unfolding hit Right
    hit-Right rules c cache i (r, at, first) truthful = (rw (hit, at) (sym first), truthful)

    get_rule-Right :
        (rules : List (RuleItem w)) (c : MatchContext) (cache : lru.Cache)
        → Truthful rules cache
        → Right rules c (get_rule w lru rules c cache)
    unfolding get_rule Truthful
    get_rule-Right rules c cache truthful = decide (lru.get c cache).0 refl
      where
        later : Truthful rules (lru.get c cache).1
        later k i h = truthful k i (lru.get-get c k cache i h)

        decide :
            (found : Option ℕ)
            → (lru.get c cache).0 ≡ found
            → Right rules c (elim found [
              | some i ↦ (hit w lru rules i, (lru.get c cache).1)
              | none ↦ miss w lru rules c (lru.get c cache).1
            ])
        decide (some i) e = hit-Right rules c _ i (truthful c i e) later
        decide none e = miss-Right rules c _ later

    -- Rules for one connection after the other.
    unfoldable pub get_rules : List (RuleItem w) → List MatchContext → lru.Cache → List (Choice w)
    get_rules rules [] cache = []
    get_rules rules (c ∷ cs) cache =
        let (choice, cache) = get_rule w lru rules c cache in choice ∷ get_rules rules cs cache

    get_rules-Truthful :
        (rules : List (RuleItem w)) (cs : List MatchContext) (cache : lru.Cache)
        → Truthful rules cache
        → get_rules rules cs cache ≡ map (first_match rules) cs
    unfolding get_rules Right
    get_rules-Truthful rules [] cache truthful = refl
    get_rules-Truthful rules (c ∷ cs) cache truthful =
        let (first, truthful') = get_rule-Right rules c cache truthful in
        rw first (ap (λ x. first_match rules c ∷ x) (get_rules-Truthful rules cs _ truthful'))

    -- The rules chosen for connections one after the other, through the cache and whatever it forgets,
    -- are for each the first rule that matches it, or none if none does; an index from the cache is
    -- never out of range.
    pub get_rules-first_match :
        (rules : List (RuleItem w)) (cs : List MatchContext) (capacity : ℕ)
        → get_rules rules cs (lru.with_capacity capacity) ≡ map (first_match rules) cs
    unfolding Truthful
    get_rules-first_match rules cs capacity = get_rules-Truthful rules cs _ nothing_yet
      where
        none≢some : {i : ℕ} → none ≡ some i → ⊥
        none≢some e = ground arith

        nothing_yet : Truthful rules (lru.with_capacity capacity)
        nothing_yet k i h = absurd (none≢some (sym (lru.get-with_capacity capacity k) ∙ h))
