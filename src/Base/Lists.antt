-- ===== src/Base/Lists.antt =====
-- Lists measured and cut by native numbers: `take`, `drop`, and a read of exactly `n` items.
use Prim.Native.Nat.{ℕ, zero, suc, ◌+◌, ◌-◌, ◌≤◌, ◌<◌, min}
use mathlib.Core.Bool.{Bool, true, false}
use mathlib.Core.List.{List, [], ◌∷◌, ◌++◌}
use mathlib.Core.Option.{Option, none, some}
use mathlib.Core.Path.{◌≡◌, refl, sym, ap, ◌∙◌}
use native.Mathlib.Omega.{arith}

module _ {ℓ} {A : Type ℓ} where
  abbrev pub length : List A → ℕ
  length [] = 0
  length (x ∷ xs) = suc (length xs)

  abbrev pub is_empty : List A → Bool
  is_empty [] = true
  is_empty (x ∷ xs) = false

  abbrev pub get_elem? : List A → ℕ → Option A
  get_elem? [] i = none
  get_elem? (x ∷ xs) zero = some x
  get_elem? (x ∷ xs) (suc i) = get_elem? xs i

  -- A write out of bounds changes nothing.
  abbrev pub set : List A → ℕ → A → List A
  set [] i v = []
  set (x ∷ xs) zero v = v ∷ xs
  set (x ∷ xs) (suc i) v = x ∷ set xs i v

  abbrev pub take : ℕ → List A → List A
  take zero xs = []
  take (suc n) [] = []
  take (suc n) (x ∷ xs) = x ∷ take n xs

  abbrev pub drop : ℕ → List A → List A
  drop zero xs = xs
  drop (suc n) [] = []
  drop (suc n) (x ∷ xs) = drop n xs

  abbrev pub replicate : ℕ → A → List A
  replicate zero a = []
  replicate (suc n) a = a ∷ replicate n a

module _ {ℓ} {A : Type ℓ} where
  -- `read_exact`: the first `n` items and the rest, or nothing when the input is too short.
  unfoldable pub read_exact : ℕ → List A → Option (List A × List A)
  read_exact zero xs = some ([], xs)
  read_exact (suc n) [] = none
  read_exact (suc n) (x ∷ xs) = elim (read_exact n xs) [
    | none ↦ none
    | some (front, rest) ↦ some (x ∷ front, rest)
  ]

  -- A read of one item.
  unfoldable pub read_one : List A → Option (A × List A)
  read_one [] = none
  read_one (x ∷ xs) = some (x, xs)

  pub length-append : (xs ys : List A) → length (xs ++ ys) ≡ length xs + length ys
  length-append [] ys = omega arith
  length-append (x ∷ xs) ys = omega (arith, length-append xs ys)

  pub length-replicate : (n : ℕ) (a : A) → length (replicate n a) ≡ n
  length-replicate zero a = refl
  length-replicate (suc n) a = ap suc (length-replicate n a)

  pub length-take : (n : ℕ) (xs : List A) → length (take n xs) ≡ min n (length xs)
  length-take zero xs = omega arith
  length-take (suc n) [] = omega arith
  length-take (suc n) (x ∷ xs) = omega (arith, length-take n xs)

  pub length-drop : (n : ℕ) (xs : List A) → length (drop n xs) ≡ length xs - n
  length-drop zero xs = omega arith
  length-drop (suc n) [] = omega arith
  length-drop (suc n) (x ∷ xs) = omega (arith, length-drop n xs)

  pub take-append-drop : (n : ℕ) (xs : List A) → take n xs ++ drop n xs ≡ xs
  take-append-drop zero xs = refl
  take-append-drop (suc n) [] = refl
  take-append-drop (suc n) (x ∷ xs) = ap (◌∷◌ x) (take-append-drop n xs)

  pub take-length_append : (xs ys : List A) → take (length xs) (xs ++ ys) ≡ xs
  take-length_append [] ys = refl
  take-length_append (x ∷ xs) ys = ap (◌∷◌ x) (take-length_append xs ys)

  pub drop-length_append : (xs ys : List A) → drop (length xs) (xs ++ ys) ≡ ys
  drop-length_append [] ys = refl
  drop-length_append (x ∷ xs) ys = drop-length_append xs ys

  pub take_all : (xs : List A) (n : ℕ) → length xs ≤ n → take n xs ≡ xs
  take_all [] zero _ = refl
  take_all [] (suc n) _ = refl
  take_all (x ∷ xs) (suc n) fits = ap (◌∷◌ x) (take_all xs n (omega arith))
  take_all (x ∷ xs) zero fits = elim fits [ ]

  pub drop_all : (xs : List A) (n : ℕ) → length xs ≤ n → drop n xs ≡ []
  drop_all [] zero _ = refl
  drop_all [] (suc n) _ = refl
  drop_all (x ∷ xs) (suc n) fits = drop_all xs n (omega arith)
  drop_all (x ∷ xs) zero fits = elim fits [ ]

  pub read_exact-append : (xs ys : List A) → read_exact (length xs) (xs ++ ys) ≡ some (xs, ys)
  unfolding read_exact
  read_exact-append [] ys = refl
  read_exact-append (x ∷ xs) ys = ground (arith, read_exact-append xs ys)

  pub read_exact-some :
      (n : ℕ) (xs : List A) → n ≤ length xs → read_exact n xs ≡ some (take n xs, drop n xs)
  unfolding read_exact
  read_exact-some zero xs h = refl
  read_exact-some (suc n) [] h = absurd (omega arith)
  read_exact-some (suc n) (x ∷ xs) h = ground (arith, read_exact-some n xs (omega arith))

  pub read_exact-none : (n : ℕ) (xs : List A) → length xs < n → read_exact n xs ≡ none
  unfolding read_exact
  read_exact-none zero xs h = absurd (omega arith)
  read_exact-none (suc n) [] h = refl
  read_exact-none (suc n) (x ∷ xs) h = ground (arith, read_exact-none n xs (omega arith))

  pub length-eq_zero : (xs : List A) → length xs ≡ 0 → xs ≡ []
  length-eq_zero [] h = refl
  length-eq_zero (x ∷ xs) h = absurd (omega arith)

  drop-nil : (n : ℕ) → drop {A = A} n [] ≡ []
  drop-nil zero = refl
  drop-nil (suc n) = refl

  pub drop-drop : (a b c : ℕ) (xs : List A) → b + a ≡ c → drop a (drop b xs) ≡ drop c xs
  drop-drop a zero c xs e = let e' : a ≡ c = omega arith in ap (λ (n : ℕ). drop n xs) e'
  drop-drop a (suc b) zero xs e = absurd (omega arith)
  drop-drop a (suc b) (suc c) [] e = drop-nil a
  drop-drop a (suc b) (suc c) (x ∷ xs) e = drop-drop a b c xs (omega arith)

  take-nil : (n : ℕ) → take {A = A} n [] ≡ []
  take-nil zero = refl
  take-nil (suc n) = refl

  pub take-add : (a b : ℕ) (xs : List A) → take a xs ++ take b (drop a xs) ≡ take (a + b) xs
  take-add zero b xs = let e : b ≡ 0 + b = omega arith in ap (λ (n : ℕ). take n xs) e
  take-add (suc a) b [] = empty b
    where
      empty : (n : ℕ) → take {A = A} n [] ≡ take (suc a + n) []
      empty n =
          let e : suc a + n ≡ suc (a + n) = omega arith in
          take-nil n ∙ ap (λ (m : ℕ). take {A = A} m []) (sym e)
  take-add (suc a) b (x ∷ xs) =
      let e : suc a + b ≡ suc (a + b) = omega arith in
      ap (◌∷◌ x) (take-add a b xs) ∙ ap (λ (n : ℕ). take n (x ∷ xs)) (sym e)
