-- ===== src/Base/Entries.antt =====
-- Maps that hold one entry to a key, and sums over their values.
use Prim.Native.Nat.{ℕ, ◌+◌}
use mathlib.Core.List.{List, [], ◌∷◌}
use mathlib.Core.Option.{Option, none, some}
use mathlib.Core.Path.{◌≡◌, refl}
use native.Mathlib.Omega.{arith}
use rabbit_digger_pro.Base.Map
use rabbit_digger_pro.Base.Map.{Key, same_self, lookup-remove}

-- No two entries of one key.
abbrev pub Unique {ℓ κ} : {K : Type ℓ} {W : Type κ} ⦃e : Key K⦄ → List (K × W) → Type κ
Unique [] = Unit {κ}
Unique ((k, v) ∷ m) = (Map.lookup k m ≡ none) × Unique m

abbrev pub sum_by {ℓ κ} : {K : Type ℓ} {W : Type κ} → (W → ℕ) → List (K × W) → ℕ
sum_by f [] = 0
sum_by f ((k, v) ∷ m) = f v + sum_by f m

abbrev pub amount {κ} : {W : Type κ} → (W → ℕ) → Option W → ℕ
amount f none = 0
amount f (some v) = f v

pub remove-Unique {ℓ κ} :
    {K : Type ℓ} {W : Type κ} ⦃e : Key K⦄ (k : K) (m : List (K × W))
    → Unique m
    → Unique (Map.remove k m)
unfolding Map.remove
remove-Unique ⦃e⦄ k [] u = tt
remove-Unique ⦃e⦄ k ((j, v) ∷ m) (absent, u) =
    ground (arith, remove-Unique k m u, lookup-remove k j m, absent)

pub insert-Unique {ℓ κ} :
    {K : Type ℓ} {W : Type κ} ⦃e : Key K⦄ (k : K) (w : W) (m : List (K × W))
    → Unique m
    → Unique (Map.insert k w m)
unfolding Map.insert
insert-Unique ⦃e⦄ k w m u = (rw (lookup-remove k k m, same_self k) refl, remove-Unique k m u)

remove_absent {ℓ κ} :
    {K : Type ℓ} {W : Type κ} ⦃e : Key K⦄ (k : K) (m : List (K × W))
    → Map.lookup k m ≡ none
    → Map.remove k m ≡ m
unfolding Map.remove Map.lookup
remove_absent ⦃e⦄ k [] h = refl
remove_absent ⦃e⦄ k ((j, v) ∷ m) h = ground (arith, remove_absent k m)

-- Taking an entry out takes its share out of the sum.
pub sum_by-remove {ℓ κ} :
    {K : Type ℓ} {W : Type κ} ⦃e : Key K⦄ (f : W → ℕ) (k : K) (m : List (K × W))
    → Unique m
    → sum_by f m ≡ sum_by f (Map.remove k m) + amount f (Map.lookup k m)
unfolding Map.remove Map.lookup
sum_by-remove ⦃e⦄ f k [] u = refl
sum_by-remove ⦃e⦄ f k ((j, v) ∷ m) (absent, u) =
    ground (arith, e.same_iff j k, remove_absent k m, sum_by-remove f k m u)

-- Putting an entry in adds its share, less that of the entry it replaces.
pub sum_by-insert {ℓ κ} :
    {K : Type ℓ} {W : Type κ} ⦃e : Key K⦄ (f : W → ℕ) (k : K) (w : W) (m : List (K × W))
    → Unique m
    → sum_by f (Map.insert k w m) + amount f (Map.lookup k m) ≡ sum_by f m + f w
unfolding Map.insert
sum_by-insert ⦃e⦄ f k w m u = omega (arith, sum_by-remove f k m u)
