-- ===== src/Base/Map.antt =====
-- Hash maps as association lists over a key type with a Boolean test, and their laws.
use Prim.Native.Nat.{ℕ, ◌≤◌}
use mathlib.Core.Bool.{Bool, true, ◌&&◌}
use mathlib.Core.List.{List, [], ◌∷◌}
use mathlib.Core.Logic.{◌↔◌}
use mathlib.Core.Option.{Option, none, some}
use mathlib.Core.Path.{◌≡◌, refl}
use native.Mathlib.Omega.{arith}
use rabbit_digger_pro.Base.Lists.{length}
use rabbit_digger_pro.Base.Tests.{if◌then◌else◌, ==_iff}
use rabbit_digger_pro.Base.Tests.{◌==◌ as nat_beq}
use rabbit_digger_pro.Base.ByteStrings.{Bytes, bytes_eq, bytes_eq_iff}

-- A type whose values are told apart by a computed test, as keys of a map are.
pub record Key {ℓ} (K : Type ℓ) : Type ℓ where
  pub same : K → K → Bool
  pub same_iff : (j k : K) → (same j k ≡ true) ↔ (j ≡ k)

instance abbrev pub nat_key : Key ℕ
nat_key = record { same = nat_beq; same_iff = ==_iff }

instance abbrev pub bytes_key : Key Bytes
bytes_key = record { same = bytes_eq; same_iff = bytes_eq_iff }

unfoldable pub pair_same : ℕ × ℕ → ℕ × ℕ → Bool
pair_same (a, b) (c, d) = nat_beq a c && nat_beq b d

pub pair_same_iff : (j k : ℕ × ℕ) → (pair_same j k ≡ true) ↔ (j ≡ k)
unfolding pair_same
pair_same_iff (a, b) (c, d) = ground arith

instance abbrev pub pair_key : Key (ℕ × ℕ)
pair_key = record { same = pair_same; same_iff = pair_same_iff }

pub same_self {ℓ} : {A : Type ℓ} ⦃e : Key A⦄ (a : A) → e.same a a ≡ true
same_self ⦃e⦄ a = (e.same_iff a a).1 refl

module _ {ℓ κ} {K : Type ℓ} {V : Type κ} ⦃e : Key K⦄ where
  unfoldable pub lookup : K → List (K × V) → Option V
  lookup k [] = none
  lookup k ((j, v) ∷ m) = if e.same j k then some v else lookup k m

  unfoldable pub remove : K → List (K × V) → List (K × V)
  remove k [] = []
  remove k ((j, v) ∷ m) = let rest = remove k m in if e.same j k then rest else (j, v) ∷ rest

  -- The new entry replaces any of the same key.
  unfoldable pub insert : K → V → List (K × V) → List (K × V)
  unfolding remove
  insert k v m = (k, v) ∷ remove k m

  pub lookup-remove :
      (k j : K) (m : List (K × V))
      → lookup j (remove k m) ≡ (if e.same k j then none else lookup j m)
  unfolding lookup remove
  lookup-remove k j [] = ground arith
  lookup-remove k j ((i, w) ∷ m) =
      ground (arith, e.same_iff k j, e.same_iff i k, e.same_iff i j, lookup-remove k j m)

  pub lookup-insert :
      (k j : K) (v : V) (m : List (K × V))
      → lookup j (insert k v m) ≡ (if e.same k j then some v else lookup j m)
  unfolding lookup insert
  lookup-insert k j v m = ground (arith, lookup-remove k j m)

  pub lookup-insert_self : (k : K) (v : V) (m : List (K × V)) → lookup k (insert k v m) ≡ some v
  lookup-insert_self k v m = ground (arith, lookup-insert k k v m, same_self k)

  pub length-remove-le : (k : K) (m : List (K × V)) → length (remove k m) ≤ length m
  unfolding remove
  length-remove-le k [] = omega arith
  length-remove-le k ((j, v) ∷ m) = ground (arith, length-remove-le k m)
