-- ===== src/Base/Optional.antt =====
-- Chains of optional results: `?` on an `Option`, and on a result whose error says nothing.
use mathlib.Core.Bool.{Bool, true, false}
use mathlib.Core.Option.{Option, none, some}

infixl 5 ◌>>=◌ ◌>>◌
abbrev pub ◌>>=◌ {ℓ κ} : {A : Type ℓ} {B : Type κ} → Option A → (A → Option B) → Option B
none >>= f = none
some a >>= f = f a

-- Goes on if the test holds.
abbrev pub when : Bool → Option (Unit {0})
when true = some tt
when false = none

abbrev pub ◌>>◌ {κ} : {B : Type κ} → Option (Unit {0}) → Option B → Option B
none >> k = none
some u >> k = k

abbrev pub unwrap_or {ℓ} : {A : Type ℓ} → Option A → A → A
unwrap_or none d = d
unwrap_or (some a) d = a
