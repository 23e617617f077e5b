-- ===== src/Base/ByteStrings.antt =====
-- Byte strings, and big-endian integers of a fixed width (`to_be_bytes`, `from_be_bytes`).
use native.Mathlib.Nat.{pow-suc}
use rabbit_digger_pro.Base.Tests.{◌==◌}
use rabbit_digger_pro.Base.Lists.{length, take, get_elem?, length-append}
use rabbit_digger_pro.Base.Optional.{unwrap_or}
use Prim.Native.Nat.{ℕ, zero, suc, ◌+◌, ◌*◌, ◌/◌, ◌%◌, ◌^◌, ◌≤◌, ◌<◌}
use mathlib.Core.Bool.{Bool, true, false, ◌&&◌}
use mathlib.Core.List.{List, [], ◌∷◌, ◌++◌}
use mathlib.Core.Logic.{◌↔◌}
use mathlib.Core.Path.{◌≡◌, refl, ap}
use native.Mathlib.Omega.{arith}

-- A `Vec<u8>` or a `String`, as its bytes.
abbrev pub Bytes : Type 0
Bytes = List ℕ

-- The byte at a place; 0 behind the end, where the code would not read.
abbrev pub byte_at : Bytes → ℕ → ℕ
byte_at buf i = unwrap_or (get_elem? buf i) 0

abbrev pub IsByte : ℕ → Type 0
IsByte b = b < 256

abbrev pub All {ℓ κ} : {A : Type ℓ} → (A → Type κ) → List A → Type κ
All P [] = Unit
All P (x ∷ xs) = P x × All P xs

pub All-append {ℓ κ} :
    {A : Type ℓ} (P : A → Type κ) (xs ys : List A) → All P xs → All P ys → All P (xs ++ ys)
All-append P [] ys p q = q
All-append P (x ∷ xs) ys p q = (p.0, All-append P xs ys p.1 q)

abbrev pub bytes_eq : Bytes → Bytes → Bool
bytes_eq [] [] = true
bytes_eq (x ∷ xs) (y ∷ ys) = x == y && bytes_eq xs ys
bytes_eq _ _ = false

pub bytes_eq_iff : (xs ys : Bytes) → (bytes_eq xs ys ≡ true) ↔ (xs ≡ ys)
bytes_eq_iff [] [] = ground arith
bytes_eq_iff [] (y ∷ ys) = ground arith
bytes_eq_iff (x ∷ xs) [] = ground arith
bytes_eq_iff (x ∷ xs) (y ∷ ys) = ground (arith, bytes_eq_iff xs ys)

-- The `w` low bytes of a number, the most significant first.
abbrev pub to_be_bytes : ℕ → ℕ → Bytes
to_be_bytes zero x = []
to_be_bytes (suc w) x = to_be_bytes w (x / 256) ++ (x % 256 ∷ [])

abbrev pub from_be_onto : ℕ → Bytes → ℕ
from_be_onto acc [] = acc
from_be_onto acc (b ∷ bs) = from_be_onto (acc * 256 + b) bs

abbrev pub from_be_bytes : Bytes → ℕ
from_be_bytes = from_be_onto 0

pub length-to_be_bytes : (w x : ℕ) → length (to_be_bytes w x) ≡ w
length-to_be_bytes zero x = refl
length-to_be_bytes (suc w) x =
    omega (
      arith,
      length-append (to_be_bytes w (x / 256)) (x % 256 ∷ []),
      length-to_be_bytes w (x / 256),
    )

from_be_onto-append :
    (acc : ℕ) (xs : Bytes) (b : ℕ) → from_be_onto acc (xs ++ b ∷ []) ≡ from_be_onto acc xs * 256 + b
from_be_onto-append acc [] b = refl
from_be_onto-append acc (x ∷ xs) b = from_be_onto-append (acc * 256 + x) xs b

-- A number that fits in `w` bytes is read back.
pub from_be-to_be : (w x : ℕ) → x < 256 ^ w → from_be_bytes (to_be_bytes w x) ≡ x
from_be-to_be zero zero h = refl
from_be-to_be zero (suc x) h = absurd (omega arith)
from_be-to_be (suc w) x h = omega (
  arith,
  from_be_onto-append 0 (to_be_bytes w (x / 256)) (x % 256),
  from_be-to_be w (x / 256) (omega (arith, pow-suc 256 w)),
)

pub All-to_be_bytes : (w x : ℕ) → All IsByte (to_be_bytes w x)
All-to_be_bytes zero x = tt
All-to_be_bytes (suc w) x =
    All-append IsByte (to_be_bytes w (x / 256)) _ (All-to_be_bytes w (x / 256)) (omega arith)

pub All-take {ℓ κ} :
    {A : Type ℓ} (P : A → Type κ) (n : ℕ) (xs : List A) → All P xs → All P (take n xs)
All-take P zero xs h = tt
All-take P (suc n) [] h = tt
All-take P (suc n) (x ∷ xs) h = (h.0, All-take P n xs h.1)

-- Each further byte is one digit to the base 256.
pub from_be_onto-lt :
    (acc : ℕ) (bs : Bytes) → All IsByte bs → from_be_onto acc bs < (acc + 1) * 256 ^ length bs
from_be_onto-lt acc [] h = omega arith
from_be_onto-lt acc (b ∷ bs) h =
    let ih = from_be_onto-lt (acc * 256 + b) bs h.1 in
    let grow : (acc * 256 + b + 1) * 256 ^ length bs ≤ (acc + 1) * 256 * 256 ^ length bs =
      grind arith in
    omega (arith, ap (λ (p : ℕ). (acc + 1) * p) (pow-suc 256 (length bs)))
