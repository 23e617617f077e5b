-- ===== src/Base/Bits.antt =====
-- Laws of `|`, `&` and `^` on binary digits, at the forms that the codecs use.
use Prim.Native.Nat.{
  ℕ, zero, suc, ◌+◌, ◌-◌, ◌*◌, ◌/◌, ◌%◌, ◌^◌, ◌≤◌, ◌<◌, max, differ, digits, bit_and, bit_or,
  bit_xor, bit_or-bitwise, bit_xor-bitwise,
}
use mathlib.Core.Bool.{Bool, true, ◌&&◌}
use mathlib.Core.Path.{◌≡◌, refl, ap, ◌∙◌}
use native.Mathlib.Nat.{pow-suc}
use native.Mathlib.Omega.{arith}
use rabbit_digger_pro.Base.Tests.{◌==◌}

-- Fuel above `n`, in a form that computes.
above : ℕ → ℕ → ℕ
above zero n = n
above (suc d) n = suc (above d n)

above-add : (d n : ℕ) → above d n ≡ d + n
unfolding above
above-add zero n = omega arith
above-add (suc d) n = omega (arith, above-add d n)

module _ (z : ℕ → ℕ) (f : ℕ → ℕ → ℕ) where
  one_more : (n a b : ℕ) → a ≤ n → digits z f (suc n) a b ≡ digits z f n a b
  one_more zero zero b _ = refl
  one_more (suc n) zero b _ = refl
  one_more (suc n) (suc a) b fits =
      ap (λ (rest : ℕ). rest * 2 + f (suc a % 2) (b % 2))
        (one_more n (suc a / 2) (b / 2) (omega arith))
  one_more zero (suc a) b fits = elim fits [ ]

  many_more : (d n a b : ℕ) → a ≤ n → digits z f (above d n) a b ≡ digits z f n a b
  unfolding above
  many_more zero n a b _ = refl
  many_more (suc d) n a b fits =
      one_more (above d n) a b (omega (arith, above-add d n)) ∙ many_more d n a b fits

  -- One digit of the operation, and the operation on the numbers without their last digits.
  digits-suc :
      (a b : ℕ)
      → digits z f (suc a) (suc a) b
        ≡ digits z f (suc a / 2) (suc a / 2) (b / 2) * 2 + f (suc a % 2) (b % 2)
  digits-suc a b =
      let half = suc a / 2 in
      let room : a ≡ above (a - half) half = omega (arith, above-add (a - half) half) in
      ap (λ (rest : ℕ). rest * 2 + f (suc a % 2) (b % 2))
        (ap (λ (n : ℕ). digits z f n half (b / 2)) room
          ∙ many_more (a - half) half half (b / 2) (omega arith))

pub zero-bit_or : (b : ℕ) → bit_or 0 b ≡ b
zero-bit_or b = bit_or-bitwise 0 b

pub zero-bit_xor : (b : ℕ) → bit_xor 0 b ≡ b
zero-bit_xor b = bit_xor-bitwise 0 b

pub bit_or_step : (a b : ℕ) → bit_or a b ≡ bit_or (a / 2) (b / 2) * 2 + max (a % 2) (b % 2)
bit_or_step zero b = omega (arith, zero-bit_or b, zero-bit_or (b / 2))
bit_or_step (suc a) b = simp bit_or-bitwise (digits-suc (λ y. y) max a b)

pub bit_xor_step : (a b : ℕ) → bit_xor a b ≡ bit_xor (a / 2) (b / 2) * 2 + differ (a % 2) (b % 2)
bit_xor_step zero b = omega (arith, zero-bit_xor b, zero-bit_xor (b / 2))
bit_xor_step (suc a) b = simp bit_xor-bitwise (digits-suc (λ y. y) differ a b)

bit_or-zero_fuel : (n a : ℕ) → a ≤ n → bit_or a 0 ≡ a
bit_or-zero_fuel n zero h = zero-bit_or 0
bit_or-zero_fuel zero (suc a) h = absurd (omega arith)
bit_or-zero_fuel (suc n) (suc a) h =
    omega (arith, bit_or_step (suc a) 0, bit_or-zero_fuel n (suc a / 2) (omega arith))

bit_or-zero : (a : ℕ) → bit_or a 0 ≡ a
bit_or-zero a = bit_or-zero_fuel a a (omega arith)

-- Below the bit that `t * 2 ^ k` begins at, `|` is addition.
pub bit_or-shift : (k a t : ℕ) → a < 2 ^ k → bit_or a (t * 2 ^ k) ≡ a + t * 2 ^ k
bit_or-shift zero zero t h = omega (arith, zero-bit_or (t * 1))
bit_or-shift zero (suc a) t h = absurd (omega arith)
bit_or-shift (suc k) a t h =
    let double : t * 2 ^ suc k ≡ t * 2 ^ k * 2 =
      omega (arith, ap (λ (n : ℕ). t * n) (pow-suc 2 k)) in
    let half : t * 2 ^ k * 2 / 2 ≡ t * 2 ^ k = omega arith in
    let rest : bit_or (a / 2) (t * 2 ^ k * 2 / 2) ≡ a / 2 + t * 2 ^ k =
      rw half (bit_or-shift k (a / 2) t (omega (arith, pow-suc 2 k))) in
    rw double (omega (arith, bit_or_step a (t * 2 ^ k * 2), rest))

pub shift-bit_or : (k a t : ℕ) → a < 2 ^ k → bit_or (t * 2 ^ k) a ≡ t * 2 ^ k + a
shift-bit_or zero zero t h = omega (arith, bit_or_step (t * 1) 0, bit_or-zero (t * 1))
shift-bit_or zero (suc a) t h = absurd (omega arith)
shift-bit_or (suc k) a t h =
    let double : t * 2 ^ suc k ≡ t * 2 ^ k * 2 =
      omega (arith, ap (λ (n : ℕ). t * n) (pow-suc 2 k)) in
    let half : t * 2 ^ k * 2 / 2 ≡ t * 2 ^ k = omega arith in
    let rest : bit_or (t * 2 ^ k * 2 / 2) (a / 2) ≡ t * 2 ^ k + a / 2 =
      rw half (shift-bit_or k (a / 2) t (omega (arith, pow-suc 2 k))) in
    rw double (omega (arith, bit_or_step (t * 2 ^ k * 2) a, rest))

differ_bits : (x y : ℕ) → x < 2 → y < 2 → (differ x y < 2) × (differ (differ x y) y ≡ x)
differ_bits zero zero p q = omega arith
differ_bits zero (suc zero) p q = omega arith
differ_bits (suc zero) zero p q = omega arith
differ_bits (suc zero) (suc zero) p q = omega arith
differ_bits (suc (suc x)) y p q = absurd (omega arith)
differ_bits zero (suc (suc y)) p q = absurd (omega arith)
differ_bits (suc zero) (suc (suc y)) p q = absurd (omega arith)

bit_xor_fuel : (n a b : ℕ) → a ≤ n → b ≤ n → bit_xor (bit_xor a b) b ≡ a
bit_xor_fuel zero zero zero p q = refl
bit_xor_fuel zero zero (suc b) p q = absurd (omega arith)
bit_xor_fuel zero (suc a) b p q = absurd (omega arith)
bit_xor_fuel (suc n) a b p q =
    let (small, back) = differ_bits (a % 2) (b % 2) (omega arith) (omega arith) in
    let split : bit_xor a b ≡ bit_xor (a / 2) (b / 2) * 2 + differ (a % 2) (b % 2) =
      bit_xor_step a b in
    let high : bit_xor a b / 2 ≡ bit_xor (a / 2) (b / 2) = omega arith in
    let low : bit_xor a b % 2 ≡ differ (a % 2) (b % 2) = omega arith in
    let rest : bit_xor (bit_xor a b / 2) (b / 2) ≡ a / 2 =
      rw high (bit_xor_fuel n (a / 2) (b / 2) (omega arith) (omega arith)) in
    let bit : differ (bit_xor a b % 2) (b % 2) ≡ a % 2 = rw low back in
    omega (arith, bit_xor_step (bit_xor a b) b)

pub bit_xor_cancel : (a b : ℕ) → bit_xor (bit_xor a b) b ≡ a
bit_xor_cancel a b = bit_xor_fuel (a + b) a b (omega arith) (omega arith)

-- `0x3f` keeps the low six bits: so it does for each byte below `n`, and for 256 by evaluation.
six_bits : ℕ → Bool
six_bits zero = true
six_bits (suc n) = six_bits n && (bit_and n 0x3f == n % 64)

six_bits→eq : (n b : ℕ) → b < n → six_bits n ≡ true → bit_and b 0x3f ≡ b % 64
unfolding six_bits
six_bits→eq zero b low _ = elim low [ ]
six_bits→eq (suc n) b low h = ground (arith, six_bits→eq n b)

pub bit_and-low_six : (b : ℕ) → b < 256 → bit_and b 0x3f ≡ b % 64
unfolding six_bits
bit_and-low_six b low = six_bits→eq 256 b low refl
