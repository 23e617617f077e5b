-- ===== src/Base/Decimal.antt =====
-- Decimal text: `parse` of an unsigned type, whose values lie below a bound, and `to_string` of `u16`.
use rabbit_digger_pro.Base.Tests.{ltb, leb, ◌==◌, if◌then◌else◌, Bool-cases, tests}
use rabbit_digger_pro.Base.ByteStrings.{Bytes, All, All-append}
use Prim.Native.Nat.{ℕ, zero, suc, ◌+◌, ◌-◌, ◌*◌, ◌/◌, ◌%◌, ◌^◌, ◌≤◌, ◌<◌}
use mathlib.Core.Bool.{true, false, ◌&&◌}
use mathlib.Core.List.{[], ◌∷◌, ◌++◌}
use mathlib.Core.Logic.{◌≢◌, inl, inr}
use mathlib.Core.Option.{Option, none, some}
use mathlib.Core.Path.{◌≡◌, refl}
use native.Mathlib.Nat.{pow-suc}
use native.Mathlib.Omega.{arith}

abbrev pub u16_mod : ℕ
u16_mod = 2 ^ 16

-- One digit more; `none` stands for an invalid digit and for overflow.
push_digit : ℕ → Option ℕ → ℕ → Option ℕ
push_digit bound none c = none
push_digit bound (some acc) c =
    if leb b'0' c && leb c b'9' && ltb (acc * 10 + (c - b'0')) bound
    then some (acc * 10 + (c - b'0'))
    else none

parse_digits : ℕ → Option ℕ → Bytes → Option ℕ
unfolding push_digit
parse_digits bound acc [] = acc
parse_digits bound acc (c ∷ cs) = parse_digits bound (push_digit bound acc c) cs

-- The digits behind the sign; there must be one.
parse_nonempty : ℕ → Bytes → Option ℕ
unfolding parse_digits
parse_nonempty bound [] = none
parse_nonempty bound (c ∷ cs) = parse_digits bound (some 0) (c ∷ cs)

unfoldable pub parse_uint : ℕ → Bytes → Option ℕ
unfolding parse_nonempty
parse_uint bound [] = none
parse_uint bound (c ∷ cs) =
    if c == b'+' then parse_nonempty bound cs else parse_nonempty bound (c ∷ cs)

abbrev pub parse_u16 : Bytes → Option ℕ
parse_u16 s = parse_uint u16_mod s

-- The decimal text of a number, of one digit more than `more` at most.
unfoldable pub decimal : ℕ → ℕ → Bytes
decimal zero n = (b'0' + n % 10) ∷ []
decimal (suc more) n = elim (ltb n 10) [
  | true ↦ (b'0' + n) ∷ []
  | false ↦ decimal more (n / 10) ++ ((b'0' + n % 10) ∷ [])
]

unfoldable pub u16_to_string : ℕ → Bytes
unfolding decimal
u16_to_string = decimal 4

parse_digits-append :
    (bound : ℕ) (acc : Option ℕ) (cs : Bytes) (c : ℕ)
    → parse_digits bound acc (cs ++ c ∷ []) ≡ push_digit bound (parse_digits bound acc cs) c
unfolding parse_digits
parse_digits-append bound acc [] c = refl
parse_digits-append bound acc (b ∷ cs) c = parse_digits-append bound (push_digit bound acc b) cs c

parse-decimal :
    (bound more n : ℕ)
    → n < 10 ^ suc more
    → n < bound
    → parse_digits bound (some 0) (decimal more n) ≡ some n
unfolding decimal parse_digits
parse-decimal bound zero n h w = ground arith
parse-decimal bound (suc more) n h w =
    let ten = pow-suc 10 (suc more) in
    let ih = parse-decimal bound more (n / 10) (omega arith) (omega arith) in
    ground (arith, parse_digits-append bound (some 0) (decimal more (n / 10)) (b'0' + n % 10))

-- The text of a number is made of digits.
abbrev pub IsDigit : ℕ → Type 0
IsDigit c = (b'0' ≤ c) × (c ≤ b'9')

decimal-IsDigit : (more n : ℕ) → All IsDigit (decimal more n)
unfolding decimal
decimal-IsDigit zero n = omega arith
decimal-IsDigit (suc more) n = elim (Bool-cases (ltb n 10)) [
  | inl small ↦ rw (small, decimal) (omega tests)
  | inr large ↦
      rw (large, decimal)
        (All-append IsDigit (decimal more (n / 10)) _ (decimal-IsDigit more (n / 10)) (omega arith))
]

pub u16_to_string-IsDigit : (n : ℕ) → All IsDigit (u16_to_string n)
unfolding u16_to_string
u16_to_string-IsDigit n = decimal-IsDigit 4 n

parse_of_digits :
    (bound : ℕ) (s : Bytes) {v : ℕ}
    → All IsDigit s
    → s ≢ []
    → parse_digits bound (some 0) s ≡ some v
    → parse_uint bound s ≡ some v
unfolding parse_uint parse_nonempty
parse_of_digits bound [] d ne h = absurd (ne refl)
parse_of_digits bound (c ∷ cs) d ne h = ground arith

snoc_ne : (cs : Bytes) (c : ℕ) → cs ++ c ∷ [] ≢ []
snoc_ne [] c e = ground arith
snoc_ne (b ∷ cs) c e = ground arith

decimal_ne : (more n : ℕ) → decimal more n ≢ []
unfolding decimal
decimal_ne zero n e = ground arith
decimal_ne (suc more) n e = ground (arith, snoc_ne (decimal more (n / 10)) (b'0' + n % 10))

pub parse_u16-to_string : (n : ℕ) → n < u16_mod → parse_u16 (u16_to_string n) ≡ some n
unfolding u16_to_string
parse_u16-to_string n h =
    parse_of_digits u16_mod (decimal 4 n) (decimal-IsDigit 4 n) (decimal_ne 4 n)
      (parse-decimal u16_mod 4 n (omega arith) h)
