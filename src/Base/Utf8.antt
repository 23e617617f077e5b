-- ===== src/Base/Utf8.antt =====
-- The standard library on text: `String::from_utf8` and `str::trim`, on the bytes of the text.
use mathlib.Core.Bool.{Bool, true, false, ◌&&◌}
use mathlib.Core.List.{List, [], ◌∷◌, ◌++◌, append_assoc}
use mathlib.Core.Path.{◌≡◌, refl, ap, sym, ◌∙◌}
use native.Mathlib.Omega.{arith}
use mathlib.Core.Logic.{inl, inr}
use mathlib.Core.Option.{Option, none, some}
use Prim.Native.Nat.{ℕ, zero, suc, ◌<◌}
use rabbit_digger_pro.Base.ByteStrings.{Bytes}
use rabbit_digger_pro.Base.Lists.{length}
use rabbit_digger_pro.Base.Tests.{Bool-cases, ltb, leb, ◌==◌, if◌then◌else◌}

-- The bytes that follow a leading byte: how many, the bounds of the first, and whether `b` leads.
unfoldable lead : ℕ → ℕ × ℕ × ℕ × Bool
lead b =
    if ltb b 0x80
    then (0, 0, 0, true)
    else if ltb b 0xc2
    then (0, 0, 0, false)
    else if ltb b 0xe0
    then (1, 0x80, 0xbf, true)
    else if b == 0xe0
    then (2, 0xa0, 0xbf, true)
    else if b == 0xed
    then (2, 0x80, 0x9f, true)
    else if ltb b 0xf0
    then (2, 0x80, 0xbf, true)
    else if b == 0xf0
    then (3, 0x90, 0xbf, true)
    else if ltb b 0xf4
    then (3, 0x80, 0xbf, true)
    else if b == 0xf4
    then (3, 0x80, 0x8f, true)
    else (0, 0, 0, false)

-- `n` more bytes belong to the character, the first of them within the bounds.
unfoldable utf8_from : ℕ → ℕ → ℕ → Bytes → Bool
unfolding lead
utf8_from n low high [] = n == 0
utf8_from zero low high (b ∷ bs) =
    let (n, low', high', leads) = lead b in leads && utf8_from n low' high' bs
utf8_from (suc n) low high (b ∷ bs) = (leb low b && leb b high) && utf8_from n 0x80 0xbf bs

-- `String::from_utf8` takes the bytes.
unfoldable pub is_utf8 : Bytes → Bool
unfolding utf8_from
is_utf8 bs = utf8_from 0 0 0 bs

-- U+FFFD.
abbrev replacement : Bytes
replacement = 0xef ∷ 0xbf ∷ 0xbd ∷ []

-- A byte where a character begins: `next` goes on within the character, `rest` behind it.
unfoldable begin_char : ℕ → (ℕ → ℕ → ℕ → Bytes → Bytes) → Bytes → Bytes
unfolding lead
begin_char b next rest =
    let (n, low, high, leads) = lead b in
    if leads then (if n == 0 then b ∷ rest else next n low high (b ∷ [])) else replacement ++ rest

-- `held` are the bytes of a character of which `n` more are to come.
unfoldable lossy_from : ℕ → ℕ → ℕ → Bytes → Bytes → Bytes
unfolding begin_char
lossy_from n low high held [] = if n == 0 then [] else replacement
lossy_from zero low high held (b ∷ bs) =
    let rest = lossy_from 0 0 0 [] bs in
    begin_char b (λ n low high held. lossy_from n low high held bs) rest
lossy_from (suc n) low high held (b ∷ bs) =
    let rest = lossy_from 0 0 0 [] bs in
    let more = lossy_from n 0x80 0xbf (held ++ b ∷ []) bs in
    let anew = begin_char b (λ n low high held. lossy_from n low high held bs) rest in
    if leb low b && leb b high
    then (if n == 0 then held ++ b ∷ rest else more)
    else replacement ++ anew

-- `String::from_utf8_lossy`: U+FFFD stands for each longest run of bytes that begins a character and
-- does not end one, and for each byte that begins none.
unfoldable pub from_utf8_lossy : Bytes → Bytes
unfolding lossy_from
from_utf8_lossy bs = lossy_from 0 0 0 [] bs

begin_char-lead :
    (b : ℕ) (next : ℕ → ℕ → ℕ → Bytes → Bytes) (rest bs : Bytes)
    → ((lead b).3 ≡ true)
    → ((lead b).0 ≡ 0 → rest ≡ bs)
    → (0 < (lead b).0 → next (lead b).0 (lead b).1 (lead b).2 (b ∷ []) ≡ b ∷ bs)
    → begin_char b next rest ≡ b ∷ bs
unfolding begin_char
begin_char-lead b next rest bs leads none_more some_more = elim (Bool-cases ((lead b).0 == 0)) [
  | inl alone ↦ rw (leads, alone) (ap (◌∷◌ b) (none_more (ground arith)))
  | inr several ↦ rw (leads, several) (some_more (ground arith))
]

utf8_from-zero : (low high : ℕ) (bs : Bytes) → utf8_from 0 low high bs ≡ utf8_from 0 0 0 bs
unfolding utf8_from
utf8_from-zero low high [] = refl
utf8_from-zero low high (b ∷ bs) = refl

lossy_from-utf8 :
    (n low high : ℕ) (held bs : Bytes)
    → (n ≡ 0 → held ≡ [])
    → utf8_from n low high bs ≡ true
    → lossy_from n low high held bs ≡ held ++ bs
unfolding lossy_from utf8_from
lossy_from-utf8 zero low high held [] h e = ap (λ x. x ++ []) (sym (h refl))
lossy_from-utf8 (suc n) low high held [] h e = absurd (ground arith)
lossy_from-utf8 zero low high held (b ∷ bs) h e =
    let leads : (lead b).3 ≡ true = ground arith in
    let then_ : utf8_from (lead b).0 (lead b).1 (lead b).2 bs ≡ true = ground arith in
    rw (h refl) (
      begin_char-lead b (λ n low high held. lossy_from n low high held bs) (lossy_from 0 0 0 [] bs)
        bs leads
        (λ z.
          lossy_from-utf8 0 0 0 [] bs (λ _. refl)
            (sym (utf8_from-zero (lead b).1 (lead b).2 bs)
              ∙ ap (λ n. utf8_from n (lead b).1 (lead b).2 bs) (sym z)
              ∙ then_))
        (λ m.
          lossy_from-utf8 (lead b).0 (lead b).1 (lead b).2 (b ∷ []) bs (λ z. absurd (omega arith))
            then_))
lossy_from-utf8 (suc n) low high held (b ∷ bs) h e =
    let within : (leb low b && leb b high) ≡ true = ground arith in
    let then_ : utf8_from n 0x80 0xbf bs ≡ true = ground arith in
    elim (Bool-cases (n == 0)) [
      | inl whole ↦
          let z : n ≡ 0 = ground arith in
          rw (within, whole)
            (ap (λ x. held ++ b ∷ x)
              (lossy_from-utf8 0 0 0 [] bs (λ _. refl)
                (sym (utf8_from-zero 0x80 0xbf bs)
                  ∙ ap (λ k. utf8_from k 0x80 0xbf bs) (sym z)
                  ∙ then_)))
      | inr part ↦
          rw (within, part)
            (lossy_from-utf8 n 0x80 0xbf (held ++ b ∷ []) bs (λ z. absurd (ground arith)) then_
              ∙ append_assoc held (b ∷ []) bs)
    ]

-- Text is left as it is.
pub from_utf8_lossy-is_utf8 : (bs : Bytes) → is_utf8 bs ≡ true → from_utf8_lossy bs ≡ bs
unfolding from_utf8_lossy is_utf8
from_utf8_lossy-is_utf8 bs e = lossy_from-utf8 0 0 0 [] bs (λ _. refl) e

-- The characters of `char::is_whitespace`.
abbrev white_spaces : List Bytes
white_spaces =
    (9 ∷ [])
    ∷ (10 ∷ [])
    ∷ (11 ∷ [])
    ∷ (12 ∷ [])
    ∷ (13 ∷ [])
    ∷ (32 ∷ [])
    ∷ (0xc2 ∷ 0x85 ∷ [])
    ∷ (0xc2 ∷ 0xa0 ∷ [])
    ∷ (0xe1 ∷ 0x9a ∷ 0x80 ∷ [])
    ∷ (0xe2 ∷ 0x80 ∷ 0x80 ∷ [])
    ∷ (0xe2 ∷ 0x80 ∷ 0x81 ∷ [])
    ∷ (0xe2 ∷ 0x80 ∷ 0x82 ∷ [])
    ∷ (0xe2 ∷ 0x80 ∷ 0x83 ∷ [])
    ∷ (0xe2 ∷ 0x80 ∷ 0x84 ∷ [])
    ∷ (0xe2 ∷ 0x80 ∷ 0x85 ∷ [])
    ∷ (0xe2 ∷ 0x80 ∷ 0x86 ∷ [])
    ∷ (0xe2 ∷ 0x80 ∷ 0x87 ∷ [])
    ∷ (0xe2 ∷ 0x80 ∷ 0x88 ∷ [])
    ∷ (0xe2 ∷ 0x80 ∷ 0x89 ∷ [])
    ∷ (0xe2 ∷ 0x80 ∷ 0x8a ∷ [])
    ∷ (0xe2 ∷ 0x80 ∷ 0xa8 ∷ [])
    ∷ (0xe2 ∷ 0x80 ∷ 0xa9 ∷ [])
    ∷ (0xe2 ∷ 0x80 ∷ 0xaf ∷ [])
    ∷ (0xe2 ∷ 0x81 ∷ 0x9f ∷ [])
    ∷ (0xe3 ∷ 0x80 ∷ 0x80 ∷ [])
    ∷ []

abbrev reverse_onto {ℓ} : {A : Type ℓ} → List A → List A → List A
reverse_onto [] out = out
reverse_onto (x ∷ xs) out = reverse_onto xs (x ∷ out)

abbrev reverse_all : List Bytes → List Bytes
reverse_all [] = []
reverse_all (w ∷ ws) = reverse_onto w [] ∷ reverse_all ws

-- `s` behind the word `w`, if it begins with it.
abbrev strip_word : Bytes → Bytes → Option Bytes
strip_word [] s = some s
strip_word (c ∷ w) [] = none
strip_word (c ∷ w) (b ∷ s) = elim (c == b) [ true ↦ strip_word w s | false ↦ none ]

abbrev strip_any : List Bytes → Bytes → Option Bytes
strip_any [] s = none
strip_any (w ∷ ws) s = elim (strip_word w s) [ some rest ↦ some rest | none ↦ strip_any ws s ]

-- A round takes at least one byte.
abbrev strip_while : ℕ → List Bytes → Bytes → Bytes
strip_while zero ws s = s
strip_while (suc fuel) ws s = elim (strip_any ws s) [
  | some rest ↦ strip_while fuel ws rest
  | none ↦ s
]

unfoldable pub trim : Bytes → Bytes
trim s =
    let front = strip_while (length s) white_spaces s in
    reverse_onto (strip_while (length front) (reverse_all white_spaces) (reverse_onto front [])) []
