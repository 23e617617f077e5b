-- ===== src/Hysteria/Codec/Varint.antt =====
-- Variable-length integers are read back as they were written.
use Prim.Native.Nat.{bit_and, bit_or}
use rabbit_digger_pro.Base.{
  ℕ, ◌+◌, ◌-◌, ◌*◌, ◌/◌, ◌%◌, ◌^◌, ◌≤◌, ◌<◌, ◌≡◌, [], ◌∷◌, ◌++◌, none, some, Bytes, All, IsByte,
  ltb, length, take, drop, to_be_bytes, from_be_bytes, arith, Bool-cases, tests, inl, inr, suc, ◌⊎◌,
  take_all, length-take, read_exact-none, read_exact-some, All-to_be_bytes, drop-length_append,
  from_be_onto, from_be_onto-lt, All-take, ap, ◌∙◌,
}
use mathlib.Core.Option
use rabbit_digger_pro.Base.Bits.{bit_or-shift, bit_and-low_six}
use rabbit_digger_pro.Hysteria.Codec.{
  varint_len, write_varint, decode_form, decode_varint, form_len, read_quic_varint,
}

decode_one :
    (x : ℕ) (rest : Bytes) → x < 2 ^ 6 → decode_varint (to_be_bytes 1 x ++ rest) ≡ some (x, 1)
unfolding decode_varint
decode_one x rest h = ground (arith, bit_and-low_six (x % 256))

decode_two :
    (x : ℕ) (rest : Bytes)
    → x < 2 ^ 14
    → decode_varint (to_be_bytes 2 (x + 1 * 2 ^ 14) ++ rest) ≡ some (x, 2)
unfolding decode_varint
decode_two x rest h = ground (arith, bit_and-low_six ((x + 1 * 2 ^ 14) / 256 % 256))

decode_four :
    (x : ℕ) (rest : Bytes)
    → x < 2 ^ 30
    → decode_varint (to_be_bytes 4 (x + 2 * 2 ^ 30) ++ rest) ≡ some (x, 4)
unfolding decode_varint
decode_four x rest h = ground (arith, bit_and-low_six ((x + 2 * 2 ^ 30) / 256 / 256 / 256 % 256))

decode_eight :
    (x : ℕ) (rest : Bytes)
    → x < 2 ^ 62
    → decode_varint (to_be_bytes 8 (x + 3 * 2 ^ 62) ++ rest) ≡ some (x, 8)
unfolding decode_varint
decode_eight x rest h =
    ground
      (arith, bit_and-low_six ((x + 3 * 2 ^ 62) / 256 / 256 / 256 / 256 / 256 / 256 / 256 % 256))

pub length-write_varint : (x : ℕ) → length (write_varint [] x) ≡ varint_len x
unfolding write_varint varint_len
length-write_varint x = ground arith

-- A number below 2 ^ 62 is read back from its encoding whatever follows, with the number of bytes
-- that `varint_len` foretells.
pub decode-write_varint :
    (x : ℕ) (rest : Bytes)
    → x < 2 ^ 62
    → decode_varint (write_varint [] x ++ rest) ≡ some (x, varint_len x)
unfolding write_varint varint_len
decode-write_varint x rest h = ground (
  arith,
  decode_one x rest,
  decode_two x rest,
  decode_four x rest,
  decode_eight x rest,
  bit_or-shift 14 x 1,
  bit_or-shift 30 x 2,
  bit_or-shift 62 x 3,
)

decode-decode_form :
    (first : ℕ) (buf : Bytes)
    → first < 256
    → decode_varint (first ∷ buf) ≡ decode_form (form_len first) first buf
unfolding decode_varint form_len
decode-decode_form first buf h = ground arith

form_len_pos : (first : ℕ) → form_len first ≡ suc (form_len first - 1)
unfolding form_len
form_len_pos first = ground arith

form_full :
    (k first : ℕ) (buf : Bytes)
    → length buf ≡ k
    → decode_form (suc k) first buf ≡ some (from_be_bytes (bit_and first 0x3f ∷ buf), suc k)
unfolding decode_form
form_full k first buf h = ground (arith, take_all buf k (omega arith))

form_short : (k first : ℕ) (buf : Bytes) → length buf < k → decode_form (suc k) first buf ≡ none
unfolding decode_form
form_short k first buf h = ground arith

form_long :
    (k first : ℕ) (rest : Bytes)
    → k ≤ length rest
    → decode_form (suc k) first rest
      ≡ some (from_be_bytes (bit_and first 0x3f ∷ take k rest), suc k)
unfolding decode_form
form_long k first rest h = ground arith

-- The reader of a stream and the decoder of a buffer agree on every input that starts with a byte:
-- one fails where the other does, and both give one value and take as many bytes.
pub read_quic_varint-decode :
    (first : ℕ) (rest : Bytes)
    → first < 256
    → read_quic_varint (first ∷ rest)
      ≡ Option.map (λ r. (r.0, drop r.1 (first ∷ rest))) (decode_varint (first ∷ rest))
unfolding read_quic_varint
read_quic_varint-decode first rest h =
    let k = form_len first - 1 in
    let whole : decode_varint (first ∷ rest) ≡ decode_form (suc k) first rest =
      rw (← form_len_pos first) (decode-decode_form first rest h) in
    elim (Bool-cases (ltb (length rest) k)) [
      | inl short ↦ rw (
        whole,
        read_quic_varint,
        read_exact-none k rest (omega tests),
        form_short k first rest (omega tests),
      )
      | inr enough ↦
          let fits : k ≤ length rest = ground arith in
          let part : decode_varint (first ∷ take k rest) ≡ decode_form (suc k) first (take k rest) =
            rw (← form_len_pos first) (decode-decode_form first (take k rest) h) in
          let size : length (take k rest) ≡ k = omega (arith, length-take k rest) in
          rw (
            whole,
            read_quic_varint,
            read_exact-some k rest fits,
            part,
            form_full k first (take k rest) size,
            form_long k first rest fits,
          )
    ]

decode_form_bounds :
    (k first : ℕ) (rest : Bytes) {v n : ℕ}
    → first < 256
    → All IsByte rest
    → decode_form (suc k) first rest ≡ some (v, n)
    → (v < 64 * 256 ^ k) × (n ≡ suc k) × (k ≤ length rest)
unfolding decode_form
decode_form_bounds k first rest {v} {n} b bs h =
    let (value, taken, room) = parts in
    let size : length (take k rest) ≡ k = omega (arith, length-take k rest) in
    let start : 0 + first % 64 ≡ first % 64 = omega arith in
    let digits = value ∙ ap (λ (acc : ℕ). from_be_onto acc (take k rest)) start in
    let below =
      rw size at (from_be_onto-lt (first % 64) (take k rest) (All-take IsByte k rest bs)) in
    let grow : (first % 64 + 1) * 256 ^ k ≤ 64 * 256 ^ k = grind arith in (omega arith, taken, room)
  where
    parts : (v ≡ from_be_bytes (first % 64 ∷ take k rest)) × (n ≡ suc k) × (k ≤ length rest)
    parts = ground (arith, bit_and-low_six first b)

form_len_cases :
    (first : ℕ)
    → (form_len first ≡ 1) ⊎ ((form_len first ≡ 2) ⊎ ((form_len first ≡ 4) ⊎ (form_len first ≡ 8)))
unfolding form_len
form_len_cases first = ground arith

-- What the decoder gives on a string of bytes lies below 2 ^ 62, and took at least one byte and no
-- more than there are.
pub decode_varint_bounds :
    (input : Bytes) {v n : ℕ}
    → All IsByte input
    → decode_varint input ≡ some (v, n)
    → (v < 2 ^ 62) × (1 ≤ n) × (n ≤ length input)
unfolding decode_varint
decode_varint_bounds [] b h = cc
decode_varint_bounds (first ∷ rest) {v} {n} b h = elim (form_len_cases first) [
  | inl e ↦ at 0 e (omega arith)
  | inr (inl e) ↦ at 1 e (omega arith)
  | inr (inr (inl e)) ↦ at 3 e (omega arith)
  | inr (inr (inr e)) ↦ at 7 e (omega arith)
]
  where
    at :
        (k : ℕ)
        → form_len first ≡ suc k
        → 64 * 256 ^ k ≤ 2 ^ 62
        → (v < 2 ^ 62) × (1 ≤ n) × (n ≤ suc (length rest))
    at k e small =
        let whole : decode_form (suc k) first rest ≡ some (v, n) =
          rw (← e) (rw (decode-decode_form first rest b.0) at h) in
        let facts = decode_form_bounds k first rest b.0 b.1 whole in omega arith

-- Appending to what is written already.
pub write_varint-append : (out : Bytes) (x : ℕ) → write_varint out x ≡ out ++ write_varint [] x
unfolding write_varint
write_varint-append out x = ground arith

write_varint-IsByte : (x : ℕ) → All IsByte (write_varint [] x)
unfolding write_varint
write_varint-IsByte x = elim (Bool-cases (ltb x (2 ^ 6))) [
  | inl one ↦ rw one (All-to_be_bytes 1 x)
  | inr a ↦ elim (Bool-cases (ltb x (2 ^ 14))) [
    | inl two ↦ rw (a, two) (All-to_be_bytes 2 (bit_or x (1 * 2 ^ 14)))
    | inr b ↦ elim (Bool-cases (ltb x (2 ^ 30))) [
      | inl four ↦ rw (a, b, four) (All-to_be_bytes 4 (bit_or x (2 * 2 ^ 30)))
      | inr c ↦ rw (a, b, c) (All-to_be_bytes 8 (bit_or x (3 * 2 ^ 62)))
    ]
  ]
]

varint_len_pos : (x : ℕ) → 1 ≤ varint_len x
unfolding varint_len
varint_len_pos x = ground arith

read_stream :
    (x : ℕ) (enc rest : Bytes)
    → All IsByte enc
    → length enc ≡ varint_len x
    → decode_varint (enc ++ rest) ≡ some (x, varint_len x)
    → read_quic_varint (enc ++ rest) ≡ some (x, rest)
read_stream x [] rest b size h = absurd (omega (arith, varint_len_pos x))
read_stream x (first ∷ tail) rest b size h =
    let whole = read_quic_varint-decode first (tail ++ rest) b.0 in
    let dropped = drop-length_append (first ∷ tail) rest in rw (whole, h, ← size, dropped)

-- A number below 2 ^ 62 that was written is read off the stream, and the rest is left.
pub read-write_varint :
    (x : ℕ) (rest : Bytes)
    → x < 2 ^ 62
    → read_quic_varint (write_varint [] x ++ rest) ≡ some (x, rest)
read-write_varint x rest h =
    read_stream x (write_varint [] x) rest (write_varint-IsByte x) (length-write_varint x)
      (decode-write_varint x rest h)
