-- ===== src/AnyTls/Padding/Transparent.antt =====
-- Padding adds waste frames behind the payload and nothing else.
use rabbit_digger_pro.AnyTls.Frame.{header_len}
use rabbit_digger_pro.AnyTls.Padding.{
  encode_waste_frame, last_chunk, pad_loop, or_one, apply_padding, check_mark, as_usize,
}
use rabbit_digger_pro.Base.{
  ℕ, ◌+◌, ◌-◌, ◌≡◌, ◌≢◌, refl, ap, sym, ◌∙◌, List, [], ◌∷◌, ◌++◌, Option, none, some, Bytes, ltb,
  ◌==◌, if◌then◌else◌, length, take, drop, is_empty, arith, append_assoc, append-nil,
  take-append-drop, Bool-cases, inl, inr,
}
use rabbit_digger_pro.Base.Optional.{◌>>=◌}

abbrev pub concat : List Bytes → Bytes
concat [] = []
concat (b ∷ bs) = b ++ concat bs

-- The waste frames of these lengths, one behind the other.
abbrev pub Encodes : List ℕ → Bytes → Type 0
Encodes [] w = w ≡ []
Encodes (n ∷ ns) w =
    (f : Bytes) × (rest : Bytes) × (encode_waste_frame n ≡ some f)
    × (w ≡ f ++ rest)
    × Encodes ns rest

-- A string of waste frames.
abbrev pub Waste : Bytes → Type 0
Waste w = (ws : List ℕ) × Encodes ws w

Waste-cons : (n : ℕ) (f w : Bytes) → encode_waste_frame n ≡ some f → Waste w → Waste (f ++ w)
Waste-cons n f w e (ws, h) = (n ∷ ws, (f, w, e, refl, h))

bind-some {ℓ κ} :
    {A : Type ℓ} {B : Type κ} (o : Option A) (f : A → Option B) {y : B}
    → (o >>= f) ≡ some y
    → (a : A) × (o ≡ some a) × (f a ≡ some y)
bind-some none f h = absurd (cc)
bind-some (some a) f h = (a, refl, h)

some-injective {ℓ} : {A : Type ℓ} {x y : A} → some x ≡ some y → x ≡ y
some-injective h = cc

last_chunk-Waste :
    (size : ℕ) (chunk : Bytes) {c : Bytes}
    → last_chunk size chunk ≡ some c
    → (w : Bytes) → Waste w
    → (v : Bytes) × (c ++ w ≡ chunk ++ v) × Waste v
unfolding last_chunk
last_chunk-Waste size chunk {c} h w waste =
    let padding_len = size - (length chunk + header_len) in
    elim (Bool-cases (ltb 0 padding_len)) [
      | inl room ↦
          let (f, coded, whole) =
            bind-some (encode_waste_frame padding_len) (λ f. some (chunk ++ f)) (rw room at h) in
          let same : chunk ++ f ≡ c = some-injective whole in
          (
            f ++ w,
            ap (λ c. c ++ w) (sym same) ∙ append_assoc chunk f w,
            Waste-cons padding_len f w coded waste,
          )
      | inr full ↦ let same : chunk ≡ c = some-injective (rw full at h) in (w, rw same refl, waste)
    ]

chunk-Waste :
    (size : ℕ) (payload : Bytes) {c : Bytes}
    → (if is_empty payload then encode_waste_frame size else last_chunk size payload) ≡ some c
    → (w : Bytes) → Waste w
    → (v : Bytes) × (c ++ w ≡ payload ++ v) × Waste v
chunk-Waste size [] {c} h w waste = (c ++ w, refl, Waste-cons size c w h waste)
chunk-Waste size (b ∷ bs) h w waste = last_chunk-Waste size (b ∷ bs) h w waste

-- The loop puts out the payload and then waste frames.
pad_loop-Waste :
    (sizes : List ℕ) (payload : Bytes) {r : List Bytes × Bytes}
    → pad_loop sizes payload ≡ some r
    → (w : Bytes) × (concat r.0 ++ r.1 ≡ payload ++ w) × Waste w
unfolding pad_loop
pad_loop-Waste [] payload {r} h =
    let same = some-injective h in
    ([], ap (λ r. concat r.0 ++ r.1) (sym same) ∙ sym (append-nil payload), ([], refl))
pad_loop-Waste (i ∷ sizes) payload {r} h = elim (Bool-cases (i == check_mark)) [
  | inl mark ↦ elim (Bool-cases (is_empty payload)) [
    | inl done ↦
        let same = some-injective (rw (mark, done, pad_loop) at h) in
        ([], ap (λ r. concat r.0 ++ r.1) (sym same) ∙ sym (append-nil payload), ([], refl))
    | inr more ↦ pad_loop-Waste sizes payload (rw (mark, more, pad_loop) at h)
  ]
  | inr plain ↦ elim (Bool-cases (ltb (as_usize i) (length payload))) [
    | inl cut ↦
        let size = as_usize i in
        let (inner, looped, same) =
          bind-some (pad_loop sizes (drop size payload)) (λ o. some (take size payload ∷ o.0, o.1))
            (rw (plain, cut, pad_loop) at h) in
        let (w, sent, waste) = pad_loop-Waste sizes (drop size payload) looped in
        let eq = some-injective same in
        (
          w,
          ap (λ r. concat r.0 ++ r.1) (sym eq)
              ∙ (append_assoc (take size payload) (concat inner.0) inner.1
                  ∙ ap (◌++◌ (take size payload)) sent
                  ∙ sym (append_assoc (take size payload) (drop size payload) w)
                  ∙ ap (λ p. p ++ w) (take-append-drop size payload)),
          waste,
        )
    | inr last ↦
        let size = as_usize i in
        let (chunk, made, more) =
          bind-some (if is_empty payload then encode_waste_frame size else last_chunk size payload)
            (λ c. pad_loop sizes [] >>= λ o. some (c ∷ o.0, o.1))
            (rw (plain, last, pad_loop) at h) in
        let (inner, looped, same) =
          bind-some (pad_loop sizes []) (λ o. some (chunk ∷ o.0, o.1)) more in
        let (w, sent, waste) = pad_loop-Waste sizes [] looped in
        let eq = some-injective same in
        let (v, glued, wasted) = chunk-Waste size payload made w waste in
        (
          v,
          ap (λ r. concat r.0 ++ r.1) (sym eq)
              ∙ append_assoc chunk (concat inner.0) inner.1
              ∙ ap (◌++◌ chunk) sent
              ∙ glued,
          wasted,
        )
  ]
]

or_one_some : (out : List Bytes) → or_one out ≢ []
or_one_some [] e = ground arith
or_one_some (c ∷ cs) e = ground arith

concat-or_one : (out : List Bytes) → concat (or_one out) ≡ concat out
concat-or_one [] = refl
concat-or_one (c ∷ cs) = refl

concat_left :
    (out : List Bytes) (left : Bytes)
    → concat (or_one (if is_empty left then out else out ++ left ∷ [])) ≡ concat out ++ left
concat_left out [] = concat-or_one out ∙ sym (append-nil (concat out))
concat_left out (b ∷ bs) = concat-or_one (out ++ (b ∷ bs) ∷ []) ∙ concat_snoc out (b ∷ bs)
  where
    concat_snoc : (out : List Bytes) (l : Bytes) → concat (out ++ l ∷ []) ≡ concat out ++ l
    concat_snoc [] l = append-nil l
    concat_snoc (c ∷ cs) l = rw (concat_snoc cs l) (sym (append_assoc c (concat cs) l))

-- Whatever the sizes of a record are: what `apply_padding` sends, chunk after chunk, is the payload
-- whole and in order, and then nothing but waste frames; and it sends at least one chunk.
pub apply_padding-Waste :
    (sizes : List ℕ) (payload : Bytes) {out : List Bytes}
    → apply_padding sizes payload ≡ some out
    → ((w : Bytes) × (concat out ≡ payload ++ w) × Waste w) × (out ≢ [])
unfolding apply_padding
apply_padding-Waste [] payload {out} h =
    let same = some-injective h in rw (← same) (([], refl, ([], refl)), λ e. absurd (ground arith))
apply_padding-Waste (i ∷ sizes) payload {out} h =
    let (r, looped, same) =
      bind-some (pad_loop (i ∷ sizes) payload)
        (λ r. some (or_one (if is_empty r.1 then r.0 else r.0 ++ r.1 ∷ []))) h in
    let (w, sent, waste) = pad_loop-Waste (i ∷ sizes) payload looped in
    let eq = some-injective same in
    rw (← eq) (
      (w, concat_left r.0 r.1 ∙ sent, waste),
      or_one_some (if is_empty r.1 then r.0 else r.0 ++ r.1 ∷ []),
    )
