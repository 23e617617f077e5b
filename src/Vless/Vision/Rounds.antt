-- ===== src/Vless/Vision/Rounds.antt =====
-- A round of the decoder on a stream, and on that stream with more bytes in its buffer.
use rabbit_digger_pro.Base.{
  ℕ, zero, suc, ◌+◌, ◌≤◌, ◌≡◌, refl, [], ◌∷◌, ◌++◌, true, false, Bytes, ltb, ◌==◌, length, take,
  drop, min, bytes_eq, bytes_eq_iff, arith, append_assoc, length-append, length-drop, Bool-cases,
  inl, inr, ◌⊎◌, ap, sym, ◌∙◌, ltb_false→le,
}
use rabbit_digger_pro.Vless.Vision.Total.{direct_now, framed}
use rabbit_digger_pro.Vless.Vision.{
  VisionStream, Flow, go, return, and_then, pass_through, pass_direct, differs, read_uuid,
  set_field, read_fields, read_header, take_content, set_shared, end_frame, read_content,
  decode_frame,
}

-- The stream with more bytes in its buffer.
abbrev pub feed : VisionStream → Bytes → VisionStream
feed v b = record v { read_buf = v.read_buf ++ b }

take_of_append : (n : ℕ) (xs ys : Bytes) → n ≤ length xs → take n (xs ++ ys) ≡ take n xs
take_of_append zero xs ys h = refl
take_of_append (suc n) [] ys h = absurd (omega arith)
take_of_append (suc n) (x ∷ xs) ys h = ap (◌∷◌ x) (take_of_append n xs ys (omega arith))

drop_of_append : (n : ℕ) (xs ys : Bytes) → n ≤ length xs → drop n (xs ++ ys) ≡ drop n xs ++ ys
drop_of_append zero xs ys h = refl
drop_of_append (suc n) [] ys h = absurd (omega arith)
drop_of_append (suc n) (x ∷ xs) ys h = drop_of_append n xs ys (omega arith)

take_of_take : (n m : ℕ) (xs : Bytes) → n ≤ m → take n (take m xs) ≡ take n xs
take_of_take zero m xs h = refl
take_of_take (suc n) zero xs h = absurd (omega arith)
take_of_take (suc n) (suc m) [] h = refl
take_of_take (suc n) (suc m) (x ∷ xs) h = ap (◌∷◌ x) (take_of_take n m xs (omega arith))

differs-append :
    (user_id buf b : Bytes) → differs user_id buf ≡ true → differs user_id (buf ++ b) ≡ true
unfolding differs
differs-append user_id buf b h =
    let p = min (length buf) (length user_id) in
    let q = min (length (buf ++ b)) (length user_id) in
    let p_lt : p ≤ q = omega (arith, length-append buf b) in
    let same : bytes_eq (take q (buf ++ b)) (take q user_id) ≡ true → take p buf ≡ take p user_id =
      λ e.
        let e' = (bytes_eq_iff (take q (buf ++ b)) (take q user_id)).0 e in
        sym (take_of_append p buf b (omega arith))
        ∙ sym (take_of_take p q (buf ++ b) p_lt)
        ∙ ap (take p) e'
        ∙ take_of_take p q user_id p_lt in
    elim (Bool-cases (bytes_eq (take q (buf ++ b)) (take q user_id))) [
      | inl e ↦ let e' = (bytes_eq_iff (take p buf) (take p user_id)).1 (same e) in ground arith
      | inr e ↦ ground arith
    ]

agrees-append :
    (user_id buf b : Bytes)
    → length user_id ≤ length buf
    → differs user_id buf ≡ false
    → differs user_id (buf ++ b) ≡ false
unfolding differs
agrees-append user_id buf b long h =
    let n = length user_id in
    let now : min (length buf) n ≡ n = omega arith in
    let later : min (length (buf ++ b)) n ≡ n = omega (arith, length-append buf b) in
    rw later (rw (take_of_append n buf b long) (rw now at h))

-- What a part of the loop does to a stream, and to that stream with more bytes.
data Outcome (b : Bytes) (f : VisionStream → Flow) (P : VisionStream → Type 0) (v : VisionStream)
    : Type 0 where
  goes : (u : VisionStream) → P u → f v ≡ go u → f (feed v b) ≡ go (feed u b) → Outcome b f P v
  waits : f v ≡ return v → Outcome b f P v
  passes :
      (w : VisionStream)
      → f v ≡ return w
      → w.direct_mode ≡ true
      → f (feed v b) ≡ return (pass_through (feed w b))
      → Outcome b f P v

module _ (b : Bytes) where
  read_uuid-Outcome :
      (v : VisionStream)
      → length v.user_id ≡ 16
      → Outcome b read_uuid (λ u. (u.expect_uuid ≡ false) × (u.direct_mode ≡ v.direct_mode)) v
  unfolding read_uuid pass_through
  read_uuid-Outcome v sixteen = elim (Bool-cases v.expect_uuid) [
    | inr known ↦ goes v (known, refl) (ground arith) (ground arith)
    | inl expected ↦ elim (Bool-cases (differs v.user_id v.read_buf)) [
      | inl other ↦
          passes (record (pass_through v) { direct_mode = true }) (ground arith) refl
            (ground (
              arith,
              append_assoc v.read_pending v.read_buf b,
              differs-append v.user_id v.read_buf b other,
            ))
      | inr same ↦ elim (Bool-cases (ltb (length v.read_buf) 21)) [
        | inl short ↦ waits (ground arith)
        | inr long ↦
            goes
              (record v {
                read_buf = drop 16 v.read_buf;
                expect_uuid = false;
                remaining_header = 5;
              })
              (refl, refl) (ground arith)
              (ground (
                arith,
                agrees-append v.user_id v.read_buf b
                    (omega (arith, ltb_false→le (length v.read_buf) 21 long)) same,
                length-append v.read_buf b,
                drop_of_append 16 v.read_buf b
                    (omega (arith, ltb_false→le (length v.read_buf) 21 long)),
              ))
      ]
    ]
  ]

  set_field-feed :
      (n c : ℕ) (v : VisionStream) → set_field n c (feed v b) ≡ feed (set_field n c v) b
  unfolding set_field
  set_field-feed n c v = ground arith

  read_fields-feed :
      (n : ℕ) (buf : Bytes) (v : VisionStream)
      → n ≤ length buf
      → read_fields n (buf ++ b) (feed v b) ≡ feed (read_fields n buf v) b
  unfolding read_fields
  read_fields-feed zero buf v h = refl
  read_fields-feed (suc n) [] v h = absurd (omega arith)
  read_fields-feed (suc n) (c ∷ buf) v h =
      rw (set_field-feed (suc n) c v) (read_fields-feed n buf (set_field (suc n) c v) (omega arith))

  read_fields_done :
      (n : ℕ) (buf : Bytes) (v : VisionStream)
      → n ≤ length buf
      → let u = read_fields n buf v in
        (u.remaining_header ≡ 0) × (u.expect_uuid ≡ v.expect_uuid) × (u.direct_mode ≡ v.direct_mode)
  unfolding read_fields set_field
  read_fields_done zero buf v h = (refl, refl, refl)
  read_fields_done (suc n) [] v h = absurd (omega arith)
  read_fields_done (suc n) (c ∷ buf) v h =
      ground (arith, read_fields_done n buf (set_field (suc n) c v) (omega arith))

  read_header-Outcome :
      (v : VisionStream)
      → Outcome b read_header
          (λ u.
            (u.remaining_header ≡ 0)
            × (u.expect_uuid ≡ v.expect_uuid)
            × (u.direct_mode ≡ v.direct_mode))
          v
  unfolding read_header
  read_header-Outcome v = elim (Bool-cases (v.remaining_header == 0)) [
    | inl done ↦ goes v (ground arith) (ground arith) (ground arith)
    | inr more ↦ elim (Bool-cases (ltb (length v.read_buf) v.remaining_header)) [
      | inl short ↦ waits (ground arith)
      | inr long ↦
          let enough = ltb_false→le (length v.read_buf) v.remaining_header long in
          goes (read_fields v.remaining_header v.read_buf v)
            (read_fields_done v.remaining_header v.read_buf v enough) (ground arith)
            (ground (
              arith,
              length-append v.read_buf b,
              read_fields-feed v.remaining_header v.read_buf v enough,
            ))
    ]
  ]

  take_content-feed :
      (v : VisionStream)
      → v.remaining_content + v.remaining_padding ≤ length v.read_buf
      → take_content (feed v b) ≡ feed (take_content v) b
  unfolding take_content
  take_content-feed v h =
      let c = v.remaining_content in
      let rest = drop c v.read_buf in
      let size = length-drop c v.read_buf in
      rw
        (
          take_of_append c v.read_buf b (omega arith),
          drop_of_append c v.read_buf b (omega arith),
          drop_of_append v.remaining_padding rest b (omega arith),
        )
        refl

  -- A frame that ends: either another one follows, or the rest goes through.
  end_frame-feed :
      (v : VisionStream)
      → ((u : VisionStream) × (end_frame v ≡ go u) × (end_frame (feed v b) ≡ go (feed u b)))
        ⊎ ((w : VisionStream) × (end_frame v ≡ return w)
            × (w.direct_mode ≡ true)
            × (end_frame (feed v b) ≡ return (pass_through (feed w b))))
  unfolding end_frame pass_through set_shared
  end_frame-feed v = elim (Bool-cases (v.current_command == 0)) [
    | inl more ↦ inl (record v { remaining_header = 5 }, ground arith, ground arith)
    | inr last ↦ inr (
      pass_through (record v { direct_mode = true; shared_read_raw = set_shared v }),
      ground arith,
      refl,
      ground (arith, append_assoc v.read_pending v.read_buf b),
    )
  ]

  read_content-Outcome : (v : VisionStream) → Outcome b read_content (λ _. Unit {0}) v
  unfolding read_content
  read_content-Outcome v =
      let need = v.remaining_content + v.remaining_padding in
      elim (Bool-cases (ltb (length v.read_buf) need)) [
        | inl short ↦ waits (ground arith)
        | inr long ↦
            let enough = ltb_false→le (length v.read_buf) need long in
            let fed = take_content-feed v enough in
            let total = length-append v.read_buf b in
            elim (end_frame-feed (take_content v)) [
              | inl (u, e, f) ↦ goes u tt (ground arith) (ground arith)
              | inr (w, e, d, f) ↦ passes w (ground arith) d (ground arith)
            ]
      ]

  -- What a round does to a stream, and to that stream with more bytes.
  pub data Resumes (v : VisionStream) : Type 0 where
    again :
        (u : VisionStream)
        → decode_frame v ≡ go u
        → decode_frame (feed v b) ≡ go (feed u b)
        → Resumes v
    ends :
        (w : VisionStream)
        → decode_frame v ≡ return w
        → decode_frame (feed v b) ≡ decode_frame (feed w b)
        → Resumes v

  direct_again :
      (w : VisionStream)
      → w.direct_mode ≡ true
      → decode_frame (feed w b) ≡ return (pass_through (feed w b))
  unfolding decode_frame pass_direct
  direct_again w d = rw d refl

  direct_through :
      (v : VisionStream)
      → v.direct_mode ≡ true
      → (decode_frame v ≡ return (pass_through v))
        × (decode_frame (feed v b) ≡ decode_frame (feed (pass_through v) b))
  unfolding decode_frame pass_direct pass_through
  direct_through v d =
      (direct_now v d, rw d (ground (arith, append_assoc v.read_pending v.read_buf b)))

  known_again :
      (u : VisionStream)
      → u.direct_mode ≡ false
      → u.expect_uuid ≡ false
      → decode_frame (feed u b) ≡ and_then (read_header (feed u b)) read_content
  unfolding decode_frame pass_direct read_uuid
  known_again u d e = rw (d, e) refl

  content_again :
      (u : VisionStream)
      → u.direct_mode ≡ false
      → u.expect_uuid ≡ false
      → u.remaining_header ≡ 0
      → decode_frame (feed u b) ≡ read_content (feed u b)
  unfolding decode_frame pass_direct read_uuid read_header
  content_again u d e h = rw (d, e) (ground arith)

  pub decode_frame-Resumes : (v : VisionStream) → length v.user_id ≡ 16 → Resumes v
  decode_frame-Resumes v sixteen = elim (Bool-cases v.direct_mode) [
    | inl direct ↦ let (now, later) = direct_through v direct in ends (pass_through v) now later
    | inr d ↦ elim (read_uuid-Outcome v sixteen) [
      | waits e ↦ ends v (framed v d ∙ rw e refl) refl
      | passes w e on f ↦
          ends w (framed v d ∙ rw e refl) (framed (feed v b) d ∙ rw f (sym (direct_again w on)))
      | goes u (known, same) e f ↦ elim (read_header-Outcome u) [
        | waits e' ↦
            ends u (framed v d ∙ rw (e, e') refl)
              (framed (feed v b) d ∙ rw f (sym (known_again u (same ∙ d) known)))
        | passes w e' on f' ↦
            ends w (framed v d ∙ rw (e, e') refl)
              (framed (feed v b) d ∙ rw (f, f') (sym (direct_again w on)))
        | goes u' (zero_left, known', same') e' f' ↦ elim (read_content-Outcome u') [
          | waits e'' ↦ ends u' (framed v d ∙ rw (e, e', e'') refl) (
              framed (feed v b) d
              ∙ rw (f, f') (sym (content_again u' (same' ∙ same ∙ d) (known' ∙ known) zero_left)))
          | passes w e'' on f'' ↦
              ends w (framed v d ∙ rw (e, e', e'') refl)
                (framed (feed v b) d ∙ rw (f, f', f'') (sym (direct_again w on)))
          | goes u'' any e'' f'' ↦
              again u'' (framed v d ∙ rw (e, e', e'') refl)
                (framed (feed v b) d ∙ rw (f, f', f'') refl)
        ]
      ]
    ]
  ]
