-- ===== src/Vless/Vision/Total.antt =====
-- The decoder keeps the user id, and comes to an end.
use rabbit_digger_pro.Base.{
  ℕ, zero, suc, ◌+◌, ◌<◌, ◌≤◌, ◌≡◌, refl, ◌∷◌, [], some, Bool, true, false, Bytes, ◌==◌, length,
  drop, arith, length-drop, Bool-cases, inl, inr, ◌⊎◌, ltb, subst, ltb_false→le, ◌∙◌, ap, sym,
}
use rabbit_digger_pro.Vless.Vision.{
  VisionStream, Flow, go, return, and_then, pass_through, pass_direct, read_uuid, set_field,
  read_fields, read_header, take_content, end_frame, read_content, decode_frame, decode_loop,
  try_decode_frames,
}

abbrev pub stream_of : Flow → VisionStream
stream_of (go v) = v
stream_of (return v) = v

abbrev pub user : Flow → Bytes
user f = (stream_of f).user_id

user-and_then :
    (f : Flow) (g : VisionStream → Flow)
    → ((v : VisionStream) → user (g v) ≡ v.user_id)
    → user (and_then f g) ≡ user f
user-and_then (go v) g h = h v
user-and_then (return v) g h = refl

user-read_uuid : (v : VisionStream) → user (read_uuid v) ≡ v.user_id
unfolding read_uuid pass_through
user-read_uuid v = ground arith

user-read_fields :
    (n : ℕ) (buf : Bytes) (v : VisionStream) → (read_fields n buf v).user_id ≡ v.user_id
unfolding read_fields set_field
user-read_fields zero buf v = refl
user-read_fields (suc n) [] v = refl
user-read_fields (suc n) (c ∷ buf) v =
    ground (arith, user-read_fields n buf (set_field (suc n) c v))

user-read_header : (v : VisionStream) → user (read_header v) ≡ v.user_id
unfolding read_header
user-read_header v = ground (arith, user-read_fields v.remaining_header v.read_buf v)

user-read_content : (v : VisionStream) → user (read_content v) ≡ v.user_id
unfolding read_content take_content end_frame pass_through
user-read_content v = ground arith

pub direct_now :
    (v : VisionStream) → v.direct_mode ≡ true → decode_frame v ≡ return (pass_through v)
unfolding decode_frame pass_direct
direct_now v d = rw d refl

pub framed :
    (v : VisionStream)
    → v.direct_mode ≡ false
    → decode_frame v ≡ and_then (read_uuid v) (λ u. and_then (read_header u) read_content)
unfolding decode_frame pass_direct
framed v d = rw d refl

pub user-decode_frame : (v : VisionStream) → user (decode_frame v) ≡ v.user_id
unfolding pass_through
user-decode_frame v =
    let body = λ (u : VisionStream). and_then (read_header u) read_content in
    let header : (u : VisionStream) → user (body u) ≡ u.user_id =
      λ u. user-and_then (read_header u) read_content user-read_content ∙ user-read_header u in
    let whole = user-and_then (read_uuid v) body header ∙ user-read_uuid v in
    elim (Bool-cases v.direct_mode) [
      | inl d ↦ rw (direct_now v d) refl
      | inr d ↦ rw (framed v d) whole
    ]

-- What holds of the stream that another round gets.
abbrev IfGo : (VisionStream → Type 0) → Flow → Type 0
IfGo P (go u) = P u
IfGo P (return u) = Unit {0}

IfGo-and_then :
    (P Q : VisionStream → Type 0) (f : Flow) (g : VisionStream → Flow)
    → IfGo P f
    → ((u : VisionStream) → P u → IfGo Q (g u))
    → IfGo Q (and_then f g)
IfGo-and_then P Q (go u) g p h = h u p
IfGo-and_then P Q (return u) g p h = tt

-- A stream whose buffer is no longer than `n`, which wants a header if `wants` does.
abbrev Near : ℕ → Bool → VisionStream → Type 0
Near n wants u = (length u.read_buf ≤ n) × (wants ≡ true → u.remaining_header ≡ 5)

abbrev Shorter : ℕ → Bool → VisionStream → Type 0
Shorter n wants u = (length u.read_buf ≤ n) × (wants ≡ true → length u.read_buf < n)

read_uuid-Near :
    (v : VisionStream) → IfGo (Near (length v.read_buf) (v.remaining_header == 5)) (read_uuid v)
unfolding read_uuid pass_through
read_uuid-Near v = ground (arith, length-drop 16 v.read_buf)

length-read_fields :
    (n : ℕ) (buf : Bytes) (v : VisionStream)
    → n ≤ length buf
    → length (read_fields n buf v).read_buf + n ≡ length buf
unfolding read_fields
length-read_fields zero buf v h = omega arith
length-read_fields (suc n) [] v h = absurd (omega arith)
length-read_fields (suc n) (c ∷ buf) v h =
    omega (arith, length-read_fields n buf (set_field (suc n) c v) (omega arith))

read_header-Shorter :
    (n : ℕ) (wants : Bool) (v : VisionStream)
    → Near n wants v
    → IfGo (Shorter n wants) (read_header v)
unfolding read_header
read_header-Shorter n wants v (small, wanted) = elim (Bool-cases (v.remaining_header == 0)) [
  | inl done ↦ ground arith
  | inr more ↦ elim (Bool-cases (ltb (length v.read_buf) v.remaining_header)) [
    | inl short ↦ ground arith
    | inr long ↦
        let enough = ltb_false→le (length v.read_buf) v.remaining_header long in
        ground (arith, length-read_fields v.remaining_header v.read_buf v enough)
  ]
]

-- A stream that another round gets.
abbrev Next : ℕ → Bool → VisionStream → Type 0
Next n wants u = (u.remaining_header ≡ 5) × Shorter n wants u

read_content-Next :
    (n : ℕ) (wants : Bool) (v : VisionStream)
    → Shorter n wants v
    → IfGo (Next n wants) (read_content v)
unfolding read_content take_content end_frame pass_through
read_content-Next n wants v (small, smaller) =
    let c = length-drop v.remaining_content v.read_buf in
    let p = length-drop v.remaining_padding (drop v.remaining_content v.read_buf) in ground (arith)

decode_frame-Next :
    (v : VisionStream) → IfGo (Next (length v.read_buf) (v.remaining_header == 5)) (decode_frame v)
decode_frame-Next v =
    let n = length v.read_buf in
    let wants = v.remaining_header == 5 in
    let whole =
      IfGo-and_then (Near n wants) (Next n wants) (read_uuid v)
        (λ u. and_then (read_header u) read_content) (read_uuid-Near v)
        (λ u near.
          IfGo-and_then (Shorter n wants) (Next n wants) (read_header u) read_content
            (read_header-Shorter n wants u near) (read_content-Next n wants)) in
    elim (Bool-cases v.direct_mode) [
      | inl d ↦ rw (direct_now v d) tt
      | inr d ↦ rw (framed v d) whole
    ]

-- The stream that the loop ends with.
pub data Decodes : VisionStream → VisionStream → Type 0 where
  stop : (v w : VisionStream) → decode_frame v ≡ return w → Decodes v w
  more : (v u w : VisionStream) → decode_frame v ≡ go u → Decodes u w → Decodes v w

Flow-cases : (f : Flow) → ((u : VisionStream) × (f ≡ go u)) ⊎ ((w : VisionStream) × (f ≡ return w))
Flow-cases (go u) = inl (u, refl)
Flow-cases (return w) = inr (w, refl)

go-Next :
    (v u : VisionStream)
    → decode_frame v ≡ go u
    → Next (length v.read_buf) (v.remaining_header == 5) u
go-Next v u e =
    subst (IfGo (Next (length v.read_buf) (v.remaining_header == 5))) e (decode_frame-Next v)

decode_loop-go :
    (fuel : ℕ) (v u : VisionStream)
    → decode_frame v ≡ go u
    → decode_loop (suc fuel) v ≡ decode_loop fuel u
unfolding decode_loop
decode_loop-go fuel v u e = rw (e, decode_loop) refl

decode_loop-return :
    (fuel : ℕ) (v w : VisionStream) → decode_frame v ≡ return w → decode_loop (suc fuel) v ≡ some w
unfolding decode_loop
decode_loop-return fuel v w e = rw (e, decode_loop) refl

decode_loop_header :
    (fuel : ℕ) (v : VisionStream)
    → v.remaining_header ≡ 5
    → length v.read_buf < fuel
    → (w : VisionStream) × (decode_loop fuel v ≡ some w)
decode_loop_header zero v five enough = absurd (omega arith)
decode_loop_header (suc fuel) v five enough = elim (Flow-cases (decode_frame v)) [
  | inr (w, e) ↦ (w, decode_loop-return fuel v w e)
  | inl (u, e) ↦
      let (five', (small, smaller)) = go-Next v u e in
      let (w, rest) = decode_loop_header fuel u five' (omega (arith, smaller (ground arith))) in
      (w, decode_loop-go fuel v u e ∙ rest)
]

-- The loop comes to an end, in whatever state it begins.
pub try_decode_frames_total :
    (v : VisionStream) → (w : VisionStream) × (try_decode_frames v ≡ some w)
unfolding try_decode_frames
try_decode_frames_total v =
    let n = length v.read_buf in
    elim (Flow-cases (decode_frame v)) [
      | inr (w, e) ↦ (w, decode_loop-return (suc n) v w e)
      | inl (u, e) ↦
          let (five', (small, smaller)) = go-Next v u e in
          let (w, rest) = decode_loop_header (suc n) u five' (omega arith) in
          (w, decode_loop-go (suc n) v u e ∙ rest)
    ]

decode_loop→Decodes : (fuel : ℕ) (v w : VisionStream) → decode_loop fuel v ≡ some w → Decodes v w
unfolding decode_loop
decode_loop→Decodes zero v w e = cc
decode_loop→Decodes (suc fuel) v w e = elim (Flow-cases (decode_frame v)) [
  | inr (w', e') ↦ let same : return w' ≡ return w = ground arith in stop v w (e' ∙ same)
  | inl (u, e') ↦ more v u w e' (decode_loop→Decodes fuel u w (ground arith))
]

pub try_decode_frames-Decodes :
    (v : VisionStream) → (w : VisionStream) × (try_decode_frames v ≡ some w) × Decodes v w
unfolding try_decode_frames
try_decode_frames-Decodes v =
    let (w, e) = try_decode_frames_total v in
    (w, e, decode_loop→Decodes (suc (suc (length v.read_buf))) v w e)

pub Decodes-unique : (v w w' : VisionStream) → Decodes v w → Decodes v w' → w ≡ w'
Decodes-unique v w w' (stop _ _ e) (stop _ _ e') = ap stream_of (sym e ∙ e')
Decodes-unique v w w' (stop _ _ e) (more _ u' _ e' d') =
    let clash : return w ≡ go u' = sym e ∙ e' in cc
Decodes-unique v w w' (more _ u _ e d) (stop _ _ e') =
    let clash : go u ≡ return w' = sym e ∙ e' in cc
Decodes-unique v w w' (more _ u _ e d) (more _ u' _ e' d') =
    let same : u' ≡ u = ap stream_of (sym e' ∙ e) in
    Decodes-unique u w w' d (subst (λ x. Decodes x w') same d')
