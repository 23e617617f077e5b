-- ===== src/Vless/Vision/Settled.antt =====
-- Once the decoder lets everything through, it keeps nothing back.
use rabbit_digger_pro.Base.{
  ℕ, zero, suc, ◌≡◌, refl, ◌∷◌, [], true, false, Bytes, arith, Bool-cases, inl, inr, ◌∙◌, sym,
  subst,
}
use rabbit_digger_pro.Vless.Vision.{
  VisionStream, Flow, go, return, and_then, pass_through, read_uuid, set_field, read_fields,
  read_header, take_content, end_frame, read_content, decode_frame,
}
use rabbit_digger_pro.Vless.Vision.Total.{Decodes, stop, more, direct_now, framed}

abbrev pub Settled : VisionStream → Type 0
Settled v = v.direct_mode ≡ true → v.read_buf ≡ []

abbrev Sound : Flow → Type 0
Sound (go u) = u.direct_mode ≡ false
Sound (return u) = Settled u

Sound-and_then :
    (f : Flow) (g : VisionStream → Flow)
    → Sound f
    → ((u : VisionStream) → u.direct_mode ≡ false → Sound (g u))
    → Sound (and_then f g)
Sound-and_then (go u) g s h = h u s
Sound-and_then (return u) g s h = s

read_uuid-Sound : (v : VisionStream) → v.direct_mode ≡ false → Sound (read_uuid v)
unfolding read_uuid pass_through
read_uuid-Sound v d = ground arith

read_fields_direct :
    (n : ℕ) (buf : Bytes) (v : VisionStream) → (read_fields n buf v).direct_mode ≡ v.direct_mode
unfolding read_fields set_field
read_fields_direct zero buf v = refl
read_fields_direct (suc n) [] v = refl
read_fields_direct (suc n) (c ∷ buf) v =
    ground (arith, read_fields_direct n buf (set_field (suc n) c v))

read_header-Sound : (v : VisionStream) → v.direct_mode ≡ false → Sound (read_header v)
unfolding read_header
read_header-Sound v d = ground (arith, read_fields_direct v.remaining_header v.read_buf v)

read_content-Sound : (v : VisionStream) → v.direct_mode ≡ false → Sound (read_content v)
unfolding read_content take_content end_frame pass_through
read_content-Sound v d = ground arith

decode_frame-Settled : (v w : VisionStream) → decode_frame v ≡ return w → Settled w
unfolding pass_through
decode_frame-Settled v w e = elim (Bool-cases v.direct_mode) [
  | inl d ↦ subst Sound (sym (direct_now v d) ∙ e) (λ (on : v.direct_mode ≡ true). refl)
  | inr d ↦
      let whole =
        Sound-and_then (read_uuid v) (λ u. and_then (read_header u) read_content)
          (read_uuid-Sound v d)
          (λ u d'.
            Sound-and_then (read_header u) read_content (read_header-Sound u d')
              read_content-Sound) in
      subst Sound (sym (framed v d) ∙ e) whole
]

pub Decodes-Settled : (v w : VisionStream) → Decodes v w → Settled w
Decodes-Settled v w (stop _ _ e) = decode_frame-Settled v w e
Decodes-Settled v w (more _ u _ e d) = Decodes-Settled u w d
