-- ===== src/Vless/Vision/Pending.antt =====
-- The bytes that are pending are not looked at: the decoder appends to them.
use rabbit_digger_pro.Base.{
  ℕ, zero, suc, ◌≡◌, refl, ◌∷◌, [], ◌++◌, Bytes, take, drop, arith, append_assoc, ◌∙◌, ap,
}
use rabbit_digger_pro.Vless.Vision.{
  VisionStream, Flow, go, return, and_then, pass_through, pass_direct, read_uuid, set_field,
  read_fields, read_header, take_content, set_shared, end_frame, read_content, decode_frame,
}
use rabbit_digger_pro.Vless.Vision.Total.{Decodes, stop, more}

-- The stream with `p` pending in front.
abbrev pub prefix : Bytes → VisionStream → VisionStream
prefix p v = record v { read_pending = p ++ v.read_pending }

abbrev pub prefix_flow : Bytes → Flow → Flow
prefix_flow p (go v) = go (prefix p v)
prefix_flow p (return v) = return (prefix p v)

module _ (p : Bytes) where
  and_then-prefix_flow :
      (f : Flow) (g : VisionStream → Flow)
      → ((v : VisionStream) → g (prefix p v) ≡ prefix_flow p (g v))
      → and_then (prefix_flow p f) g ≡ prefix_flow p (and_then f g)
  and_then-prefix_flow (go v) g h = h v
  and_then-prefix_flow (return v) g h = refl

  pass_direct-prefix : (v : VisionStream) → pass_direct (prefix p v) ≡ prefix_flow p (pass_direct v)
  unfolding pass_direct pass_through
  pass_direct-prefix v = ground (arith, append_assoc p v.read_pending v.read_buf)

  read_uuid-prefix : (v : VisionStream) → read_uuid (prefix p v) ≡ prefix_flow p (read_uuid v)
  unfolding read_uuid pass_through
  read_uuid-prefix v = ground (arith, append_assoc p v.read_pending v.read_buf)

  set_field-prefix :
      (n c : ℕ) (v : VisionStream) → set_field n c (prefix p v) ≡ prefix p (set_field n c v)
  unfolding set_field
  set_field-prefix n c v = ground arith

  read_fields-prefix :
      (n : ℕ) (buf : Bytes) (v : VisionStream)
      → read_fields n buf (prefix p v) ≡ prefix p (read_fields n buf v)
  unfolding read_fields
  read_fields-prefix zero buf v = refl
  read_fields-prefix (suc n) [] v = refl
  read_fields-prefix (suc n) (c ∷ buf) v =
      rw (set_field-prefix (suc n) c v) (read_fields-prefix n buf (set_field (suc n) c v))

  read_header-prefix : (v : VisionStream) → read_header (prefix p v) ≡ prefix_flow p (read_header v)
  unfolding read_header
  read_header-prefix v = ground (arith, read_fields-prefix v.remaining_header v.read_buf v)

  read_content-prefix :
      (v : VisionStream) → read_content (prefix p v) ≡ prefix_flow p (read_content v)
  unfolding read_content take_content end_frame pass_through set_shared
  read_content-prefix v =
      let c = take v.remaining_content v.read_buf in
      let rest = drop v.remaining_padding (drop v.remaining_content v.read_buf) in
      ground (arith, append_assoc p v.read_pending c, append_assoc p (v.read_pending ++ c) rest)

  decode_frame-prefix :
      (v : VisionStream) → decode_frame (prefix p v) ≡ prefix_flow p (decode_frame v)
  unfolding decode_frame
  decode_frame-prefix v =
      let header = λ (u : VisionStream). and_then (read_header u) read_content in
      let uuid = λ (u : VisionStream). and_then (read_uuid u) header in
      let header-prefix : (u : VisionStream) → header (prefix p u) ≡ prefix_flow p (header u) = λ u.
        ap (λ f. and_then f read_content) (read_header-prefix u)
        ∙ and_then-prefix_flow (read_header u) read_content read_content-prefix in
      let uuid-prefix : (u : VisionStream) → uuid (prefix p u) ≡ prefix_flow p (uuid u) = λ u.
        ap (λ f. and_then f header) (read_uuid-prefix u)
        ∙ and_then-prefix_flow (read_uuid u) header header-prefix in
      ap (λ f. and_then f uuid) (pass_direct-prefix v)
      ∙ and_then-prefix_flow (pass_direct v) uuid uuid-prefix

  pub Decodes-prefix : (v w : VisionStream) → Decodes v w → Decodes (prefix p v) (prefix p w)
  Decodes-prefix v w (stop _ _ e) =
      stop (prefix p v) (prefix p w) (decode_frame-prefix v ∙ ap (prefix_flow p) e)
  Decodes-prefix v w (more _ u _ e d) =
      more (prefix p v) (prefix p u) (prefix p w) (decode_frame-prefix v ∙ ap (prefix_flow p) e)
        (Decodes-prefix u w d)
