-- ===== src/Vless/Vision/Chunks.antt =====
-- The decoder gives the same whatever chunks the stream comes in.
use rabbit_digger_pro.Base.{
  ◌≡◌, refl, List, [], ◌∷◌, ◌++◌, Option, none, some, Bytes, length, append_assoc, append-nil, ap,
  sym, ◌∙◌, subst,
}
use rabbit_digger_pro.Vless.Vision.{VisionStream, go, return, decode_frame, try_decode_frames}
use rabbit_digger_pro.Vless.Vision.Rounds.{feed, again, ends, decode_frame-Resumes}
use rabbit_digger_pro.Vless.Vision.Total.{
  Decodes, stop, more, try_decode_frames-Decodes, Decodes-unique, stream_of, user,
  user-decode_frame,
}

pub same_round :
    (v v' w : VisionStream) → decode_frame v ≡ decode_frame v' → Decodes v' w → Decodes v w
same_round v v' w e (stop _ _ e') = stop v w (e ∙ e')
same_round v v' w e (more _ u _ e' d) = more v u w (e ∙ e') d

pub user-Decodes : (v w : VisionStream) → Decodes v w → w.user_id ≡ v.user_id
user-Decodes v w (stop _ _ e) = sym (ap user e) ∙ user-decode_frame v
user-Decodes v w (more _ u _ e d) = user-Decodes u w d ∙ sym (ap user e) ∙ user-decode_frame v

-- What comes after a stop is decoded as if it had been there from the first.
pub resume :
    (b : Bytes) (v w z : VisionStream)
    → length v.user_id ≡ 16
    → Decodes v w
    → Decodes (feed w b) z
    → Decodes (feed v b) z
resume b v w z sixteen (stop _ _ e) later = elim (decode_frame-Resumes b v sixteen) [
  | again u e' f ↦ let clash : go u ≡ return w = sym e' ∙ e in cc
  | ends w' e' f ↦
      let same : w' ≡ w = ap stream_of (sym e' ∙ e) in
      same_round (feed v b) (feed w b) z (f ∙ ap (λ x. decode_frame (feed x b)) same) later
]
resume b v w z sixteen (more _ u _ e d) later = elim (decode_frame-Resumes b v sixteen) [
  | ends w' e' f ↦ let clash : return w' ≡ go u = sym e' ∙ e in cc
  | again u' e' f ↦
      let same : u' ≡ u = ap stream_of (sym e' ∙ e) in
      let user_id : u.user_id ≡ v.user_id = sym (ap user e) ∙ user-decode_frame v in
      more (feed v b) (feed u b) z (f ∙ ap (λ x. go (feed x b)) same)
        (resume b u w z (ap length user_id ∙ sixteen) d later)
]

-- The chunks come one after the other, and the decoder runs at each of them.
abbrev pub decode_chunks : VisionStream → List Bytes → Option VisionStream
decode_chunks v [] = some v
decode_chunks v (c ∷ cs) = elim (try_decode_frames (feed v c)) [
  | some w ↦ decode_chunks w cs
  | none ↦ none
]

abbrev pub concat : List Bytes → Bytes
concat [] = []
concat (c ∷ cs) = c ++ concat cs

decode_chunks-cons :
    (v u : VisionStream) (c : Bytes) (cs : List Bytes)
    → try_decode_frames (feed v c) ≡ some u
    → decode_chunks v (c ∷ cs) ≡ decode_chunks u cs
decode_chunks-cons v u c cs e = rw (e, decode_chunks) refl

pub decode_chunks-Decodes :
    (v : VisionStream) (c : Bytes) (cs : List Bytes)
    → length v.user_id ≡ 16
    → (w : VisionStream) × (decode_chunks v (c ∷ cs) ≡ some w)
      × Decodes (feed v (concat (c ∷ cs))) w
decode_chunks-Decodes v c [] sixteen =
    let (w, e, d) = try_decode_frames-Decodes (feed v c) in
    (w, decode_chunks-cons v w c [] e, subst (λ b. Decodes (feed v b) w) (sym (append-nil c)) d)
decode_chunks-Decodes v c (c' ∷ cs) sixteen =
    let (u, e, d) = try_decode_frames-Decodes (feed v c) in
    let (w, e', d') =
      decode_chunks-Decodes u c' cs (ap length (user-Decodes (feed v c) u d) ∙ sixteen) in
    let whole = resume (concat (c' ∷ cs)) (feed v c) u w sixteen d d' in
    (
      w,
      decode_chunks-cons v u c (c' ∷ cs) e ∙ e',
      subst (λ b. Decodes (record v { read_buf = b }) w)
          (append_assoc v.read_buf c (concat (c' ∷ cs))) whole,
    )

-- From any state of a stream with a user id of sixteen bytes, the chunks of the input bring the decoder
-- to the state, and to the bytes passed up, that it reaches on the whole input at once.
pub decode_chunks-try_decode_frames :
    (v : VisionStream) (c : Bytes) (cs : List Bytes)
    → length v.user_id ≡ 16
    → (w : VisionStream) × (decode_chunks v (c ∷ cs) ≡ some w)
      × (try_decode_frames (feed v (concat (c ∷ cs))) ≡ some w)
decode_chunks-try_decode_frames v c cs sixteen =
    let (w, e, d) = decode_chunks-Decodes v c cs sixteen in
    let (w', e', d') = try_decode_frames-Decodes (feed v (concat (c ∷ cs))) in
    (w, e, e' ∙ ap some (Decodes-unique (feed v (concat (c ∷ cs))) w' w d' d))
