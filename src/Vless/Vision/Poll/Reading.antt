-- ===== src/Vless/Vision/Poll/Reading.antt =====
-- What `poll_read` passes up is what the decoder makes of the stream.
use rabbit_digger_pro.Base.{
  ℕ, zero, suc, ◌<◌, ◌≡◌, refl, [], ◌∷◌, ◌++◌, Option, none, some, true, false, Bytes, length, take,
  drop, min, is_empty, arith, append_assoc, take-append-drop, length-append, Bool-cases, List-cases,
  inl, inr, ap, sym, ◌∙◌, subst,
}
use rabbit_digger_pro.Base.Stream.{
  Poll, ready, failed, pending, Source, source_read, flat, Brings, source_read-Brings,
}
use rabbit_digger_pro.Vless.Vision.{VisionStream, pass_through, try_decode_frames}
use rabbit_digger_pro.Vless.Vision.Chunks.{resume, user-Decodes}
use rabbit_digger_pro.Vless.Vision.Pending.{prefix, Decodes-prefix}
use rabbit_digger_pro.Vless.Vision.Poll.{
  Polled, take_pending, after_read, after_decode, read_loop, read_direct, poll_read,
}
use rabbit_digger_pro.Vless.Vision.Rounds.{feed}
use rabbit_digger_pro.Vless.Vision.Settled.{Settled, Decodes-Settled}
use rabbit_digger_pro.Vless.Vision.Total.{
  Decodes, stop, direct_now, try_decode_frames-Decodes, Decodes-unique,
}

abbrev pending_of : Option VisionStream → Bytes
pending_of none = []
pending_of (some w) = w.read_pending

-- What the stream is still to pass up: what the decoder makes of all that is to come.
abbrev pub decoded : VisionStream → Source → Bytes
decoded v inner = pending_of (try_decode_frames (feed v (flat inner)))

-- A stream that is set up, and has let through what it is to let through.
pub record IsValid (v : VisionStream) : Type 0 where
  pub sixteen : length v.user_id ≡ 16
  pub settled : Settled v

-- Of `before`, the poll has passed up the first bytes, and the others are still to come.
abbrev pub Passes : Bytes → Polled → Type 0
Passes before (ready got, v, inner) = (before ≡ got ++ decoded v inner) × IsValid v
Passes before (failed, v, inner) = (before ≡ decoded v inner) × IsValid v
Passes before (pending, v, inner) = (before ≡ decoded v inner) × IsValid v

decoded-Decodes :
    (v w : VisionStream) (inner : Source)
    → Decodes (feed v (flat inner)) w
    → decoded v inner ≡ w.read_pending
decoded-Decodes v w inner d =
    let (w', e, d') = try_decode_frames-Decodes (feed v (flat inner)) in
    ap pending_of e
    ∙ ap (λ (x : VisionStream). x.read_pending) (Decodes-unique (feed v (flat inner)) w' w d' d)

-- What has been decoded need not be decoded again.
decoded_further :
    (v w : VisionStream) (inner : Source)
    → length v.user_id ≡ 16
    → Decodes v w
    → decoded v inner ≡ decoded w inner
decoded_further v w inner sixteen d =
    let (z, e, d') = try_decode_frames-Decodes (feed w (flat inner)) in
    decoded-Decodes v z inner (resume (flat inner) v w z sixteen d d') ∙ sym (ap pending_of e)

decoded-prefix :
    (p : Bytes) (v : VisionStream) (inner : Source)
    → decoded (prefix p v) inner ≡ p ++ decoded v inner
decoded-prefix p v inner =
    let (z, e, d) = try_decode_frames-Decodes (feed v (flat inner)) in
    decoded-Decodes (prefix p v) (prefix p z) inner (Decodes-prefix p (feed v (flat inner)) z d)
    ∙ ap (λ o. p ++ pending_of o) (sym e)

take_pending-Passes :
    (v : VisionStream) (inner : Source) (limit : ℕ)
    → IsValid v
    → Passes (decoded v inner) (take_pending v inner limit)
unfolding take_pending
take_pending-Passes v inner limit valid =
    let k = min (length v.read_pending) limit in
    let left = record v { read_pending = drop k v.read_pending } in
    let whole : decoded v inner ≡ decoded (prefix (take k v.read_pending) left) inner =
      ap (λ p. decoded (record v { read_pending = p }) inner)
        (sym (take-append-drop k v.read_pending)) in
    (
      whole ∙ decoded-prefix (take k v.read_pending) left inner,
      record { sixteen = valid.sixteen; settled = valid.settled },
    )

decoded_direct :
    (v : VisionStream) (inner : Source)
    → v.direct_mode ≡ true
    → v.read_buf ≡ []
    → v.read_pending ≡ []
    → decoded v inner ≡ flat inner
unfolding pass_through
decoded_direct v inner direct empty nothing_pending =
    let fed = feed v (flat inner) in
    decoded-Decodes v (pass_through fed) inner (stop fed (pass_through fed) (direct_now fed direct))
    ∙ ap (λ p. p ++ (v.read_buf ++ flat inner)) nothing_pending
    ∙ ap (λ b. b ++ flat inner) empty

read_direct-Passes :
    (v : VisionStream) (inner : Source) (polled : Poll Bytes × Source)
    → IsValid v
    → v.direct_mode ≡ true
    → v.read_pending ≡ []
    → Brings (flat inner) polled
    → Passes (decoded v inner) (read_direct v polled)
unfolding read_direct
read_direct-Passes v inner (ready got, later) valid direct nothing_pending brings =
    let flatly = λ (s : Source). decoded_direct v s direct (valid.settled direct) nothing_pending in
    (flatly inner ∙ brings ∙ ap (λ b. got ++ b) (sym (flatly later)), valid)
read_direct-Passes v inner (failed, later) valid direct nothing_pending brings =
    (ap (λ b. pending_of (try_decode_frames (feed v b))) brings, valid)
read_direct-Passes v inner (pending, later) valid direct nothing_pending brings =
    (ap (λ b. pending_of (try_decode_frames (feed v b))) brings, valid)

-- A poll that returns, and what it passes up.
abbrev Done : Bytes → Option Polled → Type 0
Done before r = (x : Polled) × (r ≡ some x) × Passes before x

after_read-Done :
    (next : VisionStream → Source → Option Polled) (w : VisionStream) (inner : Source)
    (polled : Poll Bytes × Source)
    → IsValid w
    → Brings (flat inner) polled
    → ((v : VisionStream) (later : Source)
        → length v.user_id ≡ 16
        → length (flat later) < length (flat inner)
        → Done (decoded v later) (next v later))
    → Done (decoded w inner) (after_read next w polled)
unfolding after_read
after_read-Done next w inner (ready [], later) valid brings ih = (
  (ready [], w, later),
  refl,
  (ap (λ b. pending_of (try_decode_frames (feed w b))) brings, valid),
)
after_read-Done next w inner (ready (c ∷ cs), later) valid brings ih =
    let got : Bytes = c ∷ cs in
    let v = record w { read_buf = w.read_buf ++ got } in
    let fewer : length (flat later) < length (flat inner) =
      omega (arith, ap length brings, length-append got (flat later)) in
    let same : decoded w inner ≡ decoded v later =
      ap (λ b. pending_of (try_decode_frames (feed w b))) brings
      ∙ ap (λ b. pending_of (try_decode_frames (record w { read_buf = b })))
          (sym (append_assoc w.read_buf got (flat later))) in
    subst (λ b. Done b (next v later)) (sym same) (ih v later valid.sixteen fewer)
after_read-Done next w inner (failed, later) valid brings ih =
    ((failed, w, later), refl, (ap (λ b. pending_of (try_decode_frames (feed w b))) brings, valid))
after_read-Done next w inner (pending, later) valid brings ih =
    ((pending, w, later), refl, (ap (λ b. pending_of (try_decode_frames (feed w b))) brings, valid))

after_decode-Done :
    (next : VisionStream → Source → Option Polled) (w : VisionStream) (inner : Source) (limit : ℕ)
    → IsValid w
    → ((v : VisionStream) (later : Source)
        → length v.user_id ≡ 16
        → length (flat later) < length (flat inner)
        → Done (decoded v later) (next v later))
    → Done (decoded w inner) (after_decode next inner limit (some w))
unfolding after_decode
after_decode-Done next w inner limit valid ih = elim (Bool-cases (is_empty w.read_pending)) [
  | inr kept ↦ rw kept (take_pending w inner limit, refl, take_pending-Passes w inner limit valid)
  | inl none_left ↦ rw none_left (
      after_read-Done next w inner (source_read inner 4096) valid (source_read-Brings inner 4096)
        ih)
]

read_loop-Done :
    (fuel : ℕ) (v : VisionStream) (inner : Source) (limit : ℕ)
    → length v.user_id ≡ 16
    → length (flat inner) < fuel
    → Done (decoded v inner) (read_loop fuel v inner limit)
unfolding read_loop
read_loop-Done zero v inner limit sixteen enough = absurd (omega arith)
read_loop-Done (suc fuel) v inner limit sixteen enough =
    let (w, e, d) = try_decode_frames-Decodes v in
    let next = λ (v : VisionStream) (inner : Source). read_loop fuel v inner limit in
    let valid : IsValid w = record {
      sixteen = ap length (user-Decodes v w d) ∙ sixteen;
      settled = Decodes-Settled v w d;
    } in
    let ih : (v : VisionStream) (later : Source)
        → length v.user_id ≡ 16
        → length (flat later) < length (flat inner)
        → Done (decoded v later) (next v later) =
      λ v later sixteen fewer. read_loop-Done fuel v later limit sixteen (omega arith) in
    subst (λ b. Done b (after_decode next inner limit (try_decode_frames v)))
      (sym (decoded_further v w inner sixteen d))
      (subst (λ o. Done (decoded w inner) (after_decode next inner limit o)) (sym e)
        (after_decode-Done next w inner limit valid ih))

poll_read-take_pending :
    (fuel : ℕ) (v : VisionStream) (inner : Source) (limit : ℕ)
    → is_empty v.read_pending ≡ false
    → poll_read fuel v inner limit ≡ some (take_pending v inner limit)
unfolding poll_read
poll_read-take_pending fuel v inner limit e = ground arith

poll_read-read_direct :
    (fuel : ℕ) (v : VisionStream) (inner : Source) (limit : ℕ)
    → is_empty v.read_pending ≡ true
    → v.direct_mode ≡ true
    → poll_read fuel v inner limit ≡ some (read_direct v (source_read inner limit))
unfolding poll_read
poll_read-read_direct fuel v inner limit e d = ground arith

poll_read-read_loop :
    (fuel : ℕ) (v : VisionStream) (inner : Source) (limit : ℕ)
    → is_empty v.read_pending ≡ true
    → v.direct_mode ≡ false
    → poll_read fuel v inner limit ≡ read_loop fuel v inner limit
unfolding poll_read
poll_read-read_loop fuel v inner limit e d = ground arith

-- A read returns in at most as many rounds as bytes are to come, and one more. It passes up the next
-- bytes of what the decoder makes of the stream, in whatever pieces that comes, and leaves the others
-- for the reads to come; it loses none when it fails or waits, and the stream stays valid.
pub poll_read-Passes :
    (v : VisionStream) (inner : Source) (limit : ℕ)
    → IsValid v
    → (x : Polled) × (poll_read (suc (length (flat inner))) v inner limit ≡ some x)
      × Passes (decoded v inner) x
poll_read-Passes v inner limit valid =
    let fuel = suc (length (flat inner)) in
    elim (List-cases v.read_pending) [
      | inr (c, cs, e) ↦ (
        take_pending v inner limit,
        poll_read-take_pending fuel v inner limit (ap is_empty e),
        take_pending-Passes v inner limit valid,
      )
      | inl e ↦ elim (Bool-cases v.direct_mode) [
        | inl direct ↦ (
          read_direct v (source_read inner limit),
          poll_read-read_direct fuel v inner limit (ap is_empty e) direct,
          read_direct-Passes v inner (source_read inner limit) valid direct e
              (source_read-Brings inner limit),
        )
        | inr framed ↦
            let (x, r, passes) = read_loop-Done fuel v inner limit valid.sixteen (omega arith) in
            (x, poll_read-read_loop fuel v inner limit (ap is_empty e) framed ∙ r, passes)
      ]
    ]
