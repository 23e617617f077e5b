-- ===== src/Vless/Response/Skipping.antt =====
-- The header of the response is taken off in whatever pieces it comes, and nothing behind it.
use rabbit_digger_pro.Base.{
  ℕ, zero, suc, ◌+◌, ◌-◌, ◌<◌, ◌≤◌, ◌≡◌, refl, [], ◌∷◌, ◌++◌, true, false, Bytes, ltb, ◌==◌,
  if◌then◌else◌, length, take, drop, All, arith, append_assoc, append-nil, take-append-drop,
  length-take, length-append, Bool-cases, List-cases, inl, inr, ◌⊎◌, ap, sym, ◌∙◌, ltb_false→le,
  ltb→lt,
}
use rabbit_digger_pro.Base.Stream.{
  ready, pending, Arrive, bytes, reset, nothing, Source, source_read, flat,
}
use rabbit_digger_pro.Vless.Header.{vless_version}
use rabbit_digger_pro.Vless.Response.{
  ResponseHeaderStream, again, halt, after_header, after_skipped, resize, skip, turn,
}

-- A stream that neither fails nor ends at this piece: an empty read is the end of a stream.
abbrev pub Piece : Arrive → Type 0
Piece (bytes []) = ⊥
Piece (bytes (c ∷ cs)) = Unit {0}
Piece reset = ⊥
Piece nothing = Unit {0}

-- What a read for at least one byte does to a stream of pieces that is to bring more.
data Comes (inner : Source) (limit : ℕ) : Type 0 where
  waits :
      (later : Source)
      → source_read inner limit ≡ (pending, later)
      → flat inner ≡ flat later
      → All Piece later
      → Comes inner limit
  gets :
      (c : ℕ) (cs : Bytes) (later : Source)
      → source_read inner limit ≡ (ready (c ∷ cs), later)
      → length (c ∷ cs) ≤ limit
      → flat inner ≡ (c ∷ cs) ++ flat later
      → All Piece later
      → Comes inner limit

source_read-Comes :
    (inner : Source) (limit : ℕ)
    → All Piece inner
    → 0 < limit
    → 0 < length (flat inner)
    → Comes inner limit
unfolding source_read
source_read-Comes [] limit fine room some_bytes = absurd (omega arith)
source_read-Comes (reset ∷ rest) limit (fine, _) room some_bytes = absurd fine
source_read-Comes (nothing ∷ rest) limit (_, fine) room some_bytes = waits rest refl refl fine
source_read-Comes (bytes [] ∷ rest) limit (fine, _) room some_bytes = absurd fine
source_read-Comes (bytes (c ∷ cs) ∷ rest) zero (_, fine) room some_bytes = absurd (omega arith)
source_read-Comes (bytes (c ∷ cs) ∷ rest) (suc n) (_, fine) room some_bytes =
    let cut = take-append-drop n cs in
    let short : length (c ∷ take n cs) ≤ suc n = omega (arith, length-take n cs) in
    elim (List-cases (drop n cs)) [
      | inl e ↦
          gets c (take n cs) rest (rw e refl) short
            (ap (λ x. c ∷ (x ++ flat rest))
              (sym cut ∙ ap (λ x. take n cs ++ x) e ∙ append-nil (take n cs)))
            fine
      | inr (d, ds, e) ↦
          gets c (take n cs) (bytes (d ∷ ds) ∷ rest) (rw e refl) short
            (ap (λ x. c ∷ (x ++ flat rest)) (sym cut ∙ ap (λ x. take n cs ++ x) e)
              ∙ ap (λ x. c ∷ x) (append_assoc (take n cs) (d ∷ ds) (flat rest)))
            (tt, fine)
    ]

split_front :
    (todo rest got later : Bytes)
    → todo ++ rest ≡ got ++ later
    → length got ≤ length todo
    → (todo' : Bytes) × (todo ≡ got ++ todo') × (later ≡ todo' ++ rest)
split_front todo rest [] later e h = (todo, refl, sym e)
split_front [] rest (g ∷ gs) later e h = absurd (omega arith)
split_front (t ∷ ts) rest (g ∷ gs) later e h =
    let same : t ≡ g = ground arith in
    let tails : ts ++ rest ≡ gs ++ later = ground arith in
    let (todo', front, back) = split_front ts rest gs later tails (omega arith) in
    (todo', ground (arith), back)

-- The bytes of the header that are still to be taken, in the header itself or behind it.
pub data Owes (st : ResponseHeaderStream) (todo : Bytes) : Type 0 where
  in_header :
      (n : ℕ) (skipping : Bytes)
      → st.is_ready ≡ false
      → st.skipped ≡ 0
      → st.skipped_read ≡ 0
      → length st.header < 2
      → st.header ++ todo ≡ vless_version ∷ n ∷ skipping
      → length skipping ≡ n
      → Owes st todo
  in_skipped :
      (n : ℕ)
      → st.is_ready ≡ false
      → st.header ≡ vless_version ∷ n ∷ []
      → (st.skipped ≡ 0) ⊎ (st.skipped ≡ n)
      → st.skipped_read + length todo ≡ n
      → Owes st todo

-- What a round does on a stream that brings what is owed, and then `rest`.
pub data Advances (st : ResponseHeaderStream) (inner : Source) (todo rest : Bytes) : Type 0 where
  on :
      (st' : ResponseHeaderStream) (later : Source) (todo' : Bytes)
      → turn st inner ≡ again st' later
      → Owes st' todo'
      → flat later ≡ todo' ++ rest
      → All Piece later
      → length todo' < length todo
      → Advances st inner todo rest
  last :
      (st' : ResponseHeaderStream)
      → turn st inner ≡ again st' inner
      → st'.is_ready ≡ true
      → flat inner ≡ rest
      → Advances st inner todo rest
  over :
      (st' : ResponseHeaderStream)
      → turn st inner ≡ halt (ready tt) st' inner
      → st'.is_ready ≡ true
      → flat inner ≡ rest
      → Advances st inner todo rest
  stays :
      (st' : ResponseHeaderStream) (later : Source)
      → turn st inner ≡ halt pending st' later
      → Owes st' todo
      → flat later ≡ todo ++ rest
      → All Piece later
      → Advances st inner todo rest

turn_header :
    (st : ResponseHeaderStream) (inner : Source)
    → length st.header < 2
    → turn st inner ≡ after_header st (source_read inner (2 - length st.header))
unfolding turn
turn_header st inner short = ground arith

two_front :
    (h todo s : Bytes) (a b : ℕ)
    → length h ≡ 2
    → h ++ todo ≡ a ∷ b ∷ s
    → (h ≡ a ∷ b ∷ []) × (todo ≡ s)
two_front [] todo s a b two e = absurd (omega arith)
two_front (x ∷ []) todo s a b two e = absurd (omega arith)
two_front (x ∷ y ∷ []) todo s a b two e = ground arith
two_front (x ∷ y ∷ z ∷ r) todo s a b two e = absurd (omega arith)

header-Advances :
    (st : ResponseHeaderStream) (inner : Source) (todo rest : Bytes) (n : ℕ) (skipping : Bytes)
    → st.is_ready ≡ false
    → st.skipped ≡ 0
    → st.skipped_read ≡ 0
    → length st.header < 2
    → st.header ++ todo ≡ vless_version ∷ n ∷ skipping
    → length skipping ≡ n
    → flat inner ≡ todo ++ rest
    → All Piece inner
    → Advances st inner todo rest
unfolding after_header
header-Advances st inner todo rest n skipping not_yet fresh at_start short whole size brings fine =
    let total : length st.header + length todo ≡ suc (suc (length skipping)) =
      sym (length-append st.header todo) ∙ ap length whole in
    let limit = 2 - length st.header in
    let come : 0 < length (flat inner) = omega (arith, ap length brings, length-append todo rest) in
    let now = turn_header st inner short in
    elim (source_read-Comes inner limit fine (omega arith) come) [
      | waits later e same fine' ↦
          stays st later (now ∙ ap (after_header st) e)
            (in_header n skipping not_yet fresh at_start short whole size) (sym same ∙ brings) fine'
      | gets c cs later e fits same fine' ↦
          let got : Bytes = c ∷ cs in
          let (todo', front, back) =
            split_front todo rest got (flat later) (sym brings ∙ same) (omega arith) in
          let st' = record st { header = st.header ++ got } in
          let whole' : st'.header ++ todo' ≡ vless_version ∷ n ∷ skipping =
            append_assoc st.header got todo' ∙ ap (λ x. st.header ++ x) (sym front) ∙ whole in
          let sizes = length-append st.header got in
          let fewer : length todo' < length todo =
            omega (arith, ap length front, length-append got todo') in
          let owes : Owes st' todo' = elim (Bool-cases (ltb (length st'.header) 2)) [
            | inl still ↦
                in_header n skipping not_yet fresh at_start (ltb→lt (length st'.header) 2 still)
                  whole' size
            | inr full ↦
                let at_least = ltb_false→le (length st'.header) 2 full in
                let (head, tail) =
                  two_front st'.header todo' skipping vless_version n (omega arith) whole' in
                in_skipped n not_yet head (inl fresh) (omega (arith, ap length tail))
          ] in
          on st' later todo' (now ∙ ap (after_header st) e) owes back fine' fewer
    ]

turn-skip :
    (st : ResponseHeaderStream) (inner : Source) (n : ℕ)
    → st.header ≡ vless_version ∷ n ∷ []
    → turn st inner ≡ skip (resize st) inner
unfolding turn
turn-skip st inner n e = rw e refl

resize-skipped :
    (st : ResponseHeaderStream) (n : ℕ)
    → st.header ≡ vless_version ∷ n ∷ []
    → (st.skipped ≡ 0) ⊎ (st.skipped ≡ n)
    → (resize st).skipped ≡ n
unfolding resize
resize-skipped st n e (inl empty) = rw e (rw empty refl)
resize-skipped st n e (inr full) = rw e (rw full (same n))
  where
    same : (n : ℕ) → (if n == 0 then n else n) ≡ n
    same zero = refl
    same (suc n) = ground arith

skip_some :
    (st : ResponseHeaderStream) (inner : Source)
    → st.skipped_read < st.skipped
    → skip st inner ≡ after_skipped st (source_read inner (st.skipped - st.skipped_read))
unfolding skip
skip_some st inner h = ground arith

skip_none :
    (st : ResponseHeaderStream) (inner : Source)
    → 0 < st.skipped
    → st.skipped ≤ st.skipped_read
    → skip st inner ≡ again (record st { is_ready = true }) inner
unfolding skip
skip_none st inner some_bytes h = ground arith

skip_empty :
    (st : ResponseHeaderStream) (inner : Source)
    → st.skipped ≡ 0
    → skip st inner ≡ halt (ready tt) (record st { is_ready = true }) inner
unfolding skip
skip_empty st inner h = ground arith

skipped-Advances :
    (st : ResponseHeaderStream) (inner : Source) (todo rest : Bytes) (n : ℕ)
    → st.is_ready ≡ false
    → st.header ≡ vless_version ∷ n ∷ []
    → (st.skipped ≡ 0) ⊎ (st.skipped ≡ n)
    → st.skipped_read + length todo ≡ n
    → flat inner ≡ todo ++ rest
    → All Piece inner
    → Advances st inner todo rest
unfolding after_skipped resize
skipped-Advances st inner todo rest zero not_yet header sizes left brings fine =
    let size = resize-skipped st 0 header sizes in
    let empty : todo ≡ [] = none_left todo (omega arith) in
    over _ (turn-skip st inner 0 header ∙ skip_empty (resize st) inner size) refl
      (brings ∙ ap (λ x. x ++ rest) empty)
  where
    none_left : (todo : Bytes) → length todo ≡ 0 → todo ≡ []
    none_left [] h = refl
    none_left (t ∷ ts) h = absurd (omega arith)
skipped-Advances st inner [] rest (suc n) not_yet header sizes left brings fine =
    let size = resize-skipped st (suc n) header sizes in
    last _
      (turn-skip st inner (suc n) header ∙ skip_none (resize st) inner (omega arith) (omega arith))
      refl brings
skipped-Advances st inner (t ∷ ts) rest (suc n) not_yet header sizes left brings fine =
    let todo : Bytes = t ∷ ts in
    let size = resize-skipped st (suc n) header sizes in
    let open' = resize st in
    let limit = open'.skipped - open'.skipped_read in
    let come : 0 < length (flat inner) = omega (arith, ap length brings, length-append todo rest) in
    let now = turn-skip st inner (suc n) header ∙ skip_some open' inner (omega arith) in
    elim (source_read-Comes inner limit fine (omega arith) come) [
      | waits later e same fine' ↦
          stays open' later (now ∙ ap (after_skipped open') e)
            (in_skipped (suc n) not_yet header (inr size) left) (sym same ∙ brings) fine'
      | gets c cs later e fits same fine' ↦
          let got : Bytes = c ∷ cs in
          let (todo', front, back) =
            split_front todo rest got (flat later) (sym brings ∙ same) (omega arith) in
          let sizes' = ap length front ∙ length-append got todo' in
          on _ later todo' (now ∙ ap (after_skipped open') e)
            (in_skipped (suc n) not_yet header (inr size) (omega arith)) back fine' (omega arith)
    ]

pub Owes-Advances :
    (st : ResponseHeaderStream) (inner : Source) (todo rest : Bytes)
    → Owes st todo
    → flat inner ≡ todo ++ rest
    → All Piece inner
    → Advances st inner todo rest
Owes-Advances st inner todo rest (in_header n skipping a b c d e f) brings fine =
    header-Advances st inner todo rest n skipping a b c d e f brings fine
Owes-Advances st inner todo rest (in_skipped n a b c d) brings fine =
    skipped-Advances st inner todo rest n a b c d brings fine

pub Owes-is_ready : (st : ResponseHeaderStream) (todo : Bytes) → Owes st todo → st.is_ready ≡ false
Owes-is_ready st todo (in_header n skipping a b c d e f) = a
Owes-is_ready st todo (in_skipped n a b c d) = a
