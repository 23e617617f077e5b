-- ===== src/Vless/Response/Reading.antt =====
-- The reads of a stream whose response header is still to come: they give what is behind the header.
use rabbit_digger_pro.Base.{
  ℕ, zero, suc, ◌+◌, ◌<◌, ◌≤◌, ◌≡◌, refl, List, [], ◌∷◌, ◌++◌, Option, none, some, true, false,
  Bytes, length, drop, is_empty, if◌then◌else◌, All, arith, append_assoc, ap, sym, subst, ◌∙◌,
}
use rabbit_digger_pro.Base.Stream.{
  Poll, ready, failed, pending, bytes, reset, nothing, Source, source_read, flat, Brings,
  source_read-Brings,
}
use rabbit_digger_pro.Vless.Header.{vless_version}
use rabbit_digger_pro.Vless.Response.{
  ResponseHeaderStream, new, turn, Polled, follow, poll_ready_header, after_ready, poll_read,
}
use rabbit_digger_pro.Vless.Response.Skipping.{
  Piece, Owes, in_header, on, last, over, stays, Owes-Advances, Owes-is_ready,
}

-- What is to come on the stream: the header's bytes and then `rest`, or, with the header taken, `rest`.
pub data Before (st : ResponseHeaderStream) (inner : Source) (rest : Bytes) : Type 0 where
  owing :
      (todo : Bytes)
      → Owes st todo
      → length todo ≤ 257
      → flat inner ≡ todo ++ rest
      → All Piece inner
      → Before st inner rest
  done : st.is_ready ≡ true → flat inner ≡ rest → All Piece inner → Before st inner rest

-- The poll takes the header off, or waits for more of it.
data Skips (polled : Option Polled) (rest : Bytes) : Type 0 where
  skipped :
      (st : ResponseHeaderStream) (inner : Source)
      → polled ≡ some (ready tt, st, inner)
      → st.is_ready ≡ true
      → flat inner ≡ rest
      → All Piece inner
      → Skips polled rest
  waiting :
      (st : ResponseHeaderStream) (inner : Source)
      → polled ≡ some (pending, st, inner)
      → Before st inner rest
      → Skips polled rest

poll_ready_header-ready :
    (fuel : ℕ) (st : ResponseHeaderStream) (inner : Source)
    → st.is_ready ≡ true
    → poll_ready_header (suc fuel) st inner ≡ some (ready tt, st, inner)
unfolding poll_ready_header
poll_ready_header-ready fuel st inner e = rw e refl

poll_ready_header-follow :
    (fuel : ℕ) (st : ResponseHeaderStream) (inner : Source)
    → st.is_ready ≡ false
    → poll_ready_header (suc fuel) st inner
      ≡ follow (λ st inner. poll_ready_header fuel st inner) (turn st inner)
unfolding poll_ready_header
poll_ready_header-follow fuel st inner e = rw e refl

Skips-subst : (a b : Option Polled) (rest : Bytes) → a ≡ b → Skips b rest → Skips a rest
Skips-subst a b rest e (skipped st inner p q r s) = skipped st inner (e ∙ p) q r s
Skips-subst a b rest e (waiting st inner p q) = waiting st inner (e ∙ p) q

Owes-Skips :
    (fuel : ℕ) (st : ResponseHeaderStream) (inner : Source) (todo rest : Bytes)
    → Owes st todo
    → length todo ≤ 257
    → length todo + 2 ≤ fuel
    → flat inner ≡ todo ++ rest
    → All Piece inner
    → Skips (poll_ready_header fuel st inner) rest
unfolding follow
Owes-Skips zero st inner todo rest owes small enough brings fine = absurd (omega arith)
Owes-Skips (suc fuel) st inner todo rest owes small enough brings fine =
    let next = λ (st : ResponseHeaderStream) (inner : Source). poll_ready_header fuel st inner in
    let loop = poll_ready_header-follow fuel st inner (Owes-is_ready st todo owes) in
    elim (Owes-Advances st inner todo rest owes brings fine) [
      | on st' later todo' e owes' brings' fine' fewer ↦
          Skips-subst _ (poll_ready_header fuel st' later) rest (loop ∙ ap (follow next) e)
            (Owes-Skips fuel st' later todo' rest owes' (omega arith) (omega arith) brings' fine')
      | last st' e is_ready brings' ↦
          let (less, p) = ℕ-pred fuel (omega arith) in
          skipped st' inner
            (loop
              ∙ ap (follow next) e
              ∙ ap (λ k. poll_ready_header k st' inner) p
              ∙ poll_ready_header-ready less st' inner is_ready)
            is_ready brings' fine
      | over st' e is_ready brings' ↦
          skipped st' inner (loop ∙ ap (follow next) e) is_ready brings' fine
      | stays st' later e owes' brings' fine' ↦
          waiting st' later (loop ∙ ap (follow next) e) (owing todo owes' small brings' fine')
    ]
  where
    ℕ-pred : (n : ℕ) → 0 < n → (m : ℕ) × (n ≡ suc m)
    ℕ-pred zero h = absurd (omega arith)
    ℕ-pred (suc m) h = (m, refl)

Before-Skips :
    (st : ResponseHeaderStream) (inner : Source) (rest : Bytes)
    → Before st inner rest
    → Skips (poll_ready_header 259 st inner) rest
Before-Skips st inner rest (owing todo owes small brings fine) =
    Owes-Skips 259 st inner todo rest owes small (omega arith) brings fine
Before-Skips st inner rest (done is_ready brings fine) =
    skipped st inner (poll_ready_header-ready 258 st inner is_ready) is_ready brings fine

Fine : Poll Bytes × Source → Type 0
Fine (ready got, later) = All Piece later
Fine (failed, later) = ⊥
Fine (pending, later) = All Piece later

source_read-Fine : (inner : Source) (limit : ℕ) → All Piece inner → Fine (source_read inner limit)
unfolding source_read Fine
source_read-Fine [] limit fine = tt
source_read-Fine (reset ∷ rest) limit (fine, _) = absurd fine
source_read-Fine (nothing ∷ rest) limit (_, fine) = fine
source_read-Fine (bytes b ∷ rest) limit (_, fine) = left (drop limit b)
  where
    left : (c : Bytes) → All Piece (if is_empty c then rest else bytes c ∷ rest)
    left [] = fine
    left (c ∷ cs) = (tt, fine)

-- A read gives the front of `rest`, or nothing yet.
pub data Gives (polled : Option (Poll Bytes × ResponseHeaderStream × Source)) (rest : Bytes)
    : Type 0 where
  gives :
      (got left : Bytes) (st : ResponseHeaderStream) (inner : Source)
      → polled ≡ some (ready got, st, inner)
      → got ++ left ≡ rest
      → Before st inner left
      → Gives polled rest
  later :
      (st : ResponseHeaderStream) (inner : Source)
      → polled ≡ some (pending, st, inner)
      → Before st inner rest
      → Gives polled rest

after_ready-Gives :
    (st : ResponseHeaderStream) (rest : Bytes) (read : Poll Bytes × Source)
    → st.is_ready ≡ true
    → Brings rest read
    → Fine read
    → Gives (some (let (polled, inner) = read in (polled, st, inner))) rest
unfolding Fine
after_ready-Gives st rest (ready got, inner) is_ready brings fine =
    gives got (flat inner) st inner refl (sym brings) (done is_ready refl fine)
after_ready-Gives st rest (failed, inner) is_ready brings fine = absurd fine
after_ready-Gives st rest (pending, inner) is_ready brings fine =
    later st inner refl (done is_ready (sym brings) fine)

poll_read-Gives :
    (st : ResponseHeaderStream) (inner : Source) (limit : ℕ) (rest : Bytes)
    → Before st inner rest
    → Gives (poll_read st inner limit) rest
unfolding poll_read after_ready
poll_read-Gives st inner limit rest before = elim (Before-Skips st inner rest before) [
  | skipped st' inner' e is_ready brings fine ↦ Gives-subst _ _ rest (rw (poll_read, e) refl) (
      after_ready-Gives st' rest (source_read inner' limit) is_ready
        (subst (λ x. Brings x (source_read inner' limit)) brings (source_read-Brings inner' limit))
        (source_read-Fine inner' limit fine))
  | waiting st' inner' e before' ↦ later st' inner' (rw (poll_read, e) refl) before'
]
  where
    Gives-subst :
        (a b : Option (Poll Bytes × ResponseHeaderStream × Source)) (rest : Bytes)
        → a ≡ b
        → Gives b rest
        → Gives a rest
    Gives-subst a b rest e (gives got left st inner p q r) = gives got left st inner (e ∙ p) q r
    Gives-subst a b rest e (later st inner p q) = later st inner (e ∙ p) q

-- Reads one after the other, each for at most so many bytes, and all the bytes they give; a read that
-- waits is polled again.
unfoldable pub reads :
    List ℕ → ResponseHeaderStream → Source → Option (Bytes × ResponseHeaderStream × Source)
reads [] st inner = some ([], st, inner)
reads (limit ∷ limits) st inner = elim (poll_read st inner limit) [
  | some (ready got, st, inner) ↦ elim (reads limits st inner) [
    | some (more, st, inner) ↦ some (got ++ more, st, inner)
    | none ↦ none
  ]
  | some (pending, st, inner) ↦ reads limits st inner
  | some (failed, st, inner) ↦ none
  | none ↦ none
]

Before-reads :
    (limits : List ℕ) (st : ResponseHeaderStream) (inner : Source) (rest : Bytes)
    → Before st inner rest
    → (got : Bytes) × (left : Bytes) × (st' : ResponseHeaderStream) × (inner' : Source) × (reads
          limits st inner
        ≡ some (got, st', inner'))
      × (got ++ left ≡ rest)
      × Before st' inner' left
unfolding reads
Before-reads [] st inner rest before = ([], rest, st, inner, refl, refl, before)
Before-reads (limit ∷ limits) st inner rest before =
    elim (poll_read-Gives st inner limit rest before) [
      | gives got left st' inner' e parts before' ↦
          let (more, left', st'', inner'', p, parts', before'') =
            Before-reads limits st' inner' left before' in
          (
            got ++ more,
            left',
            st'',
            inner'',
            rw (reads, e, p) refl,
            append_assoc got more left' ∙ ap (λ x. got ++ x) parts' ∙ parts,
            before'',
          )
      | later st' inner' e before' ↦
          let (more, left', st'', inner'', p, parts', before'') =
            Before-reads limits st' inner' rest before' in
          (more, left', st'', inner'', rw (reads, e) p, parts', before'')
    ]

-- Reads of a response stream always return and never fail, whatever pieces the header comes in: they
-- give the bytes that are behind the header, in order, and none of the header's. The stream below
-- neither fails nor ends before the header has come, and the length in the header fits a byte.
pub reads-new :
    (limits : List ℕ) (inner : Source) (n : ℕ) (skipping rest : Bytes)
    → n < 256
    → length skipping ≡ n
    → flat inner ≡ (vless_version ∷ n ∷ skipping) ++ rest
    → All Piece inner
    → (got : Bytes) × (left : Bytes) × (st : ResponseHeaderStream) × (later : Source) × (reads
          limits new inner
        ≡ some (got, st, later))
      × (got ++ left ≡ rest)
      × Before st later left
unfolding new
reads-new limits inner n skipping rest byte size brings fine = Before-reads limits new inner rest (
    owing (vless_version ∷ n ∷ skipping)
      (in_header n skipping refl refl refl (omega arith) refl size) (omega arith) brings fine)
