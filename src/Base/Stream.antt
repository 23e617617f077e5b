-- ===== src/Base/Stream.antt =====
-- What the streams of the protocols stand on: the poll of a writer and of a reader.
-- How much the writer takes at each poll, and what the reader brings, are scripts: any behaviour of
-- the stream below is one of them.
use Prim.Native.Nat.{ℕ, min}
use mathlib.Core.List.{List, [], ◌∷◌, ◌++◌, append-nil, append_assoc}
use mathlib.Core.Path.{◌≡◌, refl, sym, ap, ◌∙◌}
use rabbit_digger_pro.Base.ByteStrings.{Bytes}
use rabbit_digger_pro.Base.Lists.{length, take, drop, is_empty, take-append-drop}
use rabbit_digger_pro.Base.Tests.{if◌then◌else◌}

pub data Poll (A : Type 0) : Type 0 where
  ready : A → Poll A
  failed : Poll A
  pending : Poll A

-- One poll of the writer: it has room for so many bytes, or fails, or is not ready.
pub data Accept : Type 0 where
  room : ℕ → Accept
  broken : Accept
  not_ready : Accept

-- `sent` is what the writer has taken, `accepts` its next polls; behind them it is not ready.
pub record Sink : Type 0 where
  pub sent : Bytes
  pub accepts : List Accept

unfoldable pub sink_write : Sink → Bytes → Poll ℕ × Sink
sink_write s buf = elim s.accepts [
  | [] ↦ (pending, s)
  | room n ∷ rest ↦
      let k = min n (length buf) in
      (ready k, record { sent = s.sent ++ take k buf; accepts = rest })
  | broken ∷ rest ↦ (failed, record s { accepts = rest })
  | not_ready ∷ rest ↦ (pending, record s { accepts = rest })
]

-- One poll of the reader: bytes have come, or it fails, or nothing has come.
pub data Arrive : Type 0 where
  bytes : Bytes → Arrive
  reset : Arrive
  nothing : Arrive

-- The next polls of the reader; behind them the stream has ended, and it brings no bytes.
abbrev pub Source : Type 0
Source = List Arrive

-- At most `cap` bytes; what does not fit is brought by the next poll.
unfoldable pub source_read : Source → ℕ → Poll Bytes × Source
source_read [] cap = (ready [], [])
source_read (bytes b ∷ rest) cap =
    let left = drop cap b in (ready (take cap b), if is_empty left then rest else bytes left ∷ rest)
source_read (reset ∷ rest) cap = (failed, rest)
source_read (nothing ∷ rest) cap = (pending, rest)

-- All the bytes that are to come.
abbrev pub flat : Source → Bytes
flat [] = []
flat (bytes b ∷ rest) = b ++ flat rest
flat (reset ∷ rest) = flat rest
flat (nothing ∷ rest) = flat rest

-- A read takes its bytes from the front of those to come.
abbrev pub Brings : Bytes → Poll Bytes × Source → Type 0
Brings before (ready got, inner) = before ≡ got ++ flat inner
Brings before (failed, inner) = before ≡ flat inner
Brings before (pending, inner) = before ≡ flat inner

pub source_read-Brings :
    (inner : Source) (limit : ℕ) → Brings (flat inner) (source_read inner limit)
unfolding source_read
source_read-Brings [] limit = refl
source_read-Brings (reset ∷ rest) limit = refl
source_read-Brings (nothing ∷ rest) limit = refl
source_read-Brings (bytes b ∷ rest) limit = cut (drop limit b) (take-append-drop limit b)
  where
    cut :
        (left : Bytes)
        → take limit b ++ left ≡ b
        → b ++ flat rest ≡ take limit b ++ flat (if is_empty left then rest else bytes left ∷ rest)
    cut [] e = ap (λ x. x ++ flat rest) (sym e ∙ append-nil (take limit b))
    cut (c ∷ cs) e =
        ap (λ x. x ++ flat rest) (sym e) ∙ append_assoc (take limit b) (c ∷ cs) (flat rest)
