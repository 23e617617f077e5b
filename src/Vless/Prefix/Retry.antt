-- ===== src/Vless/Prefix/Retry.antt =====
-- A first write that is polled until it is ready.
use rabbit_digger_pro.Base.{
  ℕ, zero, suc, ◌≤◌, ◌<◌, ◌≡◌, ◌≢◌, refl, List, [], ◌∷◌, ◌++◌, true, false, Bytes, length, take,
  drop, min, is_empty, arith, append_assoc, take-append-drop, length-append, length-drop, inl, inr,
  ap, sym, ◌∙◌, Bool-cases, All, ltb, ltb→lt, ltb_false→le, take_all, drop_all,
}
use rabbit_digger_pro.Base.Stream.{
  Poll, ready, failed, pending, Accept, room, broken, not_ready, Sink, sink_write,
}
use rabbit_digger_pro.Vless.Prefix.{
  PrefixWriteStream, new, poll_drain_pending, add_payload, finish_write, poll_write,
}

abbrev if_pending :
    (PrefixWriteStream → Poll ℕ × PrefixWriteStream)
    → Poll ℕ × PrefixWriteStream
    → Poll ℕ × PrefixWriteStream
if_pending again (ready k, p) = (ready k, p)
if_pending again (failed, p) = (failed, p)
if_pending again (pending, p) = again p

-- `poll_write` with the same buffer until it is not pending, at most `n` times.
abbrev pub retry : ℕ → PrefixWriteStream → Bytes → Poll ℕ × PrefixWriteStream
retry zero p buf = (pending, p)
retry (suc n) p buf = if_pending (λ p'. retry n p' buf) (poll_write p buf)

-- A first write that has begun.
abbrev pub waiting : Bytes → List Accept → Bytes → Bytes → PrefixWriteStream
waiting sent accepts unsent buf = record {
  inner = record { sent = sent; accepts = accepts };
  unsent = unsent;
  pending_payload_len = length buf;
  prefix_sent = false;
}

-- What is left when everything is out.
abbrev written : Bytes → List Accept → PrefixWriteStream
written sent accepts = record {
  inner = record { sent = sent; accepts = accepts };
  unsent = [];
  pending_payload_len = 0;
  prefix_sent = true;
}

-- The writer never fails.
abbrev pub NotBroken : Accept → Type 0
NotBroken a = a ≢ broken

-- How often it has room for a byte.
abbrev pub rooms : List Accept → ℕ
rooms [] = 0
rooms (room zero ∷ rest) = rooms rest
rooms (room (suc k) ∷ rest) = suc (rooms rest)
rooms (broken ∷ rest) = rooms rest
rooms (not_ready ∷ rest) = rooms rest

add_payload-waiting :
    (sent unsent buf : Bytes) (accepts : List Accept)
    → 0 < length buf
    → add_payload (waiting sent accepts unsent buf) buf ≡ waiting sent accepts unsent buf
unfolding add_payload
add_payload-waiting sent unsent buf accepts some_bytes = ground arith

poll_write-waiting :
    (sent unsent buf : Bytes) (accepts : List Accept)
    → 0 < length buf
    → poll_write (waiting sent accepts unsent buf) buf
      ≡ finish_write (poll_drain_pending (waiting sent accepts unsent buf))
unfolding poll_write
poll_write-waiting sent unsent buf accepts some_bytes =
    ap (λ p. finish_write (poll_drain_pending p))
      (add_payload-waiting sent unsent buf accepts some_bytes)

drain_all :
    (k : ℕ) (sent unsent buf : Bytes) (accepts : List Accept)
    → 0 < length unsent
    → length unsent ≤ k
    → finish_write (poll_drain_pending (waiting sent (room k ∷ accepts) unsent buf))
      ≡ (ready (length buf), written (sent ++ unsent) accepts)
unfolding poll_drain_pending finish_write sink_write
drain_all k sent [] buf accepts left enough = absurd (omega arith)
drain_all k sent (c ∷ cs) buf accepts left enough =
    let unsent : Bytes = c ∷ cs in
    let n : min k (length unsent) ≡ length unsent = omega arith in
    let all = take_all unsent (length unsent) (omega arith) in
    let none_left = drop_all unsent (length unsent) (omega arith) in rw n (rw (all, none_left) refl)

pub not_empty : (bs : Bytes) → 0 < length bs → is_empty bs ≡ false
not_empty [] h = absurd (omega arith)
not_empty (b ∷ bs) h = refl

rooms-room :
    (k : ℕ) (unsent : Bytes) (accepts : List Accept)
    → length unsent ≤ rooms (room k ∷ accepts)
    → length (drop k unsent) ≤ rooms accepts
rooms-room zero unsent accepts h = h
rooms-room (suc k) unsent accepts h = omega (arith, length-drop (suc k) unsent)

pub drain_some :
    (k : ℕ) (sent unsent buf : Bytes) (accepts : List Accept)
    → k < length unsent
    → finish_write (poll_drain_pending (waiting sent (room k ∷ accepts) unsent buf))
      ≡ (pending, waiting (sent ++ take k unsent) accepts (drop k unsent) buf)
unfolding poll_drain_pending finish_write sink_write
drain_some k sent [] buf accepts short = absurd (omega arith)
drain_some k sent (c ∷ cs) buf accepts short =
    let unsent : Bytes = c ∷ cs in
    let n : min k (length unsent) ≡ k = omega arith in
    let left : is_empty (drop k unsent) ≡ false =
      not_empty (drop k unsent) (omega (arith, length-drop k unsent)) in
    rw n (rw left refl)

drain_not_ready :
    (sent unsent buf : Bytes) (accepts : List Accept)
    → 0 < length unsent
    → finish_write (poll_drain_pending (waiting sent (not_ready ∷ accepts) unsent buf))
      ≡ (pending, waiting sent accepts unsent buf)
unfolding poll_drain_pending finish_write sink_write
drain_not_ready sent [] buf accepts left = absurd (omega arith)
drain_not_ready sent (c ∷ cs) buf accepts left = refl

retry-pending :
    (n : ℕ) (p p' : PrefixWriteStream) (buf : Bytes)
    → poll_write p buf ≡ (pending, p')
    → retry (suc n) p buf ≡ retry n p' buf
retry-pending n p p' buf e = ap (if_pending (λ q. retry n q buf)) e

retry-ready :
    (n k : ℕ) (p p' : PrefixWriteStream) (buf : Bytes)
    → poll_write p buf ≡ (ready k, p')
    → retry (suc n) p buf ≡ (ready k, p')
retry-ready n k p p' buf e = ap (if_pending (λ q. retry n q buf)) e

retry-waiting :
    (accepts : List Accept) (sent unsent buf : Bytes)
    → 0 < length buf
    → 0 < length unsent
    → All NotBroken accepts
    → length unsent ≤ rooms accepts
    → (rest : List Accept) × (retry (length accepts) (waiting sent accepts unsent buf) buf
        ≡ (ready (length buf), written (sent ++ unsent) rest))
retry-waiting [] sent unsent buf some_bytes left fine enough = absurd (omega arith)
retry-waiting (broken ∷ accepts) sent unsent buf some_bytes left (fine, _) enough =
    absurd (fine refl)
retry-waiting (not_ready ∷ accepts) sent unsent buf some_bytes left (_, fine) enough =
    let (rest, e) = retry-waiting accepts sent unsent buf some_bytes left fine enough in
    (
      rest,
      retry-pending (length accepts) (waiting sent (not_ready ∷ accepts) unsent buf)
            (waiting sent accepts unsent buf) buf
            (poll_write-waiting sent unsent buf (not_ready ∷ accepts) some_bytes
              ∙ drain_not_ready sent unsent buf accepts left)
          ∙ e,
    )
retry-waiting (room k ∷ accepts) sent unsent buf some_bytes left (_, fine) enough =
    let now = waiting sent (room k ∷ accepts) unsent buf in
    let begun = poll_write-waiting sent unsent buf (room k ∷ accepts) some_bytes in
    elim (Bool-cases (ltb k (length unsent))) [
      | inr all ↦ (
        accepts,
        retry-ready (length accepts) (length buf) now (written (sent ++ unsent) accepts) buf
            (begun ∙ drain_all k sent unsent buf accepts left (ltb_false→le k (length unsent) all)),
      )
      | inl part ↦
          let short = ltb→lt k (length unsent) part in
          let (rest, e) =
            retry-waiting accepts (sent ++ take k unsent) (drop k unsent) buf some_bytes
              (omega (arith, length-drop k unsent)) fine (rooms-room k unsent accepts enough) in
          let sent_all : (sent ++ take k unsent) ++ drop k unsent ≡ sent ++ unsent =
            append_assoc sent (take k unsent) (drop k unsent)
            ∙ ap (◌++◌ sent) (take-append-drop k unsent) in
          (
            rest,
            retry-pending (length accepts) now
                  (waiting (sent ++ take k unsent) accepts (drop k unsent) buf) buf
                  (begun ∙ drain_some k sent unsent buf accepts short)
                ∙ e
                ∙ ap (λ s. (ready (length buf), written s rest)) sent_all,
          )
    ]

pub poll_write-new :
    (sink : Sink) (prefix buf : Bytes)
    → 0 < length buf
    → poll_write (new sink prefix) buf
      ≡ finish_write (poll_drain_pending (waiting sink.sent sink.accepts (prefix ++ buf) buf))
unfolding poll_write add_payload new
poll_write-new sink prefix [] some_bytes = absurd (omega arith)
poll_write-new sink prefix (c ∷ cs) some_bytes = refl

retry-new :
    (n : ℕ) (sink : Sink) (prefix buf : Bytes)
    → 0 < length buf
    → retry (suc n) (new sink prefix) buf
      ≡ retry (suc n) (waiting sink.sent sink.accepts (prefix ++ buf) buf) buf
retry-new n sink prefix buf some_bytes = ap (if_pending (λ p. retry n p buf)) (
    poll_write-new sink prefix buf some_bytes
    ∙ sym (poll_write-waiting sink.sent (prefix ++ buf) buf sink.accepts some_bytes))

retry-new_list :
    (accepts : List Accept) (sent prefix buf : Bytes)
    → 0 < length buf
    → 0 < rooms accepts
    → retry (length accepts) (new (record { sent = sent; accepts = accepts }) prefix) buf
      ≡ retry (length accepts) (waiting sent accepts (prefix ++ buf) buf) buf
retry-new_list [] sent prefix buf some_bytes often = absurd (omega arith)
retry-new_list (a ∷ accepts) sent prefix buf some_bytes often =
    retry-new (length accepts) (record { sent = sent; accepts = a ∷ accepts }) prefix buf some_bytes

-- A first write, polled again while it is pending, comes to an end on a writer that does not fail and
-- has room often enough: it reports the length of its buffer, and the writer has taken the prefix and
-- then the buffer, once.
pub retry_first_write :
    (sink : Sink) (prefix buf : Bytes)
    → 0 < length buf
    → All NotBroken sink.accepts
    → length (prefix ++ buf) ≤ rooms sink.accepts
    → let (polled, p) = retry (length sink.accepts) (new sink prefix) buf in
      (polled ≡ ready (length buf))
      × (p.inner.sent ≡ sink.sent ++ (prefix ++ buf))
      × (p.unsent ≡ [])
      × (p.prefix_sent ≡ true)
retry_first_write sink prefix buf some_bytes fine enough =
    let unsent = prefix ++ buf in
    let left : 0 < length unsent = omega (arith, length-append prefix buf) in
    let (rest, e) = retry-waiting sink.accepts sink.sent unsent buf some_bytes left fine enough in
    let same = retry-new_list sink.accepts sink.sent prefix buf some_bytes (omega arith) in
    let whole = same ∙ e in
    (
      ap (λ r. r.0) whole,
      ap (λ r. r.1.inner.sent) whole,
      ap (λ r. r.1.unsent) whole,
      ap (λ r. r.1.prefix_sent) whole,
    )
