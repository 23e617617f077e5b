-- ===== src/Vless/Vision/Poll/Writing.antt =====
-- No poll of the writing side loses bytes or puts them out twice.
use rabbit_digger_pro.Base.{
  ℕ, suc, ◌≡◌, refl, List, [], ◌∷◌, ◌++◌, some, true, false, Bytes, length, take, drop, min,
  is_empty, arith, append_assoc, take-append-drop, List-cases, inl, inr, ap, ◌∙◌, subst,
  if◌then◌else◌,
}
use rabbit_digger_pro.Base.Stream.{
  Poll, ready, failed, pending, Accept, room, broken, not_ready, Sink, sink_write,
}
use rabbit_digger_pro.Vless.Vision.{VisionStream, enqueue_write}
use rabbit_digger_pro.Vless.Vision.Poll.{
  after_write, write_round, report, poll_write, after_flush, flush_loop,
}

-- What the stream below has taken and what it is still to take.
abbrev pub output : VisionStream → Sink → Bytes
output v inner = inner.sent ++ v.write_pending

-- The output is `all`, and if the poll is ready nothing of it is left.
abbrev pub Puts : {A : Type 0} → Bytes → Poll A × VisionStream × Sink → Type 0
Puts all (ready a, v, inner) = (output v inner ≡ all) × (v.write_pending ≡ [])
Puts all (failed, v, inner) = output v inner ≡ all
Puts all (pending, v, inner) = output v inner ≡ all

-- Of `buf`, a poll of the stream below has taken so many bytes from the front.
abbrev Takes : Bytes → Bytes → Poll ℕ × Sink → Type 0
Takes sent buf (ready k, inner) = inner.sent ≡ sent ++ take k buf
Takes sent buf (failed, inner) = inner.sent ≡ sent
Takes sent buf (pending, inner) = inner.sent ≡ sent

sink_write-Takes :
    (sent buf : Bytes) (accepts : List Accept)
    → Takes sent buf (sink_write (record { sent = sent; accepts = accepts }) buf)
unfolding sink_write
sink_write-Takes sent buf [] = refl
sink_write-Takes sent buf (room n ∷ rest) = refl
sink_write-Takes sent buf (broken ∷ rest) = refl
sink_write-Takes sent buf (not_ready ∷ rest) = refl

after_write-Puts :
    (v : VisionStream) (sent : Bytes) (polled : Poll ℕ × Sink)
    → Takes sent v.write_pending polled
    → Puts (sent ++ v.write_pending) (after_write v polled)
unfolding after_write
after_write-Puts v sent (ready k, inner) takes =
    let left = drop k v.write_pending in
    let whole : inner.sent ++ left ≡ sent ++ v.write_pending =
      ap (λ s. s ++ left) takes
      ∙ append_assoc sent (take k v.write_pending) left
      ∙ ap (λ p. sent ++ p) (take-append-drop k v.write_pending) in
    elim (List-cases left) [
      | inl e ↦ rw (ap is_empty e) (whole, e)
      | inr (c, cs, e) ↦ rw (ap is_empty e) whole
    ]
after_write-Puts v sent (failed, inner) takes = ap (λ s. s ++ v.write_pending) takes
after_write-Puts v sent (pending, inner) takes = ap (λ s. s ++ v.write_pending) takes

write_round-Puts : (v : VisionStream) (inner : Sink) → Puts (output v inner) (write_round v inner)
unfolding write_round
write_round-Puts v inner =
    after_write-Puts v inner.sent (sink_write inner v.write_pending)
      (sink_write-Takes inner.sent v.write_pending inner.accepts)

report-Puts :
    (all : Bytes) (n : ℕ) (r : Poll (Unit {0}) × VisionStream × Sink)
    → Puts all r
    → Puts all (report n r)
unfolding report
report-Puts all n (ready done, v, inner) puts = puts
report-Puts all n (failed, v, inner) puts = puts
report-Puts all n (pending, v, inner) puts = puts

-- What a write adds to the output: nothing while an earlier one is pending.
abbrev pub to_write : VisionStream → Bytes → Bytes
to_write v buf =
    if is_empty v.write_pending
    then (if is_empty buf then [] else (enqueue_write v buf).1.write_pending)
    else v.write_pending

poll_write_kept :
    (v : VisionStream) (inner : Sink) (buf : Bytes)
    → is_empty v.write_pending ≡ false
    → (poll_write v inner buf ≡ report v.write_payload_len (write_round v inner))
      × (to_write v buf ≡ v.write_pending)
unfolding poll_write
poll_write_kept v inner buf e = ground arith

poll_write_empty :
    (v : VisionStream) (inner : Sink)
    → is_empty v.write_pending ≡ true
    → (poll_write v inner [] ≡ (ready 0, v, inner)) × (to_write v [] ≡ [])
unfolding poll_write
poll_write_empty v inner e = ground arith

poll_write_fresh :
    (v : VisionStream) (inner : Sink) (c : ℕ) (cs : Bytes)
    → is_empty v.write_pending ≡ true
    → let buf : Bytes = c ∷ cs in
      let (payload_len, queued) = enqueue_write v buf in
      (poll_write v inner buf ≡ report payload_len (write_round queued inner))
      × (to_write v buf ≡ queued.write_pending)
unfolding poll_write
poll_write_fresh v inner c cs e = ground arith

fresh_write :
    (v : VisionStream) (inner : Sink) (buf : Bytes)
    → v.write_pending ≡ []
    → Puts (inner.sent ++ to_write v buf) (poll_write v inner buf)
fresh_write v inner [] e =
    let (polled, all) = poll_write_empty v inner (ap is_empty e) in
    rw (polled, all) (ap (λ p. inner.sent ++ p) e, e)
fresh_write v inner (c ∷ cs) e =
    let (payload_len, queued) = enqueue_write v (c ∷ cs) in
    let (polled, all) = poll_write_fresh v inner c cs (ap is_empty e) in
    rw (polled, all)
      (report-Puts (output queued inner) payload_len (write_round queued inner)
        (write_round-Puts queued inner))

-- A write puts out what an earlier one left, or else the frame of its own buffer, and nothing else; what
-- the stream below does not take stays in order for the next poll, and nothing is left once the write
-- is ready.
pub poll_write-Puts :
    (v : VisionStream) (inner : Sink) (buf : Bytes)
    → Puts (inner.sent ++ to_write v buf) (poll_write v inner buf)
poll_write-Puts v inner buf = elim (List-cases v.write_pending) [
  | inr (c, cs, e) ↦
      let (polled, all) = poll_write_kept v inner buf (ap is_empty e) in
      rw (polled, all)
        (report-Puts (output v inner) v.write_payload_len (write_round v inner)
          (write_round-Puts v inner))
  | inl e ↦ fresh_write v inner buf e
]

flush_loop_over :
    (fuel : ℕ) (v : VisionStream) (inner : Sink)
    → is_empty v.write_pending ≡ true
    → flush_loop (suc fuel) v inner ≡ some (ready tt, v, inner)
unfolding flush_loop
flush_loop_over fuel v inner e = rw e refl

flush_loop_more :
    (fuel : ℕ) (v : VisionStream) (inner : Sink)
    → is_empty v.write_pending ≡ false
    → flush_loop (suc fuel) v inner
      ≡ after_flush (λ v inner. flush_loop fuel v inner) v (sink_write inner v.write_pending)
unfolding flush_loop
flush_loop_more fuel v inner e = rw e refl

done_flush :
    (accepts : List Accept) (v : VisionStream) (sent : Bytes)
    → v.write_pending ≡ []
    → (r : Poll (Unit {0}) × VisionStream × Sink) × (flush_loop
          (suc (length accepts))
          v
          (record { sent = sent; accepts = accepts })
        ≡ some r)
      × Puts (sent ++ v.write_pending) r
done_flush accepts v sent e = (
  (ready tt, v, record { sent = sent; accepts = accepts }),
  flush_loop_over (length accepts) v (record { sent = sent; accepts = accepts }) (ap is_empty e),
  (refl, e),
)

-- The loop of a flush comes to an end, and puts out what is left in order; when it is ready, all of it.
pub flush_loop-Puts :
    (accepts : List Accept) (v : VisionStream) (sent : Bytes)
    → (r : Poll (Unit {0}) × VisionStream × Sink) × (flush_loop
          (suc (length accepts))
          v
          (record { sent = sent; accepts = accepts })
        ≡ some r)
      × Puts (sent ++ v.write_pending) r
unfolding after_flush sink_write
flush_loop-Puts [] v sent = elim (List-cases v.write_pending) [
  | inl e ↦ done_flush [] v sent e
  | inr (c, cs, e) ↦ (
    (pending, v, record { sent = sent; accepts = [] }),
    flush_loop_more 0 v (record { sent = sent; accepts = [] }) (ap is_empty e),
    refl,
  )
]
flush_loop-Puts (broken ∷ rest) v sent = elim (List-cases v.write_pending) [
  | inl e ↦ done_flush (broken ∷ rest) v sent e
  | inr (c, cs, e) ↦ (
    (failed, v, record { sent = sent; accepts = rest }),
    flush_loop_more (suc (length rest)) v (record { sent = sent; accepts = broken ∷ rest })
        (ap is_empty e),
    refl,
  )
]
flush_loop-Puts (not_ready ∷ rest) v sent = elim (List-cases v.write_pending) [
  | inl e ↦ done_flush (not_ready ∷ rest) v sent e
  | inr (c, cs, e) ↦ (
    (pending, v, record { sent = sent; accepts = rest }),
    flush_loop_more (suc (length rest)) v (record { sent = sent; accepts = not_ready ∷ rest })
        (ap is_empty e),
    refl,
  )
]
flush_loop-Puts (room n ∷ rest) v sent =
    let k = min n (length v.write_pending) in
    let left = record v { write_pending = drop k v.write_pending } in
    let (r, e', puts) = flush_loop-Puts rest left (sent ++ take k v.write_pending) in
    let whole : (sent ++ take k v.write_pending) ++ drop k v.write_pending
        ≡ sent ++ v.write_pending =
      append_assoc sent (take k v.write_pending) (drop k v.write_pending)
      ∙ ap (λ p. sent ++ p) (take-append-drop k v.write_pending) in
    elim (List-cases v.write_pending) [
      | inl e ↦ done_flush (room n ∷ rest) v sent e
      | inr (c, cs, e) ↦ (
        r,
        flush_loop_more (suc (length rest)) v (record { sent = sent; accepts = room n ∷ rest })
              (ap is_empty e)
            ∙ e',
        subst (λ b. Puts b r) whole puts,
      )
    ]
