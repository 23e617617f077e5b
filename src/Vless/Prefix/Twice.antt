-- ===== src/Vless/Prefix/Twice.antt =====
-- A first write, and another poll between its polls.
use rabbit_digger_pro.Base.{
  ℕ, ◌≤◌, ◌<◌, ◌≡◌, refl, List, [], ◌∷◌, ◌++◌, true, Bytes, length, take, drop, min, arith,
  append_assoc, take-append-drop, length-append, length-drop, ap, ◌∙◌, take_all, drop_all,
}
use rabbit_digger_pro.Base.Stream.{ready, pending, Accept, room, Sink, sink_write}
use rabbit_digger_pro.Vless.Prefix.{
  PrefixWriteStream, new, poll_drain_pending, poll_write, poll_front,
}
use rabbit_digger_pro.Vless.Prefix.Retry.{waiting, poll_write-new, drain_some}

-- What is left when another poll has put everything out.
abbrev drained : Bytes → List Accept → Bytes → PrefixWriteStream
drained sent accepts buf = record {
  inner = record { sent = sent; accepts = accepts };
  unsent = [];
  pending_payload_len = length buf;
  prefix_sent = true;
}

poll_front-waiting :
    (k : ℕ) (sent unsent buf : Bytes) (accepts : List Accept)
    → 0 < length unsent
    → length unsent ≤ k
    → poll_front (waiting sent (room k ∷ accepts) unsent buf)
      ≡ (ready tt, drained (sent ++ unsent) accepts buf)
unfolding poll_front poll_drain_pending sink_write
poll_front-waiting k sent [] buf accepts left enough = absurd (omega arith)
poll_front-waiting k sent (c ∷ cs) buf accepts left enough =
    let unsent : Bytes = c ∷ cs in
    let n : min k (length unsent) ≡ length unsent = omega arith in
    let all = take_all unsent (length unsent) (omega arith) in
    let none_left = drop_all unsent (length unsent) (omega arith) in rw n (rw (all, none_left) refl)

poll_write-drained :
    (k : ℕ) (sent buf : Bytes) (accepts : List Accept)
    → length buf ≤ k
    → poll_write (drained sent (room k ∷ accepts) buf) buf
      ≡ (ready (length buf), drained (sent ++ buf) accepts buf)
unfolding poll_write sink_write
poll_write-drained k sent buf accepts enough =
    let n : min k (length buf) ≡ length buf = omega arith in
    rw n (rw (take_all buf (length buf) (omega arith)) refl)

-- A first write of which the writer takes only a part is pending. If then a read, a flush or a shutdown
-- is polled, it puts out the rest, and the same write, polled again as its caller has to, puts the
-- whole buffer out a second time.
pub poll_write_twice :
    (sent prefix buf : Bytes) (part : ℕ)
    → 0 < length buf
    → part < length (prefix ++ buf)
    → let all = length (prefix ++ buf) in
      let sink : Sink = record { sent = sent; accepts = room part ∷ room all ∷ room all ∷ [] } in
      let (first, p) = poll_write (new sink prefix) buf in
      let (front, q) = poll_front p in
      let (again, r) = poll_write q buf in
      (first ≡ pending)
      × (front ≡ ready tt)
      × (again ≡ ready (length buf))
      × (r.inner.sent ≡ (sent ++ (prefix ++ buf)) ++ buf)
poll_write_twice sent prefix buf part some_bytes short =
    let unsent = prefix ++ buf in
    let k = length unsent in
    let accepts : List Accept = room k ∷ room k ∷ [] in
    let sink : Sink = record { sent = sent; accepts = room part ∷ accepts } in
    let out = sent ++ take part unsent in
    let left = drop part unsent in
    let size = length-drop part unsent in
    let one =
      poll_write-new sink prefix buf some_bytes ∙ drain_some part sent unsent buf accepts short in
    let two = poll_front-waiting k out left buf (room k ∷ []) (omega arith) (omega arith) in
    let three =
      poll_write-drained k (out ++ left) buf [] (omega (arith, length-append prefix buf)) in
    let whole : out ++ left ≡ sent ++ unsent =
      append_assoc sent (take part unsent) left ∙ ap (◌++◌ sent) (take-append-drop part unsent) in
    rw one (rw two (rw three (refl, refl, refl, ap (λ s. s ++ buf) whole)))
