-- ===== src/Vless/Vision/Poll.antt =====
-- The polls of `VisionStream` of protocol/vless/src/common.rs, on streams that are given by scripts.
pub mod Reading
pub mod Writing
use rabbit_digger_pro.Base.{
  ℕ, zero, suc, ◌++◌, Option, none, some, not, Bytes, length, take, drop, min, is_empty,
  if◌then◌else◌,
}
use rabbit_digger_pro.Base.Stream.{
  Poll, ready, failed, pending, Sink, sink_write, Source, source_read,
}
use rabbit_digger_pro.Vless.Vision.{VisionStream, enqueue_write, try_decode_frames}

-- What a poll returns, and the streams that it leaves.
abbrev pub Polled : Type 0
Polled = Poll Bytes × VisionStream × Source

-- `put_slice` of what is pending.
unfoldable pub take_pending : VisionStream → Source → ℕ → Polled
take_pending v inner limit =
    let to_copy = min (length v.read_pending) limit in
    (
      ready (take to_copy v.read_pending),
      record v { read_pending = drop to_copy v.read_pending },
      inner,
    )

-- What the loop does with a read of the stream below: it goes on with `next`, or returns.
unfoldable pub after_read :
    (VisionStream → Source → Option Polled) → VisionStream → Poll Bytes × Source → Option Polled
after_read next v (ready got, inner) =
    if is_empty got
    then some (ready got, v, inner)
    else next (record v { read_buf = v.read_buf ++ got }) inner
after_read next v (failed, inner) = some (failed, v, inner)
after_read next v (pending, inner) = some (pending, v, inner)

unfoldable pub after_decode :
    (VisionStream → Source → Option Polled) → Source → ℕ → Option VisionStream → Option Polled
unfolding take_pending after_read
after_decode next inner limit none = none
after_decode next inner limit (some v) =
    if not (is_empty v.read_pending)
    then some (take_pending v inner limit)
    else after_read next v (source_read inner 4096)

-- The loop of `poll_read`; `none` when the fuel runs out.
unfoldable pub read_loop : ℕ → VisionStream → Source → ℕ → Option Polled
unfolding after_decode
read_loop zero v inner limit = none
read_loop (suc fuel) v inner limit =
    after_decode (λ v inner. read_loop fuel v inner limit) inner limit (try_decode_frames v)

unfoldable pub read_direct : VisionStream → Poll Bytes × Source → Polled
read_direct v (polled, inner) = (polled, v, inner)

-- `poll_read` into a buffer with room for `limit` bytes.
unfoldable pub poll_read : ℕ → VisionStream → Source → ℕ → Option Polled
unfolding take_pending read_direct read_loop
poll_read fuel v inner limit =
    if not (is_empty v.read_pending)
    then some (take_pending v inner limit)
    else if v.direct_mode
    then some (read_direct v (source_read inner limit))
    else read_loop fuel v inner limit

unfoldable pub after_write : VisionStream → Poll ℕ × Sink → Poll (Unit {0}) × VisionStream × Sink
after_write v (ready wrote, inner) =
    let left = drop wrote v.write_pending in
    ((if is_empty left then ready tt else pending), record v { write_pending = left }, inner)
after_write v (failed, inner) = (failed, v, inner)
after_write v (pending, inner) = (pending, v, inner)

-- One poll of the stream below with what is pending: nothing is left, or the poll is pending.
unfoldable pub write_round : VisionStream → Sink → Poll (Unit {0}) × VisionStream × Sink
unfolding after_write
write_round v inner = after_write v (sink_write inner v.write_pending)

unfoldable pub report : ℕ → Poll (Unit {0}) × VisionStream × Sink → Poll ℕ × VisionStream × Sink
report payload_len (ready done, v, inner) =
    (ready payload_len, record v { write_payload_len = 0 }, inner)
report payload_len (failed, v, inner) = (failed, v, inner)
report payload_len (pending, v, inner) = (pending, v, inner)

-- `poll_write`: each of its loops ends in its first round.
unfoldable pub poll_write : VisionStream → Sink → Bytes → Poll ℕ × VisionStream × Sink
unfolding write_round report
poll_write v inner buf =
    if not (is_empty v.write_pending)
    then report v.write_payload_len (write_round v inner)
    else if is_empty buf
    then (ready 0, v, inner)
    else let (payload_len, v) = enqueue_write v buf in report payload_len (write_round v inner)

unfoldable pub after_flush :
    (VisionStream → Sink → Option (Poll (Unit {0}) × VisionStream × Sink))
    → VisionStream
    → Poll ℕ × Sink
    → Option (Poll (Unit {0}) × VisionStream × Sink)
after_flush next v (ready wrote, inner) =
    next (record v { write_pending = drop wrote v.write_pending }) inner
after_flush next v (failed, inner) = some (failed, v, inner)
after_flush next v (pending, inner) = some (pending, v, inner)

-- The loop of `poll_flush` and `poll_shutdown`, which end in the same poll of the stream below when it
-- is ready; `none` when the fuel runs out. A round uses up one poll of the stream below.
unfoldable pub flush_loop : ℕ → VisionStream → Sink → Option (Poll (Unit {0}) × VisionStream × Sink)
unfolding after_flush
flush_loop zero v inner = none
flush_loop (suc fuel) v inner =
    let rest =
      after_flush (λ v inner. flush_loop fuel v inner) v (sink_write inner v.write_pending) in
    if is_empty v.write_pending then some (ready tt, v, inner) else rest
