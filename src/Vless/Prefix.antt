-- ===== src/Vless/Prefix.antt =====
-- `PrefixWriteStream` of protocol/vless/src/common.rs: the bytes of a prefix go out in front of the
-- first payload.
pub mod Retry
pub mod Twice
use rabbit_digger_pro.Base.{
  ℕ, ◌==◌, ◌&&◌, List, [], ◌∷◌, ◌++◌, Bool, true, false, not, Bytes, length, drop, is_empty,
  if◌then◌else◌,
}
use rabbit_digger_pro.Base.Stream.{Poll, ready, failed, pending, Sink, sink_write}

-- `inner` is the writing half of the stream below.
pub record PrefixWriteStream : Type 0 where
  pub inner : Sink
  pub unsent : Bytes
  pub pending_payload_len : ℕ
  pub prefix_sent : Bool

unfoldable pub new : Sink → Bytes → PrefixWriteStream
new inner prefix = record {
  inner = inner;
  unsent = prefix;
  pending_payload_len = 0;
  prefix_sent = false;
}

-- `poll_drain_pending`: the loop ends after its first round, since it returns while bytes are left.
unfoldable pub poll_drain_pending : PrefixWriteStream → Poll (Unit {0}) × PrefixWriteStream
poll_drain_pending p =
    if is_empty p.unsent
    then (ready tt, record p { prefix_sent = true })
    else let (polled, inner) = sink_write p.inner p.unsent in
      elim polled [
        | ready wrote ↦
            let left = drop wrote p.unsent in
            if is_empty left
            then (ready tt, record p { inner = inner; unsent = left; prefix_sent = true })
            else (pending, record p { inner = inner; unsent = left })
        | failed ↦ (failed, record p { inner = inner })
        | pending ↦ (pending, record p { inner = inner })
      ]

-- The payload is put behind the prefix, once.
unfoldable pub add_payload : PrefixWriteStream → Bytes → PrefixWriteStream
add_payload p buf =
    if (p.pending_payload_len == 0) && not (is_empty buf)
    then record p { unsent = p.unsent ++ buf; pending_payload_len = length buf }
    else p

unfoldable pub finish_write : Poll (Unit {0}) × PrefixWriteStream → Poll ℕ × PrefixWriteStream
finish_write (ready done, p) = (ready p.pending_payload_len, record p { pending_payload_len = 0 })
finish_write (failed, p) = (failed, p)
finish_write (pending, p) = (pending, p)

unfoldable pub poll_write : PrefixWriteStream → Bytes → Poll ℕ × PrefixWriteStream
unfolding poll_drain_pending add_payload finish_write
poll_write p buf =
    if not p.prefix_sent
    then finish_write (poll_drain_pending (add_payload p buf))
    else let (polled, inner) = sink_write p.inner buf in (polled, record p { inner = inner })

-- What `poll_read`, `poll_flush` and `poll_shutdown` do before they poll the stream below, which they
-- do if this is ready.
unfoldable pub poll_front : PrefixWriteStream → Poll (Unit {0}) × PrefixWriteStream
unfolding poll_drain_pending
poll_front p = if not (is_empty p.unsent) then poll_drain_pending p else (ready tt, p)
