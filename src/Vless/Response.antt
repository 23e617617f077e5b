-- ===== src/Vless/Response.antt =====
-- `ResponseHeaderStream` of protocol/vless/src/common.rs: takes the header of the response off the
-- stream before the first read.
pub mod Skipping
pub mod Reading
use rabbit_digger_pro.Base.{
  byte_at, ℕ, zero, suc, ◌+◌, ◌-◌, List, [], ◌∷◌, ◌++◌, Option, none, some, Bool, true, false, not,
  Bytes, ltb, ◌==◌, if◌then◌else◌, length, get_elem?, is_empty,
}
use rabbit_digger_pro.Base.Optional.{unwrap_or}
use rabbit_digger_pro.Base.Stream.{Poll, ready, failed, pending, Source, source_read}
use rabbit_digger_pro.Vless.Header.{vless_version}

-- `header` is what has been read of the first two bytes. Of `skipped` only the length matters, and the
-- place in it.
pub record ResponseHeaderStream : Type 0 where
  pub header : Bytes
  pub skipped : ℕ
  pub skipped_read : ℕ
  pub is_ready : Bool

unfoldable pub new : ResponseHeaderStream
new = record { header = []; skipped = 0; skipped_read = 0; is_ready = false }

-- A round of the loop: it goes on, or returns.
pub data Turn : Type 0 where
  again : ResponseHeaderStream → Source → Turn
  halt : Poll (Unit {0}) → ResponseHeaderStream → Source → Turn

unfoldable pub after_header : ResponseHeaderStream → Poll Bytes × Source → Turn
after_header st (ready got, inner) =
    if is_empty got
    then halt failed st inner
    else again (record st { header = st.header ++ got }) inner
after_header st (failed, inner) = halt failed st inner
after_header st (pending, inner) = halt pending st inner

unfoldable pub after_skipped : ResponseHeaderStream → Poll Bytes × Source → Turn
after_skipped st (ready got, inner) =
    if is_empty got
    then halt failed st inner
    else again (record st { skipped_read = st.skipped_read + length got }) inner
after_skipped st (failed, inner) = halt failed st inner
after_skipped st (pending, inner) = halt pending st inner

-- `skipped.resize`, if it is empty.
unfoldable pub resize : ResponseHeaderStream → ResponseHeaderStream
resize st = record st { skipped = if st.skipped == 0 then byte_at st.header 1 else st.skipped }

-- Behind the two bytes of the header.
unfoldable pub skip : ResponseHeaderStream → Source → Turn
unfolding after_skipped
skip st inner =
    if st.skipped == 0
    then halt (ready tt) (record st { is_ready = true }) inner
    else if ltb st.skipped_read st.skipped
    then after_skipped st (source_read inner (st.skipped - st.skipped_read))
    else again (record st { is_ready = true }) inner

unfoldable pub turn : ResponseHeaderStream → Source → Turn
unfolding after_header resize skip
turn st inner =
    if ltb (length st.header) 2
    then after_header st (source_read inner (2 - length st.header))
    else if not (byte_at st.header 0 == vless_version)
    then halt failed st inner
    else skip (resize st) inner

-- What the poll returns, and the streams that it leaves.
abbrev pub Polled : Type 0
Polled = Poll (Unit {0}) × ResponseHeaderStream × Source

unfoldable pub follow : (ResponseHeaderStream → Source → Option Polled) → Turn → Option Polled
follow next (again st inner) = next st inner
follow next (halt polled st inner) = some (polled, st, inner)

-- The loop; `none` when the fuel runs out.
unfoldable pub poll_ready_header : ℕ → ResponseHeaderStream → Source → Option Polled
unfolding turn follow
poll_ready_header zero st inner = none
poll_ready_header (suc fuel) st inner =
    let rest = follow (λ st inner. poll_ready_header fuel st inner) (turn st inner) in
    if st.is_ready then some (ready tt, st, inner) else rest

unfoldable pub after_ready : ℕ → Polled → Poll Bytes × ResponseHeaderStream × Source
after_ready limit (ready done, st, inner) =
    let (polled, inner) = source_read inner limit in (polled, st, inner)
after_ready limit (failed, st, inner) = (failed, st, inner)
after_ready limit (pending, st, inner) = (pending, st, inner)

-- At most two rounds take the header, 255 the bytes behind it, and two end the loop.
unfoldable pub poll_read :
    ResponseHeaderStream → Source → ℕ → Option (Poll Bytes × ResponseHeaderStream × Source)
unfolding poll_ready_header after_ready
poll_read st inner limit = elim (poll_ready_header 259 st inner) [
  | some polled ↦ some (after_ready limit polled)
  | none ↦ none
]
