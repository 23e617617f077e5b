-- ===== src/Obfs.antt =====
-- protocol/obfs/src/http_simple.rs: a stream that passes as an HTTP request and its response. The
-- random draws and the base64 code are parameters.
pub mod Order
pub mod Progress
pub mod Reads
pub mod Writes
use rabbit_digger_pro.Base.{
  ℕ, zero, suc, ◌+◌, ◌-◌, ◌%◌, List, [], ◌∷◌, ◌++◌, Option, none, some, Bytes, ◌==◌, if◌then◌else◌,
  length, take, drop, min, replicate, bytes_eq,
}
use rabbit_digger_pro.Base.Decimal.{decimal}
use rabbit_digger_pro.Base.Stream.{
  Poll, ready, failed, pending, Sink, sink_write, Source, source_read,
}

pub record HttpSimple : Type 0 where
  pub method : Bytes
  pub uri : Bytes
  pub host : Bytes

abbrev http_version : Bytes
http_version =
    32 ∷ b'H' ∷ b'T' ∷ b'T' ∷ b'P' ∷ b'/' ∷ b'1' ∷ b'.' ∷ b'1' ∷ 13 ∷ 10 ∷ b'H' ∷ b'o' ∷ b's' ∷ b't'
    ∷ b':' ∷ 32 ∷ []

abbrev user_agent : Bytes
user_agent =
    13 ∷ 10 ∷ b'U' ∷ b's' ∷ b'e' ∷ b'r' ∷ b'-' ∷ b'A' ∷ b'g' ∷ b'e' ∷ b'n' ∷ b't' ∷ b':' ∷ 32 ∷ b'c'
    ∷ b'u' ∷ b'r' ∷ b'l' ∷ b'/' ∷ b'7' ∷ b'.' ∷ []

abbrev upgrade : Bytes
upgrade =
    13 ∷ 10 ∷ b'U' ∷ b'p' ∷ b'g' ∷ b'r' ∷ b'a' ∷ b'd' ∷ b'e' ∷ b':' ∷ 32 ∷ b'w' ∷ b'e' ∷ b'b' ∷ b's'
    ∷ b'o' ∷ b'c' ∷ b'k' ∷ b'e' ∷ b't' ∷ 13 ∷ 10 ∷ b'C' ∷ b'o' ∷ b'n' ∷ b'n' ∷ b'e' ∷ b'c' ∷ b't'
    ∷ b'i' ∷ b'o' ∷ b'n' ∷ b':' ∷ 32 ∷ b'U' ∷ b'p' ∷ b'g' ∷ b'r' ∷ b'a' ∷ b'd' ∷ b'e' ∷ 13 ∷ 10
    ∷ b'S' ∷ b'e' ∷ b'c' ∷ b'-' ∷ b'W' ∷ b'e' ∷ b'b' ∷ b'S' ∷ b'o' ∷ b'c' ∷ b'k' ∷ b'e' ∷ b't'
    ∷ b'-' ∷ b'K' ∷ b'e' ∷ b'y' ∷ b':' ∷ 32 ∷ []

abbrev content_length : Bytes
content_length =
    13 ∷ 10 ∷ b'C' ∷ b'o' ∷ b'n' ∷ b't' ∷ b'e' ∷ b'n' ∷ b't' ∷ b'-' ∷ b'L' ∷ b'e' ∷ b'n' ∷ b'g'
    ∷ b't' ∷ b'h' ∷ b':' ∷ 32 ∷ []

abbrev pub crlfs : Bytes
crlfs = 13 ∷ 10 ∷ 13 ∷ 10 ∷ []

-- The draws behind one request.
pub record Draws : Type 0 where
  pub major : ℕ
  pub minor : ℕ
  pub key_bytes : Bytes

pub data WriteState : Type 0 where
  wait : WriteState
  write : Bytes → ℕ → WriteState
  done : WriteState

module _ (base64 : Bytes → Bytes) where
  -- `write_fmt`: the head of a request whose body has `len` bytes.
  unfoldable pub request_head : HttpSimple → Draws → ℕ → Bytes
  request_head param d len =
      param.method
      ++ (32
          ∷ (param.uri
              ++ (http_version
                  ++ (param.host
                      ++ (user_agent
                          ++ (decimal 1 (d.major % 51)
                              ++ (b'.'
                                  ∷ (decimal 0 (d.minor % 2)
                                      ++ (upgrade
                                          ++ (base64 d.key_bytes
                                              ++ (content_length
                                                  ++ (decimal 19 len ++ crlfs))))))))))))

  -- The request, with `buf` as its body.
  unfoldable pub request : HttpSimple → Draws → Bytes → Bytes
  unfolding request_head
  request param d buf = request_head param d (length buf) ++ buf

  -- The rest of the loop once the state is `Done`.
  unfoldable pub write_done : Sink → Bytes → Poll ℕ × WriteState × Sink
  write_done inner buf = let (polled, inner) = sink_write inner buf in (polled, done, inner)

  -- `poll_write`. A round in the state `Write` uses up one poll of the stream below; `none` when the
  -- fuel runs out.
  unfoldable pub write_loop :
      ℕ → HttpSimple → Draws → WriteState → Sink → Bytes → Option (Poll ℕ × WriteState × Sink)
  unfolding request write_done
  write_loop zero param d st inner buf = none
  write_loop (suc fuel) param d wait inner buf =
      write_loop fuel param d (write (request param d buf) 0) inner buf
  write_loop (suc fuel) param d (write out pos) inner buf =
      let (polled, inner) = sink_write inner (drop pos out) in
      elim polled [
        | ready wrote ↦
            write_loop fuel param d
              (if length out == pos + wrote then done else write out (pos + wrote)) inner buf
        | failed ↦ some (failed, write out pos, inner)
        | pending ↦ some (pending, write out pos, inner)
      ]
  write_loop (suc fuel) param d done inner buf = some (write_done inner buf)

-- The response of the server may take so many bytes.
unfoldable pub read_buf_len : ℕ
read_buf_len = 8192

-- Where the first occurrence of `pattern` ends.
unfoldable pub find_subsequence_end : Bytes → Bytes → Option ℕ
find_subsequence_end [] pattern = none
find_subsequence_end (c ∷ cs) pattern =
    if bytes_eq (take (length pattern) (c ∷ cs)) pattern
    then some (length pattern)
    else elim (find_subsequence_end cs pattern) [ none ↦ none | some at ↦ some (suc at) ]

-- `Read(read_buf, pos)` is what has been read, the first `pos` bytes of the buffer; the others are 0.
pub data ReadState : Type 0 where
  read : Bytes → ReadState
  body : Bytes → ℕ → ReadState
  done : ReadState

-- The search through the whole buffer.
unfoldable pub find_end : Bytes → Option ℕ
unfolding find_subsequence_end read_buf_len
find_end filled = find_subsequence_end (filled ++ replicate (read_buf_len - length filled) 0) crlfs

unfoldable pub next_read : Bytes → ReadState
unfolding find_end
next_read filled = elim (find_end filled) [ some at ↦ body (drop at filled) 0 | none ↦ read filled ]

-- What the loop does with a read in the state `Read`: it goes on with `next`, or returns.
unfoldable pub after_read :
    (ReadState → Source → Option (Poll Bytes × ReadState × Source))
    → Bytes
    → Poll Bytes × Source
    → Option (Poll Bytes × ReadState × Source)
unfolding next_read
after_read next filled (ready got, inner) = next (next_read (filled ++ got)) inner
after_read next filled (failed, inner) = some (failed, read filled, inner)
after_read next filled (pending, inner) = some (pending, read filled, inner)

-- `poll_read` into a buffer with room for `limit` bytes; `none` when the fuel runs out.
unfoldable pub read_loop : ℕ → ReadState → Source → ℕ → Option (Poll Bytes × ReadState × Source)
unfolding after_read read_buf_len
read_loop zero st inner limit = none
read_loop (suc fuel) (read filled) inner limit =
    after_read (λ st inner. read_loop fuel st inner limit) filled
      (source_read inner (read_buf_len - length filled))
read_loop (suc fuel) (body rest pos) inner limit =
    let remaining = drop pos rest in
    let to_read = min (length remaining) limit in
    let st : ReadState = if length rest == pos + to_read then done else body rest (pos + to_read) in
    some (ready (take to_read remaining), st, inner)
read_loop (suc fuel) done inner limit =
    let (polled, inner) = source_read inner limit in some (polled, done, inner)
