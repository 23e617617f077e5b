-- ===== src/AnyTls/Writer.antt =====
-- `AnyTlsStream` of protocol/anytls/src/client.rs, and what it opens with. The channels are queues:
-- `read_rx` is what the reader has delivered, `written` what was sent to the writer, `ended` that the
-- reader is gone and `writable` that the writer is there.
pub mod Writes
use rabbit_digger_pro.Address.{Address}
use rabbit_digger_pro.AnyTls.Frame.{
  Frame, encode_frame, encode_socks_addr, cmd_psh, cmd_fin, cmd_syn, cmd_settings,
}
use rabbit_digger_pro.Base.{
  ℕ, zero, suc, ◌+◌, ◌-◌, List, [], ◌∷◌, ◌++◌, Option, none, some, Bytes, Bool, true, false, ◌==◌,
  not, if◌then◌else◌, length, take, drop, is_empty, min,
}
use rabbit_digger_pro.Base.Optional.{◌>>=◌}

pub record AnyTlsStream : Type 0 where
  pub sid : ℕ
  pub written : List Bytes
  pub writable : Bool
  pub read_rx : List Bytes
  pub ended : Bool
  pub read_buf : Bytes
  pub closed : Bool

-- What `poll_write` gives: `broken_pipe` is its error, `panic` a failed assertion.
pub data Written : Type 0 where
  wrote : ℕ → Written
  broken_pipe panic : Written

-- What `poll_read` gives: the bytes put into the buffer, none at the end, or `pending`.
pub data Read : Type 0 where
  ready : Bytes → Read
  pending : Read

abbrev pub max_payload : ℕ
max_payload = 65_535

unfoldable pub poll_write : AnyTlsStream → Bytes → Written × AnyTlsStream
poll_write s buf =
    if s.closed
    then (broken_pipe, s)
    else if is_empty buf
    then (wrote 0, s)
    else let n = min (length buf) max_payload in
      elim (encode_frame (record { cmd = cmd_psh; sid = s.sid; payload = take n buf })) [
        | none ↦ (panic, s)
        | some frame ↦
            if s.writable
            then (wrote n, record s { written = s.written ++ frame ∷ [] })
            else (broken_pipe, s)
      ]

-- The bytes that fit into `remaining`, from the buffer of the stream.
unfoldable pub take_read : ℕ → AnyTlsStream → Read × AnyTlsStream
take_read remaining s =
    let n = min (length s.read_buf) remaining in
    (ready (take n s.read_buf), record s { read_buf = drop n s.read_buf })

unfoldable pub poll_read : ℕ → AnyTlsStream → Read × AnyTlsStream
unfolding take_read
poll_read remaining s = elim (is_empty s.read_buf) [
  | false ↦ take_read remaining s
  | true ↦ elim s.read_rx [
    | [] ↦ (if s.ended then (ready [], s) else (pending, s))
    | bytes ∷ rest ↦
        take_read remaining (record s { read_rx = rest; read_buf = s.read_buf ++ bytes })
  ]
]

unfoldable pub poll_shutdown : AnyTlsStream → AnyTlsStream
poll_shutdown s =
    if s.closed
    then s
    else elim (encode_frame (record { cmd = cmd_fin; sid = s.sid; payload = [] })) [
      | none ↦ record s { closed = true }
      | some frame ↦ record s {
        closed = true;
        written = if s.writable then s.written ++ frame ∷ [] else s.written;
      }
    ]

-- The first payload of a connection: the settings, the opening of the stream, and the target. `none`
-- is the error of a target that cannot be encoded, or a failed assertion.
unfoldable pub initial_payload : ℕ → Bytes → Address → Option Bytes
initial_payload sid settings addr = do
  first ← encode_frame (record { cmd = cmd_settings; sid = 0; payload = settings })
  second ← encode_frame (record { cmd = cmd_syn; sid = sid; payload = [] })
  target ← encode_socks_addr addr
  third ← encode_frame (record { cmd = cmd_psh; sid = sid; payload = target })
  some ((first ++ second) ++ third)
