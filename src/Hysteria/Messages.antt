-- ===== src/Hysteria/Messages.antt =====
-- The TCP messages of protocol/hysteria/src/codec.rs, their reader on the server
-- (`hy2_handle_tcp_stream` in server.rs, up to the connection) and on the client
-- (`read_tcp_response` in client.rs). A stream is the bytes that it has left.
pub mod RoundTrip
use rabbit_digger_pro.Address.{Address, IpText, into_address, to_string}
use rabbit_digger_pro.Base.{
  ℕ, zero, suc, ◌+◌, ◌-◌, ◌*◌, List, [], ◌∷◌, ◌++◌, Option, none, some, Bytes, Bool, true, false,
  ◌||◌, not, ltb, ◌==◌, if◌then◌else◌, length, read_exact, read_one, min,
}
use rabbit_digger_pro.Base.Utf8.{from_utf8_lossy}
use rabbit_digger_pro.Hysteria.Codec.{write_varint, read_quic_varint}

pub data Error : Type 0 where
  io unknown_stream_type invalid_address_length bad_utf8 bad_address : Error
  remote : Bytes → Error

pub data Result {ℓ} (A : Type ℓ) : Type ℓ where
  ok : A → Result A
  err : Error → Result A

infixl 5 ◌>>=◌ ◌>>◌
abbrev pub ◌>>=◌ {ℓ κ} : {A : Type ℓ} {B : Type κ} → Result A → (A → Result B) → Result B
ok a >>= f = f a
err e >>= f = err e

abbrev pub ◌>>◌ {κ} : {B : Type κ} → Result (Unit {0}) → Result B → Result B
ok u >> k = k
err e >> k = err e

abbrev pub or_fail {ℓ} : {A : Type ℓ} → Option A → Error → Result A
or_fail none e = err e
or_fail (some a) e = ok a

abbrev pub fail_if : Bool → Error → Result (Unit {0})
fail_if b e = if b then err e else ok tt

abbrev pub hy2_tcp_request : ℕ
hy2_tcp_request = 0x401

-- `out` with the message appended. The text of the target is `address_to_host_port`.
unfoldable pub write_tcp_request_with_padding : IpText → Bytes → Address → Bytes → Bytes
write_tcp_request_with_padding t out target padding =
    let addr_bytes = to_string t target in
    let out₁ = write_varint out hy2_tcp_request in
    let out₂ = write_varint out₁ (length addr_bytes) in
    let out₃ = out₂ ++ addr_bytes in
    let out₄ = write_varint out₃ (length padding) in out₄ ++ padding

unfoldable pub write_tcp_response : Bytes → ℕ → Bytes → Bytes → Bytes
write_tcp_response out status msg padding =
    let out₁ = out ++ (status ∷ []) in
    let out₂ = write_varint out₁ (length msg) in
    let out₃ = out₂ ++ msg in let out₄ = write_varint out₃ (length padding) in out₄ ++ padding

unfoldable pub write_tcp_response_ok : Bytes → Bytes → Bytes
unfolding write_tcp_response
write_tcp_response_ok out padding = write_tcp_response out 0x00 [] padding

unfoldable pub write_tcp_response_error : Bytes → Bytes → Bytes → Bytes
unfolding write_tcp_response
write_tcp_response_error out msg padding = write_tcp_response out 0x01 msg padding

-- `while left > 0`, a buffer of `chunk` bytes at a time; `none` when the fuel runs out.
unfoldable pub discard_loop : ℕ → ℕ → ℕ → Bytes → Option (Result Bytes)
discard_loop zero chunk left stream = none
discard_loop (suc fuel) chunk left stream = elim (left == 0) [
  | true ↦ some (ok stream)
  | false ↦ elim (read_exact (min chunk left) stream) [
    | none ↦ some (err io)
    | some (_, rest) ↦ discard_loop fuel chunk (left - min chunk left) rest
  ]
]

-- A round takes at least one byte, so that more rounds than bytes are never made.
unfoldable pub discard_padding : ℕ → Bytes → Result Bytes
unfolding discard_loop
discard_padding padding_len stream =
    elim (discard_loop (suc padding_len) (min padding_len (64 * 1024)) padding_len stream) [
      | none ↦ err io
      | some r ↦ r
    ]

-- What the server reads from a new stream: the target, and the rest of the stream. `is_utf8` is
-- the check of `String::from_utf8`.
unfoldable pub read_tcp_request : IpText → (Bytes → Bool) → Bytes → Result (Address × Bytes)
unfolding discard_padding
read_tcp_request t is_utf8 s = do
  (msg_type, s₁) ← or_fail (read_quic_varint s) io
  fail_if (not (msg_type == hy2_tcp_request)) unknown_stream_type
  (addr_len, s₂) ← or_fail (read_quic_varint s₁) io
  fail_if (addr_len == 0 || ltb 1024 addr_len) invalid_address_length
  (addr_buf, s₃) ← or_fail (read_exact addr_len s₂) io
  fail_if (not (is_utf8 addr_buf)) bad_utf8
  (padding_len, s₄) ← or_fail (read_quic_varint s₃) io
  s₅ ← discard_padding padding_len s₄
  target ← or_fail (into_address t addr_buf) bad_address
  ok (target, s₅)

-- `read_tcp_response`: the rest of the stream, or the remote error with its message, which is
-- empty where the response has none.
unfoldable pub read_tcp_response : Bytes → Result Bytes
unfolding discard_padding from_utf8_lossy
read_tcp_response s = do
  (status, s₁) ← or_fail (read_one s) io
  (msg_len, s₂) ← or_fail (read_quic_varint s₁) io
  (msg, s₃) ← or_fail (read_exact msg_len s₂) io
  (padding_len, s₄) ← or_fail (read_quic_varint s₃) io
  s₅ ← discard_padding padding_len s₄
  fail_if (not (status == 0x00)) (remote (from_utf8_lossy msg))
  ok s₅
