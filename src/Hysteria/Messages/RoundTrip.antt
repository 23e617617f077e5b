-- ===== src/Hysteria/Messages/RoundTrip.antt =====
-- What one side writes, the other reads.
use rabbit_digger_pro.Address.{Address, IpText, IsAddress, to_string, to_normalized}
use rabbit_digger_pro.Address.Normal.{into_address-to_string}
use rabbit_digger_pro.Base.{
  ℕ, zero, suc, ◌-◌, ◌*◌, ◌^◌, ◌≤◌, ◌<◌, ◌≡◌, refl, [], ◌∷◌, ◌++◌, some, Bytes, Bool, true, ◌==◌,
  if◌then◌else◌, length, drop, read_one, min, arith, append_assoc, read_exact-append,
  read_exact-some, length-drop, length-append, drop-drop, drop-length_append, ◌∙◌, Bool-cases, inl,
  inr, ap,
}
use rabbit_digger_pro.Base.Utf8
use rabbit_digger_pro.Base.Utf8.{from_utf8_lossy, from_utf8_lossy-is_utf8}
use rabbit_digger_pro.Hysteria.Codec.{write_varint}
use rabbit_digger_pro.Hysteria.Codec.Varint.{write_varint-append, read-write_varint}
use rabbit_digger_pro.Hysteria.Messages.{
  remote, ok, err, hy2_tcp_request, write_tcp_request_with_padding, write_tcp_response,
  discard_loop, discard_padding, read_tcp_request, read_tcp_response,
}

-- The loop drops what it is asked to, if the stream has it.
discard_loop_enough :
    (fuel chunk left : ℕ) (stream : Bytes)
    → left < fuel
    → 0 < chunk
    → left ≤ length stream
    → discard_loop fuel chunk left stream ≡ some (ok (drop left stream))
unfolding discard_loop
discard_loop_enough zero chunk left stream f c h = absurd (omega arith)
discard_loop_enough (suc fuel) chunk left stream f c h = elim (Bool-cases (left == 0)) [
  | inl done ↦ let e : left ≡ 0 = ground arith in rw (done, discard_loop) (rw e)
  | inr more ↦
      let n = min chunk left in
      let pos : 0 < left = ground arith in
      let read = read_exact-some n stream (omega arith) in
      let rest =
        discard_loop_enough fuel chunk (left - n) (drop n stream) (omega arith) c
          (omega (arith, length-drop n stream)) in
      rw (more, discard_loop)
        (rw (read, discard_loop)
          (rest
            ∙ ap (λ (s : Bytes). some (ok s)) (drop-drop (left - n) n left stream (omega arith))))
]

-- Padding that the stream has is dropped, whatever its length.
pub discard_padding-append :
    (padding rest : Bytes) → discard_padding (length padding) (padding ++ rest) ≡ ok rest
unfolding discard_padding
discard_padding-append [] rest = unfold discard_loop in refl
discard_padding-append (p ∷ ps) rest =
    let k = length (p ∷ ps) in
    let loop =
      discard_loop_enough (suc k) (min k (64 * 1024)) k ((p ∷ ps) ++ rest) (omega arith)
        (omega arith) (omega (arith, length-append (p ∷ ps) rest)) in
    rw (loop, discard_padding) (ap ok (drop-length_append (p ∷ ps) rest))

module _ (t : IpText) (is_utf8 : Bytes → Bool) where
  request_layout :
      (target : Address) (padding rest : Bytes)
      → write_tcp_request_with_padding t [] target padding ++ rest
        ≡ write_varint [] hy2_tcp_request
          ++ (write_varint [] (length (to_string t target))
              ++ (to_string t target ++ (write_varint [] (length padding) ++ (padding ++ rest))))
  unfolding write_tcp_request_with_padding
  request_layout target padding rest =
      let a = to_string t target in
      simp (
        write_varint-append (write_varint [] hy2_tcp_request) (length a),
        write_varint-append (write_varint [] hy2_tcp_request ++ (write_varint [] (length a) ++ a))
            (length padding),
        append_assoc,
      )

  -- The server reads off the target of the request that a client writes, in normal form, and is
  -- left with what follows the request. The target's text must be UTF-8 of 1 to 1024 bytes and
  -- its octets and port fit, and it has no zone; the padding may have any length that an integer can carry.
  pub read-write_tcp_request :
      (target : Address) (padding rest : Bytes)
      → IsAddress target
      → 0 < length (to_string t target)
      → length (to_string t target) ≤ 1024
      → is_utf8 (to_string t target) ≡ true
      → length padding < 2 ^ 62
      → read_tcp_request t is_utf8 (write_tcp_request_with_padding t [] target padding ++ rest)
        ≡ ok (to_normalized t target, rest)
  unfolding read_tcp_request
  read-write_tcp_request target padding rest port some_text short utf8 pad =
      let a = to_string t target in
      let body = a ++ (write_varint [] (length padding) ++ (padding ++ rest)) in
      rw (request_layout target padding rest) (
        ground (
          arith,
          read-write_varint hy2_tcp_request (write_varint [] (length a) ++ body),
          read-write_varint (length a) body,
          read_exact-append a (write_varint [] (length padding) ++ (padding ++ rest)),
          read-write_varint (length padding) (padding ++ rest),
          discard_padding-append padding rest,
          into_address-to_string t target port,
        ))

response_layout :
    (status : ℕ) (msg padding rest : Bytes)
    → write_tcp_response [] status msg padding ++ rest
      ≡ status
        ∷ (write_varint [] (length msg)
            ++ (msg ++ (write_varint [] (length padding) ++ (padding ++ rest))))
unfolding write_tcp_response
response_layout status msg padding rest = simp (
  write_varint-append (status ∷ []) (length msg),
  write_varint-append (status ∷ (write_varint [] (length msg) ++ msg)) (length padding),
  append_assoc,
)

-- The client reads the response that the server writes: what follows it if the status is 0, and the
-- remote error with its message, as `from_utf8_lossy` reads it, otherwise. A message that is text, as
-- the server's is, it reads as it was written.
pub read-write_tcp_response :
    (status : ℕ) (msg padding rest : Bytes)
    → length msg < 2 ^ 62
    → length padding < 2 ^ 62
    → (read_tcp_response (write_tcp_response [] status msg padding ++ rest)
        ≡ (if status == 0x00 then ok rest else err (remote (from_utf8_lossy msg))))
      × (Utf8.is_utf8 msg ≡ true → from_utf8_lossy msg ≡ msg)
unfolding read_tcp_response read_one
read-write_tcp_response status msg padding rest m p = (
  rw (response_layout status msg padding rest) (
      ground (
        arith,
        read-write_varint (length msg)
            (msg ++ (write_varint [] (length padding) ++ (padding ++ rest))),
        read_exact-append msg (write_varint [] (length padding) ++ (padding ++ rest)),
        read-write_varint (length padding) (padding ++ rest),
        discard_padding-append padding rest,
      )),
  from_utf8_lossy-is_utf8 msg,
)
