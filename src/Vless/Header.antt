-- ===== src/Vless/Header.antt =====
-- The request header of protocol/vless/src/common.rs: what the client sends first, and how the server
-- reads it. A `String` is its bytes.
pub mod RoundTrip
use rabbit_digger_pro.Address.{Address, domain}
use rabbit_digger_pro.Base.{
  byte_at, ℕ, ◌+◌, ◌%◌, ◌≡◌, refl, List, [], ◌∷◌, ◌++◌, Option, none, some, Bool, true, false, not,
  ◌||◌, Bytes, ltb, ◌==◌, if◌then◌else◌, length, drop, get_elem?, bytes_eq, is_empty, from_be_bytes,
  arith, ◌⊎◌, inl, inr,
}
use rabbit_digger_pro.Base.Optional.{unwrap_or}
use rabbit_digger_pro.Base.Result.{
  unexpected_eof, invalid_data, invalid_input, permission_denied, other, Result, ok, err, ◌>>=◌,
  ◌>>◌, ensure,
}
use rabbit_digger_pro.Base.Utf8.{is_utf8, trim}
use rabbit_digger_pro.Vless.Address.{write_address, read_address, take_exact}

abbrev pub vless_version : ℕ
vless_version = 0

abbrev pub command_tcp : ℕ
command_tcp = 0x01

abbrev pub command_mux : ℕ
command_mux = 0x03

-- "xtls-rprx-vision".
abbrev pub flow_vision : Bytes
flow_vision =
    b'x' ∷ b't' ∷ b'l' ∷ b's' ∷ b'-' ∷ b'r' ∷ b'p' ∷ b'r' ∷ b'x' ∷ b'-' ∷ b'v' ∷ b'i' ∷ b's' ∷ b'i'
    ∷ b'o' ∷ b'n' ∷ []

-- "v1.mux.cool".
abbrev mux_domain : Bytes
mux_domain = b'v' ∷ b'1' ∷ b'.' ∷ b'm' ∷ b'u' ∷ b'x' ∷ b'.' ∷ b'c' ∷ b'o' ∷ b'o' ∷ b'l' ∷ []

abbrev mux_port : ℕ
mux_port = 666

pub record NormalizedFlow : Type 0 where
  pub flow : Option Bytes

unfoldable pub normalize : Option Bytes → Result NormalizedFlow
normalize none = ok (record { flow = none })
normalize (some text) =
    let s = trim text in
    if is_empty s
    then ok (record { flow = none })
    else if bytes_eq s flow_vision
    then ok (record { flow = some flow_vision })
    else err other

unfoldable pub is_vision : NormalizedFlow → Bool
is_vision f = elim f.flow [ some s ↦ bytes_eq s flow_vision | none ↦ false ]

pub record RequestHeader : Type 0 where
  pub command : ℕ
  pub addr : Address
  pub flow : NormalizedFlow

-- `buf` with the addons appended.
unfoldable pub write_addons : Bytes → Option Bytes → Result Bytes
write_addons buf none = ok (buf ++ 0 ∷ [])
write_addons buf (some flow) = do
  ensure (bytes_eq flow flow_vision) invalid_input
  ensure (not (ltb 127 (length flow))) invalid_input
  ok (buf ++ ((length flow + 2) % 256 ∷ 0x0a ∷ length flow % 256 ∷ flow))

-- The addons, of which `buf` has all.
unfoldable parse_addons : Bytes → Result NormalizedFlow
parse_addons buf = do
  ensure (not (ltb (length buf) 2 || not (byte_at buf 0 == 0x0a))) invalid_data
  ensure (length buf == byte_at buf 1 + 2) invalid_data
  ensure (is_utf8 (drop 2 buf)) invalid_data
  normalize (some (drop 2 buf))

unfoldable read_addons_body : ℕ → Bytes → Result (NormalizedFlow × Bytes)
unfolding parse_addons
read_addons_body len s = do (buf, s) ← take_exact len s; flow ← parse_addons buf; ok (flow, s)

unfoldable pub read_addons : Bytes → Result (NormalizedFlow × Bytes)
unfolding read_addons_body
read_addons s = do
  (len, s) ← take_exact 1 s
  let n = from_be_bytes len
  if n == 0 then ok (record { flow = none }, s) else read_addons_body n s

unfoldable finish_header : ℕ → Address → Bytes → Result Bytes
finish_header command addr buf =
    if not (command == command_mux) then write_address buf addr else ok buf

unfoldable pub build_request_header : Bytes → NormalizedFlow → ℕ → Address → Result Bytes
unfolding finish_header
build_request_header user_id flow command addr = do
  buf ← write_addons (vless_version ∷ user_id) flow.flow
  finish_header command addr (buf ++ command ∷ [])

abbrev pub mux_address : Address
mux_address = domain mux_domain mux_port

unfoldable pub read_target : ℕ → Bytes → Result (Address × Bytes)
read_target command s = if command == command_mux then ok (mux_address, s) else read_address s

-- What follows the user id.
unfoldable pub read_request : Bytes → Result (RequestHeader × Bytes)
unfolding read_target
read_request s = do
  (flow, s) ← read_addons s
  (command, s) ← take_exact 1 s
  (addr, s) ← read_target (from_be_bytes command) s
  ok (record { command = from_be_bytes command; addr = addr; flow = flow }, s)

-- The header at the head of the stream, and the rest of the stream.
unfoldable pub read_request_header : Bytes → Bytes → Result (RequestHeader × Bytes)
unfolding read_request
read_request_header expected s = do
  (version, s) ← take_exact 1 s
  ensure (from_be_bytes version == vless_version) invalid_data
  (user, s) ← take_exact 16 s
  ensure (bytes_eq user expected) permission_denied
  read_request s

abbrev pub write_response_header : Bytes
write_response_header = vless_version ∷ 0 ∷ []
