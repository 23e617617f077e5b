-- ===== src/Vless/Header/RoundTrip.antt =====
-- The server reads the request header that a client built, and refuses every other user.
use rabbit_digger_pro.Address.{Address}
use rabbit_digger_pro.Base.{
  ℕ, ◌≡◌, refl, [], ◌∷◌, ◌++◌, Option, none, some, Bytes, ◌==◌, if◌then◌else◌, length, bytes_eq,
  bytes_eq_iff, arith, ◌⊎◌, inl, inr, Bool-cases, append_assoc, read_exact, subst, ap, sym, ◌∙◌,
}
use rabbit_digger_pro.Base.Result.{invalid_data, permission_denied, ok, err}
use rabbit_digger_pro.Vless.Address.{
  zero_add, read_exact-octets, IsWire, wire, write_address-wire, read_address-wire,
}
use rabbit_digger_pro.Base.Utf8.{is_utf8, trim}
use rabbit_digger_pro.Vless.Header.{
  NormalizedFlow, normalize, flow_vision, vless_version, command_mux, mux_address, write_addons,
  read_addons, build_request_header, read_target, read_request, read_request_header,
}

-- What `normalize` gives.
abbrev pub IsNormalized : NormalizedFlow → Type 0
IsNormalized f = (f.flow ≡ none) ⊎ (f.flow ≡ some flow_vision)

abbrev pub addons : Option Bytes → Bytes
addons none = 0 ∷ []
addons (some flow) = 18 ∷ 0x0a ∷ 16 ∷ flow

write_addons-IsNormalized :
    (buf : Bytes) (f : NormalizedFlow)
    → IsNormalized f
    → write_addons buf f.flow ≡ ok (buf ++ addons f.flow)
unfolding write_addons
write_addons-IsNormalized buf f (inl e) = rw e refl
write_addons-IsNormalized buf f (inr e) = rw e refl

read_addons-addons :
    (f : NormalizedFlow) (rest : Bytes)
    → IsNormalized f
    → read_addons (addons f.flow ++ rest) ≡ ok (f, rest)
unfolding read_addons read_exact normalize trim is_utf8
read_addons-addons f rest (inl e) =
    subst (λ o. read_addons (addons o ++ rest) ≡ ok (record { flow = o }, rest)) (sym e) refl
read_addons-addons f rest (inr e) =
    subst (λ o. read_addons (addons o ++ rest) ≡ ok (record { flow = o }, rest)) (sym e) refl

-- The address that a header names, and the bytes that say so.
abbrev pub target : ℕ → Address → Address
target command addr = if command == command_mux then mux_address else addr

abbrev target_bytes : ℕ → Address → Bytes
target_bytes command addr = if command == command_mux then [] else wire addr

abbrev request : NormalizedFlow → ℕ → Address → Bytes
request f command addr = addons f.flow ++ (command ∷ target_bytes command addr)

build_request_header-request :
    (user : Bytes) (f : NormalizedFlow) (command : ℕ) (addr : Address)
    → IsNormalized f
    → IsWire addr
    → build_request_header user f command addr
      ≡ ok (vless_version ∷ (user ++ request f command addr))
unfolding build_request_header
build_request_header-request user f command addr normal wired =
    let flow = write_addons-IsNormalized (vless_version ∷ user) f normal in
    let host =
      write_address-wire (((vless_version ∷ user) ++ addons f.flow) ++ command ∷ []) addr wired in
    rw flow (elim (Bool-cases (command == command_mux)) [
      | inl mux ↦
          rw mux
            (ap (λ x. ok (vless_version ∷ x)) (append_assoc user (addons f.flow) (command ∷ [])))
      | inr tcp ↦ rw (tcp, host) (simp append_assoc refl)
    ])

read_target-target_bytes :
    (command : ℕ) (addr : Address) (rest : Bytes)
    → IsWire addr
    → read_target command (target_bytes command addr ++ rest) ≡ ok (target command addr, rest)
unfolding read_target
read_target-target_bytes command addr rest wired = elim (Bool-cases (command == command_mux)) [
  | inl mux ↦ rw mux refl
  | inr tcp ↦ rw tcp (read_address-wire addr rest wired)
]

read_request-request :
    (f : NormalizedFlow) (command : ℕ) (addr : Address) (rest : Bytes)
    → IsNormalized f
    → IsWire addr
    → read_request (request f command addr ++ rest)
      ≡ ok (record { command = command; addr = target command addr; flow = f }, rest)
unfolding read_request read_exact
read_request-request f command addr rest normal wired =
    let tail = command ∷ (target_bytes command addr ++ rest) in
    let whole : request f command addr ++ rest ≡ addons f.flow ++ tail =
      append_assoc (addons f.flow) (command ∷ target_bytes command addr) rest in
    rw (whole, read_addons-addons f tail normal)
      (rw (zero_add command, read_target-target_bytes command addr rest wired) refl)

-- Behind the version and sixteen bytes, the header is read only for the user that is expected.
pub read_request_header-user :
    (expected : Bytes) (version : ℕ) (user tail : Bytes)
    → length user ≡ 16
    → read_request_header expected (version ∷ (user ++ tail)) ≡ (
        if version == vless_version
        then (if bytes_eq user expected then read_request tail else err permission_denied)
        else err invalid_data)
unfolding read_request_header read_exact
read_request_header-user expected version user tail sixteen =
    rw (zero_add version, read_exact-octets 16 user tail sixteen) (ground arith)

-- The header that a client builds is read back by the server that expects its user, whatever
-- follows: the command, the flow, and the address, or the fixed address of the multiplexer. An IP
-- address has no zone, and a domain is at most 255 bytes of UTF-8.
pub read_request_header-build_request_header :
    (user : Bytes) (f : NormalizedFlow) (command : ℕ) (addr : Address)
    → length user ≡ 16
    → IsNormalized f
    → IsWire addr
    → (bytes : Bytes) × (build_request_header user f command addr ≡ ok bytes)
      × ((rest : Bytes)
          → read_request_header user (bytes ++ rest)
            ≡ ok (record { command = command; addr = target command addr; flow = f }, rest))
read_request_header-build_request_header user f command addr sixteen normal wired = (
  vless_version ∷ (user ++ request f command addr),
  build_request_header-request user f command addr normal wired,
  λ rest. rw (append_assoc user (request f command addr) rest) (
      read_request_header-user user vless_version user (request f command addr ++ rest) sixteen
      ∙ rw ((bytes_eq_iff user user).1 refl)
          (read_request-request f command addr rest normal wired)),
)
