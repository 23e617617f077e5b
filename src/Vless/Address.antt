-- ===== src/Vless/Address.antt =====
-- Addresses of protocol/vless/src/common.rs on the wire, as both sides write them, and as the server
-- reads them off the stream or out of the metadata of a packet.
use rabbit_digger_pro.Address.{
  socket_at, socket_at-plain, Address, IsAddress, IpAddr, socket_addr, domain, v4, v6,
}
use rabbit_digger_pro.Base.{
  ℕ, ◌+◌, ◌*◌, ◌^◌, ◌<◌, ◌≤◌, ◌≡◌, refl, [], ◌∷◌, ◌++◌, some, true, Bytes, ltb, ◌==◌, if◌then◌else◌,
  length, take, drop, to_be_bytes, from_be_bytes, from_be-to_be, arith, read_exact,
  read_exact-append, subst, le→ltb, length-append, take-length_append, drop-length_append,
}
use rabbit_digger_pro.Base.Utf8.{is_utf8}
use rabbit_digger_pro.Base.Result.{
  unexpected_eof, invalid_data, invalid_input, Result, ok, err, ◌>>=◌, ok_or,
}

abbrev address_type_ipv4 : ℕ
address_type_ipv4 = 1

abbrev address_type_domain : ℕ
address_type_domain = 2

abbrev address_type_ipv6 : ℕ
address_type_ipv6 = 3

-- `buf` with the address appended.
unfoldable pub write_address : Bytes → Address → Result Bytes
write_address buf (socket_addr socket) = elim socket.ip [
  | v4 octets ↦ ok (buf ++ (to_be_bytes 2 socket.port ++ (address_type_ipv4 ∷ octets)))
  | v6 octets ↦ ok (buf ++ (to_be_bytes 2 socket.port ++ (address_type_ipv6 ∷ octets)))
]
write_address buf (domain name port) =
    if ltb 255 (length name)
    then err invalid_input
    else ok (buf ++ (to_be_bytes 2 port ++ (address_type_domain ∷ length name ∷ name)))

unfoldable pub write_address_buf : Bytes → Address → Result Bytes
unfolding write_address
write_address_buf buf addr = do tmp ← write_address [] addr; ok (buf ++ tmp)

-- `read_exact` on what the stream has left before its end.
abbrev pub take_exact : ℕ → Bytes → Result (Bytes × Bytes)
take_exact n s = ok_or (read_exact n s) unexpected_eof

abbrev from_octets : (Bytes → IpAddr) → Bytes → ℕ → Address
from_octets version ip port = socket_addr (socket_at (version ip) port)

abbrev from_utf8 : Bytes → ℕ → Bytes → Result (Address × Bytes)
from_utf8 name port rest = if is_utf8 name then ok (domain name port, rest) else err invalid_data

unfoldable pub read_domain : ℕ → Bytes → Result (Address × Bytes)
read_domain port s = do
  (len, s) ← take_exact 1 s
  (name, s) ← take_exact (from_be_bytes len) s
  from_utf8 name port s

-- `match atyp[0]`.
unfoldable read_host : ℕ → ℕ → Bytes → Result (Address × Bytes)
unfolding read_domain
read_host atyp port s =
    if atyp == address_type_ipv4
    then (do (ip, s) ← take_exact 4 s; ok (from_octets v4 ip port, s))
    else if atyp == address_type_ipv6
    then (do (ip, s) ← take_exact 16 s; ok (from_octets v6 ip port, s))
    else if atyp == address_type_domain
    then read_domain port s
    else err invalid_data

-- The address at the head of the stream, and the rest of the stream.
unfoldable pub read_address : Bytes → Result (Address × Bytes)
unfolding read_host
read_address s = do
  (port, s) ← take_exact 2 s
  (atyp, s) ← take_exact 1 s
  read_host (from_be_bytes atyp) (from_be_bytes port) s

unfoldable read_domain_buf : ℕ → Bytes → Result (Address × Bytes)
read_domain_buf port buf = elim buf [
  | [] ↦ err unexpected_eof
  | len ∷ rest ↦
      if ltb (length rest) len
      then err unexpected_eof
      else from_utf8 (take len rest) port (drop len rest)
]

unfoldable read_host_buf : ℕ → ℕ → Bytes → Result (Address × Bytes)
unfolding read_domain_buf
read_host_buf atyp port buf =
    if atyp == address_type_ipv4
    then (if ltb (length buf) 4
        then err unexpected_eof
        else ok (from_octets v4 (take 4 buf) port, drop 4 buf))
    else if atyp == address_type_ipv6
    then (if ltb (length buf) 16
        then err unexpected_eof
        else ok (from_octets v6 (take 16 buf) port, drop 16 buf))
    else if atyp == address_type_domain
    then read_domain_buf port buf
    else err invalid_data

-- The address at the head of a buffer, and what stays in the buffer.
unfoldable pub read_address_buf : Bytes → Result (Address × Bytes)
unfolding read_host_buf
read_address_buf buf =
    if ltb (length buf) 3
    then err unexpected_eof
    else read_host_buf (from_be_bytes (take 1 (drop 2 buf))) (from_be_bytes (take 2 buf))
        (drop 3 buf)

-- An address that the wire can carry.
abbrev pub IsWire : Address → Type 0
IsWire (socket_addr socket) = IsAddress (socket_addr socket)
IsWire (domain name port) = (port < 2 ^ 16) × (length name ≤ 255) × (is_utf8 name ≡ true)

-- The bytes of an address.
abbrev pub wire : Address → Bytes
wire (socket_addr socket) = elim socket.ip [
  | v4 octets ↦ to_be_bytes 2 socket.port ++ (address_type_ipv4 ∷ octets)
  | v6 octets ↦ to_be_bytes 2 socket.port ++ (address_type_ipv6 ∷ octets)
]
wire (domain name port) = to_be_bytes 2 port ++ (address_type_domain ∷ length name ∷ name)

write_socket :
    (buf : Bytes) (ip : IpAddr) (port : ℕ)
    → let addr = socket_addr (socket_at ip port) in write_address buf addr ≡ ok (buf ++ wire addr)
unfolding write_address
write_socket buf (v4 o) port = refl
write_socket buf (v6 o) port = refl

pub write_address-wire :
    (buf : Bytes) (addr : Address) → IsWire addr → write_address buf addr ≡ ok (buf ++ wire addr)
unfolding write_address
write_address-wire buf (socket_addr socket) h = write_socket buf socket.ip socket.port
write_address-wire buf (domain name port) h = ground arith

take_octets : (n : ℕ) (o rest : Bytes) → length o ≡ n → take n (o ++ rest) ≡ o
take_octets n o rest e = subst (λ m. take m (o ++ rest) ≡ o) e (take-length_append o rest)

drop_octets : (n : ℕ) (o rest : Bytes) → length o ≡ n → drop n (o ++ rest) ≡ rest
drop_octets n o rest e = subst (λ m. drop m (o ++ rest) ≡ rest) e (drop-length_append o rest)

pub zero_add : (n : ℕ) → 0 * 256 + n ≡ n
zero_add n = omega arith

pub read_exact-octets :
    (n : ℕ) (o rest : Bytes) → length o ≡ n → read_exact n (o ++ rest) ≡ some (o, rest)
read_exact-octets n o rest e =
    subst (λ m. read_exact m (o ++ rest) ≡ some (o, rest)) e (read_exact-append o rest)

read_socket :
    (ip : IpAddr) (port : ℕ) (rest : Bytes)
    → let addr = socket_addr (socket_at ip port) in
      IsWire addr → read_address (wire addr ++ rest) ≡ ok (addr, rest)
unfolding read_address read_exact
read_socket (v4 o) port rest (h, small, _, _) =
    rw (from_be-to_be 2 port small) (rw (read_exact-octets 4 o rest h.1, read_exact) refl)
read_socket (v6 o) port rest (h, small, _, _) =
    rw (from_be-to_be 2 port small) (rw (read_exact-octets 16 o rest h.1, read_exact) refl)

pub read_address-wire :
    (addr : Address) (rest : Bytes)
    → IsWire addr
    → read_address (wire addr ++ rest) ≡ ok (addr, rest)
unfolding read_address read_exact
read_address-wire (socket_addr socket) rest h =
    subst (λ s. read_address (wire (socket_addr s) ++ rest) ≡ ok (socket_addr s, rest))
      (socket_at-plain socket h.2 h.3)
      (read_socket socket.ip socket.port rest (h.0, h.1, refl, refl))
read_address-wire (domain name port) rest h =
    rw (from_be-to_be 2 port h.0)
      (rw (zero_add (length name), read_exact-append name rest) (rw h.2 refl))

read_socket_buf :
    (ip : IpAddr) (port : ℕ) (rest : Bytes)
    → let addr = socket_addr (socket_at ip port) in
      IsWire addr → read_address_buf (wire addr ++ rest) ≡ ok (addr, rest)
unfolding read_address_buf
read_socket_buf (v4 o) port rest (h, small, _, _) =
    let enough = le→ltb (length (o ++ rest)) 4 (omega (arith, h.1, length-append o rest)) in
    rw (from_be-to_be 2 port small)
      (rw (enough, take_octets 4 o rest h.1, drop_octets 4 o rest h.1) (ground arith))
read_socket_buf (v6 o) port rest (h, small, _, _) =
    let enough = le→ltb (length (o ++ rest)) 16 (omega (arith, h.1, length-append o rest)) in
    rw (from_be-to_be 2 port small)
      (rw (enough, take_octets 16 o rest h.1, drop_octets 16 o rest h.1) (ground arith))

pub read_address_buf-wire :
    (addr : Address) (rest : Bytes)
    → IsWire addr
    → read_address_buf (wire addr ++ rest) ≡ ok (addr, rest)
unfolding read_address_buf
read_address_buf-wire (socket_addr socket) rest h =
    subst (λ s. read_address_buf (wire (socket_addr s) ++ rest) ≡ ok (socket_addr s, rest))
      (socket_at-plain socket h.2 h.3)
      (read_socket_buf socket.ip socket.port rest (h.0, h.1, refl, refl))
read_address_buf-wire (domain name port) rest h =
    let enough =
      le→ltb (length (name ++ rest)) (length name) (omega (arith, length-append name rest)) in
    rw (from_be-to_be 2 port h.0) (
      rw (enough, take-length_append name rest, drop-length_append name rest)
        (rw h.2 (ground arith)))
