-- ===== src/Address.antt =====
-- rd-interface/src/address.rs: addresses as text and as socket addresses. A `String` is its bytes.
-- The text of an IP address belongs to `std::net`, and is the parameter `IpText`.
pub mod Text
pub mod Normal
pub mod Same
use rabbit_digger_pro.Base.{
  ap, sym, ◌∙◌, ℕ, ◌≡◌, ◌≢◌, List, [], ◌∷◌, ◌++◌, Option, none, some, Bool, true, false, Bytes,
  ◌==◌, if◌then◌else◌, All, IsByte, length, replicate, ◌<◌, ◌^◌,
}
use rabbit_digger_pro.Base.Decimal.{decimal, parse_u16, u16_to_string}
use rabbit_digger_pro.Base.Optional.{◌>>=◌, unwrap_or}

-- The octets of an address.
pub data IpAddr : Type 0 where
  v4 : Bytes → IpAddr
  v6 : Bytes → IpAddr

-- An IPv4 address has no flow information and no zone: there both are 0.
pub record SocketAddr : Type 0 where
  pub ip : IpAddr
  pub port : ℕ
  pub flowinfo : ℕ
  pub scope_id : ℕ

-- `SocketAddr::new`.
abbrev pub socket_at : IpAddr → ℕ → SocketAddr
socket_at ip port = record { ip = ip; port = port; flowinfo = 0; scope_id = 0 }

pub data Address : Type 0 where
  socket_addr : SocketAddr → Address
  domain : Bytes → ℕ → Address

-- `rsplitn(2, sep)`: what stands behind the last `sep`, then what stands before it, if there is one.
unfoldable pub rsplitn2 : ℕ → Bytes → Bytes × Option Bytes
rsplitn2 sep [] = ([], none)
rsplitn2 sep (c ∷ cs) =
    let (tail, host) = rsplitn2 sep cs in
    elim host [
      | some h ↦ (tail, some (c ∷ h))
      | none ↦ if c == sep then (tail, some []) else (c ∷ tail, none)
    ]

unfoldable pub strip_prefix : ℕ → Bytes → Option Bytes
strip_prefix c [] = none
strip_prefix c (b ∷ bs) = if b == c then some bs else none

unfoldable pub strip_suffix : ℕ → Bytes → Option Bytes
strip_suffix c [] = none
strip_suffix c (b ∷ []) = if b == c then some [] else none
strip_suffix c (b ∷ b' ∷ bs) = do rest ← strip_suffix c (b' ∷ bs); some (b ∷ rest)

unfoldable pub strip_brackets : Bytes → Bytes
unfolding strip_prefix strip_suffix
strip_brackets host = unwrap_or (do h ← strip_prefix b'[' host; strip_suffix b']' h) host

pub socket_at-plain :
    (sa : SocketAddr) → sa.flowinfo ≡ 0 → sa.scope_id ≡ 0 → socket_at sa.ip sa.port ≡ sa
socket_at-plain sa f z =
    ap (λ x. record sa { flowinfo = x; scope_id = 0 }) (sym f)
    ∙ ap (λ x. record sa { scope_id = x }) (sym z)

-- Four or sixteen octets; a port; no flow information and no zone.
abbrev pub IsIp : IpAddr → Type 0
IsIp (v4 o) = All IsByte o × (length o ≡ 4)
IsIp (v6 o) = All IsByte o × (length o ≡ 16)

abbrev pub IsAddress : Address → Type 0
IsAddress (socket_addr sa) = IsIp sa.ip × (sa.port < 2 ^ 16) × (sa.flowinfo ≡ 0) × (sa.scope_id ≡ 0)
IsAddress (domain d port) = port < 2 ^ 16

-- `std::net`: the text of IP addresses. The text of an IPv4 address has digits and dots, that of
-- an IPv6 address has no brackets, and both are read back.
pub record IpText : Type 0 where
  pub parse : Bytes → Option IpAddr
  pub print : IpAddr → Bytes
  pub parse-print : (ip : IpAddr) → IsIp ip → parse (print ip) ≡ some ip
  pub print_no_bracket : (ip : IpAddr) → IsIp ip → All (λ c. (c ≢ b'[') × (c ≢ b']')) (print ip)

unfoldable pub any_addr_port : SocketAddr → Address
any_addr_port sa = elim sa.ip [
  | v4 _ ↦ socket_addr (socket_at (v4 (replicate 4 0)) 0)
  | v6 _ ↦ socket_addr (socket_at (v6 (replicate 16 0)) 0)
]

-- The zone of an IPv6 address in its text, a `u32`.
unfoldable pub zone : ℕ → Bytes
zone scope_id = if scope_id == 0 then [] else b'%' ∷ decimal 9 scope_id

module _ (t : IpText) where
  unfoldable pub host_to_address : Bytes → ℕ → Address
  host_to_address host port = elim (t.parse (strip_brackets host)) [
    | some ip ↦ socket_addr (socket_at ip port)
    | none ↦ domain host port
  ]

  -- `IntoAddress for &str`, and `FromStr`; `none` is the error `AddrNotAvailable`.
  unfoldable pub into_address : Bytes → Option Address
  into_address s = do
    let parts = rsplitn2 b':' s
    port ← parse_u16 parts.0
    host ← parts.1
    some (host_to_address host port)

  -- `Display for SocketAddr` of `std::net`.
  unfoldable pub socket_addr_to_string : SocketAddr → Bytes
  unfolding zone
  socket_addr_to_string sa = elim sa.ip [
    | v4 o ↦ t.print (v4 o) ++ (b':' ∷ u16_to_string sa.port)
    | v6 o ↦ b'[' ∷ (t.print (v6 o) ++ (zone sa.scope_id ++ (b']' ∷ b':' ∷ u16_to_string sa.port)))
  ]

  unfoldable pub to_string : Address → Bytes
  unfolding socket_addr_to_string
  to_string (domain d port) = d ++ (b':' ∷ u16_to_string port)
  to_string (socket_addr sa) = socket_addr_to_string sa

  -- `normalize`, with `Either` as the address that it stands for.
  unfoldable pub to_normalized : Address → Address
  to_normalized (socket_addr sa) = socket_addr sa
  to_normalized (domain d port) = elim (t.parse (strip_brackets d)) [
    | some ip ↦ socket_addr (socket_at ip port)
    | none ↦ domain d port
  ]

  unfoldable pub to_socket_addr : Address → Option SocketAddr
  unfolding to_normalized
  to_socket_addr a = elim (to_normalized a) [ socket_addr sa ↦ some sa | domain _ _ ↦ none ]

  unfoldable pub into_normalized : Address → Address
  into_normalized (socket_addr sa) = socket_addr sa
  into_normalized (domain d p) = elim (t.parse (strip_brackets d)) [
    | some ip ↦ socket_addr (socket_at ip p)
    | none ↦ domain d p
  ]

  unfoldable pub to_any_addr_port : Address → Option Address
  unfolding to_normalized any_addr_port
  to_any_addr_port a = elim (to_normalized a) [
    | socket_addr sa ↦ some (any_addr_port sa)
    | domain _ _ ↦ none
  ]

  -- `f` is the lookup of a domain.
  unfoldable pub resolve :
      (Bytes → ℕ → Option (List SocketAddr)) → Address → Option (List SocketAddr)
  unfolding to_normalized
  resolve f a = elim (to_normalized a) [ socket_addr sa ↦ some (sa ∷ []) | domain d p ↦ f d p ]

  unfoldable pub host : Address → Bytes
  host (socket_addr sa) = elim sa.ip [
    | v4 o ↦ t.print (v4 o)
    | v6 o ↦ b'[' ∷ (t.print (v6 o) ++ (b']' ∷ []))
  ]
  host (domain d _) = d

unfoldable pub port_of : Address → ℕ
port_of (socket_addr sa) = sa.port
port_of (domain _ p) = p

unfoldable pub is_domain : Address → Bool
is_domain (domain _ _) = true
is_domain (socket_addr _) = false

unfoldable pub is_socket_addr : Address → Bool
is_socket_addr (socket_addr _) = true
is_socket_addr (domain _ _) = false
