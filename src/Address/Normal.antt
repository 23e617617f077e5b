-- ===== src/Address/Normal.antt =====
-- Normal forms: a domain that is the text of an IP address stands for that address.
use rabbit_digger_pro.Base.{
  List, Option, ℕ, ◌≡◌, ◌≢◌, ◌<◌, ◌^◌, refl, [], ◌∷◌, ◌++◌, none, some, Bytes, All, arith, true,
  append_assoc, ap, ◌∙◌, sym, subst, ◌↔◌,
}
use rabbit_digger_pro.Base.Decimal.{
  u16_to_string, parse_u16-to_string, u16_to_string-IsDigit, IsDigit,
}
use rabbit_digger_pro.Address.{
  socket_at, socket_at-plain, IpAddr, v4, v6, Address, socket_addr, domain, strip_brackets, IpText,
  IsIp, IsAddress, host_to_address, into_address, to_string, to_normalized, to_socket_addr,
  into_normalized, to_any_addr_port, resolve, SocketAddr, host, port_of, is_domain,
}
use rabbit_digger_pro.Address.Text.{rsplitn2-append, strip_brackets_around, strip_brackets_plain}

digits_no_colon : (s : Bytes) → All IsDigit s → All (λ c. c ≢ b':') s
digits_no_colon [] h = tt
digits_no_colon (c ∷ cs) h = (λ e. absurd (omega arith), digits_no_colon cs h.1)

IsAddress-port : (a : Address) → IsAddress a → port_of a < 2 ^ 16
unfolding port_of
IsAddress-port (socket_addr sa) i = i.1
IsAddress-port (domain d p) i = i

module _ (t : IpText) where
  into_address-append :
      (h : Bytes) (port : ℕ)
      → port < 2 ^ 16
      → into_address t (h ++ (b':' ∷ u16_to_string port)) ≡ some (host_to_address t h port)
  unfolding into_address
  into_address-append h port w =
      let split =
        rsplitn2-append b':' h (u16_to_string port)
          (digits_no_colon (u16_to_string port) (u16_to_string-IsDigit port)) in
      rw (split, into_address, parse_u16-to_string port w)

  host_of_ip :
      (ip : IpAddr) (p : ℕ)
      → IsIp ip
      → strip_brackets (host t (socket_addr (socket_at ip p))) ≡ t.print ip
  unfolding host
  host_of_ip (v4 o) p i = strip_brackets_plain (t.print (v4 o)) (t.print_no_bracket (v4 o) i)
  host_of_ip (v6 o) p i = strip_brackets_around (t.print (v6 o))

  -- The host and the port of an address lead back to its normal form.
  pub host_to_address-host :
      (a : Address) → IsAddress a → host_to_address t (host t a) (port_of a) ≡ to_normalized t a
  unfolding host_to_address to_normalized host port_of
  host_to_address-host (domain d p) i = refl
  host_to_address-host (socket_addr sa) i =
      let stripped = host_of_ip sa.ip sa.port i.0 in
      let parsed = t.parse-print sa.ip i.0 in
      subst (λ x. host_to_address t (host t (socket_addr x)) x.port ≡ socket_addr x)
        (socket_at-plain sa i.2 i.3) (ground arith)

  to_string_of_ip :
      (ip : IpAddr) (p : ℕ)
      → to_string t (socket_addr (socket_at ip p))
        ≡ host t (socket_addr (socket_at ip p)) ++ (b':' ∷ u16_to_string p)
  unfolding to_string host
  to_string_of_ip (v4 o) p = refl
  to_string_of_ip (v6 o) p = ap (◌∷◌ b'[') (sym (append_assoc (t.print (v6 o)) (b']' ∷ []) _))

  to_string-host :
      (a : Address) → IsAddress a → to_string t a ≡ host t a ++ (b':' ∷ u16_to_string (port_of a))
  unfolding port_of
  to_string-host (domain d p) i = unfold to_string host in refl
  to_string-host (socket_addr sa) i =
      subst
        (λ x. to_string t (socket_addr x) ≡ host t (socket_addr x) ++ (b':' ∷ u16_to_string x.port))
        (socket_at-plain sa i.2 i.3) (to_string_of_ip sa.ip sa.port)

  -- An address of octets and a `u16` port, with no flow information and no zone, is read back from its
  -- text, in normal form.
  pub into_address-to_string :
      (a : Address) → IsAddress a → into_address t (to_string t a) ≡ some (to_normalized t a)
  into_address-to_string a i = rw (to_string-host a i) (
      into_address-append (host t a) (port_of a) (IsAddress-port a i)
      ∙ ap some (host_to_address-host a i))

  -- Normalising twice is normalising once, the consuming form agrees with the borrowing one, and the normal form has the address's port.
  pub to_normalized_idem :
      (a : Address)
      → (to_normalized t (to_normalized t a) ≡ to_normalized t a)
        × (into_normalized t a ≡ to_normalized t a)
        × (port_of (to_normalized t a) ≡ port_of a)
  unfolding to_normalized into_normalized port_of
  to_normalized_idem (socket_addr sa) = (refl, refl, refl)
  to_normalized_idem (domain d p) = ground arith

  -- The three ways to ask for a socket address agree: an address that has none is a domain in normal
  -- form, has no wildcard address and is looked up under its own name; any other resolves to the
  -- one socket address that it has, with no lookup.
  pub to_socket_addr-resolve :
      (f : Bytes → ℕ → Option (List SocketAddr)) (a : Address)
      → ((to_socket_addr t a ≡ none) ↔ (is_domain (to_normalized t a) ≡ true))
        × ((to_any_addr_port t a ≡ none) ↔ (to_socket_addr t a ≡ none))
        × ((sa : SocketAddr) → to_socket_addr t a ≡ some sa → resolve t f a ≡ some (sa ∷ []))
        × ((d : Bytes) (p : ℕ)
            → to_normalized t a ≡ domain d p
            → (a ≡ domain d p) × (resolve t f a ≡ f d p))
  unfolding to_socket_addr to_normalized is_domain to_any_addr_port resolve
  to_socket_addr-resolve f (socket_addr sa) = ground arith
  to_socket_addr-resolve f (domain d p) = ground arith
