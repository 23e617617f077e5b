-- ===== src/Tests/Address.antt =====
-- Addresses of rd-interface/src/address.rs on concrete inputs.
use rabbit_digger_pro.Address.{
  socket_at, IpAddr, v4, v6, SocketAddr, Address, socket_addr, domain, into_address, to_string,
  to_normalized, strip_brackets, rsplitn2,
}
use rabbit_digger_pro.Address.Normal.{into_address-to_string}
use rabbit_digger_pro.Base.{ℕ, ◌++◌, List, Option, ◌≡◌, refl, ◌∷◌, [], some, none, Bytes, arith}
use rabbit_digger_pro.Base.Decimal.{u16_to_string}
use rabbit_digger_pro.Tests.Text.{stroke_text}

abbrev localhost : IpAddr
localhost = v4 (127 ∷ 0 ∷ 0 ∷ 1 ∷ [])

abbrev web : Address
web = socket_addr (socket_at localhost 8080)

abbrev six : Address
six = socket_addr (record {
  ip = v6 (0 ∷ 0 ∷ 0 ∷ 0 ∷ 0 ∷ 0 ∷ 0 ∷ 0 ∷ 0 ∷ 0 ∷ 0 ∷ 0 ∷ 0 ∷ 0 ∷ 0 ∷ 1 ∷ []);
  port = 443;
  flowinfo = 0;
  scope_id = 0;
})

-- An address with the zone 2.
abbrev zoned : Address
zoned = socket_addr (record { ip = v6 (1 ∷ []); port = 80; flowinfo = 0; scope_id = 2 })

zoned_text :
    to_string stroke_text zoned
    ≡ b'[' ∷ (stroke_text.print (v6 (1 ∷ [])) ++ (b'%' ∷ b'2' ∷ b']' ∷ b':' ∷ b'8' ∷ b'0' ∷ []))
unfolding to_string u16_to_string
zoned_text = refl

abbrev example : Address
example = domain (b'a' ∷ b'.' ∷ b'b' ∷ []) 80

into_address-to_string_example :
    into_address stroke_text (to_string stroke_text web) ≡ some (to_normalized stroke_text web)
into_address-to_string_example = into_address-to_string stroke_text web (
  ((omega arith, (omega arith, (omega arith, (omega arith, tt)))), refl),
  omega arith,
  refl,
  refl,
)

no_lookup : Bytes → ℕ → Option (List SocketAddr)
no_lookup d p = none

stripped : strip_brackets (b'[' ∷ b'a' ∷ b']' ∷ []) ≡ b'a' ∷ []
unfolding strip_brackets
stripped = refl

split :
    rsplitn2 b':' (b'a' ∷ b':' ∷ b'b' ∷ b':' ∷ b'8' ∷ [])
    ≡ (b'8' ∷ [], some (b'a' ∷ b':' ∷ b'b' ∷ []))
unfolding rsplitn2
split = refl
