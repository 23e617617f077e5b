-- ===== src/Address/Same.antt =====
-- `PartialEq for Address` and `Hash`, so that addresses are the keys of maps.
use rabbit_digger_pro.Address.{IpAddr, v4, v6, Address, socket_addr, domain}
use rabbit_digger_pro.Base.{◌≡◌, Bool, true, false, ◌&&◌, ◌==◌, bytes_eq, bytes_eq_iff, ◌↔◌, arith}
use rabbit_digger_pro.Base.Map.{Key, bytes_key, nat_key}

unfoldable pub same_ip : IpAddr → IpAddr → Bool
same_ip (v4 a) (v4 b) = bytes_eq a b
same_ip (v6 a) (v6 b) = bytes_eq a b
same_ip (v4 a) (v6 b) = false
same_ip (v6 a) (v4 b) = false

same_ip_iff : (a b : IpAddr) → (same_ip a b ≡ true) ↔ (a ≡ b)
unfolding same_ip
same_ip_iff (v4 a) (v4 b) = ground (arith, bytes_eq_iff a b)
same_ip_iff (v6 a) (v6 b) = ground (arith, bytes_eq_iff a b)
same_ip_iff (v4 a) (v6 b) = ground arith
same_ip_iff (v6 a) (v4 b) = ground arith

unfoldable pub same_address : Address → Address → Bool
unfolding same_ip
same_address (socket_addr a) (socket_addr b) =
    (same_ip a.ip b.ip && (a.port == b.port))
    && (a.flowinfo == b.flowinfo && (a.scope_id == b.scope_id))
same_address (domain a p) (domain b q) = bytes_eq a b && (p == q)
same_address (socket_addr a) (domain b q) = false
same_address (domain a p) (socket_addr b) = false

pub same_address_iff : (a b : Address) → (same_address a b ≡ true) ↔ (a ≡ b)
unfolding same_address
same_address_iff (socket_addr a) (socket_addr b) = ground (arith, same_ip_iff a.ip b.ip)
same_address_iff (domain a p) (domain b q) = ground (arith, bytes_eq_iff a b)
same_address_iff (socket_addr a) (domain b q) = ground arith
same_address_iff (domain a p) (socket_addr b) = ground arith

instance abbrev pub address_key : Key Address
address_key = record { same = same_address; same_iff = same_address_iff }
