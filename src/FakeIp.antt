-- ===== src/FakeIp.antt =====
-- protocol/raw/src/fake_ip.rs: the pool of fake IPv4 addresses of the TUN server. An
-- `Ipv4Addr` is its `u32`; arithmetic on `u32` wraps, as in a release build.
pub mod Bijection
pub mod Range
use rabbit_digger_pro.Base.{
  ℕ, ◌+◌, ◌-◌, ◌%◌, ◌^◌, Bool, false, ◌&&◌, List, [], Option, none, some, Bytes, leb,
}
use rabbit_digger_pro.Base.Map
use rabbit_digger_pro.Base.Map.{nat_key, bytes_key}

abbrev pub u32_mod : ℕ
u32_mod = 2 ^ 32

abbrev pub wrapping_sub : ℕ → ℕ → ℕ
wrapping_sub a b = (a + u32_mod - b) % u32_mod

abbrev pub wrapping_add : ℕ → ℕ → ℕ
wrapping_add a b = (a + b) % u32_mod

pub record FakeIpPool : Type 0 where
  pub lowest : ℕ
  pub highest : ℕ
  pub cursor : ℕ
  pub domain_to_ip : List (Bytes × ℕ)
  pub ip_to_domain : List (ℕ × Bytes)

pub data IpAddr : Type 0 where
  v4 : ℕ → IpAddr
  v6 : List ℕ → IpAddr

-- `new`, behind `parse_cidr`: the network's base address and the length of its prefix.
unfoldable pub new : ℕ → ℕ → FakeIpPool
new base prefix_len =
    let host_bits = wrapping_sub 32 prefix_len in
    let network_size = 2 ^ (host_bits % 32) in
    let lo = wrapping_add base 2 in
    record {
      lowest = lo;
      highest = wrapping_sub (wrapping_add base network_size) 2;
      cursor = lo;
      domain_to_ip = [];
      ip_to_domain = [];
    }

-- `next_ip`: the address, and the pool with the cursor advanced.
unfoldable pub next_ip : FakeIpPool → ℕ × FakeIpPool
next_ip p =
    let size = wrapping_add (wrapping_sub p.highest p.lowest) 1 in
    (
      wrapping_add p.lowest (wrapping_sub p.cursor p.lowest % size),
      record p { cursor = wrapping_add p.cursor 1 },
    )

-- What happens to the forward map when the address had been given to another domain.
unfoldable pub evict : Option Bytes → List (Bytes × ℕ) → List (Bytes × ℕ)
evict none d2i = d2i
evict (some old_domain) d2i = Map.remove old_domain d2i

-- The part of `allocate` that holds both write locks, behind its second look at the map.
unfoldable pub allocate_new : FakeIpPool → Bytes → ℕ × FakeIpPool
unfolding evict
allocate_new p domain =
    let (ip, q) = next_ip p in
    (
      ip,
      record q {
        domain_to_ip = Map.insert domain ip (evict (Map.lookup ip q.ip_to_domain) q.domain_to_ip);
        ip_to_domain = Map.insert ip domain (Map.remove ip q.ip_to_domain);
      },
    )

-- The slow path: another thread may have allocated the domain before the locks were taken.
unfoldable pub allocate_locked : FakeIpPool → Bytes → ℕ × FakeIpPool
allocate_locked p domain = elim (Map.lookup domain p.domain_to_ip) [
  | some ip ↦ (ip, p)
  | none ↦ allocate_new p domain
]

-- The fast path reads under the read lock alone.
unfoldable pub allocate : FakeIpPool → Bytes → ℕ × FakeIpPool
allocate p domain = elim (Map.lookup domain p.domain_to_ip) [
  | some ip ↦ (ip, p)
  | none ↦ allocate_locked p domain
]

unfoldable pub lookup : FakeIpPool → ℕ → Option Bytes
lookup p ip = Map.lookup ip p.ip_to_domain

unfoldable pub contains : FakeIpPool → IpAddr → Bool
contains p (v4 n) = leb p.lowest n && leb n p.highest
contains p (v6 _) = false

unfoldable pub gateway : FakeIpPool → ℕ
gateway p = wrapping_sub p.lowest 1
