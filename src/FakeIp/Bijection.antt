-- ===== src/FakeIp/Bijection.antt =====
-- The two maps of the pool are inverse to one another, whatever is allocated.
use rabbit_digger_pro.Base.{
  ℕ, ◌≡◌, ◌≢◌, refl, inl, inr, List, Option, none, some, Bytes, arith, bytes_eq_iff, Option-cases,
}
use rabbit_digger_pro.Base.Map
use rabbit_digger_pro.Base.Map.{
  lookup-insert, lookup-insert_self, lookup-remove, nat_key, bytes_key,
}
use rabbit_digger_pro.FakeIp.{
  FakeIpPool, new, next_ip, evict, allocate_new, allocate_locked, allocate, lookup,
}

-- A domain has an address exactly when the address leads back to the domain.
pub record Consistent (p : FakeIpPool) : Type 0 where
  pub there :
      (d : Bytes) (ip : ℕ)
      → Map.lookup d p.domain_to_ip ≡ some ip
      → Map.lookup ip p.ip_to_domain ≡ some d
  pub back :
      (d : Bytes) (ip : ℕ)
      → Map.lookup ip p.ip_to_domain ≡ some d
      → Map.lookup d p.domain_to_ip ≡ some ip

pub new-Consistent : (base prefix_len : ℕ) → Consistent (new base prefix_len)
unfolding new Map.lookup
new-Consistent base prefix_len = record { there = λ d ip h. cc; back = λ d ip h. cc }

-- The forward map when the address had been given to `old`, read at any domain.
pub lookup-evict :
    (d : Bytes) (old : Option Bytes) (m : List (Bytes × ℕ)) {ip : ℕ}
    → Map.lookup d (evict old m) ≡ some ip
    → (old ≢ some d) × (Map.lookup d m ≡ some ip)
unfolding evict
lookup-evict d none m h = ground arith
lookup-evict d (some o) m h = ground (arith, lookup-remove o d m, bytes_eq_iff o d)

lookup-evict_other :
    (d : Bytes) (old : Option Bytes) (m : List (Bytes × ℕ))
    → old ≢ some d
    → Map.lookup d (evict old m) ≡ Map.lookup d m
unfolding evict
lookup-evict_other d none m h = refl
lookup-evict_other d (some o) m h = ground (arith, lookup-remove o d m, bytes_eq_iff o d)

-- The maps after an allocation of `x` to a fresh domain.
module _ (p : FakeIpPool) (c : Consistent p) (domain : Bytes) (x : ℕ) where
  abbrev forward : List (Bytes × ℕ)
  forward = Map.insert domain x (evict (Map.lookup x p.ip_to_domain) p.domain_to_ip)

  abbrev backward : List (ℕ × Bytes)
  backward = Map.insert x domain (Map.remove x p.ip_to_domain)

  forward-there :
      (d : Bytes) (ip : ℕ) → Map.lookup d forward ≡ some ip → Map.lookup ip backward ≡ some d
  forward-there d ip h = ground (
    arith,
    lookup-insert domain d x (evict (Map.lookup x p.ip_to_domain) p.domain_to_ip),
    lookup-insert x ip domain (Map.remove x p.ip_to_domain),
    lookup-remove x ip p.ip_to_domain,
    bytes_eq_iff domain d,
    lookup-evict d (Map.lookup x p.ip_to_domain) p.domain_to_ip {ip = ip},
    c.there d ip,
  )

  backward-back :
      Map.lookup domain p.domain_to_ip ≡ none
      → (d : Bytes) (ip : ℕ) → Map.lookup ip backward ≡ some d
      → Map.lookup d forward ≡ some ip
  backward-back fresh d ip h = ground (
    arith,
    lookup-insert domain d x (evict (Map.lookup x p.ip_to_domain) p.domain_to_ip),
    lookup-insert x ip domain (Map.remove x p.ip_to_domain),
    lookup-remove x ip p.ip_to_domain,
    bytes_eq_iff domain d,
    lookup-evict_other d (Map.lookup x p.ip_to_domain) p.domain_to_ip,
    c.back d ip,
    c.back d x,
  )

allocate_new-Consistent :
    (p : FakeIpPool) (domain : Bytes)
    → Map.lookup domain p.domain_to_ip ≡ none
    → Consistent p
    → Consistent (allocate_new p domain).1
unfolding allocate_new next_ip
allocate_new-Consistent p domain fresh c = record {
  there = forward-there p c domain (next_ip p).0;
  back = backward-back p c domain (next_ip p).0 fresh;
}

-- Behind both looks at the map.
pub allocate_known :
    (p : FakeIpPool) (domain : Bytes) {ip : ℕ}
    → Map.lookup domain p.domain_to_ip ≡ some ip
    → allocate p domain ≡ (ip, p)
unfolding allocate
allocate_known p domain known = rw (known, allocate)

pub allocate_fresh :
    (p : FakeIpPool) (domain : Bytes)
    → Map.lookup domain p.domain_to_ip ≡ none
    → allocate p domain ≡ allocate_new p domain
unfolding allocate allocate_locked
allocate_fresh p domain fresh = rw (fresh, allocate) (rw (fresh, allocate_locked))

-- Every call of `allocate` keeps the two maps inverse to one another.
pub allocate-Consistent :
    (p : FakeIpPool) (domain : Bytes) → Consistent p → Consistent (allocate p domain).1
allocate-Consistent p domain c = elim (Option-cases (Map.lookup domain p.domain_to_ip)) [
  | inl fresh ↦ rw (allocate_fresh p domain fresh) (allocate_new-Consistent p domain fresh c)
  | inr (ip, old) ↦ rw (allocate_known p domain old) c
]

allocate_gives :
    (p : FakeIpPool) (domain : Bytes)
    → Map.lookup domain (allocate p domain).1.domain_to_ip ≡ some (allocate p domain).0
allocate_gives p domain = elim (Option-cases (Map.lookup domain p.domain_to_ip)) [
  | inl fresh ↦
      rw (allocate_fresh p domain fresh)
        (unfold allocate_new in lookup-insert_self domain (next_ip p).0 _)
  | inr (ip, old) ↦ rw (allocate_known p domain old) old
]

-- After an allocation from a pool whose maps agree, the returned address leads back to the
-- domain, and a second allocation for the domain returns the same address and changes nothing.
pub allocate_stable :
    (p : FakeIpPool) (domain : Bytes)
    → Consistent p
    → (lookup (allocate p domain).1 (allocate p domain).0 ≡ some domain)
      × (allocate (allocate p domain).1 domain ≡ ((allocate p domain).0, (allocate p domain).1))
unfolding lookup
allocate_stable p domain c = (
  (allocate-Consistent p domain c).there domain _ (allocate_gives p domain),
  allocate_known (allocate p domain).1 domain (allocate_gives p domain),
)

allocate_new_others :
    (p : FakeIpPool) (domain d : Bytes)
    → domain ≢ d
    → Map.lookup d p.domain_to_ip ≢ some (next_ip p).0
    → Consistent p
    → Map.lookup d (allocate_new p domain).1.domain_to_ip ≡ Map.lookup d p.domain_to_ip
unfolding allocate_new next_ip
allocate_new_others p domain d other kept c =
    let x = (next_ip p).0 in
    ground (
      arith,
      lookup-insert domain d x (evict (Map.lookup x p.ip_to_domain) p.domain_to_ip),
      bytes_eq_iff domain d,
      lookup-evict_other d (Map.lookup x p.ip_to_domain) p.domain_to_ip,
      c.back d x,
    )

-- In a pool whose maps agree, an allocation leaves another domain's address as it was, unless
-- that domain held the address that is given away.
pub allocate_others :
    (p : FakeIpPool) (domain d : Bytes)
    → domain ≢ d
    → Map.lookup d p.domain_to_ip ≢ some (allocate p domain).0
    → Consistent p
    → Map.lookup d (allocate p domain).1.domain_to_ip ≡ Map.lookup d p.domain_to_ip
unfolding allocate_new next_ip
allocate_others p domain d other kept c = elim (Option-cases (Map.lookup domain p.domain_to_ip)) [
  | inl fresh ↦
      let e = allocate_fresh p domain fresh in
      rw e (allocate_new_others p domain d other (rw e at kept) c)
  | inr (ip, old) ↦ rw (allocate_known p domain old)
]
