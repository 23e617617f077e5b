-- ===== src/FakeIp/Range.antt =====
-- Which addresses the pool hands out, and in which order.
use native.Mathlib.Nat.{pow-suc, mod-lt, div-add-mod}
use rabbit_digger_pro.Base.{
  ℕ, zero, suc, ◌+◌, ◌-◌, ◌/◌, ◌%◌, ◌^◌, ◌≤◌, ◌<◌, ◌≡◌, ◌≢◌, some, Bytes, true, arith, Option-cases,
  inl, inr,
}
use rabbit_digger_pro.Base.Map
use rabbit_digger_pro.Base.Map.{nat_key, bytes_key, lookup-insert}
use rabbit_digger_pro.FakeIp.{
  u32_mod, wrapping_sub, wrapping_add, FakeIpPool, v4, new, next_ip, evict, allocate_new, allocate,
  contains, gateway,
}
use rabbit_digger_pro.FakeIp.Bijection.{lookup-evict, allocate_known, allocate_fresh}

-- A range of `u32` addresses above the gateway that all domains' addresses lie in.
pub record IsValid (p : FakeIpPool) : Type 0 where
  pub positive : 0 < p.lowest
  pub ordered : p.lowest ≤ p.highest
  pub wide : p.highest < u32_mod
  pub word : p.cursor < u32_mod
  pub held :
      (d : Bytes) (ip : ℕ)
      → Map.lookup d p.domain_to_ip ≡ some ip
      → (p.lowest ≤ ip) × (ip ≤ p.highest)

-- The number of addresses that the pool hands out.
abbrev pub pool_size : FakeIpPool → ℕ
pool_size p = p.highest - p.lowest + 1

four-le-pow : (h : ℕ) → 2 ≤ h → 4 ≤ 2 ^ h
four-le-pow zero h = absurd (omega arith)
four-le-pow (suc zero) h = absurd (omega arith)
four-le-pow (suc (suc zero)) h = omega arith
four-le-pow (suc (suc (suc n))) h =
    omega (arith, pow-suc 2 (suc (suc n)), four-le-pow (suc (suc n)) (omega arith))

-- A pool over a network that fits below 2 ^ 32 and whose prefix has 1 to 30 bits is valid.
pub new-IsValid :
    (base prefix_len : ℕ)
    → 1 ≤ prefix_len
    → prefix_len ≤ 30
    → base + 2 ^ (32 - prefix_len) ≤ u32_mod
    → IsValid (new base prefix_len)
unfolding new Map.lookup
new-IsValid base prefix_len lo hi fits =
    let bits : (32 + u32_mod - prefix_len) % u32_mod % 32 ≡ 32 - prefix_len = omega arith in
    let four = four-le-pow (32 - prefix_len) (omega arith) in
    rw bits (record {
      positive = omega arith;
      ordered = omega arith;
      wide = omega arith;
      word = omega arith;
      held = λ d ip h. cc;
    })

-- The arithmetic of `next_ip` without its wrapping.
next_ip_offset :
    (p : FakeIpPool)
    → IsValid p
    → (next_ip p).0 ≡ p.lowest + wrapping_sub p.cursor p.lowest % pool_size p
unfolding next_ip
next_ip_offset p v =
    let size : wrapping_add (wrapping_sub p.highest p.lowest) 1 ≡ pool_size p = omega arith in
    let below : wrapping_sub p.cursor p.lowest % pool_size p < pool_size p =
      mod-lt (wrapping_sub p.cursor p.lowest) (omega arith) in
    rw size (omega arith)

next_ip_in_range :
    (p : FakeIpPool) → IsValid p → (p.lowest ≤ (next_ip p).0) × ((next_ip p).0 ≤ p.highest)
next_ip_in_range p v =
    let below : wrapping_sub p.cursor p.lowest % pool_size p < pool_size p =
      mod-lt (wrapping_sub p.cursor p.lowest) (omega arith) in
    omega (arith, next_ip_offset p v)

allocate_new_in_range :
    (p : FakeIpPool) (domain d : Bytes) (ip : ℕ)
    → IsValid p
    → Map.lookup d (allocate_new p domain).1.domain_to_ip ≡ some ip
    → (p.lowest ≤ ip) × (ip ≤ p.highest)
unfolding allocate_new next_ip
allocate_new_in_range p domain d ip v h =
    let x = (next_ip p).0 in
    let old = Map.lookup x p.ip_to_domain in
    ground (
      arith,
      lookup-insert domain d x (evict old p.domain_to_ip),
      lookup-evict d old p.domain_to_ip {ip = ip},
      v.held d ip,
      next_ip_in_range p v,
    )

allocate_new-IsValid :
    (p : FakeIpPool) (domain : Bytes) → IsValid p → IsValid (allocate_new p domain).1
unfolding allocate_new next_ip
allocate_new-IsValid p domain v = record {
  positive = v.positive;
  ordered = v.ordered;
  wide = v.wide;
  word = omega arith;
  held = λ d ip h. allocate_new_in_range p domain d ip v h;
}

-- On a valid pool every call of `allocate` gives an address that the pool contains, which is not
-- the gateway, and leaves a valid pool.
pub allocate_in_range :
    (p : FakeIpPool) (domain : Bytes)
    → IsValid p
    → (contains p (v4 (allocate p domain).0) ≡ true)
      × ((allocate p domain).0 ≢ gateway p)
      × IsValid (allocate p domain).1
unfolding contains gateway
allocate_in_range p domain v = elim (Option-cases (Map.lookup domain p.domain_to_ip)) [
  | inl fresh ↦
      let range = next_ip_in_range p v in
      rw (allocate_fresh p domain fresh) (
        unfold allocate_new in
        (ground (arith, next_ip_in_range p v), omega arith, allocate_new-IsValid p domain v))
  | inr (ip, old) ↦
      let range = v.held domain ip old in
      rw (allocate_known p domain old) (ground arith, omega arith, v)
]

next_ip-IsValid : (p : FakeIpPool) → IsValid p → IsValid (next_ip p).1
unfolding next_ip
next_ip-IsValid p v = record {
  positive = v.positive;
  ordered = v.ordered;
  wide = v.wide;
  word = omega arith;
  held = v.held;
}

-- The address of the draw number `n` from here on, the first being number 0.
pub draw : ℕ → FakeIpPool → ℕ
draw zero p = (next_ip p).0
draw (suc n) p = draw n (next_ip p).1

-- On a valid pool whose cursor stands `k` places behind its start, draw number `n` gives the
-- address at place `k + n` of the range, taken modulo the cursor's 32 bits and the pool's size.
pub draw_cycle :
    (n k : ℕ) (p : FakeIpPool)
    → IsValid p
    → p.cursor ≡ (p.lowest + k) % u32_mod
    → draw n p ≡ p.lowest + (k + n) % u32_mod % pool_size p
unfolding draw next_ip
draw_cycle zero k p v h =
    let place : wrapping_sub p.cursor p.lowest ≡ (k + 0) % u32_mod = omega arith in
    rw (next_ip_offset p v, place)
draw_cycle (suc n) k p v h =
    let shift : k + suc n ≡ suc k + n = omega arith in
    rw shift (draw_cycle n (suc k) (next_ip p).1 (next_ip-IsValid p v) (omega arith))

-- Two numbers with one remainder are not closer than the divisor.
mod_apart : (i j s : ℕ) → i < j → j < i + s → i % s ≢ j % s
mod_apart i j s lo hi e =
    let first = div-add-mod i s in
    let second = div-add-mod j s in let more : i / s < j / s = grind arith in absurd (grind arith)

draw_at :
    (n : ℕ) (p : FakeIpPool)
    → IsValid p
    → p.cursor ≡ p.lowest
    → n < u32_mod
    → draw n p ≡ p.lowest + n % pool_size p
draw_at n p v fresh word =
    let place : (0 + n) % u32_mod ≡ n = omega arith in rw (draw_cycle n 0 p v (omega arith), place)

-- From a fresh valid pool, two draws that are fewer places apart than the pool has addresses give
-- different addresses, up to the 2 ^ 32 draws after which the cursor starts over.
pub draw_distinct :
    (i j : ℕ) (p : FakeIpPool)
    → IsValid p
    → p.cursor ≡ p.lowest
    → i < j
    → j < i + pool_size p
    → j < u32_mod
    → draw i p ≢ draw j p
draw_distinct i j p v fresh lo hi word e =
    mod_apart i j (pool_size p) lo hi
      (omega (arith, draw_at i p v fresh (omega arith), draw_at j p v fresh word))
