-- ===== src/Tests/FakeIp.antt =====
-- The pool 10.0.0.0/29 of the tests in protocol/raw/src/fake_ip.rs.
use rabbit_digger_pro.Base.{ℕ, ◌+◌, ◌≡◌, ◌≢◌, refl, true, some, Bytes, ◌∷◌, [], arith}
use rabbit_digger_pro.Base.Map
use rabbit_digger_pro.Base.Map.{bytes_key}
use rabbit_digger_pro.FakeIp.{
  FakeIpPool, v4, new, next_ip, allocate_new, allocate_locked, allocate, lookup, contains, gateway,
}
use rabbit_digger_pro.FakeIp.Bijection.{
  Consistent, new-Consistent, allocate-Consistent, allocate_stable, allocate_others,
}
use rabbit_digger_pro.FakeIp.Range.{IsValid, draw, new-IsValid, allocate_in_range, draw_distinct}

abbrev a_com : Bytes
a_com = b'a' ∷ []

abbrev b_com : Bytes
b_com = b'b' ∷ []

abbrev base : ℕ
base = 0x0a00_0000

pool : FakeIpPool
pool = new base 29

one_name : FakeIpPool
unfolding pool allocate
one_name = (allocate pool a_com).1

run : ((allocate pool a_com).0 ≡ base + 2) × ((allocate one_name b_com).0 ≡ base + 3)
unfolding pool one_name new allocate allocate_locked allocate_new next_ip Map.lookup Map.insert
    Map.remove
run = (refl, refl)

pool-Consistent : Consistent pool
unfolding pool
pool-Consistent = new-Consistent base 29

pool-IsValid : IsValid pool
unfolding pool
pool-IsValid = new-IsValid base 29 (omega arith) (omega arith) (omega arith)

allocate-Consistent_example : Consistent (allocate pool a_com).1
allocate-Consistent_example = allocate-Consistent pool a_com pool-Consistent

one_name-Consistent : Consistent one_name
unfolding one_name
one_name-Consistent = allocate-Consistent pool a_com pool-Consistent

allocate_stable_example :
    (lookup (allocate one_name b_com).1 (allocate one_name b_com).0 ≡ some b_com)
    × (allocate (allocate one_name b_com).1 b_com
        ≡ ((allocate one_name b_com).0, (allocate one_name b_com).1))
allocate_stable_example = allocate_stable one_name b_com one_name-Consistent

apart : b_com ≢ a_com
apart e = absurd (ground arith)

allocate_others_example :
    Map.lookup a_com (allocate one_name b_com).1.domain_to_ip
    ≡ Map.lookup a_com one_name.domain_to_ip
unfolding pool one_name new allocate allocate_locked allocate_new next_ip Map.lookup Map.insert
    Map.remove
allocate_others_example =
    allocate_others one_name b_com a_com apart (ground arith) one_name-Consistent

allocate_in_range_example :
    (contains pool (v4 (allocate pool a_com).0) ≡ true)
    × ((allocate pool a_com).0 ≢ gateway pool)
    × IsValid (allocate pool a_com).1
allocate_in_range_example = allocate_in_range pool a_com pool-IsValid

draw_distinct_example : draw 1 pool ≢ draw 5 pool
unfolding pool new
draw_distinct_example =
    draw_distinct 1 5 pool pool-IsValid refl (omega arith) (omega arith) (omega arith)
