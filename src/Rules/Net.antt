-- ===== src/Rules/Net.antt =====
-- rd-std/src/rule/rule_net.rs and matcher.rs: the choice of a rule, with its cache; ipcidr.rs, geoip.rs
-- and any.rs: the matchers beside the domain matcher. Networks, the database of countries and the
-- cache are other crates', and are the parameters `World` and `LruCache`.
pub mod Cached
pub mod Merging
use rabbit_digger_pro.Base.{
  ℕ, zero, suc, ◌≡◌, List, [], ◌∷◌, ◌++◌, Option, none, some, Bool, true, false, Bytes, bytes_eq,
  is_empty, get_elem?, if◌then◌else◌, ◌||◌, ◌⊎◌, ◌+◌,
}
use rabbit_digger_pro.Address.{
  Address, IpAddr, SocketAddr, socket_addr, domain, IpText, to_normalized, to_socket_addr,
}
use rabbit_digger_pro.Rules.Domain.{DomainMatcher, test, merge}

-- What the database says of an address: its country, that it knows none, or that it cannot say.
pub data Lookup : Type 0 where
  country : Bytes → Lookup
  no_country : Lookup
  lookup_failed : Lookup

-- `Net` of the interface, `IpCidr` of smoltcp, the database of maxminddb, and the text of addresses.
pub record World : Type 1 where
  pub Net : Type 0
  pub IpCidr : Type 0
  pub contains_addr : IpCidr → IpAddr → Bool
  pub lookup : IpAddr → Lookup
  pub text : IpText

pub record MatchContext : Type 0 where
  pub address : Address
  pub src_ip_addr : Option IpAddr
  pub dest_socket_addr : Option SocketAddr
  pub dest_domain : Option (Bytes × ℕ)

unfoldable pub get_domain : MatchContext → Option (Bytes × ℕ)
get_domain c = elim c.address [ domain d p ↦ some (d, p) | socket_addr _ ↦ c.dest_domain ]

-- The cache of lru_time_cache. What it gives for a key is what was last put in for that key, or
-- nothing; it may forget any entry.
pub record LruCache : Type 1 where
  pub Cache : Type 0
  pub with_capacity : ℕ → Cache
  pub get : MatchContext → Cache → Option ℕ × Cache
  pub insert : MatchContext → ℕ → Cache → Cache
  pub get-with_capacity : (n : ℕ) (k : MatchContext) → (get k (with_capacity n)).0 ≡ none
  pub get-get :
      (k k' : MatchContext) (c : Cache) (i : ℕ)
      → (get k' (get k c).1).0 ≡ some i
      → (get k' c).0 ≡ some i
  pub get-insert :
      (k k' : MatchContext) (c : Cache) (i j : ℕ)
      → (get k' (insert k i c)).0 ≡ some j
      → ((k' ≡ k) × (j ≡ i)) ⊎ ((get k' c).0 ≡ some j)

pub data Matcher (w : World) : Type 0 where
  by_domain : DomainMatcher → Matcher w
  ip_cidr : List w.IpCidr → Matcher w
  src_ip_cidr : List w.IpCidr → Matcher w
  geo_ip : Bytes → Matcher w
  any : Matcher w

pub record RuleItem (w : World) : Type 0 where
  pub target_name : Bytes
  pub target : w.Net
  pub matcher : Matcher w

-- The rule that is found, `Error::NotMatched`, or the panic of an index out of range.
pub data Choice (w : World) : Type 0 where
  chosen : RuleItem w → Choice w
  not_matched : Choice w
  out_of_range : Choice w

-- `Matcher::merge`: what `self` becomes; `none` where it answers false and leaves it.
unfoldable pub merge_matcher : {w : World} → Matcher w → Matcher w → Option (Matcher w)
unfolding merge
merge_matcher (by_domain a) (by_domain b) = some (by_domain (merge a b))
merge_matcher (ip_cidr a) (ip_cidr b) = some (ip_cidr (a ++ b))
merge_matcher (src_ip_cidr a) (src_ip_cidr b) = some (src_ip_cidr (a ++ b))
merge_matcher any any = some any
merge_matcher _ _ = none

module _ (w : World) where
  unfoldable pub get_socket_addr : MatchContext → Option SocketAddr
  get_socket_addr c = elim c.address [
    | socket_addr addr ↦ some addr
    | domain d p ↦ elim (to_socket_addr w.text c.address) [
      | some addr ↦ some addr
      | none ↦ c.dest_socket_addr
    ]
  ]

  -- The three fields are of the context of the connection.
  unfoldable pub from_context_address :
      Option IpAddr → Option SocketAddr → Option (Bytes × ℕ) → Address → MatchContext
  from_context_address src dest_addr dest_domain addr = record {
    address = to_normalized w.text addr;
    src_ip_addr = src;
    dest_socket_addr = dest_addr;
    dest_domain = dest_domain;
  }

  unfoldable pub test_cidr : List w.IpCidr → IpAddr → Bool
  test_cidr [] ip = false
  test_cidr (c ∷ cs) ip = w.contains_addr c ip || test_cidr cs ip

  unfoldable pub test_country : Bytes → IpAddr → Bool
  test_country wanted ip = elim (w.lookup ip) [
    | country c ↦ bytes_eq c wanted
    | no_country ↦ is_empty wanted
    | lookup_failed ↦ false
  ]

  unfoldable pub match_domain : DomainMatcher → MatchContext → Bool
  unfolding get_domain test
  match_domain m c = elim (get_domain c) [ some (d, p) ↦ test m d | none ↦ false ]

  unfoldable pub match_ip_cidr : List w.IpCidr → MatchContext → Bool
  unfolding get_socket_addr test_cidr
  match_ip_cidr cs c = elim (get_socket_addr c) [ some addr ↦ test_cidr cs addr.ip | none ↦ false ]

  unfoldable pub match_src_ip_cidr : List w.IpCidr → MatchContext → Bool
  unfolding test_cidr
  match_src_ip_cidr cs c = elim c.src_ip_addr [ some ip ↦ test_cidr cs ip | none ↦ false ]

  unfoldable pub match_geo_ip : Bytes → MatchContext → Bool
  unfolding get_socket_addr test_country
  match_geo_ip wanted c = elim (get_socket_addr c) [
    | some addr ↦ test_country wanted addr.ip
    | none ↦ false
  ]

  unfoldable pub match_rule : Matcher w → MatchContext → Bool
  unfolding match_domain match_ip_cidr match_src_ip_cidr match_geo_ip
  match_rule (by_domain m) c = match_domain m c
  match_rule (ip_cidr cs) c = match_ip_cidr cs c
  match_rule (src_ip_cidr cs) c = match_src_ip_cidr cs c
  match_rule (geo_ip wanted) c = match_geo_ip wanted c
  match_rule any c = true

  -- `RuleItem::merge` of config.rs.
  unfoldable pub merge_item : RuleItem w → RuleItem w → Option (RuleItem w)
  unfolding merge_matcher
  merge_item self other =
      if bytes_eq self.target_name other.target_name
      then elim (merge_matcher self.matcher other.matcher) [
        | some m ↦ some (record self { matcher = m })
        | none ↦ none
      ]
      else none

  -- The rules from the place `i` on.
  unfoldable pub find_rule : ℕ → List (RuleItem w) → MatchContext → Option (ℕ × RuleItem w)
  unfolding match_rule
  find_rule i [] c = none
  find_rule i (r ∷ rs) c =
      let rest = find_rule (suc i) rs c in if match_rule r.matcher c then some (i, r) else rest

  module _ (lru : LruCache) where
    unfoldable pub hit : List (RuleItem w) → ℕ → Choice w
    hit rules i = elim (get_elem? rules i) [ some r ↦ chosen r | none ↦ out_of_range ]

    unfoldable pub miss : List (RuleItem w) → MatchContext → lru.Cache → Choice w × lru.Cache
    unfolding find_rule
    miss rules c cache = elim (find_rule 0 rules c) [
      | some (i, r) ↦ (chosen r, lru.insert c i cache)
      | none ↦ (not_matched, cache)
    ]

    unfoldable pub get_rule : List (RuleItem w) → MatchContext → lru.Cache → Choice w × lru.Cache
    unfolding hit miss
    get_rule rules c cache =
        let (found, cache) = lru.get c cache in
        elim found [ some i ↦ (hit rules i, cache) | none ↦ miss rules c cache ]
