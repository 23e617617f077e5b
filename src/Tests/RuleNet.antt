-- ===== src/Tests/RuleNet.antt =====
-- The choice of a rule in rd-std/src/rule/rule_net.rs on concrete inputs.
use rabbit_digger_pro.Address.{Address, IpAddr, SocketAddr, domain}
use rabbit_digger_pro.Address.Same.{same_address, same_address_iff}
use rabbit_digger_pro.Base.{
  ℕ, ◌≡◌, refl, ap, List, [], ◌∷◌, Bytes, false, Option, none, some, inl, inr, arith, map,
  if◌then◌else◌, Bool-cases,
}
use rabbit_digger_pro.Rules.Domain.{keyword}
use rabbit_digger_pro.Rules.Net.{
  World, lookup_failed, MatchContext, LruCache, by_domain, any, RuleItem,
}
use rabbit_digger_pro.Rules.Net.Cached.{first_match, get_rules, get_rules-first_match}
use rabbit_digger_pro.Tests.Text.{stroke_text}

-- A cache with one slot, for contexts that have an address only.
abbrev Slot : Type 0
Slot = Option (Address × ℕ)

unfoldable recall : Slot → MatchContext → Option ℕ
recall none k = none
recall (some (b, i)) k = elim k.src_ip_addr [
  | some _ ↦ none
  | none ↦ elim k.dest_socket_addr [
    | some _ ↦ none
    | none ↦ elim k.dest_domain [
      | some _ ↦ none
      | none ↦ if same_address k.address b then some i else none
    ]
  ]
]

abbrev context : Address → Option IpAddr → Option SocketAddr → Option (Bytes × ℕ) → MatchContext
context a s d x = record { address = a; src_ip_addr = s; dest_socket_addr = d; dest_domain = x }

abbrev bare : Address → MatchContext
bare a = context a none none none

unfoldable remember : MatchContext → ℕ → Slot
remember k i = elim k.src_ip_addr [
  | some _ ↦ none
  | none ↦ elim k.dest_socket_addr [
    | some _ ↦ none
    | none ↦ elim k.dest_domain [ some _ ↦ none | none ↦ some (k.address, i) ]
  ]
]

none≢some : {i : ℕ} → none ≡ some i → ⊥
none≢some e = ground arith

recall-some :
    (a b : Address) (i j : ℕ)
    → (if same_address a b then some i else none) ≡ some j
    → (a ≡ b) × (j ≡ i)
recall-some a b i j e = elim (Bool-cases (same_address a b)) [
  | inl same ↦ ((same_address_iff a b).0 same, ground arith)
  | inr other ↦ ground arith
]

-- The fields of both contexts, each in turn.
remember-recall :
    (a b : Address) (s s' : Option IpAddr) (d d' : Option SocketAddr) (x x' : Option (Bytes × ℕ))
    (i j : ℕ)
    → recall (remember (context a s d x) i) (context b s' d' x') ≡ some j
    → (context b s' d' x' ≡ context a s d x) × (j ≡ i)
unfolding recall remember
remember-recall a b (some _) s' d d' x x' i j e = absurd (none≢some e)
remember-recall a b none s' (some _) d' x x' i j e = absurd (none≢some e)
remember-recall a b none s' none d' (some _) x' i j e = absurd (none≢some e)
remember-recall a b none (some _) none d' none x' i j e = absurd (none≢some e)
remember-recall a b none none none (some _) none x' i j e = absurd (none≢some e)
remember-recall a b none none none none none (some _) i j e = absurd (none≢some e)
remember-recall a b none none none none none none i j e =
    let (same, place) = recall-some b a i j e in (ap bare same, place)

unfoldable one_slot : LruCache
unfolding recall
one_slot = record {
  Cache = Slot;
  with_capacity = λ n. none;
  get = λ k c. (recall c k, c);
  insert = λ k i c. remember k i;
  get-with_capacity = λ n k. refl;
  get-get = λ k k' c i h. h;
  get-insert = λ k k' c i j h. inl (
      remember-recall k.address k'.address k.src_ip_addr k'.src_ip_addr k.dest_socket_addr
        k'.dest_socket_addr k.dest_domain k'.dest_domain i j h);
}

-- Networks are numbers, and no address is in a range.
abbrev small : World
small = record {
  Net = ℕ;
  IpCidr = Unit {0};
  contains_addr = λ c ip. false;
  lookup = λ ip. lookup_failed;
  text = stroke_text;
}

abbrev rules : List (RuleItem small)
rules =
    (record {
      target_name = b'p' ∷ [];
      target = 1;
      matcher = by_domain (record { method = keyword; domain = (b'z' ∷ []) ∷ [] });
    })
    ∷ (record { target_name = b'q' ∷ []; target = 2; matcher = any })
    ∷ []

abbrev visits : List MatchContext
visits =
    bare (domain (b'z' ∷ []) 80) ∷ bare (domain (b'z' ∷ []) 80) ∷ bare (domain (b'a' ∷ []) 80) ∷ []

get_rules-first_match_example :
    get_rules small one_slot rules visits (one_slot.with_capacity 32)
    ≡ map (first_match small rules) visits
get_rules-first_match_example = get_rules-first_match small one_slot rules visits 32
