-- ===== src/Rules/Net/Merging.antt =====
-- What a merged rule matches.
use rabbit_digger_pro.Base.{
  ◌≡◌, refl, List, [], ◌∷◌, ◌++◌, Option, some, none, Bool, ◌||◌, arith, Option-cases, inl, inr,
  Bool-cases, ap, bytes_eq, sym, ◌∙◌,
}
use rabbit_digger_pro.Address.{IpAddr}
use rabbit_digger_pro.Rules.Domain.{DomainMatcher, merge}
use rabbit_digger_pro.Rules.Domain.Meaning.{test-merge}
use rabbit_digger_pro.Rules.Net.{
  World, MatchContext, Matcher, by_domain, ip_cidr, src_ip_cidr, geo_ip, any, RuleItem,
  merge_matcher, merge_item, test_cidr, get_domain, get_socket_addr, match_domain, match_ip_cidr,
  match_src_ip_cidr, match_rule,
}

module _ (w : World) where
  -- Two matchers on domains have one method.
  abbrev pub Agree : Matcher w → Matcher w → Type 0
  Agree (by_domain a) (by_domain b) = a.method ≡ b.method
  Agree _ _ = Unit {0}

  test_cidr-append :
      (a b : List w.IpCidr) (ip : IpAddr)
      → test_cidr w (a ++ b) ip ≡ (test_cidr w a ip || test_cidr w b ip)
  unfolding test_cidr
  test_cidr-append [] b ip = refl
  test_cidr-append (c ∷ a) b ip = ground (arith, test_cidr-append a b ip)

  domain_case :
      (a b : DomainMatcher) (c : MatchContext)
      → a.method ≡ b.method
      → match_domain w (merge a b) c ≡ (match_domain w a c || match_domain w b c)
  unfolding match_domain
  domain_case a b c agree = elim (Option-cases (get_domain c)) [
    | inl absent ↦ rw (match_domain, absent) refl
    | inr ((d, p), found) ↦ rw (match_domain, found) ((test-merge a b d).1 agree)
  ]

  ip_case :
      (a b : List w.IpCidr) (c : MatchContext)
      → match_ip_cidr w (a ++ b) c ≡ (match_ip_cidr w a c || match_ip_cidr w b c)
  unfolding match_ip_cidr
  ip_case a b c = elim (Option-cases (get_socket_addr w c)) [
    | inl absent ↦ rw (match_ip_cidr, absent) refl
    | inr (addr, found) ↦ rw (match_ip_cidr, found) (test_cidr-append a b addr.ip)
  ]

  src_case :
      (a b : List w.IpCidr) (c : MatchContext)
      → match_src_ip_cidr w (a ++ b) c ≡ (match_src_ip_cidr w a c || match_src_ip_cidr w b c)
  unfolding match_src_ip_cidr
  src_case a b c = elim (Option-cases c.src_ip_addr) [
    | inl absent ↦ rw absent refl
    | inr (ip, found) ↦ rw found (test_cidr-append a b ip)
  ]

  none≢some : {m : Matcher w} → none ≡ some m → ⊥
  none≢some e = ground arith

  by_inj :
      {x m : Matcher w} (c : MatchContext) (answer : Bool)
      → some x ≡ some m
      → match_rule w x c ≡ answer
      → match_rule w m c ≡ answer
  by_inj c answer e h = ground (arith, h)

  match_rule-merge_matcher :
      (a b m : Matcher w) (c : MatchContext)
      → merge_matcher a b ≡ some m
      → Agree a b
      → match_rule w m c ≡ (match_rule w a c || match_rule w b c)
  unfolding merge_matcher match_rule
  match_rule-merge_matcher (by_domain a) (by_domain b) m c e agree =
      by_inj c _ e (domain_case a b c agree)
  match_rule-merge_matcher (by_domain a) (ip_cidr b) m c e agree = absurd (none≢some e)
  match_rule-merge_matcher (by_domain a) (src_ip_cidr b) m c e agree = absurd (none≢some e)
  match_rule-merge_matcher (by_domain a) (geo_ip b) m c e agree = absurd (none≢some e)
  match_rule-merge_matcher (by_domain a) any m c e agree = absurd (none≢some e)
  match_rule-merge_matcher (ip_cidr a) (by_domain b) m c e agree = absurd (none≢some e)
  match_rule-merge_matcher (ip_cidr a) (ip_cidr b) m c e agree = by_inj c _ e (ip_case a b c)
  match_rule-merge_matcher (ip_cidr a) (src_ip_cidr b) m c e agree = absurd (none≢some e)
  match_rule-merge_matcher (ip_cidr a) (geo_ip b) m c e agree = absurd (none≢some e)
  match_rule-merge_matcher (ip_cidr a) any m c e agree = absurd (none≢some e)
  match_rule-merge_matcher (src_ip_cidr a) (by_domain b) m c e agree = absurd (none≢some e)
  match_rule-merge_matcher (src_ip_cidr a) (ip_cidr b) m c e agree = absurd (none≢some e)
  match_rule-merge_matcher (src_ip_cidr a) (src_ip_cidr b) m c e agree =
      by_inj c _ e (src_case a b c)
  match_rule-merge_matcher (src_ip_cidr a) (geo_ip b) m c e agree = absurd (none≢some e)
  match_rule-merge_matcher (src_ip_cidr a) any m c e agree = absurd (none≢some e)
  match_rule-merge_matcher (geo_ip a) (by_domain b) m c e agree = absurd (none≢some e)
  match_rule-merge_matcher (geo_ip a) (ip_cidr b) m c e agree = absurd (none≢some e)
  match_rule-merge_matcher (geo_ip a) (src_ip_cidr b) m c e agree = absurd (none≢some e)
  match_rule-merge_matcher (geo_ip a) (geo_ip b) m c e agree = absurd (none≢some e)
  match_rule-merge_matcher (geo_ip a) any m c e agree = absurd (none≢some e)
  match_rule-merge_matcher any (by_domain b) m c e agree = absurd (none≢some e)
  match_rule-merge_matcher any (ip_cidr b) m c e agree = absurd (none≢some e)
  match_rule-merge_matcher any (src_ip_cidr b) m c e agree = absurd (none≢some e)
  match_rule-merge_matcher any (geo_ip b) m c e agree = absurd (none≢some e)
  match_rule-merge_matcher any any m c e agree = by_inj c _ e refl

  matcher_of : Matcher w → Option (RuleItem w) → Matcher w
  matcher_of k none = k
  matcher_of k (some r) = r.matcher

  -- A rule that two rules of one target are merged into matches exactly what one of the two matches,
  -- if their methods agree where both are on domains.
  pub match_rule-merge_item :
      (a b m : RuleItem w) (c : MatchContext)
      → merge_item w a b ≡ some m
      → Agree a.matcher b.matcher
      → match_rule w m.matcher c ≡ (match_rule w a.matcher c || match_rule w b.matcher c)
  unfolding merge_item matcher_of
  match_rule-merge_item a b m c e agree = elim (Bool-cases (bytes_eq a.target_name b.target_name)) [
    | inr other ↦ absurd (ground arith)
    | inl same ↦ elim (Option-cases (merge_matcher a.matcher b.matcher)) [
      | inl apart ↦ absurd (ground arith)
      | inr (k, merged) ↦
          let whole : match_rule w k c ≡ (match_rule w a.matcher c || match_rule w b.matcher c) =
            match_rule-merge_matcher a.matcher b.matcher k c merged agree in
          let kept : some (record a { matcher = k }) ≡ some m = ground arith in
          ap (λ x. match_rule w (matcher_of k x) c) (sym kept) ∙ whole
    ]
  ]
