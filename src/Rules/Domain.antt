-- ===== src/Rules/Domain.antt =====
-- `DomainMatcher` of rd-std/src/rule/domain.rs and of config.rs there. Strings are their bytes.
pub mod Meaning
use rabbit_digger_pro.Base.{
  ◌≡◌, ◌≢◌, refl, ap, sym, ◌∙◌, List, [], ◌∷◌, ◌++◌, Bytes, Bool, true, false, ◌||◌, ◌==◌,
  if◌then◌else◌, Option, none, some, bytes_eq, bytes_eq_iff, ℕ, Bool-cases, subst, ◌↔◌, ◌⊎◌, inl,
  inr, arith, ==_iff,
}
use rabbit_digger_pro.Address.{strip_prefix}

pub data Method : Type 0 where
  keyword suffix match_all : Method

pub record DomainMatcher : Type 0 where
  pub method : Method
  pub domain : List Bytes

unfoldable pub starts_with : Bytes → Bytes → Bool
starts_with s [] = true
starts_with [] (p ∷ ps) = false
starts_with (c ∷ cs) (p ∷ ps) = let rest = starts_with cs ps in if c == p then rest else false

unfoldable pub ends_with : Bytes → Bytes → Bool
ends_with [] p = bytes_eq [] p
ends_with (c ∷ cs) p = bytes_eq (c ∷ cs) p || ends_with cs p

unfoldable pub contains : Bytes → Bytes → Bool
unfolding starts_with
contains [] p = starts_with [] p
contains (c ∷ cs) p = starts_with (c ∷ cs) p || contains cs p

-- A pattern `+.d` stands for `d` and all below it, any other for itself.
unfoldable pub test_match : Bytes → Bytes → Bool
unfolding ends_with
test_match domain [] = bytes_eq domain []
test_match domain (a ∷ []) = bytes_eq domain (a ∷ [])
test_match domain (a ∷ b ∷ d) =
    if a == b'+'
    then (if b == b'.'
        then ends_with domain (b ∷ d) || bytes_eq domain d
        else bytes_eq domain (a ∷ b ∷ d))
    else bytes_eq domain (a ∷ b ∷ d)

unfoldable pub test_one : Method → Bytes → Bytes → Bool
unfolding contains ends_with test_match
test_one keyword domain d = contains domain d
test_one match_all domain d = test_match domain d
test_one suffix domain d = ends_with domain d

unfoldable pub test_any : Method → Bytes → List Bytes → Bool
unfolding test_one
test_any method domain [] = false
test_any method domain (d ∷ ds) = test_one method domain d || test_any method domain ds

unfoldable pub test : DomainMatcher → Bytes → Bool
unfolding test_any
test m domain = test_any m.method domain m.domain

-- `Matcher::merge` of two domain matchers: the domains are put together.
unfoldable pub merge : DomainMatcher → DomainMatcher → DomainMatcher
merge self other = record self { domain = self.domain ++ other.domain }
