-- ===== src/Tests/Rules.antt =====
-- The domain rules of rd-std/src/rule on concrete inputs.
use rabbit_digger_pro.Base.{◌≡◌, refl, [], ◌∷◌, Bytes, true, false}
use rabbit_digger_pro.Rules.Domain.{keyword, match_all, DomainMatcher, test, merge}
use rabbit_digger_pro.Rules.Domain.Meaning.{Decides, Any, Matches, test-Decides}

abbrev below : DomainMatcher
below = record { method = match_all; domain = (b'+' ∷ b'.' ∷ b'a' ∷ []) ∷ [] }

abbrev word : DomainMatcher
word = record { method = keyword; domain = (b'z' ∷ []) ∷ [] }

abbrev exact : DomainMatcher
exact = record { method = match_all; domain = (b'a' ∷ []) ∷ [] }

abbrev site : Bytes
site = b'x' ∷ b'.' ∷ b'a' ∷ []

passes : test below site ≡ true
unfolding test
passes = refl

-- A rule for exactly `a` that is merged into a rule for a keyword passes `x.a`.
merged_passes :
    (test (merge word exact) site ≡ true) × (test word site ≡ false) × (test exact site ≡ false)
unfolding test merge
merged_passes = (refl, refl, refl)

test-Decides_example : Decides (test below site) (Any (Matches match_all site) below.domain)
test-Decides_example = test-Decides below site
