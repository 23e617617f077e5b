-- ===== src/Address/Text.antt =====
-- An address is read back from its text, in normal form.
use rabbit_digger_pro.Base.{ℕ, ◌≡◌, ◌≢◌, refl, [], ◌∷◌, ◌++◌, none, some, Bytes, All, arith}
use rabbit_digger_pro.Address.{rsplitn2, strip_prefix, strip_suffix, strip_brackets}

rsplitn2_absent : (sep : ℕ) (cs : Bytes) → All (λ c. c ≢ sep) cs → rsplitn2 sep cs ≡ (cs, none)
unfolding rsplitn2
rsplitn2_absent sep [] h = refl
rsplitn2_absent sep (c ∷ cs) h = ground (arith, rsplitn2_absent sep cs h.1)

pub rsplitn2-append :
    (sep : ℕ) (host tail : Bytes)
    → All (λ c. c ≢ sep) tail
    → rsplitn2 sep (host ++ (sep ∷ tail)) ≡ (tail, some host)
unfolding rsplitn2
rsplitn2-append sep [] tail h = ground (arith, rsplitn2_absent sep tail h)
rsplitn2-append sep (c ∷ cs) tail h = ground (arith, rsplitn2-append sep cs tail h)

strip_suffix-append : (c : ℕ) (bs : Bytes) → strip_suffix c (bs ++ (c ∷ [])) ≡ some bs
unfolding strip_suffix
strip_suffix-append c [] = ground arith
strip_suffix-append c (b ∷ []) = ground arith
strip_suffix-append c (b ∷ b' ∷ bs) = ground (arith, strip_suffix-append c (b' ∷ bs))

pub strip_brackets_around : (host : Bytes) → strip_brackets (b'[' ∷ (host ++ (b']' ∷ []))) ≡ host
unfolding strip_brackets
strip_brackets_around host = ground (arith, strip_suffix-append b']' host)

pub strip_brackets_plain :
    (host : Bytes) → All (λ c. (c ≢ b'[') × (c ≢ b']')) host → strip_brackets host ≡ host
unfolding strip_brackets strip_prefix
strip_brackets_plain [] h = refl
strip_brackets_plain (c ∷ cs) h = ground arith
