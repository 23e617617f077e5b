-- ===== src/Tests/Text.antt =====
-- A text of IP addresses for the tests: the version, then each octet as a row of strokes.
use rabbit_digger_pro.Address.{IpAddr, v4, v6, IpText}
use rabbit_digger_pro.Base.{
  ℕ, zero, suc, ◌+◌, ◌≡◌, ◌≢◌, refl, ap, ◌∙◌, [], ◌∷◌, Option, none, some, Bytes, All, ◌==◌,
  if◌then◌else◌, arith,
}

strokes : ℕ → Bytes → Bytes
strokes zero rest = b'.' ∷ rest
strokes (suc n) rest = b'1' ∷ strokes n rest

print_octets : Bytes → Bytes
unfolding strokes
print_octets [] = []
print_octets (o ∷ os) = strokes o (print_octets os)

parse_octets : ℕ → Bytes → Bytes
parse_octets k [] = []
parse_octets k (c ∷ cs) = if c == b'1' then parse_octets (suc k) cs else k ∷ parse_octets 0 cs

pub parse : Bytes → Option IpAddr
unfolding parse_octets
parse [] = none
parse (c ∷ cs) =
    if c == b'4'
    then some (v4 (parse_octets 0 cs))
    else if c == b'6'
    then some (v6 (parse_octets 0 cs))
    else none

pub print : IpAddr → Bytes
unfolding print_octets
print (v4 o) = b'4' ∷ print_octets o
print (v6 o) = b'6' ∷ print_octets o

parse-strokes :
    (n k : ℕ) (rest : Bytes) → parse_octets k (strokes n rest) ≡ (k + n) ∷ parse_octets 0 rest
unfolding parse_octets strokes
parse-strokes zero k rest = ap (λ n. n ∷ parse_octets 0 rest) (omega arith)
parse-strokes (suc n) k rest =
    parse-strokes n (suc k) rest ∙ ap (λ n. n ∷ parse_octets 0 rest) (omega arith)

parse-print_octets : (os : Bytes) → parse_octets 0 (print_octets os) ≡ os
unfolding parse_octets print_octets
parse-print_octets [] = refl
parse-print_octets (o ∷ os) =
    parse-strokes o 0 (print_octets os)
    ∙ rw (parse-print_octets os) (ap (λ n. n ∷ os) (omega arith))

strokes-All :
    (n : ℕ) (rest : Bytes)
    → All (λ c. (c ≢ b'[') × (c ≢ b']')) rest
    → All (λ c. (c ≢ b'[') × (c ≢ b']')) (strokes n rest)
unfolding strokes
strokes-All zero rest h = ((λ e. absurd (omega arith), λ e. absurd (omega arith)), h)
strokes-All (suc n) rest h =
    ((λ e. absurd (omega arith), λ e. absurd (omega arith)), strokes-All n rest h)

print_octets-All : (os : Bytes) → All (λ c. (c ≢ b'[') × (c ≢ b']')) (print_octets os)
unfolding print_octets
print_octets-All [] = tt
print_octets-All (o ∷ os) = strokes-All o (print_octets os) (print_octets-All os)

pub print_plain : (ip : IpAddr) → All (λ c. (c ≢ b'[') × (c ≢ b']')) (print ip)
unfolding print
print_plain (v4 o) = ((λ e. absurd (omega arith), λ e. absurd (omega arith)), print_octets-All o)
print_plain (v6 o) = ((λ e. absurd (omega arith), λ e. absurd (omega arith)), print_octets-All o)

pub parse-print : (ip : IpAddr) → parse (print ip) ≡ some ip
unfolding parse print
parse-print (v4 o) = ap (λ x. some (v4 x)) (parse-print_octets o)
parse-print (v6 o) = ap (λ x. some (v6 x)) (parse-print_octets o)

abbrev pub stroke_text : IpText
stroke_text = record {
  parse = parse;
  print = print;
  parse-print = λ ip _. parse-print ip;
  print_no_bracket = λ ip _. print_plain ip;
}
