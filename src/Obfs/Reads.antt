-- ===== src/Obfs/Reads.antt =====
-- The reads of the obfuscated stream, up to the end of the response's header and behind it.
use rabbit_digger_pro.Base.{
  ℕ, zero, suc, ◌-◌, ◌≤◌, ◌≡◌, refl, [], ◌∷◌, ◌++◌, none, some, Bytes, length, take, drop, take_all,
  drop_all, replicate, bytes_eq, bytes_eq_iff, length-take, arith, ap, ◌∙◌, append-nil, Bool-cases,
  Option-cases, inl, inr,
}
use rabbit_digger_pro.Base.Stream.{ready, bytes, Source, source_read}
use rabbit_digger_pro.Obfs.{
  crlfs, read_buf_len, find_subsequence_end, read, body, done, find_end, next_read, after_read,
  read_loop,
}

pub take_of_append : (n : ℕ) (xs ys : Bytes) → n ≤ length xs → take n (xs ++ ys) ≡ take n xs
take_of_append zero xs ys h = refl
take_of_append (suc n) [] ys h = absurd (omega arith)
take_of_append (suc n) (x ∷ xs) ys h = ap (◌∷◌ x) (take_of_append n xs ys (omega arith))

-- What has been found is found whatever follows.
pub find_subsequence_end-append :
    (xs ys p : Bytes) (at : ℕ)
    → find_subsequence_end xs p ≡ some at
    → (length p ≤ length xs) × (at ≤ length xs) × (find_subsequence_end (xs ++ ys) p ≡ some at)
unfolding find_subsequence_end
find_subsequence_end-append [] ys p at e = cc
find_subsequence_end-append (c ∷ cs) ys p at e =
    elim (Bool-cases (bytes_eq (take (length p) (c ∷ cs)) p)) [
      | inl here ↦
          let same = (bytes_eq_iff (take (length p) (c ∷ cs)) p).0 here in
          let long : length p ≤ length (c ∷ cs) =
            omega (arith, ap length same, length-take (length p) (c ∷ cs)) in
          ground (arith, take_of_append (length p) (c ∷ cs) ys long)
      | inr later ↦ elim (Option-cases (find_subsequence_end cs p)) [
        | inl nowhere ↦ ground arith
        | inr (n, e') ↦
            let (long, inside, found) = find_subsequence_end-append cs ys p n e' in
            ground (arith, take_of_append (length p) (c ∷ cs) ys (omega arith))
      ]
    ]

source_read_all :
    (b : Bytes) (rest : Source) (limit : ℕ)
    → length b ≤ limit
    → source_read (bytes b ∷ rest) limit ≡ (ready b, rest)
unfolding source_read
source_read_all b rest limit fits = rw (take_all b limit fits, drop_all b limit fits) refl

pub next_read-none : (filled : Bytes) → find_end filled ≡ none → next_read filled ≡ read filled
unfolding next_read
next_read-none filled e = rw (e, next_read) refl

pub next_read-some :
    (filled : Bytes) (at : ℕ)
    → find_end filled ≡ some at
    → next_read filled ≡ body (drop at filled) 0
unfolding next_read
next_read-some filled at e = rw (e, next_read) refl

pub read_round :
    (fuel limit : ℕ) (filled got : Bytes) (inner inner' : Source)
    → source_read inner (read_buf_len - length filled) ≡ (ready got, inner')
    → read_loop (suc fuel) (read filled) inner limit
      ≡ read_loop fuel (next_read (filled ++ got)) inner' limit
unfolding read_loop after_read
read_round fuel limit filled got inner inner' e =
    ap (after_read (λ st s. read_loop fuel st s limit) filled) e

body_round :
    (fuel limit : ℕ) (later : Source)
    → read_loop (suc fuel) (body [] 0) later limit ≡ some (ready [], done, later)
unfolding read_loop
body_round fuel limit later = ground arith

-- A response header that comes in one piece with nothing behind it: the read that takes it says that
-- the stream has ended, though what has not been read yet is still to come.
pub read_loop_early_end :
    (fuel limit : ℕ) (header : Bytes) (later : Source)
    → length header ≤ read_buf_len
    → find_subsequence_end header crlfs ≡ some (length header)
    → read_loop (suc (suc fuel)) (read []) (bytes header ∷ later) limit
      ≡ some (ready [], done, later)
unfolding find_end
read_loop_early_end fuel limit header later fits ends =
    let start : length header ≤ read_buf_len - 0 = omega arith in
    let rest = drop_all header (length header) (omega arith) in
    let zeros = replicate (read_buf_len - length header) 0 in
    let (long, inside, found) =
      find_subsequence_end-append header zeros crlfs (length header) ends in
    read_round (suc fuel) limit [] header (bytes header ∷ later) later
      (source_read_all header later (read_buf_len - 0) start)
    ∙ ap (λ st. read_loop (suc fuel) st later limit)
        (next_read-some header (length header) found ∙ ap (λ b. body b 0) rest)
    ∙ body_round fuel limit later

no_fuel : (limit : ℕ) (filled : Bytes) → read_loop 0 (read filled) [] limit ≡ none
unfolding read_loop
no_fuel limit filled = refl

-- A stream that ends before the response's header does: a read never returns.
pub read_loop_endless :
    (fuel limit : ℕ) (filled : Bytes)
    → find_end filled ≡ none
    → read_loop fuel (read filled) [] limit ≡ none
unfolding source_read
read_loop_endless zero limit filled nowhere = no_fuel limit filled
read_loop_endless (suc fuel) limit filled nowhere =
    read_round fuel limit filled [] [] [] refl
    ∙ ap (λ st. read_loop fuel st [] limit)
        (ap next_read (append-nil filled) ∙ next_read-none filled nowhere)
    ∙ read_loop_endless fuel limit filled nowhere
