-- ===== src/Obfs/Progress.antt =====
-- A read ends when the response's header does within the buffer, and loses nothing.
use rabbit_digger_pro.Base.{
  ℕ, suc, ◌+◌, ◌-◌, ◌<◌, ◌≤◌, ◌≡◌, refl, [], ◌∷◌, ◌++◌, some, Bytes, length, take, drop, min,
  is_empty, bytes_eq, arith, ◌==◌, if◌then◌else◌, ap, sym, ◌∙◌, append_assoc, Bool-cases,
  Option-cases, List-cases, inl, inr, take-append-drop, length-take, length-drop, length-append,
  subst,
}
use rabbit_digger_pro.Base.Stream.{
  Poll, ready, failed, pending, bytes, reset, nothing, Source, source_read, flat,
}
use rabbit_digger_pro.Obfs.{
  crlfs, read_buf_len, find_subsequence_end, ReadState, read, body, done, next_read, after_read,
  read_loop,
}
use rabbit_digger_pro.Obfs.Reads.{take_of_append, next_read-none, next_read-some, read_round}
use rabbit_digger_pro.Obfs.Order.{unread, Keeps, read_loop-Keeps, find_end-find_subsequence_end}

find_subsequence_end_long :
    (xs p : Bytes) (at : ℕ) → find_subsequence_end xs p ≡ some at → length p ≤ at
unfolding find_subsequence_end
find_subsequence_end_long [] p at e = cc
find_subsequence_end_long (c ∷ cs) p at e =
    elim (Bool-cases (bytes_eq (take (length p) (c ∷ cs)) p)) [
      | inl here ↦ ground arith
      | inr later ↦ elim (Option-cases (find_subsequence_end cs p)) [
        | inl nowhere ↦ ground arith
        | inr (n, e') ↦ let long = find_subsequence_end_long cs p n e' in ground arith
      ]
    ]

-- What ends within the first bytes is found in them.
find_subsequence_end_within :
    (xs ys p : Bytes) (at : ℕ)
    → 0 < length p
    → find_subsequence_end (xs ++ ys) p ≡ some at
    → at ≤ length xs
    → find_subsequence_end xs p ≡ some at
unfolding find_subsequence_end
find_subsequence_end_within [] ys p at some_bytes e inside =
    absurd (omega (arith, find_subsequence_end_long ys p at e))
find_subsequence_end_within (c ∷ cs) ys p at some_bytes e inside =
    elim (Bool-cases (bytes_eq (take (length p) (c ∷ (cs ++ ys))) p)) [
      | inl here ↦
          let n : length p ≤ length (c ∷ cs) = ground arith in
          ground (arith, take_of_append (length p) (c ∷ cs) ys n)
      | inr later ↦ elim (Option-cases (find_subsequence_end (cs ++ ys) p)) [
        | inl nowhere ↦ ground arith
        | inr (m, e') ↦
            let within : m ≤ length cs = ground arith in
            let long = find_subsequence_end_long (cs ++ ys) p m e' in
            let found = find_subsequence_end_within cs ys p m some_bytes e' within in
            let n : length p ≤ length (c ∷ cs) = omega arith in
            ground (arith, take_of_append (length p) (c ∷ cs) ys n)
      ]
    ]

body_returns :
    (fuel limit pos : ℕ) (rest : Bytes) (inner : Source)
    → (x : Poll Bytes × ReadState × Source) × (read_loop (suc fuel) (body rest pos) inner limit
        ≡ some x)
unfolding read_loop
body_returns fuel limit pos rest inner =
    let to_read = min (length (drop pos rest)) limit in
    (
      (
        ready (take to_read (drop pos rest)),
        (if length rest == pos + to_read then done else body rest (pos + to_read)),
        inner,
      ),
      refl,
    )

found_returns :
    (fuel limit m : ℕ) (all : Bytes) (inner : Source)
    → find_subsequence_end all crlfs ≡ some m
    → (x : Poll Bytes × ReadState × Source) × (read_loop (suc fuel) (next_read all) inner limit
        ≡ some x)
found_returns fuel limit m all inner found =
    rw (next_read-some all m (find_end-find_subsequence_end all ∙ found))
      (body_returns fuel limit 0 (drop m all) inner)

source_read-bytes :
    (b left : Bytes) (rest : Source) (limit : ℕ)
    → drop limit b ≡ left
    → source_read (bytes b ∷ rest) limit
      ≡ (ready (take limit b), if is_empty left then rest else bytes left ∷ rest)
unfolding source_read
source_read-bytes b left rest limit e = rw e refl

full_buffer :
    (filled b left : Bytes) (c : ℕ)
    → drop (read_buf_len - length filled) b ≡ c ∷ left
    → read_buf_len ≤ length (filled ++ take (read_buf_len - length filled) b)
full_buffer filled b left c e =
    let room = read_buf_len - length filled in
    omega (
      arith,
      ap length e,
      length-drop room b,
      length-take room b,
      length-append filled (take room b),
    )

-- Each round but the last two takes one piece of the stream.
read_returns :
    (inner : Source) (filled : Bytes) (limit at : ℕ)
    → find_subsequence_end (filled ++ flat inner) crlfs ≡ some at
    → at ≤ read_buf_len
    → (x : Poll Bytes × ReadState × Source) × (read_loop
          (suc (suc (length inner)))
          (read filled)
          inner
          limit
        ≡ some x)
unfolding read_loop after_read source_read
read_returns [] filled limit at found fits = found_returns 0 limit at (filled ++ []) [] found
read_returns (reset ∷ rest) filled limit at found fits = ((failed, read filled, rest), refl)
read_returns (nothing ∷ rest) filled limit at found fits = ((pending, read filled, rest), refl)
read_returns (bytes b ∷ rest) filled limit at found fits =
    let room = read_buf_len - length filled in
    let all = filled ++ take room b in
    let fuel = suc (suc (length rest)) in
    let whole : (left : Bytes)
        → drop room b ≡ left
        → filled ++ (b ++ flat rest) ≡ all ++ (left ++ flat rest) =
      λ left e.
        ap (λ x. filled ++ (x ++ flat rest))
          (sym (take-append-drop room b) ∙ ap (λ x. take room b ++ x) e)
        ∙ ap (λ x. filled ++ x) (append_assoc (take room b) left (flat rest))
        ∙ sym (append_assoc filled (take room b) (left ++ flat rest)) in
    elim (List-cases (drop room b)) [
      | inl e ↦
          let round =
            read_round fuel limit filled (take room b) (bytes b ∷ rest) rest
              (source_read-bytes b [] rest room e) in
          elim (Option-cases (find_subsequence_end all crlfs)) [
            | inr (m, here) ↦
                let (x, r) = found_returns (suc (length rest)) limit m all rest here in
                (x, round ∙ r)
            | inl nowhere ↦
                let found' = ap (λ x. find_subsequence_end x crlfs) (sym (whole [] e)) ∙ found in
                let (x, r) = read_returns rest all limit at found' fits in
                let same = next_read-none all (find_end-find_subsequence_end all ∙ nowhere) in
                (x, round ∙ ap (λ st. read_loop fuel st rest limit) same ∙ r)
          ]
      | inr (c, cs, e) ↦
          let left : Bytes = c ∷ cs in
          let round =
            read_round fuel limit filled (take room b) (bytes b ∷ rest) (bytes left ∷ rest)
              (source_read-bytes b left rest room e) in
          let found' = ap (λ x. find_subsequence_end x crlfs) (sym (whole left e)) ∙ found in
          let full : at ≤ length all = omega (arith, full_buffer filled b cs c e) in
          let here =
            find_subsequence_end_within all (left ++ flat rest) crlfs at (omega arith) found'
              full in
          let (x, r) = found_returns (suc (length rest)) limit at all (bytes left ∷ rest) here in
          (x, round ∙ r)
    ]

-- If the response's header ends within the stream and the buffer, a read that waits for it returns in
-- as many rounds as the stream comes in pieces, and two more; it passes up the next bytes of what
-- follows the header and leaves the others for the reads to come, and loses none if it fails or waits.
pub read_loop_kept :
    (inner : Source) (filled : Bytes) (limit at : ℕ)
    → find_subsequence_end (filled ++ flat inner) crlfs ≡ some at
    → at ≤ read_buf_len
    → (x : Poll Bytes × ReadState × Source) × (read_loop
          (suc (suc (length inner)))
          (read filled)
          inner
          limit
        ≡ some x)
      × Keeps (unread (read filled) inner) (some x)
read_loop_kept inner filled limit at found fits =
    let (x, e) = read_returns inner filled limit at found fits in
    (
      x,
      e,
      subst (Keeps (unread (read filled) inner)) e
          (read_loop-Keeps (suc (suc (length inner))) (read filled) inner limit),
    )
