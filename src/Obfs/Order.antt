-- ===== src/Obfs/Order.antt =====
-- The reads of the obfuscated stream lose nothing of what follows the response's header.
use rabbit_digger_pro.Base.{
  ℕ, zero, suc, ◌+◌, ◌-◌, ◌≤◌, ◌≡◌, refl, [], ◌∷◌, ◌++◌, Option, none, some, Bytes, length, take,
  drop, min, replicate, bytes_eq, arith, ◌==◌, if◌then◌else◌, ap, sym, ◌∙◌, append-nil,
  append_assoc, Bool-cases, Option-cases, inl, inr, take-append-drop, drop_all, drop-drop, subst,
}
use rabbit_digger_pro.Base.Stream.{
  Poll, ready, failed, pending, Source, source_read, flat, Brings, source_read-Brings,
}
use rabbit_digger_pro.Obfs.{
  crlfs, read_buf_len, find_subsequence_end, ReadState, read, body, done, find_end, next_read,
  after_read, read_loop,
}
use rabbit_digger_pro.Obfs.Reads.{find_subsequence_end-append, next_read-none, next_read-some}

-- What stands behind the first blank line.
abbrev pub behind : Bytes → Bytes
behind all = elim (find_subsequence_end all crlfs) [ none ↦ [] | some at ↦ drop at all ]

-- What the stream is still to pass up.
abbrev pub unread : ReadState → Source → Bytes
unread (read filled) inner = behind (filled ++ flat inner)
unread (body rest pos) inner = drop pos rest ++ flat inner
unread done inner = flat inner

-- Of `before`, the read has passed up the first bytes, and the others are still to come.
abbrev pub Keeps : Bytes → Option (Poll Bytes × ReadState × Source) → Type 0
Keeps before none = Unit {0}
Keeps before (some (ready got, st, inner)) = before ≡ got ++ unread st inner
Keeps before (some (failed, st, inner)) = before ≡ unread st inner
Keeps before (some (pending, st, inner)) = before ≡ unread st inner

no_match : (k : ℕ) → find_subsequence_end (replicate k 0) crlfs ≡ none
unfolding find_subsequence_end
no_match zero = refl
no_match (suc k) = rw (no_match k) refl

same_match :
    (xs : Bytes) (k : ℕ)
    → bytes_eq (take 4 (xs ++ replicate k 0)) crlfs ≡ bytes_eq (take 4 xs) crlfs
same_match [] zero = refl
same_match [] (suc k) = refl
same_match (a ∷ []) zero = refl
same_match (a ∷ []) (suc k) = refl
same_match (a ∷ b ∷ []) zero = refl
same_match (a ∷ b ∷ []) (suc k) = refl
same_match (a ∷ b ∷ c ∷ []) zero = refl
same_match (a ∷ b ∷ c ∷ []) (suc k) = refl
same_match (a ∷ b ∷ c ∷ d ∷ r) k = refl

-- The zeros at the end of the buffer are no part of a match.
find_subsequence_end-zeros :
    (xs : Bytes) (k : ℕ)
    → find_subsequence_end (xs ++ replicate k 0) crlfs ≡ find_subsequence_end xs crlfs
unfolding find_subsequence_end
find_subsequence_end-zeros [] k = no_match k
find_subsequence_end-zeros (c ∷ cs) k =
    rw (same_match (c ∷ cs) k, find_subsequence_end-zeros cs k) refl

drop_of_append : (n : ℕ) (xs ys : Bytes) → n ≤ length xs → drop n (xs ++ ys) ≡ drop n xs ++ ys
drop_of_append zero xs ys h = refl
drop_of_append (suc n) [] ys h = absurd (omega arith)
drop_of_append (suc n) (x ∷ xs) ys h = drop_of_append n xs ys (omega arith)

pub find_end-find_subsequence_end :
    (filled : Bytes) → find_end filled ≡ find_subsequence_end filled crlfs
unfolding find_end
find_end-find_subsequence_end filled =
    find_subsequence_end-zeros filled (read_buf_len - length filled)

behind-some :
    (all : Bytes) (at : ℕ) → find_subsequence_end all crlfs ≡ some at → behind all ≡ drop at all
behind-some all at e = rw (e, behind) refl

-- Bytes that have been read stay where they are in the stream.
unread-next_read :
    (all : Bytes) (inner : Source) → behind (all ++ flat inner) ≡ unread (next_read all) inner
unread-next_read all inner = elim (Option-cases (find_subsequence_end all crlfs)) [
  | inl nowhere ↦ rw (next_read-none all (find_end-find_subsequence_end all ∙ nowhere)) refl
  | inr (at, e) ↦
      let (long, inside, found) = find_subsequence_end-append all (flat inner) crlfs at e in
      rw (next_read-some all at (find_end-find_subsequence_end all ∙ e))
        (behind-some (all ++ flat inner) at found ∙ drop_of_append at all (flat inner) inside)
]

after_read-Keeps :
    (next : ReadState → Source → Option (Poll Bytes × ReadState × Source)) (filled all : Bytes)
    (got : Poll Bytes × Source)
    → ((st : ReadState) (inner : Source) → Keeps (unread st inner) (next st inner))
    → Brings all got
    → Keeps (behind (filled ++ all)) (after_read next filled got)
unfolding after_read
after_read-Keeps next filled all (ready got, inner) ih brings =
    let same : behind (filled ++ all) ≡ unread (next_read (filled ++ got)) inner =
      ap (λ x. behind (filled ++ x)) brings
      ∙ ap behind (sym (append_assoc filled got (flat inner)))
      ∙ unread-next_read (filled ++ got) inner in
    subst (λ x. Keeps x (next (next_read (filled ++ got)) inner)) (sym same)
      (ih (next_read (filled ++ got)) inner)
after_read-Keeps next filled all (failed, inner) ih brings = ap (λ x. behind (filled ++ x)) brings
after_read-Keeps next filled all (pending, inner) ih brings = ap (λ x. behind (filled ++ x)) brings

done-Keeps :
    (before : Bytes) (got : Poll Bytes × Source)
    → Brings before got
    → Keeps before (some (got.0, done, got.1))
done-Keeps before (ready got, inner) brings = brings
done-Keeps before (failed, inner) brings = brings
done-Keeps before (pending, inner) brings = brings

body-Keeps :
    (rest : Bytes) (pos limit : ℕ) (inner : Source)
    → let to_read = min (length (drop pos rest)) limit in
      unread (body rest pos) inner
      ≡ take to_read (drop pos rest)
        ++ unread (if length rest == pos + to_read then done else body rest (pos + to_read)) inner
body-Keeps rest pos limit inner =
    let to_read = min (length (drop pos rest)) limit in
    let cut = take-append-drop to_read (drop pos rest) in
    let further : drop to_read (drop pos rest) ≡ drop (pos + to_read) rest =
      drop-drop to_read pos (pos + to_read) rest refl in
    elim (Bool-cases (length rest == pos + to_read)) [
      | inl over ↦
          let nothing_left : drop (pos + to_read) rest ≡ [] =
            drop_all rest (pos + to_read) (ground (arith)) in
          rw over (
            ap (λ x. x ++ flat inner)
              (sym cut
                ∙ ap (λ x. take to_read (drop pos rest) ++ x) (further ∙ nothing_left)
                ∙ append-nil (take to_read (drop pos rest))))
      | inr more ↦ rw more (
          ap (λ x. x ++ flat inner) (sym cut)
          ∙ append_assoc (take to_read (drop pos rest)) (drop to_read (drop pos rest)) (flat inner)
          ∙ ap (λ x. take to_read (drop pos rest) ++ (x ++ flat inner)) further)
    ]

-- A read passes up the next bytes of what follows the response's header, and leaves the others for the
-- reads to come, in whatever pieces header and body arrive; it loses none when it fails or waits.
pub read_loop-Keeps :
    (fuel : ℕ) (st : ReadState) (inner : Source) (limit : ℕ)
    → Keeps (unread st inner) (read_loop fuel st inner limit)
unfolding read_loop
read_loop-Keeps zero st inner limit = tt
read_loop-Keeps (suc fuel) (read filled) inner limit =
    after_read-Keeps (λ st inner. read_loop fuel st inner limit) filled (flat inner)
      (source_read inner (read_buf_len - length filled))
      (λ st inner. read_loop-Keeps fuel st inner limit)
      (source_read-Brings inner (read_buf_len - length filled))
read_loop-Keeps (suc fuel) (body rest pos) inner limit = body-Keeps rest pos limit inner
read_loop-Keeps (suc fuel) done inner limit =
    done-Keeps (flat inner) (source_read inner limit) (source_read-Brings inner limit)
