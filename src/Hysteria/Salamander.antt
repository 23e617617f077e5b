-- ===== src/Hysteria/Salamander.antt =====
-- protocol/hysteria/src/salamander.rs and its use in transport.rs: packets are masked with a key
-- stream. `derive_key_stream` (BLAKE2b of the key and the salt, 32 bytes) is a parameter, and so is
-- the salt that is drawn.
use Prim.Native.Nat.{bit_xor}
use rabbit_digger_pro.Base.{
  ℕ, suc, ◌+◌, ◌-◌, ◌%◌, ◌≡◌, ◌<◌, ◌≤◌, refl, ap, sym, ◌∙◌, [], ◌∷◌, ◌++◌, Option, none, some,
  Bytes, ltb, if◌then◌else◌, length, take, drop, get_elem?, arith, take-length_append,
  drop-length_append, length-append, lt→ltb, inl, inr, le→ltb, subst, length-take, length-drop,
  Bool-cases,
}
use rabbit_digger_pro.Base.Bits.{bit_xor_cancel}
use rabbit_digger_pro.Base.Entries.{amount}
use rabbit_digger_pro.Base.Optional.{◌>>=◌, unwrap_or}

-- `b ^ key_stream[i % key_stream.len()]`, from the index `i` on.
unfoldable pub mask : Bytes → ℕ → Bytes → Bytes
mask key_stream i [] = []
mask key_stream i (b ∷ bs) =
    bit_xor b (unwrap_or (get_elem? key_stream (i % length key_stream)) 0)
    ∷ mask key_stream (i + 1) bs

module _ (derive_key_stream : Bytes → Bytes → Bytes) where
  unfoldable pub encode_packet : Bytes → Bytes → Bytes → Bytes
  unfolding mask
  encode_packet salt shared_key payload = salt ++ mask (derive_key_stream salt shared_key) 0 payload

  -- `decode_in_place`: the length of the payload, and the buffer, whose last eight bytes stay what
  -- they were when the payload has moved to the front.
  unfoldable pub decode_in_place : Bytes → Bytes → Option ℕ × Bytes
  unfolding mask
  decode_in_place shared_key buf =
      if ltb (length buf) 8
      then (none, buf)
      else let key_stream = derive_key_stream (take 8 buf) shared_key in
        let masked = take 8 buf ++ mask key_stream 0 (drop 8 buf) in
        (some (length buf - 8), drop 8 masked ++ drop (length buf - 8) masked)

  -- What `try_send` of the socket puts on the wire; `none` is the error for a `segment_size`.
  unfoldable pub try_send : Option Bytes → Bytes → Option ℕ → Bytes → Option Bytes
  unfolding encode_packet
  try_send salamander_key salt (some segment_size) contents = none
  try_send salamander_key salt none contents = elim salamander_key [
    | some key ↦ some (encode_packet salt key contents)
    | none ↦ some contents
  ]

  -- One round of `poll_recv`: the packet that is passed up, or none when the round starts again.
  unfoldable pub poll_recv : Option Bytes → Bytes → Option Bytes
  unfolding decode_in_place
  poll_recv salamander_key packet = elim salamander_key [
    | none ↦ some packet
    | some key ↦
        if ltb (length packet) 8
        then none
        else let (len, buf) = decode_in_place key packet in
          elim len [ some n ↦ some (take n buf) | none ↦ none ]
  ]

length-mask : (ks : Bytes) (i : ℕ) (bs : Bytes) → length (mask ks i bs) ≡ length bs
unfolding mask
length-mask ks i [] = refl
length-mask ks i (b ∷ bs) = ap suc (length-mask ks (i + 1) bs)

mask-mask : (ks : Bytes) (i : ℕ) (bs : Bytes) → mask ks i (mask ks i bs) ≡ bs
unfolding mask
mask-mask ks i [] = refl
mask-mask ks i (b ∷ bs) =
    rw (bit_xor_cancel b (unwrap_or (get_elem? ks (i % length ks)) 0), mask-mask ks (i + 1) bs)

moved_front :
    (s m r : Bytes) (k n : ℕ) → length s ≡ k → length m ≡ n → take n (drop k (s ++ m) ++ r) ≡ m
moved_front s m r k n salt_len len =
    subst (λ j. take n (drop j (s ++ m) ++ r) ≡ m) salt_len
      (subst (λ j. take j (drop (length s) (s ++ m) ++ r) ≡ m) len
        (rw (drop-length_append s m) (take-length_append m r)))

module _ (derive_key_stream : Bytes → Bytes → Bytes) where
  -- A socket with a key takes the salt off a packet that has one, and unmasks the rest.
  poll_recv_unmasked :
      (k packet : Bytes)
      → 8 ≤ length packet
      → poll_recv derive_key_stream (some k) packet
        ≡ some (mask (derive_key_stream (take 8 packet) k) 0 (drop 8 packet))
  unfolding decode_in_place poll_recv
  poll_recv_unmasked k packet enough =
      let long = le→ltb (length packet) 8 enough in
      let masked = mask (derive_key_stream (take 8 packet) k) 0 (drop 8 packet) in
      let len : length masked ≡ length packet - 8 =
        length-mask (derive_key_stream (take 8 packet) k) 0 (drop 8 packet)
        ∙ length-drop 8 packet in
      let salt_len : length (take 8 packet) ≡ 8 = omega (arith, length-take 8 packet) in
      let tail = drop (length packet - 8) (take 8 packet ++ masked) in
      let decoded : decode_in_place derive_key_stream k packet
          ≡ (some (length packet - 8), drop 8 (take 8 packet ++ masked) ++ tail) =
        rw (long, decode_in_place) refl in
      rw (long, poll_recv)
        (rw (decoded, poll_recv)
          (ap some (moved_front (take 8 packet) masked tail 8 (length packet - 8) salt_len len)))

  sealed :
      (k salt contents : Bytes)
      → length salt ≡ 8
      → poll_recv derive_key_stream (some k) (encode_packet derive_key_stream salt k contents)
        ≡ some contents
  unfolding encode_packet
  sealed k salt contents eight =
      let ks = derive_key_stream salt k in
      let masked = mask ks 0 contents in
      let front : take 8 (salt ++ masked) ≡ salt =
        subst (λ j. take j (salt ++ masked) ≡ salt) eight (take-length_append salt masked) in
      let back : drop 8 (salt ++ masked) ≡ masked =
        subst (λ j. drop j (salt ++ masked) ≡ masked) eight (drop-length_append salt masked) in
      poll_recv_unmasked k (salt ++ masked) (omega (arith, length-append salt masked))
      ∙ rw (front, back, mask-mask ks 0 contents)

  passed_over :
      (k packet : Bytes) → length packet < 8 → poll_recv derive_key_stream (some k) packet ≡ none
  unfolding poll_recv
  passed_over k packet few = rw (lt→ltb (length packet) 8 few) refl

  shorter :
      (k packet up : Bytes)
      → poll_recv derive_key_stream (some k) packet ≡ some up
      → length up + 8 ≡ length packet
  shorter k packet up h = elim (Bool-cases (ltb (length packet) 8)) [
    | inl few ↦ let nothing = passed_over k packet (ground arith) in absurd (cc)
    | inr enough ↦
        let long : 8 ≤ length packet = ground arith in
        let ks = derive_key_stream (take 8 packet) k in
        let whole = ap (amount length) (sym h ∙ poll_recv_unmasked k packet long) in
        omega (arith, length-mask ks 0 (drop 8 packet), length-drop 8 packet)
  ]

  -- A packet that is masked under a salt of eight bytes is passed up as it was by a socket of the same
  -- key; so is one between sockets without a key. One with a segment size is not sent. A socket with a
  -- key passes over any packet that is too short for a salt, and what it passes up is eight bytes
  -- shorter than what came.
  pub poll_recv-try_send :
      (key : Option Bytes) (salt contents packet : Bytes) (segment_size : ℕ)
      → length salt ≡ 8
      → ((do
        wire ← try_send derive_key_stream key salt none contents
        poll_recv derive_key_stream key wire)
          ≡ some contents)
        × (try_send derive_key_stream key salt (some segment_size) contents ≡ none)
        × ((k : Bytes) → length packet < 8 → poll_recv derive_key_stream (some k) packet ≡ none)
        × ((k up : Bytes)
            → poll_recv derive_key_stream (some k) packet ≡ some up
            → length up + 8 ≡ length packet)
  unfolding try_send poll_recv
  poll_recv-try_send key salt contents packet segment_size eight = (
    elim key
        as (λ k.
          (do
            wire ← try_send derive_key_stream k salt none contents
            poll_recv derive_key_stream k wire)
          ≡ some contents) [ none ↦ refl | some k ↦ sealed k salt contents eight ],
    refl,
    λ k few. passed_over k packet few,
    λ k up h. shorter k packet up h,
  )
