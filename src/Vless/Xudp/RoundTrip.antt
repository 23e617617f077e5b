-- ===== src/Vless/Xudp/RoundTrip.antt =====
-- The packets that one codec encodes are those that another decodes.
use rabbit_digger_pro.Address.{socket_at, Address, socket_addr, domain, IpAddr, v4, v6}
use rabbit_digger_pro.Address.Same.{same_address_iff}
use rabbit_digger_pro.Base.{
  ℕ, zero, suc, ◌+◌, ◌^◌, ◌<◌, ◌≤◌, ◌≡◌, refl, List, [], ◌∷◌, ◌++◌, Option, none, some, true, Bytes,
  if◌then◌else◌, length, drop, All, to_be_bytes, from_be-to_be, arith, append_assoc, length-append,
  take-length_append, drop-length_append, le→ltb, Bool-cases, inl, inr, ◌⊎◌, ap, sym, ◌∙◌,
  append-nil,
}
use rabbit_digger_pro.Base.Result.{Result, ok, err, ◌>>=◌}
use rabbit_digger_pro.Vless.Address.{
  IsWire, wire, write_address_buf, write_address-wire, read_address_buf, read_address_buf-wire,
}
use rabbit_digger_pro.Vless.Xudp.{
  Item, use_compact, write_meta, encode, Decoded, meta_address, decode_payload, decode_packet,
  decode,
}

abbrev pub Fits : Item → Type 0
Fits (payload, addr) = (length payload ≤ 65_535) × IsWire addr

-- The metadata of a packet.
abbrev pub meta : Option Address → Address → Bytes
meta last addr = if use_compact last addr then 0 ∷ 0 ∷ 2 ∷ 1 ∷ [] else 0 ∷ 0 ∷ 1 ∷ 1 ∷ 2 ∷ wire addr

abbrev content : Bytes → Bytes
content payload = to_be_bytes 2 (length payload) ++ payload

abbrev pub packet : Option Address → Item → Bytes
packet last (payload, addr) =
    to_be_bytes 2 (length (meta last addr)) ++ (meta last addr ++ content payload)

use_compact→eq :
    (last : Option Address) (addr : Address) → use_compact last addr ≡ true → last ≡ some addr
unfolding use_compact
use_compact→eq none addr e = cc
use_compact→eq (some last) addr e = ap some ((same_address_iff last addr).0 e)

write_meta-meta :
    (last : Option Address) (addr : Address)
    → IsWire addr
    → write_meta last addr ≡ ok (meta last addr, some addr)
unfolding write_meta write_address_buf
write_meta-meta last addr wired = elim (Bool-cases (use_compact last addr)) [
  | inl compact ↦
      rw compact (ap (λ l. ok (0 ∷ 0 ∷ 2 ∷ 1 ∷ [], l)) (use_compact→eq last addr compact))
  | inr full ↦ rw full (rw (write_address-wire [] addr wired) refl)
]

encode-packet :
    (last : Option Address) (item : Item) (dst : Bytes)
    → Fits item
    → encode last item dst ≡ ok (some item.1, dst ++ packet last item)
unfolding encode
encode-packet last (payload, addr) dst (small, wired) =
    rw (write_meta-meta last addr wired) (ground (arith))

length-wire_socket :
    (ip : IpAddr) (port : ℕ)
    → let addr = socket_addr (socket_at ip port) in IsWire addr → length (wire addr) ≤ 259
length-wire_socket (v4 o) port h = omega (arith, h.0.1)
length-wire_socket (v6 o) port h = omega (arith, h.0.1)

length-wire : (addr : Address) → IsWire addr → length (wire addr) ≤ 259
length-wire (socket_addr s) h = length-wire_socket s.ip s.port (h.0, h.1, refl, refl)
length-wire (domain name port) h = omega (arith, h.1)

read_address_buf_whole :
    (addr : Address) → IsWire addr → read_address_buf (wire addr) ≡ ok (addr, [])
read_address_buf_whole addr wired =
    rw (sym (append-nil (wire addr))) (read_address_buf-wire addr [] wired)

meta_address-meta :
    (last : Option Address) (addr : Address)
    → IsWire addr
    → meta_address last (if use_compact last addr then 2 else 1) (drop 4 (meta last addr))
      ≡ ok (addr, some addr)
unfolding meta_address
meta_address-meta last addr wired = elim (Bool-cases (use_compact last addr)) [
  | inl compact ↦ rw compact (rw (use_compact→eq last addr compact) refl)
  | inr full ↦ rw full (rw (read_address_buf_whole addr wired) refl)
]

-- Once the metadata is there, and two bytes more, the rest is up to `decode_payload`.
decode-typed :
    (last : Option Address) (addr : Address) (kind : ℕ) (r tail : Bytes)
    → (kind ≡ 1) ⊎ (kind ≡ 2)
    → 4 + length r < 2 ^ 16
    → meta_address last kind r ≡ ok (addr, some addr)
    → 2 ≤ length tail
    → let m : Bytes = 0 ∷ 0 ∷ kind ∷ 1 ∷ r in
      decode last (to_be_bytes 2 (length m) ++ (m ++ tail)) ≡ decode_payload addr (some addr) tail
unfolding decode decode_packet
decode-typed last addr kind r tail known high named two =
    let m : Bytes = 0 ∷ 0 ∷ kind ∷ 1 ∷ r in
    let size = from_be-to_be 2 (length m) (omega arith) in
    let total : length m + 2 ≤ length (m ++ tail) = omega (arith, length-append r tail) in
    let begun = le→ltb (suc (suc (length (m ++ tail)))) 2 (omega arith) in
    let valid = le→ltb (length m) 4 (omega arith) in
    let whole = le→ltb (suc (suc (length (m ++ tail)))) (2 + length m + 2) (omega arith) in
    rw (size, take-length_append r tail, drop-length_append r tail, named, begun, valid, whole)
      (elim known [
        | inl one ↦ rw one (rw (drop-length_append r tail) refl)
        | inr two ↦ rw two (rw (drop-length_append r tail) refl)
      ])

decode-meta :
    (last : Option Address) (addr : Address) (tail : Bytes)
    → IsWire addr
    → 2 ≤ length tail
    → decode last (to_be_bytes 2 (length (meta last addr)) ++ (meta last addr ++ tail))
      ≡ decode_payload addr (some addr) tail
decode-meta last addr tail wired two =
    let short = length-wire addr wired in
    let named = meta_address-meta last addr wired in
    elim (Bool-cases (use_compact last addr)) [
      | inl compact ↦
          rw compact
            (decode-typed last addr 2 [] tail (inr refl) (omega arith) (rw compact at named) two)
      | inr full ↦ rw full (
          decode-typed last addr 1 (2 ∷ wire addr) tail (inl refl) (omega arith) (rw full at named)
            two)
    ]

decode_payload-content :
    (addr : Address) (last : Option Address) (payload rest : Bytes)
    → length payload ≤ 65_535
    → decode_payload addr last (content payload ++ rest) ≡ (ok (some (payload, addr)), last, rest)
unfolding decode_payload
decode_payload-content addr last payload rest small =
    let size = from_be-to_be 2 (length payload) (omega arith) in
    let total = length-append payload rest in
    rw (size, take-length_append payload rest, drop-length_append payload rest) (ground arith)

decode_payload_short :
    (addr : Address) (last : Option Address) (payload part : Bytes)
    → length payload ≤ 65_535
    → length part < length payload
    → let src = to_be_bytes 2 (length payload) ++ part in
      decode_payload addr last src ≡ (ok none, last, src)
unfolding decode_payload
decode_payload_short addr last payload part small short =
    let size = from_be-to_be 2 (length payload) (omega arith) in rw size (ground arith)

decode-packet :
    (last : Option Address) (item : Item) (rest : Bytes)
    → Fits item
    → decode last (packet last item ++ rest) ≡ (ok (some item), some item.1, rest)
decode-packet last (payload, addr) rest (small, wired) =
    rw (append_assoc (meta last addr) (content payload) rest) (
      decode-meta last addr (content payload ++ rest) wired (omega arith)
      ∙ decode_payload-content addr (some addr) payload rest small)

-- A decoder that gets a packet whose payload is not there yet gives nothing, and takes the metadata
-- off the buffer all the same: the two length bytes of the payload stand where the next call looks
-- for the length of metadata.
pub decode_split :
    (last : Option Address) (payload part : Bytes) (addr : Address)
    → Fits (payload, addr)
    → length part < length payload
    → let m = meta last addr in
      let src = to_be_bytes 2 (length payload) ++ part in
      decode last (to_be_bytes 2 (length m) ++ (m ++ src)) ≡ (ok none, some addr, src)
decode_split last payload part addr (small, wired) short =
    let src = to_be_bytes 2 (length payload) ++ part in
    decode-meta last addr src wired (omega arith)
    ∙ decode_payload_short addr (some addr) payload part small short

-- The packets, encoded one after the other.
abbrev pub encode_all : Option Address → List Item → Bytes → Result (Option Address × Bytes)
encode_all last [] dst = ok (last, dst)
encode_all last (item ∷ items) dst = do
  (last, dst) ← encode last item dst
  encode_all last items dst

abbrev add_item :
    (Option Address → Bytes → Option (List Item × Option Address × Bytes))
    → Decoded
    → Option (List Item × Option Address × Bytes)
add_item go_on (ok (some item), last, src) = elim (go_on last src) [
  | some (items, last, src) ↦ some (item ∷ items, last, src)
  | none ↦ none
]
add_item go_on (ok none, last, src) = none
add_item go_on (err e, last, src) = none

-- As many packets as `n`, decoded one after the other.
abbrev pub decode_all : ℕ → Option Address → Bytes → Option (List Item × Option Address × Bytes)
decode_all zero last src = some ([], last, src)
decode_all (suc n) last src = add_item (decode_all n) (decode last src)

abbrev pub last_of : Option Address → List Item → Option Address
last_of last [] = last
last_of last (item ∷ items) = last_of (some item.1) items

abbrev packets : Option Address → List Item → Bytes
packets last [] = []
packets last (item ∷ items) = packet last item ++ packets (some item.1) items

encode_all-packets :
    (last : Option Address) (items : List Item) (dst : Bytes)
    → All Fits items
    → encode_all last items dst ≡ ok (last_of last items, dst ++ packets last items)
encode_all-packets last [] dst fits = rw (append-nil dst) refl
encode_all-packets last (item ∷ items) dst (fit, fits) = rw (encode-packet last item dst fit) (
    rw (encode_all-packets (some item.1) items (dst ++ packet last item) fits) (
      ap (λ b. ok (last_of (some item.1) items, b))
        (append_assoc dst (packet last item) (packets (some item.1) items))))

decode_all-packets :
    (last : Option Address) (items : List Item) (rest : Bytes)
    → All Fits items
    → decode_all (length items) last (packets last items ++ rest)
      ≡ some (items, last_of last items, rest)
decode_all-packets last [] rest fits = refl
decode_all-packets last (item ∷ items) rest (fit, fits) =
    let tail = packets (some item.1) items in
    rw
      (
        append_assoc (packet last item) tail rest,
        decode-packet last item (tail ++ rest) fit,
        decode_all-packets (some item.1) items rest fits,
      )
      refl

-- Packets of at most 65535 bytes, encoded one after the other into a buffer, are decoded from what was
-- appended to it by a codec in the same state: the same packets in the same order, those that carry
-- no address included, and both codecs end in the same state. An IP address has no zone, and a domain
-- is at most 255 bytes of UTF-8.
pub decode_all-encode_all :
    (last : Option Address) (items : List Item) (dst rest : Bytes)
    → All Fits items
    → (last' : Option Address) × (bytes : Bytes) × (encode_all last items dst
        ≡ ok (last', dst ++ bytes))
      × (decode_all (length items) last (bytes ++ rest) ≡ some (items, last', rest))
decode_all-encode_all last items dst rest fits = (
  last_of last items,
  packets last items,
  encode_all-packets last items dst fits,
  decode_all-packets last items rest fits,
)
