-- ===== src/Hysteria/Udp/Send/Slices.antt =====
-- The fragments of a payload fit the datagram size, and together they are the payload.
use native.Mathlib.Nat.{mod-lt, div-add-mod}
use rabbit_digger_pro.Base.{
  ℕ, zero, suc, ◌+◌, ◌-◌, ◌*◌, ◌/◌, ◌<◌, ◌≤◌, ◌≡◌, refl, ap, sym, ◌∙◌, List, [], ◌∷◌, ◌++◌, Bytes,
  All, arith, length, take, drop, min, take_all, take-add, drop-drop, length-take, length-drop,
  length-append, Bool-cases, inl, inr, map, ltb, leb,
}
use rabbit_digger_pro.Hysteria.Codec.{write_varint}
use rabbit_digger_pro.Hysteria.Codec.Varint.{length-write_varint}
use rabbit_digger_pro.Hysteria.Udp.Wire.{Packet, encode_datagram}
use rabbit_digger_pro.Hysteria.Udp.Wire.RoundTrip.{encode_layout}
use rabbit_digger_pro.Hysteria.Udp.Send.{
  ok, header_len, frag_count_of, frag_payload, datagrams_from, fragment,
}

-- The packets of fragments `from`, `from + 1`, … of a payload.
pub packets_from : Packet → ℕ → Bytes → ℕ → ℕ → List Packet
packets_from p per_frag buf from zero = []
packets_from p per_frag buf from (suc left) =
    record p { frag_id = from; payload = frag_payload per_frag buf from }
    ∷ packets_from p per_frag buf (from + 1) left

abbrev pub joined : List Packet → Bytes
joined [] = []
joined (p ∷ ps) = p.payload ++ joined ps

datagrams-packets :
    (p : Packet) (per_frag : ℕ) (buf : Bytes) (from left : ℕ)
    → datagrams_from p per_frag buf from left
      ≡ map encode_datagram (packets_from p per_frag buf from left)
unfolding datagrams_from packets_from
datagrams-packets p per_frag buf from zero = refl
datagrams-packets p per_frag buf from (suc left) =
    rw (datagrams-packets p per_frag buf (from + 1) left)

-- A slice is the next `per_frag` bytes, or what is left of them.
frag_payload-take :
    (per_frag : ℕ) (buf : Bytes) (i : ℕ)
    → frag_payload per_frag buf i ≡ take per_frag (drop (i * per_frag) buf)
unfolding frag_payload
frag_payload-take per_frag buf i =
    let start = i * per_frag in
    let left = length-drop start buf in
    let next : (i + 1) * per_frag ≡ start + per_frag = grind arith in
    elim (Bool-cases (leb (start + per_frag) (length buf))) [
      | inl whole ↦
          let cut : min ((i + 1) * per_frag) (length buf) - start ≡ per_frag = ground arith in
          rw cut
      | inr short ↦
          let few : length (drop start buf) ≤ min ((i + 1) * per_frag) (length buf) - start =
            ground arith in
          let fits : length (drop start buf) ≤ per_frag = ground arith in
          take_all (drop start buf) _ few ∙ sym (take_all (drop start buf) per_frag fits)
    ]

joined-packets :
    (p : Packet) (per_frag : ℕ) (buf : Bytes) (from left : ℕ)
    → joined (packets_from p per_frag buf from left)
      ≡ take (left * per_frag) (drop (from * per_frag) buf)
unfolding packets_from
joined-packets p per_frag buf from zero = let e : 0 * per_frag ≡ 0 = omega arith in rw e
joined-packets p per_frag buf from (suc left) =
    let here = drop (from * per_frag) buf in
    let next : from * per_frag + per_frag ≡ (from + 1) * per_frag = grind arith in
    let total : per_frag + left * per_frag ≡ suc left * per_frag = grind arith in
    let rest : take (left * per_frag) (drop per_frag here)
        ≡ joined (packets_from p per_frag buf (from + 1) left) =
      rw (drop-drop per_frag (from * per_frag) ((from + 1) * per_frag) buf next)
        (sym (joined-packets p per_frag buf (from + 1) left)) in
    rw (frag_payload-take per_frag buf from, ← rest, take-add, total)

-- The packets are numbered from `from` up to `count`, and carry the count, the session, the packet
-- id and the address.
abbrev pub IsRun : Bytes → ℕ → ℕ → ℕ → ℕ → List Packet → Type 0
IsRun address sid pid count from [] = from ≡ count
IsRun address sid pid count from (p ∷ ps) =
    ((p.session_id ≡ sid)
      × (p.packet_id ≡ pid)
      × (p.frag_id ≡ from)
      × (p.frag_count ≡ count)
      × (p.address ≡ address))
    × IsRun address sid pid count (from + 1) ps

packets-IsRun :
    (p : Packet) (per_frag : ℕ) (buf : Bytes) (from left : ℕ)
    → from + left ≡ p.frag_count
    → IsRun p.address p.session_id p.packet_id p.frag_count from
        (packets_from p per_frag buf from left)
unfolding packets_from
packets-IsRun p per_frag buf from zero h = omega arith
packets-IsRun p per_frag buf from (suc left) h =
    ((refl, refl, refl, refl, refl), packets-IsRun p per_frag buf (from + 1) left (omega arith))

length-encode_datagram :
    (p : Packet) → length (encode_datagram p) ≡ header_len p.address + length p.payload
unfolding header_len
length-encode_datagram p =
    let size = write_varint [] (length p.address) in
    rw (encode_layout p) (
      omega (
        arith,
        length-append size (p.address ++ p.payload),
        length-append p.address p.payload,
        length-write_varint (length p.address),
      ))

packets_fit :
    (p : Packet) (per_frag limit : ℕ) (buf : Bytes) (from left : ℕ)
    → header_len p.address + per_frag ≤ limit
    → All (λ q. length (encode_datagram q) ≤ limit) (packets_from p per_frag buf from left)
unfolding packets_from
packets_fit p per_frag limit buf from zero h = tt
packets_fit p per_frag limit buf from (suc left) h =
    let q = record p { frag_id = from; payload = frag_payload per_frag buf from } in
    let slice = frag_payload-take per_frag buf from in
    (
      omega (
        arith,
        length-encode_datagram q,
        ap length slice,
        length-take per_frag (drop (from * per_frag) buf),
      ),
      packets_fit p per_frag limit buf (from + 1) left h,
    )

enough_frags : (per_frag len : ℕ) → 0 < per_frag → len ≤ frag_count_of per_frag len * per_frag
unfolding frag_count_of
enough_frags per_frag len pos =
    let total = len + per_frag - 1 in
    let split = div-add-mod total per_frag in
    let small = mod-lt total pos in
    let swap : per_frag * (total / per_frag) ≡ total / per_frag * per_frag = grind arith in
    let one : 1 * per_frag ≡ per_frag = omega arith in
    elim (Bool-cases (ltb (total / per_frag) 1)) [
      | inl few ↦
          let none_full : total / per_frag ≡ 0 = ground arith in
          let nothing : total / per_frag * per_frag ≡ 0 = rw none_full (omega arith) in
          rw few (omega arith)
      | inr some_full ↦ rw some_full (omega arith)
    ]

length-packets_from :
    (p : Packet) (per_frag : ℕ) (buf : Bytes) (from left : ℕ)
    → length (packets_from p per_frag buf from left) ≡ left
unfolding packets_from
length-packets_from p per_frag buf from zero = refl
length-packets_from p per_frag buf from (suc left) =
    ap suc (length-packets_from p per_frag buf (from + 1) left)

-- The packet that the fragments of a payload are made from.
abbrev base_packet : ℕ → ℕ → ℕ → Bytes → Packet
base_packet sid pid count address = record {
  session_id = sid;
  packet_id = pid;
  frag_id = 0;
  frag_count = count;
  address = address;
  payload = [];
}

frag_count_pos : (per_frag len : ℕ) → 1 ≤ frag_count_of per_frag len
unfolding frag_count_of
frag_count_pos per_frag len = ground arith

fragment-eq_ok :
    (limit sid pid : ℕ) (address buf : Bytes) {ds : List Bytes}
    → fragment limit sid pid address buf ≡ ok ds
    → let per_frag = limit - header_len address in
      let count = frag_count_of per_frag (length buf) in
      (header_len address < limit)
      × (count ≤ 255)
      × (ds ≡ datagrams_from (base_packet sid pid count address) per_frag buf 0 count)
unfolding fragment
fragment-eq_ok limit sid pid address buf h = ground arith

-- A payload that is sent goes out as 1 to 255 datagrams, none above the limit; they encode packets
-- that are numbered in order and carry their number, the session, the packet id and the address, and whose payloads joined are what was sent.
pub fragment_sound :
    (limit sid pid : ℕ) (address buf : Bytes) {ds : List Bytes}
    → fragment limit sid pid address buf ≡ ok ds
    → (ps : List Packet) × (ds ≡ map encode_datagram ps)
      × IsRun address sid pid (length ps) 0 ps
      × (joined ps ≡ buf)
      × All (λ q. length (encode_datagram q) ≤ limit) ps
      × (1 ≤ length ps)
      × (length ps ≤ 255)
fragment_sound limit sid pid address buf h =
    let per_frag = limit - header_len address in
    let count = frag_count_of per_frag (length buf) in
    let (room, few, sent) = fragment-eq_ok limit sid pid address buf h in
    let p = base_packet sid pid count address in
    let ps = packets_from p per_frag buf 0 count in
    let size = length-packets_from p per_frag buf 0 count in
    let nothing : 0 * per_frag ≡ 0 = omega arith in
    let whole : joined ps ≡ buf =
      joined-packets p per_frag buf 0 count
      ∙ rw nothing
          (take_all buf (count * per_frag) (enough_frags per_frag (length buf) (omega arith))) in
    (
      ps,
      sent ∙ datagrams-packets p per_frag buf 0 count,
      rw size (packets-IsRun p per_frag buf 0 count (omega arith)),
      whole,
      packets_fit p per_frag limit buf 0 count (omega arith),
      omega (arith, frag_count_pos per_frag (length buf)),
      omega arith,
    )
