-- ===== src/Vless/Vision/Frames.antt =====
-- What one side writes, the decoder of the other side passes up.
use Prim.Native.Nat.{bit_or}
use rabbit_digger_pro.Base.{
  ℕ, suc, ◌+◌, ◌*◌, ◌/◌, ◌%◌, ◌<◌, ◌≡◌, refl, List, [], ◌∷◌, ◌++◌, Option, some, Bool, true, false,
  Bytes, length, take, drop, min, bytes_eq_iff, arith, append_assoc, append-nil, length-append,
  length-take, take-length_append, drop-length_append, ap, sym, ◌∙◌, to_be_bytes, le→ltb, subst,
  take_all,
}
use rabbit_digger_pro.Base.Bits.{shift-bit_or}
use rabbit_digger_pro.Vless.Vision.{
  VisionStream, new, max_vision_content, enqueue_write, go, return, differs, pass_direct, read_uuid,
  set_field, read_fields, read_header, take_content, end_frame, read_content, decode_frame,
}
use rabbit_digger_pro.Vless.Vision.Rounds.{feed}
use rabbit_digger_pro.Vless.Vision.Chunks.{concat, decode_chunks, decode_chunks-Decodes, same_round}
use rabbit_digger_pro.Vless.Vision.Total.{Decodes, stop, more, Decodes-unique}

-- As much of a buffer as a frame takes.
abbrev pub chunk : Bytes → Bytes
chunk buf = take (min (length buf) max_vision_content) buf

abbrev pub frame : Bytes → Bytes
frame buf =
    let n = min (length buf) max_vision_content in
    0 ∷ (to_be_bytes 2 n ++ (to_be_bytes 2 0 ++ take n buf))

-- The decoder where it waits for the header of a frame.
abbrev at : VisionStream → Bytes → Bytes → VisionStream
at v pending buf = record v {
  read_buf = buf;
  read_pending = pending;
  expect_uuid = false;
  remaining_header = 5;
  current_command = 0;
  remaining_content = 0;
  remaining_padding = 0;
  direct_mode = false;
}

big_endian : (n : ℕ) → n < 65_536 → bit_or (n / 256 % 256 * 256) (n % 256) ≡ n
big_endian n h = omega (arith, shift-bit_or 8 (n % 256) (n / 256 % 256) (omega arith))

decode_frame-frame :
    (v : VisionStream) (pending buf rest : Bytes)
    → decode_frame (at v pending (frame buf ++ rest)) ≡ go (at v (pending ++ chunk buf) rest)
unfolding decode_frame pass_direct read_uuid read_header read_fields set_field read_content
    take_content end_frame
decode_frame-frame v pending buf rest =
    let n = min (length buf) max_vision_content in
    let size : length (chunk buf) ≡ n = omega (arith, length-take n buf) in
    let whole = length-append (chunk buf) rest in
    let begun = le→ltb (suc (suc (suc (suc (suc (length (chunk buf ++ rest))))))) 5 (omega arith) in
    let enough = le→ltb (length (chunk buf ++ rest)) (n + 0) (omega arith) in
    let cut : take n (chunk buf ++ rest) ≡ chunk buf =
      subst (λ m. take m (chunk buf ++ rest) ≡ chunk buf) size
        (take-length_append (chunk buf) rest) in
    let dropped : drop n (chunk buf ++ rest) ≡ rest =
      subst (λ m. drop m (chunk buf ++ rest) ≡ rest) size (drop-length_append (chunk buf) rest) in
    rw (big_endian n (omega arith)) (rw (begun, enough, cut, dropped) refl)

decode_frame_empty :
    (v : VisionStream) (pending : Bytes) → decode_frame (at v pending []) ≡ return (at v pending [])
unfolding decode_frame pass_direct read_uuid read_header
decode_frame_empty v pending = refl

abbrev frames : List Bytes → Bytes
frames [] = []
frames (buf ∷ bufs) = frame buf ++ frames bufs

abbrev chunks : List Bytes → Bytes
chunks [] = []
chunks (buf ∷ bufs) = chunk buf ++ chunks bufs

at-frames :
    (v : VisionStream) (pending : Bytes) (bufs : List Bytes)
    → Decodes (at v pending (frames bufs)) (at v (pending ++ chunks bufs) [])
at-frames v pending [] =
    subst (λ p. Decodes (at v pending []) (at v p [])) (sym (append-nil pending))
      (stop (at v pending []) (at v pending []) (decode_frame_empty v pending))
at-frames v pending (buf ∷ bufs) =
    subst (λ p. Decodes (at v pending (frames (buf ∷ bufs))) (at v p []))
      (append_assoc pending (chunk buf) (chunks bufs))
      (more (at v pending (frames (buf ∷ bufs))) (at v (pending ++ chunk buf) (frames bufs))
        (at v ((pending ++ chunk buf) ++ chunks bufs) [])
        (decode_frame-frame v pending buf (frames bufs)) (at-frames v (pending ++ chunk buf) bufs))

differs_self : (user_id rest : Bytes) → differs user_id (user_id ++ rest) ≡ false
unfolding differs
differs_self user_id rest =
    let n = length user_id in
    let all : min (length (user_id ++ rest)) n ≡ n = omega (arith, length-append user_id rest) in
    let cut = take-length_append user_id rest in
    let id = take_all user_id n (omega arith) in
    rw all (rw (cut, id, (bytes_eq_iff user_id user_id).1 refl) (ground arith))

-- The first round takes the user id off.
decode_frame-new :
    (user_id buf rest : Bytes) (shared : Option Bool)
    → length user_id ≡ 16
    → let v = new user_id shared in
      decode_frame (feed v (user_id ++ (frame buf ++ rest)))
      ≡ decode_frame (at v [] (frame buf ++ rest))
unfolding decode_frame pass_direct read_uuid new
decode_frame-new user_id buf rest shared sixteen =
    let all = user_id ++ (frame buf ++ rest) in
    let enough =
      le→ltb (length all) 21 (omega (arith, length-append user_id (frame buf ++ rest))) in
    let dropped : drop 16 all ≡ frame buf ++ rest =
      subst (λ m. drop m all ≡ frame buf ++ rest) sixteen
        (drop-length_append user_id (frame buf ++ rest)) in
    rw (differs_self user_id (frame buf ++ rest)) (rw (enough, dropped) refl)

-- The buffers, written one after the other to a stream that is not ready to put anything out.
abbrev pub write_all : VisionStream → List Bytes → VisionStream
write_all v [] = v
write_all v (buf ∷ bufs) = write_all (enqueue_write v buf).1 bufs

-- What the calls of `enqueue_write` say that they took.
abbrev pub taken : VisionStream → List Bytes → Bytes
taken v [] = []
taken v (buf ∷ bufs) =
    let (payload_len, v') = enqueue_write v buf in take payload_len buf ++ taken v' bufs

taken-chunks : (v : VisionStream) (bufs : List Bytes) → chunks bufs ≡ taken v bufs
unfolding enqueue_write
taken-chunks v [] = refl
taken-chunks v (buf ∷ bufs) = ap (◌++◌ (chunk buf)) (taken-chunks (enqueue_write v buf).1 bufs)

write_all-frames :
    (v : VisionStream) (bufs : List Bytes)
    → v.wrote_uuid ≡ true
    → (write_all v bufs).write_pending ≡ v.write_pending ++ frames bufs
unfolding enqueue_write
write_all-frames v [] wrote = sym (append-nil v.write_pending)
write_all-frames v (buf ∷ bufs) wrote =
    rw (write_all-frames (enqueue_write v buf).1 bufs refl)
      (simp wrote (append_assoc v.write_pending (frame buf) (frames bufs)))

decode_frame-new_empty :
    (user_id : Bytes) (shared : Option Bool)
    → let v = feed (new user_id shared) [] in decode_frame v ≡ return v
unfolding decode_frame pass_direct read_uuid new differs
decode_frame-new_empty user_id shared = ground arith

new-write_all :
    (user_id : Bytes) (shared shared' : Option Bool) (bufs : List Bytes)
    → length user_id ≡ 16
    → (w : VisionStream) × Decodes
        (feed (new user_id shared') (write_all (new user_id shared) bufs).write_pending)
        w
      × (w.read_pending ≡ chunks bufs)
unfolding enqueue_write new
new-write_all user_id shared shared' [] sixteen =
    let v = feed (new user_id shared') [] in
    (v, stop v v (decode_frame-new_empty user_id shared'), refl)
new-write_all user_id shared shared' (buf ∷ bufs) sixteen =
    let v = new user_id shared' in
    let rest = frames bufs in
    let first = (enqueue_write (new user_id shared) buf).1 in
    let written : (write_all first bufs).write_pending ≡ user_id ++ (frame buf ++ rest) =
      write_all-frames first bufs refl ∙ append_assoc user_id (frame buf) rest in
    let w = at v (chunks (buf ∷ bufs)) [] in
    (
      w,
      subst (λ b. Decodes (feed v b) w) (sym written)
          (same_round (feed v (user_id ++ (frame buf ++ rest))) (at v [] (frame buf ++ rest)) w
            (decode_frame-new user_id buf rest shared' sixteen) (at-frames v [] (buf ∷ bufs))),
      refl,
    )

-- What one side writes in buffers of any length reaches the other side, in whatever chunks it comes:
-- the decoder passes up what `enqueue_write` says that it took of each buffer, in the same order.
pub decode_chunks-write_all :
    (user_id : Bytes) (shared shared' : Option Bool) (bufs : List Bytes) (c : Bytes)
    (cs : List Bytes)
    → length user_id ≡ 16
    → concat (c ∷ cs) ≡ (write_all (new user_id shared) bufs).write_pending
    → (w : VisionStream) × (decode_chunks (new user_id shared') (c ∷ cs) ≡ some w)
      × (w.read_pending ≡ taken (new user_id shared) bufs)
unfolding new
decode_chunks-write_all user_id shared shared' bufs c cs sixteen whole =
    let (w, d, same) = new-write_all user_id shared shared' bufs sixteen in
    let (w', e, e') = decode_chunks-Decodes (new user_id shared') c cs sixteen in
    let d' = subst (λ b. Decodes (feed (new user_id shared') b) w') whole e' in
    let equal =
      Decodes-unique
        (feed (new user_id shared') (write_all (new user_id shared) bufs).write_pending) w w' d
        d' in
    (
      w',
      e,
      ap (λ (x : VisionStream). x.read_pending) (sym equal)
          ∙ same
          ∙ taken-chunks (new user_id shared) bufs,
    )
