-- ===== src/AnyTls/Reader/Frames.antt =====
-- The reader of a stream of frames does what the frames say, one after the other.
use rabbit_digger_pro.AnyTls.Padding.{PaddingScheme, parse}
use rabbit_digger_pro.AnyTls.Frame.{
  cmd_psh, cmd_fin, cmd_alert, cmd_heart_request, cmd_update_padding_scheme, Frame, encode_frame,
  read_frame, Fits, read_frame-encode_frame,
}
use rabbit_digger_pro.AnyTls.Reader.{heart_response, ReaderState, handle_frame, read_loop, read_all}
use rabbit_digger_pro.Base.{
  ◌+◌, ◌++◌, append-nil, ◌&&◌, ◌||◌, not, true, false, ◌==◌, ◌∙◌, ℕ, zero, suc, ◌<◌, ◌≡◌, refl, ap,
  List, [], ◌∷◌, none, some, Bytes, Bool, if◌then◌else◌, length, arith, All, append_assoc,
  length-append, Bool-cases, inl, inr,
}
use rabbit_digger_pro.Base.Optional.{unwrap_or}

abbrev pub encoded : Frame → Bytes
encoded f = unwrap_or (encode_frame f) []

abbrev pub encode_all : List Frame → Bytes
encode_all [] = []
encode_all (f ∷ fs) = encoded f ++ encode_all fs

module _ (is_utf8 : Bytes → Bool) (sid : ℕ) (alive : ℕ → Bool) where
  -- The frames in order, up to the first that ends the loop.
  abbrev pub handle_all : ReaderState → List Frame → ReaderState
  handle_all st [] = st
  handle_all st (f ∷ fs) =
      let (go_on, st') = handle_frame is_utf8 sid alive st f in
      if go_on then handle_all st' fs else st'

  read_loop-encode_all :
      (fuel : ℕ) (st : ReaderState) (fs : List Frame) (rest : Bytes)
      → All Fits fs
      → read_frame rest ≡ none
      → length (encode_all fs ++ rest) < fuel
      → read_loop is_utf8 sid alive fuel st (encode_all fs ++ rest) ≡ some (handle_all st fs)
  unfolding read_loop
  read_loop-encode_all zero st fs rest fits over enough = absurd (omega arith)
  read_loop-encode_all (suc fuel) st [] rest fits over enough = rw (over, read_loop) refl
  read_loop-encode_all (suc fuel) st (f ∷ fs) rest (fit, fits) over enough =
      let tail = encode_all fs ++ rest in
      let (bytes, coded, back, size) = read_frame-encode_frame f tail fit in
      let whole : (encoded f ++ encode_all fs) ++ rest ≡ bytes ++ tail =
        rw coded (append_assoc bytes (encode_all fs) rest) in
      let shorter : length tail < fuel = omega (arith, ap length whole, length-append bytes tail) in
      let (go_on, st') = handle_frame is_utf8 sid alive st f in
      rw (whole, back, read_loop)
        (elim (Bool-cases go_on) [
          | inl on ↦ rw on (read_loop-encode_all fuel st' fs rest fits over shorter)
          | inr off ↦ rw off refl
        ])

  abbrev pub is_data : Frame → Bool
  is_data f = f.cmd == cmd_psh && f.sid == sid

  -- A frame that ends the reader, `n` payloads being delivered: data for a stream whose receiver is
  -- gone, the end of the stream, or an alert.
  abbrev pub ends : ℕ → Frame → Bool
  ends n f =
      if is_data f
      then not (alive n)
      else ((f.cmd == cmd_fin && f.sid == sid) || f.cmd == cmd_alert)

  abbrev pub payload_of : Frame → List Bytes
  payload_of f = if is_data f then f.payload ∷ [] else []

  abbrev pub answer_of : Frame → List Bytes
  answer_of f = if f.cmd == cmd_heart_request then heart_response f.sid ∷ [] else []

  -- A scheme that does not parse changes nothing.
  abbrev pub next_padding : PaddingScheme → Frame → PaddingScheme
  next_padding scheme f =
      if f.cmd == cmd_update_padding_scheme
      then unwrap_or (parse is_utf8 f.payload) scheme
      else scheme

  -- The frames before the first that ends the reader.
  abbrev pub before_end : ℕ → List Frame → List Frame
  before_end n [] = []
  before_end n (f ∷ fs) = if ends n f then [] else f ∷ before_end (n + length (payload_of f)) fs

  abbrev pub payloads : List Frame → List Bytes
  payloads [] = []
  payloads (f ∷ fs) = payload_of f ++ payloads fs

  abbrev pub answers : List Frame → List Bytes
  answers [] = []
  answers (f ∷ fs) = answer_of f ++ answers fs

  abbrev pub newest_padding : PaddingScheme → List Frame → PaddingScheme
  newest_padding scheme [] = scheme
  newest_padding scheme (f ∷ fs) = newest_padding (next_padding scheme f) fs

  abbrev added : ReaderState → List Frame → ReaderState
  added st fs = record {
    padding = newest_padding st.padding fs;
    delivered = st.delivered ++ payloads fs;
    sent = st.sent ++ answers fs;
  }

  -- The state that a reader of these frames is left in.
  abbrev pub after_frames : ReaderState → List Frame → ReaderState
  after_frames st fs = added st (before_end (length st.delivered) fs)

  abbrev one_added : ReaderState → Frame → ReaderState
  one_added st f = record {
    padding = next_padding st.padding f;
    delivered = st.delivered ++ payload_of f;
    sent = st.sent ++ answer_of f;
  }

  handle_frame-ends :
      (st : ReaderState) (f : Frame)
      → ends (length st.delivered) f ≡ true
      → handle_frame is_utf8 sid alive st f ≡ (false, st)
  unfolding handle_frame
  handle_frame-ends st f e = ground arith

  handle_frame-goes :
      (st : ReaderState) (f : Frame)
      → ends (length st.delivered) f ≡ false
      → handle_frame is_utf8 sid alive st f ≡ (true, one_added st f)
  unfolding handle_frame
  handle_frame-goes st f e = ground (arith, append-nil st.delivered, append-nil st.sent)

  one_added-added :
      (st : ReaderState) (f : Frame) (fs : List Frame)
      → added (one_added st f) fs ≡ added st (f ∷ fs)
  one_added-added st f fs = simp append_assoc

  handle_all-after_frames :
      (st : ReaderState) (fs : List Frame) → handle_all st fs ≡ after_frames st fs
  handle_all-after_frames st [] = simp append-nil
  handle_all-after_frames st (f ∷ fs) = elim (Bool-cases (ends (length st.delivered) f)) [
    | inl over ↦ rw (handle_frame-ends st f over, over) (simp append-nil)
    | inr goes ↦
        let longer : length (st.delivered ++ payload_of f)
            ≡ length st.delivered + length (payload_of f) =
          length-append st.delivered (payload_of f) in
        rw (handle_frame-goes st f goes, goes)
          (handle_all-after_frames (one_added st f) fs
            ∙ ap (λ n. added (one_added st f) (before_end n fs)) longer
            ∙ one_added-added st f (before_end (length st.delivered + length (payload_of f)) fs))
  ]

  pub read_all-handle_all :
      (st : ReaderState) (fs : List Frame) (rest : Bytes)
      → All Fits fs
      → read_frame rest ≡ none
      → read_all is_utf8 sid alive st (encode_all fs ++ rest) ≡ some (handle_all st fs)
  unfolding read_all
  read_all-handle_all st fs rest fits over =
      read_loop-encode_all (suc (length (encode_all fs ++ rest))) st fs rest fits over (omega arith)

  -- A reader of frames whose fields fit, and then of bytes that are no whole frame, always comes to an
  -- end. It stops at the first frame that ends the stream, is an alert, or carries data when the
  -- receiver is gone. Of the frames before it, it has delivered the payloads of its stream in order,
  -- answered each heartbeat for the stream that asked, and kept the last padding scheme that parses.
  pub read_all-encode_all :
      (st : ReaderState) (fs : List Frame) (rest : Bytes)
      → All Fits fs
      → read_frame rest ≡ none
      → read_all is_utf8 sid alive st (encode_all fs ++ rest) ≡ some (after_frames st fs)
  read_all-encode_all st fs rest fits over =
      read_all-handle_all st fs rest fits over ∙ ap some (handle_all-after_frames st fs)
