-- ===== src/AnyTls/Writer/Writes.antt =====
-- Writing to the stream and reading from it keep the bytes and their order.
use rabbit_digger_pro.AnyTls.Frame.{Frame, read_frame, cmd_psh, Fits, encode_frame-Fits}
use rabbit_digger_pro.AnyTls.Reader.{ReaderState, handle_frame, read_all}
use rabbit_digger_pro.AnyTls.Reader.Frames.{encoded, encode_all, handle_all, read_all-handle_all}
use rabbit_digger_pro.AnyTls.Writer.{
  AnyTlsStream, wrote, broken_pipe, panic, Read, ready, pending, max_payload, poll_write, take_read,
  poll_read,
}
use rabbit_digger_pro.Base.{
  ℕ, zero, suc, ◌^◌, ◌<◌, ◌≤◌, ◌≡◌, ◌≢◌, read_exact, refl, ap, sym, ◌∙◌, List, [], ◌∷◌, ◌++◌,
  Option, none, some, Bytes, Bool, true, false, ◌==◌, length, take, drop, min, map, arith, All,
  append_assoc, append-nil, length-take, length-drop, take-append-drop, subst,
}

abbrev psh : ℕ → Bytes → Frame
psh sid payload = record { cmd = cmd_psh; sid = sid; payload = payload }

-- One write on an open stream takes the front of the buffer into one frame.
poll_write-open :
    (s : AnyTlsStream) (b : ℕ) (buf : Bytes)
    → s.sid < 2 ^ 32
    → s.closed ≡ false
    → s.writable ≡ true
    → let n = min (length (b ∷ buf)) max_payload in
      poll_write s (b ∷ buf)
      ≡ (wrote n, record s { written = s.written ++ encoded (psh s.sid (take n (b ∷ buf))) ∷ [] })
unfolding poll_write
poll_write-open s b buf sid open_ there =
    let n = min (length (b ∷ buf)) max_payload in
    let f = psh s.sid (take n (b ∷ buf)) in
    let fits : Fits f = record {
      cmd = omega arith;
      sid = sid;
      payload = omega (arith, length-take n (b ∷ buf));
    } in
    let coded = encode_frame-Fits f fits in simp (open_, there, coded, poll_write)

nothing_left : read_frame [] ≡ none
unfolding read_frame read_exact
nothing_left = refl

-- `write_all` over `poll_write`: the stream when the whole buffer is taken; `none` for an error or
-- when the fuel runs out.
unfoldable pub write_chunks : ℕ → AnyTlsStream → Bytes → Option AnyTlsStream
unfolding poll_write
write_chunks zero s buf = none
write_chunks (suc fuel) s [] = some s
write_chunks (suc fuel) s (b ∷ buf) =
    let (r, s') = poll_write s (b ∷ buf) in
    elim r [ wrote n ↦ write_chunks fuel s' (drop n (b ∷ buf)) | broken_pipe ↦ none | panic ↦ none ]

abbrev pub frames : ℕ → List Bytes → List Frame
frames sid [] = []
frames sid (p ∷ ps) = psh sid p ∷ frames sid ps

abbrev pub concat : List Bytes → Bytes
concat [] = []
concat (b ∷ bs) = b ++ concat bs

abbrev pub Short : Bytes → Type 0
Short p = length p ≤ max_payload

chunks_written :
    (fuel : ℕ) (s : AnyTlsStream) (buf : Bytes)
    → s.sid < 2 ^ 32
    → s.closed ≡ false
    → s.writable ≡ true
    → length buf < fuel
    → (ps : List Bytes) × (write_chunks fuel s buf
        ≡ some (record s { written = s.written ++ map encoded (frames s.sid ps) }))
      × (concat ps ≡ buf)
      × All Short ps
unfolding write_chunks
chunks_written zero s buf sid open_ there enough = absurd (omega arith)
chunks_written (suc fuel) s [] sid open_ there enough =
    ([], ap (λ w. some (record s { written = w })) (sym (append-nil s.written)), refl, tt)
chunks_written (suc fuel) s (b ∷ buf) sid open_ there enough =
    let n = min (length (b ∷ buf)) max_payload in
    let front = take n (b ∷ buf) in
    let s' = record s { written = s.written ++ encoded (psh s.sid front) ∷ [] } in
    let once = poll_write-open s b buf sid open_ there in
    let (ps, sent, whole, shorts) =
      chunks_written fuel s' (drop n (b ∷ buf)) sid open_ there
        (omega (arith, length-drop n (b ∷ buf))) in
    (
      front ∷ ps,
      simp (once, write_chunks)
          (sent
            ∙ ap (λ w. some (record s { written = w }))
                (append_assoc s.written (encoded (psh s.sid front) ∷ [])
                  (map encoded (frames s.sid ps)))),
      ap (◌++◌ front) whole ∙ take-append-drop n (b ∷ buf),
      (omega (arith, length-take n (b ∷ buf)), shorts),
    )

module _ (is_utf8 : Bytes → Bool) where
  handle_all-frames :
      (sid : ℕ) (st : ReaderState) (ps : List Bytes)
      → handle_all is_utf8 sid (λ n. true) st (frames sid ps)
        ≡ record st { delivered = st.delivered ++ ps }
  unfolding handle_frame
  handle_all-frames sid st [] =
      ap (λ d. record st { delivered = d }) (sym (append-nil st.delivered))
  handle_all-frames sid st (p ∷ ps) =
      let same : (sid == sid) ≡ true = ground arith in
      rw (same, handle_frame)
        (handle_all-frames sid (record st { delivered = st.delivered ++ p ∷ [] }) ps
          ∙ ap (λ d. record st { delivered = d }) (append_assoc st.delivered (p ∷ []) ps))

  frames-Fits : (sid : ℕ) (ps : List Bytes) → sid < 2 ^ 32 → All Short ps → All Fits (frames sid ps)
  frames-Fits sid [] low h = tt
  frames-Fits sid (p ∷ ps) low (short, h) =
      (record { cmd = omega arith; sid = low; payload = short }, frames-Fits sid ps low h)

  -- A buffer that is written to an open stream is taken whole, in frames of at most 65535 bytes; a
  -- reader of the same stream id that gets these frames delivers the buffer's bytes in order and
  -- changes nothing else.
  pub write_chunks-read_all :
      (s : AnyTlsStream) (buf : Bytes) (st : ReaderState)
      → s.sid < 2 ^ 32
      → s.closed ≡ false
      → s.writable ≡ true
      → (ps : List Bytes) × (write_chunks (suc (length buf)) s buf
          ≡ some (record s { written = s.written ++ map encoded (frames s.sid ps) }))
        × (concat ps ≡ buf)
        × (read_all is_utf8 s.sid (λ n. true) st (encode_all (frames s.sid ps))
            ≡ some (record st { delivered = st.delivered ++ ps }))
  write_chunks-read_all s buf st sid open_ there =
      let (ps, sent, whole, shorts) =
        chunks_written (suc (length buf)) s buf sid open_ there (omega arith) in
      let over : read_frame [] ≡ none = nothing_left in
      let read_ =
        read_all-handle_all is_utf8 s.sid (λ n. true) st (frames s.sid ps) []
          (frames-Fits s.sid ps sid shorts) over in
      (
        ps,
        sent,
        whole,
        subst
              (λ b.
                read_all is_utf8 s.sid (λ n. true) st b
                ≡ some (handle_all is_utf8 s.sid (λ n. true) st (frames s.sid ps)))
              (append-nil (encode_all (frames s.sid ps))) read_
            ∙ ap some (handle_all-frames s.sid st ps),
      )

-- What has come for the stream and was not read yet.
abbrev pub unread : AnyTlsStream → Bytes
unread s = s.read_buf ++ concat s.read_rx

abbrev pub got : Read → Bytes
got (ready bytes) = bytes
got pending = []

take_read_order :
    (n : ℕ) (s : AnyTlsStream)
    → (got (take_read n s).0 ++ unread (take_read n s).1 ≡ unread s)
      × (length (got (take_read n s).0) ≤ n)
      × ((take_read n s).0 ≢ pending)
unfolding take_read
take_read_order n s =
    let k = min (length s.read_buf) n in
    (
      sym (append_assoc (take k s.read_buf) (drop k s.read_buf) (concat s.read_rx))
          ∙ ap (λ b. b ++ concat s.read_rx) (take-append-drop k s.read_buf),
      omega (arith, length-take k s.read_buf),
      λ e. absurd (ground arith),
    )

abbrev Orderly : ℕ → AnyTlsStream → Type 0
Orderly n s =
    (got (poll_read n s).0 ++ unread (poll_read n s).1 ≡ unread s)
    × (length (got (poll_read n s).0) ≤ n)
    × ((poll_read n s).0 ≡ pending → (unread s ≡ []) × (s.ended ≡ false))

poll_read-Orderly :
    (n : ℕ) (s : AnyTlsStream) (rx : List Bytes) (buf : Bytes) (ended : Bool)
    → Orderly n (record s { read_rx = rx; read_buf = buf; ended = ended })
unfolding poll_read
poll_read-Orderly n s rx (b ∷ buf) ended =
    let (order, few, some_) =
      take_read_order n (record s { read_rx = rx; read_buf = b ∷ buf; ended = ended }) in
    (order, few, λ e. absurd (some_ e))
poll_read-Orderly n s (bytes ∷ rest) [] ended =
    let (order, few, some_) =
      take_read_order n (record s { read_rx = rest; read_buf = bytes; ended = ended }) in
    (order, few, λ e. absurd (some_ e))
poll_read-Orderly n s [] [] true = (refl, omega arith, λ e. absurd (ground arith))
poll_read-Orderly n s [] [] false = (refl, omega arith, λ e. (refl, refl))

-- A read gives the next bytes that came, no more than fit, and leaves the others for later; it waits
-- only where nothing is left and more may come.
pub poll_read_order :
    (n : ℕ) (s : AnyTlsStream)
    → (got (poll_read n s).0 ++ unread (poll_read n s).1 ≡ unread s)
      × (length (got (poll_read n s).0) ≤ n)
      × ((poll_read n s).0 ≡ pending → (unread s ≡ []) × (s.ended ≡ false))
poll_read_order n s = poll_read-Orderly n s s.read_rx s.read_buf s.ended
