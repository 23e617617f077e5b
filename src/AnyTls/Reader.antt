-- ===== src/AnyTls/Reader.antt =====
-- The reader task of protocol/anytls/src/client.rs: frames come in, and data, answers and a new
-- padding scheme come out. The stream is the bytes that come before it ends.
pub mod Frames
use rabbit_digger_pro.AnyTls.Frame.{
  Frame, encode_frame, read_frame, header_len, cmd_psh, cmd_fin, cmd_alert,
  cmd_update_padding_scheme, cmd_heart_request, cmd_heart_response, cmd_waste, Fits,
  read_frame-encode_frame,
}
use rabbit_digger_pro.AnyTls.Padding.{PaddingScheme, parse}
use rabbit_digger_pro.Base.{
  ℕ, zero, suc, ◌+◌, ◌-◌, ◌^◌, ◌<◌, ◌≤◌, ◌≡◌, refl, ap, sym, ◌∙◌, List, [], ◌∷◌, ◌++◌, Option, none,
  some, Bytes, Bool, true, false, ◌&&◌, ◌==◌, if◌then◌else◌, length, arith, All, append_assoc,
  length-append, Bool-cases, inl, inr, subst,
}
use rabbit_digger_pro.Base.Optional.{◌>>=◌, unwrap_or}

-- `delivered` is what went to the stream's channel, `sent` what went to the writer's.
pub record ReaderState : Type 0 where
  pub padding : PaddingScheme
  pub delivered : List Bytes
  pub sent : List Bytes

abbrev pub heart_response : ℕ → Bytes
heart_response sid =
    unwrap_or (encode_frame (record { cmd = cmd_heart_response; sid = sid; payload = [] })) []

module _ (is_utf8 : Bytes → Bool) (sid : ℕ) (alive : ℕ → Bool) where
  -- `match cmd`: whether the loop goes on, and the state. `alive n` tells whether the stream's
  -- receiver is still there when the channel has taken `n` payloads.
  unfoldable pub handle_frame : ReaderState → Frame → Bool × ReaderState
  handle_frame st f =
      if f.cmd == cmd_psh && f.sid == sid
      then (if alive (length st.delivered)
          then (true, record st { delivered = st.delivered ++ f.payload ∷ [] })
          else (false, st))
      else if f.cmd == cmd_fin && f.sid == sid
      then (false, st)
      else if f.cmd == cmd_alert
      then (false, st)
      else if f.cmd == cmd_update_padding_scheme
      then (true, record st { padding = unwrap_or (parse is_utf8 f.payload) st.padding })
      else if f.cmd == cmd_heart_request
      then (true, record st { sent = st.sent ++ heart_response f.sid ∷ [] })
      else (true, st)

  -- The loop; `none` when the fuel runs out.
  unfoldable pub read_loop : ℕ → ReaderState → Bytes → Option ReaderState
  unfolding handle_frame
  read_loop zero st stream = none
  read_loop (suc fuel) st stream = elim (read_frame stream) [
    | none ↦ some st
    | some (f, rest) ↦
        let (go_on, st') = handle_frame st f in
        elim go_on [ true ↦ read_loop fuel st' rest | false ↦ some st' ]
  ]

  -- A round takes at least the seven bytes of a header.
  unfoldable pub read_all : ReaderState → Bytes → Option ReaderState
  unfolding read_loop
  read_all st stream = read_loop (suc (length stream)) st stream
