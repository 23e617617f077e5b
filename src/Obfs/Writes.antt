-- ===== src/Obfs/Writes.antt =====
-- The first write of the obfuscated stream.
use rabbit_digger_pro.Base.{
  ℕ, suc, ◌+◌, ◌≤◌, ◌≡◌, refl, List, ◌∷◌, ◌++◌, some, Bytes, length, min, take_all, arith, ==_self,
  ap, ◌∙◌,
}
use rabbit_digger_pro.Base.Stream.{ready, Accept, room, Sink, sink_write}
use rabbit_digger_pro.Obfs.{
  HttpSimple, Draws, wait, write, done, request_head, request, write_done, write_loop,
}

module _ (base64 : Bytes → Bytes) where
  write_out :
      (fuel a : ℕ) (param : HttpSimple) (d : Draws) (out buf sent : Bytes) (accepts : List Accept)
      → length out ≤ a
      → write_loop base64
          (suc fuel)
          param
          d
          (write out 0)
          (record { sent = sent; accepts = room a ∷ accepts })
          buf
        ≡ write_loop base64 fuel param d done (record { sent = sent ++ out; accepts = accepts }) buf
  unfolding write_loop sink_write
  write_out fuel a param d out buf sent accepts enough =
      let n : min a (length out) ≡ length out = omega arith in
      let sum : 0 + length out ≡ length out = omega arith in
      rw (n, take_all out (length out) (omega arith), sum, ==_self (length out)) refl

  write_again :
      (sent buf : Bytes) (b : ℕ) (accepts : List Accept)
      → length buf ≤ b
      → write_done base64 (record { sent = sent; accepts = room b ∷ accepts }) buf
        ≡ (ready (length buf), done, record { sent = sent ++ buf; accepts = accepts })
  unfolding write_done sink_write
  write_again sent buf b accepts enough =
      let n : min b (length buf) ≡ length buf = omega arith in
      rw n (rw (take_all buf (length buf) (omega arith)) refl)

  -- The first write, on a stream below with room for all of it: the request goes out with the buffer as
  -- its body, and then the same buffer once more; it is reported as written once.
  pub write_loop_twice :
      (fuel a b : ℕ) (param : HttpSimple) (d : Draws) (buf sent : Bytes) (accepts : List Accept)
      → length (request base64 param d buf) ≤ a
      → length buf ≤ b
      → let inner : Sink = record { sent = sent; accepts = room a ∷ room b ∷ accepts } in
        write_loop base64 (suc (suc (suc fuel))) param d wait inner buf
        ≡ some (
          ready (length buf),
          done,
          record {
            sent = (sent ++ (request_head base64 param d (length buf) ++ buf)) ++ buf;
            accepts = accepts;
          },
        )
  unfolding write_loop request
  write_loop_twice fuel a b param d buf sent accepts whole again =
      let out = request base64 param d buf in
      write_out (suc fuel) a param d out buf sent (room b ∷ accepts) whole
      ∙ ap some (write_again (sent ++ out) buf b accepts again)
