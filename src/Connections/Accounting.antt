-- ===== src/Connections/Accounting.antt =====
-- The totals account for every open connection and every one that is gone.
use rabbit_digger_pro.Base.{
  ℕ, ◌+◌, ◌%◌, ◌^◌, ◌≡◌, refl, ap, ◌∙◌, List, [], ◌∷◌, Option, some, arith, Option-cases, inl, inr,
  subst,
}
use rabbit_digger_pro.Base.Entries.{
  Unique, sum_by, amount, remove-Unique, insert-Unique, sum_by-remove,
}
use rabbit_digger_pro.Base.Map
use rabbit_digger_pro.Base.Map.{nat_key, lookup-remove, lookup-insert, same_self, Key}
use rabbit_digger_pro.Connections.{
  EventType, tcp, udp, new_tcp, new_udp, set_stopper, close_connection, write, read, send_to,
  recv_from, Event, ConnectionInfo, ConnectionState, wrapping_add, new_state, new_info,
  count_download, count_upload, store_stopper, apply_event, apply_events, input_event, recv_events,
}

abbrev pub plus : ℕ × ℕ → ℕ × ℕ → ℕ × ℕ
plus (a, b) (c, d) = (a + c, b + d)

plus_zero : (p : ℕ × ℕ) → p ≡ plus p (0, 0)
plus_zero (a, b) = ap (λ x. (x, b)) (omega arith) ∙ ap (λ y. (a + 0, y)) (omega arith)

zero_plus : (p : ℕ × ℕ) → plus (0, 0) p ≡ p
zero_plus (a, b) = ap (λ x. (x, 0 + b)) (omega arith) ∙ ap (λ y. (a, y)) (omega arith)

plus_assoc : (p q r : ℕ × ℕ) → plus (plus p q) r ≡ plus p (plus q r)
plus_assoc (a, b) (c, d) (e, f) =
    ap (λ x. (x, b + d + f)) (omega arith) ∙ ap (λ y. (a + (c + e), y)) (omega arith)

module _ {V : Type 0} where
  abbrev upload_of : ConnectionInfo V → ℕ
  upload_of conn = conn.upload

  abbrev download_of : ConnectionInfo V → ℕ
  download_of conn = conn.download

  abbrev both : Option (ConnectionInfo V) → ℕ × ℕ
  both o = (amount upload_of o, amount download_of o)

  -- What an event takes out of the open connections: the upload and the download of the one that it
  -- closes, or whose name it takes over.
  abbrev pub leaving : ℕ → ConnectionState V → EventType V → ℕ × ℕ
  leaving uuid st (new_tcp _ _) = both (Map.lookup uuid st.connections)
  leaving uuid st (new_udp _ _) = both (Map.lookup uuid st.connections)
  leaving uuid st close_connection = both (Map.lookup uuid st.connections)
  leaving uuid st (set_stopper _) = (0, 0)
  leaving uuid st (read _) = (0, 0)
  leaving uuid st (write _) = (0, 0)
  leaving uuid st (recv_from _ _) = (0, 0)
  leaving uuid st (send_to _ _) = (0, 0)

  abbrev pub left_by : ℕ → ℕ → ConnectionState V → List (EventType V) → ℕ × ℕ
  left_by uuid time st [] = (0, 0)
  left_by uuid time st (e ∷ es) =
      plus (leaving uuid st e) (left_by uuid time (apply_event uuid time st e) es)

  abbrev pub left_by_all : ConnectionState V → List (Event V) → ℕ × ℕ
  left_by_all st [] = (0, 0)
  left_by_all st (ev ∷ evs) =
      plus (left_by ev.uuid ev.time st ev.events) (left_by_all (input_event st ev) evs)

  -- The totals are what the open connections count and what those that are gone have counted.
  abbrev pub Balanced : ConnectionState V → ℕ × ℕ → Type 0
  Balanced st (up, down) =
      Unique st.connections
      × (st.total_upload ≡ (sum_by upload_of st.connections + up) % 2 ^ 64)
      × (st.total_download ≡ (sum_by download_of st.connections + down) % 2 ^ 64)

  -- What the sums are when an entry is replaced.
  sums-insert :
      (uuid : ℕ) (conn : ConnectionInfo V) (m : List (ℕ × ConnectionInfo V))
      → Unique m
      → (sum_by upload_of (Map.insert uuid conn m) + amount upload_of (Map.lookup uuid m)
          ≡ sum_by upload_of m + conn.upload)
        × (sum_by download_of (Map.insert uuid conn m) + amount download_of (Map.lookup uuid m)
            ≡ sum_by download_of m + conn.download)
  unfolding Map.insert
  sums-insert uuid conn m u =
      let out_u = sum_by-remove upload_of uuid m u in
      let out_d = sum_by-remove download_of uuid m u in (omega arith, omega arith)

  open-Balanced :
      (uuid : ℕ) (st : ConnectionState V) (info : ConnectionInfo V) (gone : ℕ × ℕ)
      → Balanced st gone
      → info.upload ≡ 0
      → info.download ≡ 0
      → Balanced
          (record st { connections = Map.insert uuid info st.connections })
          (plus gone (both (Map.lookup uuid st.connections)))
  open-Balanced uuid st info (up, down) (u, bu, bd) zu zd =
      let (su, sd) = sums-insert uuid info st.connections u in
      (insert-Unique uuid info st.connections u, omega arith, omega arith)

  store_stopper-Balanced :
      (uuid sender : ℕ) (st : ConnectionState V) (gone : ℕ × ℕ)
      → Balanced st gone
      → Balanced (store_stopper uuid sender st) (plus gone (0, 0))
  unfolding store_stopper
  store_stopper-Balanced uuid sender st (up, down) (u, bu, bd) =
      elim (Option-cases (Map.lookup uuid st.connections)) [
        | inl absent ↦ rw (absent, store_stopper) (u, omega arith, omega arith)
        | inr (conn, there) ↦
            let conn' = record conn { stop_sender = some sender } in
            let (su, sd) = sums-insert uuid conn' st.connections u in
            let was_u = ap (amount upload_of) there in
            let was_d = ap (amount download_of) there in
            rw (there, store_stopper)
              (insert-Unique uuid conn' st.connections u, omega arith, omega arith)
      ]

  count_download-Balanced :
      (uuid size : ℕ) (st : ConnectionState V) (gone : ℕ × ℕ)
      → Balanced st gone
      → Balanced (count_download uuid size st) (plus gone (0, 0))
  unfolding count_download
  count_download-Balanced uuid size st (up, down) (u, bu, bd) =
      elim (Option-cases (Map.lookup uuid st.connections)) [
        | inl absent ↦ rw (absent, count_download) (u, omega arith, omega arith)
        | inr (conn, there) ↦
            let conn' = record conn { download = wrapping_add conn.download size } in
            let (su, sd) = sums-insert uuid conn' st.connections u in
            let was_u = ap (amount upload_of) there in
            let was_d = ap (amount download_of) there in
            rw (there, count_download)
              (insert-Unique uuid conn' st.connections u, omega arith, omega arith)
      ]

  count_upload-Balanced :
      (uuid size : ℕ) (st : ConnectionState V) (gone : ℕ × ℕ)
      → Balanced st gone
      → Balanced (count_upload uuid size st) (plus gone (0, 0))
  unfolding count_upload
  count_upload-Balanced uuid size st (up, down) (u, bu, bd) =
      elim (Option-cases (Map.lookup uuid st.connections)) [
        | inl absent ↦ rw (absent, count_upload) (u, omega arith, omega arith)
        | inr (conn, there) ↦
            let conn' = record conn { upload = wrapping_add conn.upload size } in
            let (su, sd) = sums-insert uuid conn' st.connections u in
            let was_u = ap (amount upload_of) there in
            let was_d = ap (amount download_of) there in
            rw (there, count_upload)
              (insert-Unique uuid conn' st.connections u, omega arith, omega arith)
      ]

  apply_event-Balanced :
      (uuid time : ℕ) (st : ConnectionState V) (e : EventType V) (gone : ℕ × ℕ)
      → Balanced st gone
      → Balanced (apply_event uuid time st e) (plus gone (leaving uuid st e))
  unfolding apply_event
  apply_event-Balanced uuid time st (new_tcp addr ctx) gone b =
      open-Balanced uuid st (new_info tcp addr ctx time) gone b refl refl
  apply_event-Balanced uuid time st (new_udp addr ctx) gone b =
      open-Balanced uuid st (new_info udp addr ctx time) gone b refl refl
  apply_event-Balanced uuid time st (set_stopper sender) gone b =
      store_stopper-Balanced uuid sender st gone b
  apply_event-Balanced uuid time st (read size) gone b = count_download-Balanced uuid size st gone b
  apply_event-Balanced uuid time st (write size) gone b = count_upload-Balanced uuid size st gone b
  apply_event-Balanced uuid time st (recv_from _ size) gone b =
      count_download-Balanced uuid size st gone b
  apply_event-Balanced uuid time st (send_to _ size) gone b =
      count_upload-Balanced uuid size st gone b
  apply_event-Balanced uuid time st close_connection (up, down) (u, bu, bd) =
      let out_u = sum_by-remove upload_of uuid st.connections u in
      let out_d = sum_by-remove download_of uuid st.connections u in
      (remove-Unique uuid st.connections u, omega arith, omega arith)

  apply_events-Balanced :
      (uuid time : ℕ) (st : ConnectionState V) (es : List (EventType V)) (gone : ℕ × ℕ)
      → Balanced st gone
      → Balanced (apply_events uuid time st es) (plus gone (left_by uuid time st es))
  unfolding apply_events
  apply_events-Balanced uuid time st [] gone b = subst (Balanced st) (plus_zero gone) b
  apply_events-Balanced uuid time st (e ∷ es) gone b = subst (Balanced _) (plus_assoc gone _ _) (
      apply_events-Balanced uuid time (apply_event uuid time st e) es _
        (apply_event-Balanced uuid time st e gone b))

  recv_events-Balanced :
      (st : ConnectionState V) (evs : List (Event V)) (gone : ℕ × ℕ)
      → Balanced st gone
      → Balanced (recv_events st evs) (plus gone (left_by_all st evs))
  unfolding recv_events input_event
  recv_events-Balanced st [] gone b = subst (Balanced st) (plus_zero gone) b
  recv_events-Balanced st (ev ∷ evs) gone b = subst (Balanced _) (plus_assoc gone _ _) (
      recv_events-Balanced (input_event st ev) evs _
        (apply_events-Balanced ev.uuid ev.time st ev.events gone b))

  -- Whatever events the manager has received, its two totals are, up to the wrap of a `u64`, what
  -- the open connections count and what those that were closed or replaced had counted; a name has
  -- at most one connection.
  pub recv_events_accounted :
      (evs : List (Event V)) → Balanced (recv_events new_state evs) (left_by_all new_state evs)
  recv_events_accounted evs =
      subst (Balanced _) (zero_plus _) (recv_events-Balanced new_state evs (0, 0) (tt, refl, refl))
