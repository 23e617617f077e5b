-- ===== src/Connections/Entry.antt =====
-- What an event does to the entry of its connection, and that it leaves the other entries alone.
use rabbit_digger_pro.Address.{Address}
use rabbit_digger_pro.Base.{
  ℕ, ◌+◌, ◌%◌, ◌^◌, ◌≡◌, ◌≢◌, refl, ◌∙◌, List, [], ◌∷◌, ◌++◌, none, some, false, ◌==◌, arith,
  Option-cases, inl, inr, ◌⊎◌,
}
use rabbit_digger_pro.Base.Map
use rabbit_digger_pro.Base.Map.{
  nat_key, lookup-remove, lookup-insert, lookup-insert_self, same_self,
}
use rabbit_digger_pro.Connections.{
  EventType, tcp, udp, new_tcp, new_udp, set_stopper, close_connection, write, read, send_to,
  recv_from, Event, ConnectionInfo, ConnectionState, wrapping_add, new_info, count_download,
  count_upload, store_stopper, apply_event, apply_events, input_event, recv_events,
}

-- Equal but for the wrap of a `u64`.
infix 20 ◌≋◌
abbrev pub ◌≋◌ : ℕ → ℕ → Type 0
a ≋ b = a % 2 ^ 64 ≡ b % 2 ^ 64

module _ {V : Type 0} where
  insert-other :
      (uuid v : ℕ) (info : ConnectionInfo V) (m : List (ℕ × ConnectionInfo V))
      → uuid ≢ v
      → Map.lookup v (Map.insert uuid info m) ≡ Map.lookup v m
  insert-other uuid v info m other =
      let differ : (uuid == v) ≡ false = ground arith in
      rw (lookup-insert uuid v info m) (rw differ)

  count_download-other :
      (uuid size v : ℕ) (st : ConnectionState V)
      → uuid ≢ v
      → Map.lookup v (count_download uuid size st).connections ≡ Map.lookup v st.connections
  unfolding count_download
  count_download-other uuid size v st other = elim (Option-cases (Map.lookup uuid st.connections)) [
    | inl absent ↦ rw (absent, count_download)
    | inr (conn, there) ↦ rw (there, count_download) (insert-other uuid v _ st.connections other)
  ]

  count_upload-other :
      (uuid size v : ℕ) (st : ConnectionState V)
      → uuid ≢ v
      → Map.lookup v (count_upload uuid size st).connections ≡ Map.lookup v st.connections
  unfolding count_upload
  count_upload-other uuid size v st other = elim (Option-cases (Map.lookup uuid st.connections)) [
    | inl absent ↦ rw (absent, count_upload)
    | inr (conn, there) ↦ rw (there, count_upload) (insert-other uuid v _ st.connections other)
  ]

  store_stopper-other :
      (uuid sender v : ℕ) (st : ConnectionState V)
      → uuid ≢ v
      → Map.lookup v (store_stopper uuid sender st).connections ≡ Map.lookup v st.connections
  unfolding store_stopper
  store_stopper-other uuid sender v st other =
      elim (Option-cases (Map.lookup uuid st.connections)) [
        | inl absent ↦ rw (absent, store_stopper)
        | inr (conn, there) ↦ rw (there, store_stopper) (insert-other uuid v _ st.connections other)
      ]

  -- An event of one connection leaves the others alone.
  apply_event-other :
      (uuid time v : ℕ) (st : ConnectionState V) (e : EventType V)
      → uuid ≢ v
      → Map.lookup v (apply_event uuid time st e).connections ≡ Map.lookup v st.connections
  unfolding apply_event
  apply_event-other uuid time v st (new_tcp addr ctx) other =
      insert-other uuid v _ st.connections other
  apply_event-other uuid time v st (new_udp addr ctx) other =
      insert-other uuid v _ st.connections other
  apply_event-other uuid time v st (set_stopper sender) other =
      store_stopper-other uuid sender v st other
  apply_event-other uuid time v st (read size) other = count_download-other uuid size v st other
  apply_event-other uuid time v st (write size) other = count_upload-other uuid size v st other
  apply_event-other uuid time v st (recv_from _ size) other =
      count_download-other uuid size v st other
  apply_event-other uuid time v st (send_to _ size) other = count_upload-other uuid size v st other
  apply_event-other uuid time v st close_connection other =
      let differ : (uuid == v) ≡ false = ground arith in
      rw (lookup-remove uuid v st.connections) (rw differ)

  pub apply_events-other :
      (uuid time v : ℕ) (st : ConnectionState V) (es : List (EventType V))
      → uuid ≢ v
      → Map.lookup v (apply_events uuid time st es).connections ≡ Map.lookup v st.connections
  unfolding apply_events
  apply_events-other uuid time v st [] other = refl
  apply_events-other uuid time v st (e ∷ es) other =
      apply_events-other uuid time v (apply_event uuid time st e) es other
      ∙ apply_event-other uuid time v st e other

  -- The connection `uuid` is open, and counts what stands in `up` and `down`.
  abbrev pub Counts : ℕ → ConnectionState V → ℕ → ℕ → Type 0
  Counts uuid st up down =
      (info : ConnectionInfo V) × (Map.lookup uuid st.connections ≡ some info)
      × (info.upload ≋ up)
      × (info.download ≋ down)

  pub count_download-Counts :
      (uuid size : ℕ) (st : ConnectionState V) (up down : ℕ)
      → Counts uuid st up down
      → Counts uuid (count_download uuid size st) up (down + size)
  unfolding count_download
  count_download-Counts uuid size st up down (info, there, u, d) =
      rw (there, count_download)
        (
          record info { download = wrapping_add info.download size },
          lookup-insert_self uuid _ st.connections,
          u,
          omega arith,
        )

  pub count_upload-Counts :
      (uuid size : ℕ) (st : ConnectionState V) (up down : ℕ)
      → Counts uuid st up down
      → Counts uuid (count_upload uuid size st) (up + size) down
  unfolding count_upload
  count_upload-Counts uuid size st up down (info, there, u, d) =
      rw (there, count_upload)
        (
          record info { upload = wrapping_add info.upload size },
          lookup-insert_self uuid _ st.connections,
          omega arith,
          d,
        )

  pub store_stopper-Counts :
      (uuid sender : ℕ) (st : ConnectionState V) (up down : ℕ)
      → Counts uuid st up down
      → Counts uuid (store_stopper uuid sender st) up down
  unfolding store_stopper
  store_stopper-Counts uuid sender st up down (info, there, u, d) =
      rw (there, store_stopper)
        (record info { stop_sender = some sender }, lookup-insert_self uuid _ st.connections, u, d)

  -- A connection opens with nothing counted.
  pub opening-Counts :
      (uuid time : ℕ) (st : ConnectionState V) (e : EventType V) (addr : Address) (ctx : V)
      → (e ≡ new_tcp addr ctx) ⊎ (e ≡ new_udp addr ctx)
      → Counts uuid (apply_event uuid time st e) 0 0
  unfolding apply_event
  opening-Counts uuid time st e addr ctx (inl is_tcp) =
      rw is_tcp (new_info tcp addr ctx time, lookup-insert_self uuid _ st.connections, refl, refl)
  opening-Counts uuid time st e addr ctx (inr is_udp) =
      rw is_udp (new_info udp addr ctx time, lookup-insert_self uuid _ st.connections, refl, refl)

  pub recv_events-append :
      (st : ConnectionState V) (a b : List (Event V))
      → recv_events st (a ++ b) ≡ recv_events (recv_events st a) b
  unfolding recv_events
  recv_events-append st [] b = refl
  recv_events-append st (ev ∷ a) b = recv_events-append (input_event st ev) a b

  pub closed_absent :
      (uuid time : ℕ) (st : ConnectionState V)
      → Map.lookup uuid (apply_event uuid time st close_connection).connections ≡ none
  unfolding apply_event
  closed_absent uuid time st = rw (lookup-remove uuid uuid st.connections, same_self uuid)
