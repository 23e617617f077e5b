-- ===== src/Connections/Traffic.antt =====
-- What a connection carries is what the manager counts for it, whatever the other connections do.
use rabbit_digger_pro.Address.{Address}
use rabbit_digger_pro.Base.{
  ℕ, ◌+◌, ◌≡◌, ◌≢◌, refl, sym, ◌∙◌, subst, List, [], ◌∷◌, none, some, true, false, arith, ◌⊎◌,
}
use rabbit_digger_pro.Base.Map
use rabbit_digger_pro.Base.Map.{nat_key, lookup-remove, lookup-insert, lookup-insert_self}
use rabbit_digger_pro.Connections.{
  EventType, new_tcp, new_udp, close_connection, Event, ConnectionState, apply_event, apply_events,
  input_event, recv_events,
}
use rabbit_digger_pro.Connections.Report.{ConnType, Connection, send, new, report, poll, drop}
use rabbit_digger_pro.Connections.Entry.{
  ◌≋◌, Counts, apply_events-other, store_stopper-Counts, opening-Counts, recv_events-append,
  closed_absent,
}

-- A kind of traffic: what an operation adds to what waits to be reported, and that a report leaves
-- nothing out.
pub record Tally {V T : Type 0} (c : ConnType V T) (Op : Type 0) : Type 1 where
  pub apply : Op → T → T
  pub up : Op → ℕ
  pub down : Op → ℕ
  pub pending_up : T → ℕ
  pub pending_down : T → ℕ
  pub Valid : T → Type 0
  pub default-Valid : Valid c.default
  pub default-pending : (pending_up c.default ≡ 0) × (pending_down c.default ≡ 0)
  pub apply-Valid : (o : Op) (t : T) → Valid t → Valid (apply o t)
  pub apply_up : (o : Op) (t : T) → Valid t → pending_up (apply o t) ≋ pending_up t + up o
  pub apply_down : (o : Op) (t : T) → Valid t → pending_down (apply o t) ≋ pending_down t + down o
  pub events_counted :
      (uuid time : ℕ) (st : ConnectionState V) (t : T) (u d : ℕ)
      → Valid t
      → Counts uuid st u d
      → Counts uuid
          (apply_events uuid time st (c.get_events t).0)
          (u + pending_up t)
          (d + pending_down t)
  pub opens :
      (addr : Address) (ctx : V)
      → (c.event_type addr ctx ≡ new_tcp addr ctx) ⊎ (c.event_type addr ctx ≡ new_udp addr ctx)
  pub emptied : (t : T) → Valid t → (c.get_events t).1 ≡ c.default

-- What happens while a connection is open: an operation of its own, its heartbeat at a time, or an
-- event that another connection has sent.
pub data Step (V Op : Type 0) : Type 0 where
  own : Op → Step V Op
  beat : ℕ → Step V Op
  another : Event V → Step V Op

module _ {V T Op : Type 0} (c : ConnType V T) (t : Tally c Op) where
  abbrev pub step : ConnectionState V → Connection T → Step V Op → ConnectionState V × Connection T
  step st conn (own o) = (st, record conn { state = t.apply o conn.state })
  step st conn (beat time) =
      let (conn', events, _) = poll c true false time conn in (recv_events st events, conn')
  step st conn (another ev) = (input_event st ev, conn)

  abbrev pub run :
      ConnectionState V → Connection T → List (Step V Op) → ConnectionState V × Connection T
  run st conn [] = (st, conn)
  run st conn (s ∷ ss) = let (st', conn') = step st conn s in run st' conn' ss

  abbrev pub uploaded : List (Step V Op) → ℕ
  uploaded [] = 0
  uploaded (own o ∷ ss) = t.up o + uploaded ss
  uploaded (beat time ∷ ss) = uploaded ss
  uploaded (another ev ∷ ss) = uploaded ss

  abbrev pub downloaded : List (Step V Op) → ℕ
  downloaded [] = 0
  downloaded (own o ∷ ss) = t.down o + downloaded ss
  downloaded (beat time ∷ ss) = downloaded ss
  downloaded (another ev ∷ ss) = downloaded ss

  -- The events of the others carry other names.
  abbrev pub Others : ℕ → List (Step V Op) → Type 0
  Others uuid [] = Unit {0}
  Others uuid (own o ∷ ss) = Others uuid ss
  Others uuid (beat time ∷ ss) = Others uuid ss
  Others uuid (another ev ∷ ss) = (ev.uuid ≢ uuid) × Others uuid ss

  -- What the manager counts and what waits to be reported make what was carried.
  abbrev Tracks : ConnectionState V → Connection T → ℕ → ℕ → Type 0
  Tracks st conn up down =
      t.Valid conn.state
      × (u : ℕ) × (d : ℕ) × Counts conn.uuid st u d
      × (u + t.pending_up conn.state ≋ up)
      × (d + t.pending_down conn.state ≋ down)

  recv-send :
      (st : ConnectionState V) (conn : Connection T) (time : ℕ) (es : List (EventType V))
      → recv_events st (send c conn time es) ≡ apply_events conn.uuid time st es
  unfolding recv_events input_event apply_events
  recv-send st conn time [] = refl
  recv-send st conn time (e ∷ es) = refl

  -- A report leaves nothing that waits.
  report-Tracks :
      (st : ConnectionState V) (conn : Connection T) (time up down : ℕ)
      → Tracks st conn up down
      → (t.Valid (report c time conn).0.state
          × (t.pending_up (report c time conn).0.state ≡ 0)
          × (t.pending_down (report c time conn).0.state ≡ 0))
        × Counts conn.uuid (recv_events st (report c time conn).1) up down
  unfolding report
  report-Tracks st conn time up down (v, u, d, counts, ups, downs) =
      let (info, there, iu, id) = t.events_counted conn.uuid time st conn.state u d v counts in
      (
        rw (t.emptied conn.state v) (t.default-Valid, t.default-pending.0, t.default-pending.1),
        rw (recv-send st conn time (c.get_events conn.state).0) (info, there, iu ∙ ups, id ∙ downs),
      )

  step-Tracks :
      (st : ConnectionState V) (conn : Connection T) (s : Step V Op) (up down : ℕ)
      → Others conn.uuid (s ∷ [])
      → Tracks st conn up down
      → Tracks
          (step st conn s).0
          (step st conn s).1
          (up + uploaded (s ∷ []))
          (down + downloaded (s ∷ []))
  unfolding input_event apply_events
  step-Tracks st conn (own o) up down others (v, u, d, counts, ups, downs) =
      let more_up = t.apply_up o conn.state v in
      let more_down = t.apply_down o conn.state v in
      (t.apply-Valid o conn.state v, u, d, counts, omega arith, omega arith)
  step-Tracks st conn (beat time) up down others tracks =
      let ((v, pu, pd), counts) = report-Tracks st conn time up down tracks in
      unfold poll in (v, up, down, counts, omega arith, omega arith)
  step-Tracks st conn (another ev) up down (other, _) (v, u, d, (info, there, iu, id), ups, downs) =
      (
        v,
        u,
        d,
        (info, apply_events-other ev.uuid ev.time conn.uuid st ev.events other ∙ there, iu, id),
        omega arith,
        omega arith,
      )

  step_uuid :
      (st : ConnectionState V) (conn : Connection T) (s : Step V Op)
      → (step st conn s).1.uuid ≡ conn.uuid
  unfolding poll report
  step_uuid st conn (own o) = refl
  step_uuid st conn (beat time) = refl
  step_uuid st conn (another ev) = refl

  carried-cons :
      (s : Step V Op) (ss : List (Step V Op))
      → (uploaded (s ∷ ss) ≡ uploaded (s ∷ []) + uploaded ss)
        × (downloaded (s ∷ ss) ≡ downloaded (s ∷ []) + downloaded ss)
  carried-cons (own o) ss = (omega arith, omega arith)
  carried-cons (beat time) ss = (omega arith, omega arith)
  carried-cons (another ev) ss = (omega arith, omega arith)

  Others-cons :
      (uuid : ℕ) (s : Step V Op) (ss : List (Step V Op))
      → Others uuid (s ∷ ss)
      → Others uuid (s ∷ []) × Others uuid ss
  Others-cons uuid (own o) ss h = (tt, h)
  Others-cons uuid (beat time) ss h = (tt, h)
  Others-cons uuid (another ev) ss (h, hs) = ((h, tt), hs)

  run-Tracks :
      (st : ConnectionState V) (conn : Connection T) (ss : List (Step V Op)) (up down : ℕ)
      → Others conn.uuid ss
      → Tracks st conn up down
      → Tracks (run st conn ss).0 (run st conn ss).1 (up + uploaded ss) (down + downloaded ss)
        × ((run st conn ss).1.uuid ≡ conn.uuid)
  run-Tracks st conn [] up down others (v, u, d, counts, ups, downs) =
      ((v, u, d, counts, omega arith, omega arith), refl)
  run-Tracks st conn (s ∷ ss) up down others tracks =
      let (here, later) = Others-cons conn.uuid s ss others in
      let (st', conn') = step st conn s in
      let same = step_uuid st conn s in
      let (sum_up, sum_down) = carried-cons s ss in
      let one = step-Tracks st conn s up down here tracks in
      let ((v, u, d, counts, ups, downs), kept) =
        run-Tracks st' conn' ss (up + uploaded (s ∷ [])) (down + downloaded (s ∷ []))
          (subst (λ k. Others k ss) (sym same) later) one in
      ((v, u, d, counts, omega arith, omega arith), kept ∙ same)

  opened-Tracks :
      (st : ConnectionState V) (uuid stopper time : ℕ) (addr : Address) (ctx : V)
      → let (conn, events) = new c uuid stopper time addr ctx in
        Tracks (recv_events st events) conn 0 0 × (conn.uuid ≡ uuid)
  unfolding new recv_events input_event apply_events
  opened-Tracks st uuid stopper time addr ctx =
      let e = c.event_type addr ctx in
      let counts = opening-Counts uuid time st e addr ctx (t.opens addr ctx) in
      let (zero_up, zero_down) = t.default-pending in
      (
        (
          t.default-Valid,
          0,
          0,
          store_stopper-Counts uuid stopper (apply_event uuid time st e) 0 0 counts,
          rw zero_up refl,
          rw zero_down refl,
        ),
        refl,
      )

  dropped :
      (st : ConnectionState V) (time : ℕ) (conn : Connection T)
      → Map.lookup conn.uuid (recv_events st (drop c time conn)).connections ≡ none
  unfolding drop recv_events input_event apply_events
  dropped st time conn =
      let last = send c conn time (c.get_events conn.state).0 in
      let close : List (EventType V) = close_connection ∷ [] in
      rw (recv_events-append st last (send c conn time close))
        (closed_absent conn.uuid time (recv_events st last))

  -- A connection opens under a name; it carries traffic, its heartbeats come and other connections'
  -- events come in between, in any order. At its next report the manager counts for it exactly what
  -- it has carried both ways, up to the wrap of a `u64`; and once it is dropped it is gone.
  pub run_counted :
      (st : ConnectionState V) (uuid stopper opened closed : ℕ) (addr : Address) (ctx : V)
      (ss : List (Step V Op))
      → Others uuid ss
      → let (conn, events) = new c uuid stopper opened addr ctx in
        let (st', conn') = run (recv_events st events) conn ss in
        Counts uuid (recv_events st' (report c closed conn').1) (uploaded ss) (downloaded ss)
        × (Map.lookup uuid (recv_events st' (drop c closed conn')).connections ≡ none)
  run_counted st uuid stopper opened closed addr ctx ss others =
      let (conn, events) = new c uuid stopper opened addr ctx in
      let (st', conn') = run (recv_events st events) conn ss in
      let (start, named) = opened-Tracks st uuid stopper opened addr ctx in
      let (tracks, kept) =
        run-Tracks (recv_events st events) conn ss 0 0 (subst (λ k. Others k ss) (sym named) others)
          start in
      let (_, (info, there, iu, id)) =
        report-Tracks st' conn' closed (0 + uploaded ss) (0 + downloaded ss) tracks in
      let name = kept ∙ named in
      (
        (
          info,
          subst
              (λ k.
                Map.lookup k (recv_events st' (report c closed conn').1).connections ≡ some info)
              name there,
          iu ∙ omega arith,
          id ∙ omega arith,
        ),
        subst (λ k. Map.lookup k (recv_events st' (drop c closed conn')).connections ≡ none) name
            (dropped st' closed conn'),
      )
