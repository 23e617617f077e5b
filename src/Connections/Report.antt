-- ===== src/Connections/Report.antt =====
-- `Connection` of connection_manager.rs: traffic is gathered, and reported at each heartbeat and
-- when the connection is dropped. An operation gives the connection and the events that it sends.
-- `events` is the drained map in the order in which it is kept.
use rabbit_digger_pro.Address.{Address}
use rabbit_digger_pro.Address.Same.{address_key}
use rabbit_digger_pro.Base.{ℕ, List, [], ◌∷◌, ◌++◌, none, some, Bool, ltb, if◌then◌else◌, map}
use rabbit_digger_pro.Base.Map
use rabbit_digger_pro.Connections.{
  EventType, new_tcp, new_udp, set_stopper, close_connection, write, read, send_to, recv_from,
  Event, wrapping_add,
}

pub record Tcp : Type 0 where
  pub read_size : ℕ
  pub write_size : ℕ

pub record Udp : Type 0 where
  pub recv_from_sizes : List (Address × ℕ)
  pub send_to_sizes : List (Address × ℕ)

-- `ConnType`.
pub record ConnType (V T : Type 0) : Type 0 where
  pub default : T
  pub event_type : Address → V → EventType V
  pub get_events : T → List (EventType V) × T

abbrev pub report_if : {V : Type 0} → ℕ → (ℕ → EventType V) → List (EventType V)
report_if size e = if ltb 0 size then e size ∷ [] else []

unfoldable pub tcp_get_events : {V : Type 0} → Tcp → List (EventType V) × Tcp
tcp_get_events t = (
  report_if t.read_size read ++ report_if t.write_size write,
  record { read_size = 0; write_size = 0 },
)

unfoldable pub udp_get_events : {V : Type 0} → Udp → List (EventType V) × Udp
udp_get_events u = (
  map (λ p. recv_from p.0 p.1) u.recv_from_sizes ++ map (λ p. send_to p.0 p.1) u.send_to_sizes,
  record { recv_from_sizes = []; send_to_sizes = [] },
)

abbrev pub tcp_type : {V : Type 0} → ConnType V Tcp
tcp_type = record {
  default = record { read_size = 0; write_size = 0 };
  event_type = new_tcp;
  get_events = tcp_get_events;
}

abbrev pub udp_type : {V : Type 0} → ConnType V Udp
udp_type = record {
  default = record { recv_from_sizes = []; send_to_sizes = [] };
  event_type = new_udp;
  get_events = udp_get_events;
}

-- What `read`, `write`, `recv_from` and `send_to` of a connection do to its state.
unfoldable pub tcp_read : ℕ → Tcp → Tcp
tcp_read size t = record t { read_size = wrapping_add t.read_size size }

unfoldable pub tcp_write : ℕ → Tcp → Tcp
tcp_write size t = record t { write_size = wrapping_add t.write_size size }

unfoldable pub add_size : Address → ℕ → List (Address × ℕ) → List (Address × ℕ)
add_size addr size m =
    Map.insert addr (elim (Map.lookup addr m) [ none ↦ size | some old ↦ wrapping_add old size ]) m

unfoldable pub udp_recv_from : Address → ℕ → Udp → Udp
unfolding add_size
udp_recv_from addr size u = record u { recv_from_sizes = add_size addr size u.recv_from_sizes }

unfoldable pub udp_send_to : Address → ℕ → Udp → Udp
unfolding add_size
udp_send_to addr size u = record u { send_to_sizes = add_size addr size u.send_to_sizes }

-- `Connection<T>`, less its heartbeat and its stop signal, which `poll` is told of.
pub record Connection (T : Type 0) : Type 0 where
  pub state : T
  pub uuid : ℕ
  pub stopper : ℕ

module _ {V T : Type 0} (c : ConnType V T) where
  -- `send`: nothing goes out where there is nothing to report.
  abbrev pub send : Connection T → ℕ → List (EventType V) → List (Event V)
  send conn time [] = []
  send conn time (e ∷ es) = record { uuid = conn.uuid; events = e ∷ es; time = time } ∷ []

  -- `uuid` and `stopper` are the name drawn and the channel made.
  unfoldable pub new : ℕ → ℕ → ℕ → Address → V → Connection T × List (Event V)
  new uuid stopper time addr ctx =
      let conn : Connection T = record { state = c.default; uuid = uuid; stopper = stopper } in
      (conn, send conn time (c.event_type addr ctx ∷ set_stopper stopper ∷ []))

  unfoldable pub report : ℕ → Connection T → Connection T × List (Event V)
  report time conn =
      let (events, state) = c.get_events conn.state in
      (record conn { state = state }, send conn time events)

  -- `poll`, with whether a heartbeat is due and whether the stop signal is there: the connection,
  -- the events, and whether it was aborted.
  unfoldable pub poll : Bool → Bool → ℕ → Connection T → Connection T × List (Event V) × Bool
  unfolding report
  poll heartbeat stopped time conn =
      let (conn', events) = (if heartbeat then report time conn else (conn, [])) in
      (conn', events, stopped)

  -- `drop`.
  unfoldable pub drop : ℕ → Connection T → List (Event V)
  drop time conn =
      send conn time (c.get_events conn.state).0 ++ send conn time (close_connection ∷ [])
