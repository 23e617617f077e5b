-- ===== src/Connections.antt =====
-- rabbit-digger/src/rabbit_digger/connection_manager.rs and event.rs: what the manager knows of the
-- open connections, and what a connection reports to it. A `Uuid` is a number, a `SystemTime` is
-- the milliseconds since the epoch, a `oneshot::Sender` is the name of its channel, and the context
-- of a connection is a JSON value of a type `V`. Counters are `u64`s that wrap, as atomics do and as
-- `+=` does in a release build.
pub mod Accounting
pub mod Entry
pub mod Kinds
pub mod Report
pub mod Stopping
pub mod Traffic
use rabbit_digger_pro.Address.{Address}
use rabbit_digger_pro.Base.{
  ℕ, zero, suc, ◌+◌, ◌/◌, ◌%◌, ◌^◌, List, [], ◌∷◌, ◌++◌, Option, none, some, Bool, true, false, ltb,
  if◌then◌else◌, length, is_empty,
}
use rabbit_digger_pro.Base.Map
use rabbit_digger_pro.Base.Map.{nat_key}

pub data Protocol : Type 0 where
  tcp udp : Protocol

pub data EventType (V : Type 0) : Type 0 where
  new_tcp new_udp : Address → V → EventType V
  set_stopper : ℕ → EventType V
  close_connection : EventType V
  write read : ℕ → EventType V
  send_to recv_from : Address → ℕ → EventType V

pub record Event (V : Type 0) : Type 0 where
  pub uuid : ℕ
  pub events : List (EventType V)
  pub time : ℕ

pub record ConnectionInfo (V : Type 0) : Type 0 where
  pub protocol : Protocol
  pub addr : Address
  pub start_time : ℕ
  pub ctx : V
  pub upload : ℕ
  pub download : ℕ
  pub stop_sender : Option ℕ

pub record ConnectionState (V : Type 0) : Type 0 where
  pub connections : List (ℕ × ConnectionInfo V)
  pub total_upload : ℕ
  pub total_download : ℕ

-- `u64` addition, wrapping.
abbrev pub wrapping_add : ℕ → ℕ → ℕ
wrapping_add a b = (a + b) % 2 ^ 64

abbrev pub ts : ℕ → ℕ
ts time = time / 1000

module _ {V : Type 0} where
  abbrev pub new_state : ConnectionState V
  new_state = record { connections = []; total_upload = 0; total_download = 0 }

  abbrev pub new_info : Protocol → Address → V → ℕ → ConnectionInfo V
  new_info protocol addr ctx time = record {
    protocol = protocol;
    addr = addr;
    start_time = ts time;
    ctx = ctx;
    upload = 0;
    download = 0;
    stop_sender = none;
  }

  unfoldable pub count_download : ℕ → ℕ → ConnectionState V → ConnectionState V
  count_download uuid size st = elim (Map.lookup uuid st.connections) [
    | none ↦ st
    | some conn ↦ record st {
      connections =
          Map.insert uuid (record conn { download = wrapping_add conn.download size })
            st.connections;
      total_download = wrapping_add st.total_download size;
    }
  ]

  unfoldable pub count_upload : ℕ → ℕ → ConnectionState V → ConnectionState V
  count_upload uuid size st = elim (Map.lookup uuid st.connections) [
    | none ↦ st
    | some conn ↦ record st {
      connections =
          Map.insert uuid (record conn { upload = wrapping_add conn.upload size }) st.connections;
      total_upload = wrapping_add st.total_upload size;
    }
  ]

  unfoldable pub store_stopper : ℕ → ℕ → ConnectionState V → ConnectionState V
  store_stopper uuid sender st = elim (Map.lookup uuid st.connections) [
    | none ↦ st
    | some conn ↦ record st {
      connections = Map.insert uuid (record conn { stop_sender = some sender }) st.connections;
    }
  ]

  -- The body of the loop in `input_event`.
  unfoldable pub apply_event : ℕ → ℕ → ConnectionState V → EventType V → ConnectionState V
  unfolding count_download count_upload store_stopper
  apply_event uuid time st (new_tcp addr ctx) = record st {
    connections = Map.insert uuid (new_info tcp addr ctx time) st.connections;
  }
  apply_event uuid time st (new_udp addr ctx) = record st {
    connections = Map.insert uuid (new_info udp addr ctx time) st.connections;
  }
  apply_event uuid time st (set_stopper sender) = store_stopper uuid sender st
  apply_event uuid time st (read download) = count_download uuid download st
  apply_event uuid time st (write upload) = count_upload uuid upload st
  apply_event uuid time st (recv_from _ download) = count_download uuid download st
  apply_event uuid time st (send_to _ upload) = count_upload uuid upload st
  apply_event uuid time st close_connection = record st {
    connections = Map.remove uuid st.connections;
  }

  unfoldable pub apply_events : ℕ → ℕ → ConnectionState V → List (EventType V) → ConnectionState V
  unfolding apply_event
  apply_events uuid time st [] = st
  apply_events uuid time st (e ∷ es) = apply_events uuid time (apply_event uuid time st e) es

  unfoldable pub input_event : ConnectionState V → Event V → ConnectionState V
  unfolding apply_events
  input_event st ev = apply_events ev.uuid ev.time st ev.events

  -- `recv_event`: the events in the order of the channel.
  unfoldable pub recv_events : ConnectionState V → List (Event V) → ConnectionState V
  unfolding input_event
  recv_events st [] = st
  recv_events st (ev ∷ evs) = recv_events (input_event st ev) evs

  unfoldable pub connection_count : ConnectionState V → ℕ
  connection_count st = length st.connections
