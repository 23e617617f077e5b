-- ===== src/Connections/Stopping.antt =====
-- `stop_connection` and `stop_connections` of connection_manager.rs: a stop signal is sent at most
-- once. `alive` tells of a channel whether its receiver is still there.
use rabbit_digger_pro.Base.{
  ℕ, suc, ◌+◌, ◌≡◌, ◌≤◌, refl, ap, ◌∙◌, List, [], ◌∷◌, none, some, Bool, false, if◌then◌else◌,
  length, arith, Option-cases, inl, inr,
}
use rabbit_digger_pro.Base.Entries.{Unique, sum_by, amount, sum_by-insert}
use rabbit_digger_pro.Base.Map
use rabbit_digger_pro.Base.Map.{nat_key, lookup-insert_self}
use rabbit_digger_pro.Connections.{ConnectionInfo, ConnectionState, connection_count}

abbrev pub counted : Bool → ℕ
counted b = if b then 1 else 0

module _ {V : Type 0} (alive : ℕ → Bool) where
  -- `stop_sender.lock().take()`, and whether the signal was sent.
  unfoldable pub take_stopper : ConnectionInfo V → Bool × ConnectionInfo V
  take_stopper conn = elim conn.stop_sender [
    | none ↦ (false, conn)
    | some sender ↦ (alive sender, record conn { stop_sender = none })
  ]

  unfoldable pub stop_connection : ℕ → ConnectionState V → Bool × ConnectionState V
  unfolding take_stopper
  stop_connection uuid st = elim (Map.lookup uuid st.connections) [
    | none ↦ (false, st)
    | some conn ↦
        let (sent, conn') = take_stopper conn in
        (sent, record st { connections = Map.insert uuid conn' st.connections })
  ]

  -- The loop of `stop_connections`: the number stopped, and the entries.
  unfoldable pub stop_each : List (ℕ × ConnectionInfo V) → ℕ × List (ℕ × ConnectionInfo V)
  unfolding take_stopper
  stop_each [] = (0, [])
  stop_each ((uuid, conn) ∷ m) =
      let (stopped, rest) = stop_each m in
      let (sent, conn') = take_stopper conn in
      ((if sent then stopped + 1 else stopped), (uuid, conn') ∷ rest)

  unfoldable pub stop_connections : ConnectionState V → ℕ × ConnectionState V
  unfolding stop_each
  stop_connections st =
      let (stopped, connections) = stop_each st.connections in
      (stopped, record st { connections = connections })

  -- What one connection adds to the number stopped.
  abbrev stoppable : ConnectionInfo V → ℕ
  stoppable conn = counted (take_stopper conn).0

  take_stopper_again : (conn : ConnectionInfo V) → (take_stopper (take_stopper conn).1).0 ≡ false
  unfolding take_stopper
  take_stopper_again conn = ground arith

  stop_each-sum : (m : List (ℕ × ConnectionInfo V)) → (stop_each m).0 ≡ sum_by stoppable m
  unfolding stop_each
  stop_each-sum [] = refl
  stop_each-sum ((uuid, conn) ∷ m) = ground (arith, stop_each-sum m)

  stop_each_again :
      (m : List (ℕ × ConnectionInfo V))
      → (sum_by stoppable (stop_each m).1 ≡ 0) × (length (stop_each m).1 ≡ length m)
  unfolding stop_each
  stop_each_again [] = (refl, refl)
  stop_each_again ((uuid, conn) ∷ m) =
      let (none_left, same_length) = stop_each_again m in
      let unsent = take_stopper_again conn in (rw unsent (omega arith), ap suc same_length)

  sum_by-stoppable-le : (m : List (ℕ × ConnectionInfo V)) → sum_by stoppable m ≤ length m
  sum_by-stoppable-le [] = omega arith
  sum_by-stoppable-le ((uuid, conn) ∷ m) = ground (arith, sum_by-stoppable-le m)

  -- Stopping all connections stops each at most once: a second call finds none to stop. No
  -- connection is forgotten and no total changes.
  pub stop_connections_once :
      (st : ConnectionState V)
      → ((stop_connections (stop_connections st).1).0 ≡ 0)
        × (connection_count (stop_connections st).1 ≡ connection_count st)
        × ((stop_connections st).0 ≤ connection_count st)
        × ((stop_connections st).1.total_upload ≡ st.total_upload)
        × ((stop_connections st).1.total_download ≡ st.total_download)
  unfolding stop_connections connection_count
  stop_connections_once st =
      let (none_left, same_length) = stop_each_again st.connections in
      (
        stop_each-sum (stop_each st.connections).1 ∙ none_left,
        same_length,
        rw (stop_each-sum st.connections) (sum_by-stoppable-le st.connections),
        refl,
        refl,
      )

  -- Stopping one connection and then all stops as many as stopping all at once, and leaves none that
  -- could be stopped by name.
  pub stop_connection-stop_connections :
      (uuid : ℕ) (st : ConnectionState V)
      → Unique st.connections
      → ((stop_connections st).0
          ≡ counted (stop_connection uuid st).0 + (stop_connections (stop_connection uuid st).1).0)
        × ((stop_connection uuid (stop_connection uuid st).1).0 ≡ false)
  unfolding stop_connections stop_connection
  stop_connection-stop_connections uuid st u =
      let all = stop_each-sum st.connections in
      elim (Option-cases (Map.lookup uuid st.connections)) [
        | inl absent ↦ rw (absent, stop_connection) (omega arith, rw absent refl)
        | inr (conn, there) ↦
            let conn' = (take_stopper conn).1 in
            let replaced = Map.insert uuid conn' st.connections in
            let left = stop_each-sum replaced in
            let sums = sum_by-insert stoppable uuid conn' st.connections u in
            let had = ap (amount stoppable) there in
            let unsent = ap counted (take_stopper_again conn) in
            rw (there, stop_connection)
              (
                omega arith,
                rw (lookup-insert_self uuid conn' st.connections) (take_stopper_again conn),
              )
      ]
