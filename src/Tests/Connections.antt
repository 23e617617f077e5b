-- ===== src/Tests/Connections.antt =====
-- Connections of rabbit-digger/src/rabbit_digger/connection_manager.rs on concrete inputs.
use rabbit_digger_pro.Address.{Address, domain}
use rabbit_digger_pro.Base.{ℕ, ◌≤◌, ◌≡◌, refl, List, [], ◌∷◌, none, some, Bool, arith, ltb}
use rabbit_digger_pro.Base.Map
use rabbit_digger_pro.Base.Map.{nat_key}
use rabbit_digger_pro.Connections.{
  new_tcp, read, write, close_connection, Event, ConnectionState, new_state, new_info, tcp,
  recv_events, connection_count,
}
use rabbit_digger_pro.Connections.Accounting.{Balanced, left_by_all, recv_events_accounted}
use rabbit_digger_pro.Connections.Entry.{Counts}
use rabbit_digger_pro.Connections.Kinds.{UdpOp, receives, sends, udp_tally}
use rabbit_digger_pro.Connections.Report.{udp_type, new, report, drop}
use rabbit_digger_pro.Connections.Stopping.{stop_connections, stop_connections_once}
use rabbit_digger_pro.Connections.Traffic.{
  Step, own, beat, another, run, uploaded, downloaded, run_counted,
}

abbrev site : Address
site = domain (b'a' ∷ []) 53

abbrev log : List (Event ℕ)
log =
    record { uuid = 1; events = new_tcp site 0 ∷ read 5 ∷ []; time = 1000 }
    ∷ record { uuid = 1; events = write 2 ∷ close_connection ∷ []; time = 2000 }
    ∷ []

after_log : (recv_events new_state log).total_download ≡ 5
unfolding recv_events Map.lookup Map.insert
after_log = refl

recv_events_accounted_example : Balanced (recv_events new_state log) (left_by_all new_state log)
recv_events_accounted_example = recv_events_accounted log

abbrev context : ℕ
context = 0

abbrev steps : List (Step ℕ UdpOp)
steps =
    own (sends site 7)
    ∷ another (record { uuid = 2; events = new_tcp site 0 ∷ []; time = 3 })
    ∷ beat 500
    ∷ own (sends site 4)
    ∷ own (receives site 9)
    ∷ []

run_counted_example :
    let (conn, events) = new udp_type 1 100 0 site context in
    let (st', conn') = run udp_type udp_tally (recv_events new_state events) conn steps in
    Counts 1
      (recv_events st' (report udp_type 900 conn').1)
      (uploaded udp_type udp_tally steps)
      (downloaded udp_type udp_tally steps)
    × (Map.lookup 1 (recv_events st' (drop udp_type 900 conn')).connections ≡ none)
run_counted_example =
    run_counted udp_type udp_tally new_state 1 100 0 900 site context steps
      (λ e. absurd (omega arith), tt)

carried : (uploaded udp_type udp_tally steps ≡ 11) × (downloaded udp_type udp_tally steps ≡ 9)
unfolding udp_tally
carried = (refl, refl)

abbrev two_open : ConnectionState ℕ
two_open = record {
  connections =
      (1, record (new_info tcp site 0 0) { stop_sender = some 10 })
      ∷ (2, record (new_info tcp site 0 0) { stop_sender = some 20 })
      ∷ [];
  total_upload = 0;
  total_download = 0;
}

abbrev below_20 : ℕ → Bool
below_20 c = ltb c 20

stopped_one : (stop_connections below_20 two_open).0 ≡ 1
unfolding stop_connections
stopped_one = refl

stop_connections_once_example :
    ((stop_connections below_20 (stop_connections below_20 two_open).1).0 ≡ 0)
    × (connection_count (stop_connections below_20 two_open).1 ≡ connection_count two_open)
    × ((stop_connections below_20 two_open).0 ≤ connection_count two_open)
    × ((stop_connections below_20 two_open).1.total_upload ≡ two_open.total_upload)
    × ((stop_connections below_20 two_open).1.total_download ≡ two_open.total_download)
stop_connections_once_example = stop_connections_once below_20 two_open
