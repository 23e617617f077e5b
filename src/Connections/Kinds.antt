-- ===== src/Connections/Kinds.antt =====
-- TCP and UDP connections as kinds of traffic.
use rabbit_digger_pro.Address.{Address}
use rabbit_digger_pro.Address.Same.{address_key}
use rabbit_digger_pro.Base.{
  ℕ, ◌+◌, ◌≡◌, refl, ap, List, [], ◌∷◌, ◌++◌, ltb, map, arith, Bool-cases, Option-cases, inl, inr,
}
use rabbit_digger_pro.Base.Entries.{Unique, sum_by, amount, insert-Unique, sum_by-remove}
use rabbit_digger_pro.Base.Map
use rabbit_digger_pro.Base.Map.{nat_key}
use rabbit_digger_pro.Connections.{
  EventType, write, read, send_to, recv_from, ConnectionState, count_download, count_upload,
  apply_event, apply_events,
}
use rabbit_digger_pro.Connections.Entry.{◌≋◌, Counts, count_download-Counts, count_upload-Counts}
use rabbit_digger_pro.Connections.Report.{
  Tcp, Udp, tcp_type, udp_type, report_if, tcp_get_events, udp_get_events, tcp_read, tcp_write,
  add_size, udp_recv_from, udp_send_to,
}
use rabbit_digger_pro.Connections.Traffic.{Tally}

pub data TcpOp : Type 0 where
  reads writes : ℕ → TcpOp

pub data UdpOp : Type 0 where
  receives sends : Address → ℕ → UdpOp

abbrev pub apply_tcp : TcpOp → Tcp → Tcp
apply_tcp (reads size) t = tcp_read size t
apply_tcp (writes size) t = tcp_write size t

abbrev pub tcp_up : TcpOp → ℕ
tcp_up (reads _) = 0
tcp_up (writes size) = size

abbrev pub tcp_down : TcpOp → ℕ
tcp_down (reads size) = size
tcp_down (writes _) = 0

abbrev pub apply_udp : UdpOp → Udp → Udp
apply_udp (receives addr size) u = udp_recv_from addr size u
apply_udp (sends addr size) u = udp_send_to addr size u

abbrev pub udp_up : UdpOp → ℕ
udp_up (receives _ _) = 0
udp_up (sends _ size) = size

abbrev pub udp_down : UdpOp → ℕ
udp_down (receives _ size) = size
udp_down (sends _ _) = 0

abbrev pub total : List (Address × ℕ) → ℕ
total m = sum_by (λ n. n) m

abbrev pub UdpValid : Udp → Type 0
UdpValid u = Unique u.recv_from_sizes × Unique u.send_to_sizes

add_size-Unique :
    (addr : Address) (size : ℕ) (m : List (Address × ℕ)) → Unique m → Unique (add_size addr size m)
unfolding add_size
add_size-Unique addr size m u = insert-Unique addr _ m u

total-add_size :
    (addr : Address) (size : ℕ) (m : List (Address × ℕ))
    → Unique m
    → total (add_size addr size m) ≋ total m + size
unfolding add_size Map.insert
total-add_size addr size m u =
    let out = sum_by-remove (λ n. n) addr m u in
    elim (Option-cases (Map.lookup addr m)) [
      | inl absent ↦ let was = ap (amount (λ n. n)) absent in rw absent (omega arith)
      | inr (old, there) ↦ let was = ap (amount (λ n. n)) there in rw there (omega arith)
    ]

-- `apply_up` and `apply_down` by cases on the operation.
pub tcp_applied :
    (o : TcpOp) (t : Tcp)
    → ((apply_tcp o t).write_size ≋ t.write_size + tcp_up o)
      × ((apply_tcp o t).read_size ≋ t.read_size + tcp_down o)
unfolding tcp_read tcp_write
tcp_applied (reads size) t = (omega arith, omega arith)
tcp_applied (writes size) t = (omega arith, omega arith)

pub udp_applied :
    (o : UdpOp) (u : Udp)
    → UdpValid u
    → (total (apply_udp o u).send_to_sizes ≋ total u.send_to_sizes + udp_up o)
      × (total (apply_udp o u).recv_from_sizes ≋ total u.recv_from_sizes + udp_down o)
      × UdpValid (apply_udp o u)
unfolding udp_recv_from udp_send_to
udp_applied (receives addr size) u (ur, us) =
    let more = total-add_size addr size u.recv_from_sizes ur in
    (omega arith, more, (add_size-Unique addr size u.recv_from_sizes ur, us))
udp_applied (sends addr size) u (ur, us) =
    let more = total-add_size addr size u.send_to_sizes us in
    (more, omega arith, (ur, add_size-Unique addr size u.send_to_sizes us))

module _ {V : Type 0} where
  apply_events-append :
      (uuid time : ℕ) (st : ConnectionState V) (a b : List (EventType V))
      → apply_events uuid time st (a ++ b) ≡ apply_events uuid time (apply_events uuid time st a) b
  unfolding apply_events
  apply_events-append uuid time st [] b = refl
  apply_events-append uuid time st (e ∷ a) b =
      apply_events-append uuid time (apply_event uuid time st e) a b

  read_reported :
      (uuid time size : ℕ) (st : ConnectionState V) (u d : ℕ)
      → Counts uuid st u d
      → Counts uuid (apply_events uuid time st (report_if size read)) u (d + size)
  unfolding apply_events apply_event
  read_reported uuid time size st u d (info, there, iu, id) = elim (Bool-cases (ltb 0 size)) [
    | inl some_ ↦ rw some_ (count_download-Counts uuid size st u d (info, there, iu, id))
    | inr nothing ↦
        let zero_size : size ≡ 0 = ground arith in rw nothing (info, there, iu, omega arith)
  ]

  write_reported :
      (uuid time size : ℕ) (st : ConnectionState V) (u d : ℕ)
      → Counts uuid st u d
      → Counts uuid (apply_events uuid time st (report_if size write)) (u + size) d
  unfolding apply_events apply_event
  write_reported uuid time size st u d (info, there, iu, id) = elim (Bool-cases (ltb 0 size)) [
    | inl some_ ↦ rw some_ (count_upload-Counts uuid size st u d (info, there, iu, id))
    | inr nothing ↦
        let zero_size : size ≡ 0 = ground arith in rw nothing (info, there, omega arith, id)
  ]

  pub tcp_events_counted :
      (uuid time : ℕ) (st : ConnectionState V) (t : Tcp) (u d : ℕ)
      → Counts uuid st u d
      → Counts uuid
          (apply_events uuid time st (tcp_get_events t).0)
          (u + t.write_size)
          (d + t.read_size)
  unfolding tcp_get_events
  tcp_events_counted uuid time st t u d counts =
      let reads_ : List (EventType V) = report_if t.read_size read in
      rw (apply_events-append uuid time st reads_ (report_if t.write_size write)) (
        write_reported uuid time t.write_size (apply_events uuid time st reads_) u _
          (read_reported uuid time t.read_size st u d counts))

  recv_events_counted :
      (uuid time : ℕ) (st : ConnectionState V) (m : List (Address × ℕ)) (u d : ℕ)
      → Counts uuid st u d
      → Counts uuid (apply_events uuid time st (map (λ p. recv_from p.0 p.1) m)) u (d + total m)
  unfolding apply_events apply_event
  recv_events_counted uuid time st [] u d (info, there, iu, id) = (info, there, iu, omega arith)
  recv_events_counted uuid time st ((addr, size) ∷ m) u d counts =
      let once = count_download-Counts uuid size st u d counts in
      let (info, there, iu, id) =
        recv_events_counted uuid time (count_download uuid size st) m u (d + size) once in
      (info, there, iu, omega arith)

  send_events_counted :
      (uuid time : ℕ) (st : ConnectionState V) (m : List (Address × ℕ)) (u d : ℕ)
      → Counts uuid st u d
      → Counts uuid (apply_events uuid time st (map (λ p. send_to p.0 p.1) m)) (u + total m) d
  unfolding apply_events apply_event
  send_events_counted uuid time st [] u d (info, there, iu, id) = (info, there, omega arith, id)
  send_events_counted uuid time st ((addr, size) ∷ m) u d counts =
      let once = count_upload-Counts uuid size st u d counts in
      let (info, there, iu, id) =
        send_events_counted uuid time (count_upload uuid size st) m (u + size) d once in
      (info, there, omega arith, id)

  pub udp_events_counted :
      (uuid time : ℕ) (st : ConnectionState V) (t : Udp) (u d : ℕ)
      → Counts uuid st u d
      → Counts uuid
          (apply_events uuid time st (udp_get_events t).0)
          (u + total t.send_to_sizes)
          (d + total t.recv_from_sizes)
  unfolding udp_get_events
  udp_events_counted uuid time st t u d counts =
      let received = map (λ p. recv_from p.0 p.1) t.recv_from_sizes in
      rw (apply_events-append uuid time st received (map (λ p. send_to p.0 p.1) t.send_to_sizes)) (
        send_events_counted uuid time (apply_events uuid time st received) t.send_to_sizes u _
          (recv_events_counted uuid time st t.recv_from_sizes u d counts))

  unfoldable pub tcp_tally : Tally {V = V} tcp_type TcpOp
  unfolding tcp_get_events
  tcp_tally = record {
    apply = apply_tcp;
    up = tcp_up;
    down = tcp_down;
    pending_up = λ t. t.write_size;
    pending_down = λ t. t.read_size;
    Valid = λ _. Unit {0};
    default-Valid = tt;
    default-pending = (refl, refl);
    apply-Valid = λ o t v. tt;
    apply_up = λ o t v. (tcp_applied o t).0;
    apply_down = λ o t v. (tcp_applied o t).1;
    opens = λ addr ctx. inl refl;
    events_counted = λ uuid time st t u d v counts. tcp_events_counted uuid time st t u d counts;
    emptied = λ t v. refl;
  }

  unfoldable pub udp_tally : Tally {V = V} udp_type UdpOp
  unfolding udp_get_events
  udp_tally = record {
    apply = apply_udp;
    up = udp_up;
    down = udp_down;
    pending_up = λ u. total u.send_to_sizes;
    pending_down = λ u. total u.recv_from_sizes;
    Valid = UdpValid;
    default-Valid = (tt, tt);
    default-pending = (refl, refl);
    apply-Valid = λ o u v. (udp_applied o u v).2;
    apply_up = λ o u v. (udp_applied o u v).0;
    apply_down = λ o u v. (udp_applied o u v).1;
    opens = λ addr ctx. inr refl;
    events_counted = λ uuid time st u a d v counts. udp_events_counted uuid time st u a d counts;
    emptied = λ u v. refl;
  }
