-- ===== src/Controller/Loop/Steps.antt =====
-- The events that are due on a connected node, in the order of start.
use dhtperf.Prelude.{
  ℕ, ◌<◌, ◌≡◌, refl, List, [], ◌∷◌, ◌++◌, map, length, done, arith, true, false, if◌then◌else◌,
}
use dhtperf.Prelude.Int.{ℤ, pos, ◌≤ℤ◌}
use dhtperf.Protocol.{u32_mod}
use dhtperf.Events.{PutEvent, GetEvent, LeaveEvent}
use dhtperf.Metrics.Statistics.{Doubles}
use dhtperf.Metrics.Latency.{PosixTime}
use dhtperf.Metrics.SuccessRate.{hit, miss}
use dhtperf.Controller.Operations.{
  Dht, Node, push_elapsed, process_leave_event, process_put_event, process_get_event,
}
use dhtperf.Controller.Operations.Joins.{push_elapsed-count}
use dhtperf.Controller.Loop.{process_connected}
use dhtperf.Controller.Loop.Connected.{IsTotal}
use dhtperf.Controller.Loop.Trace.{
  put_due, get_due, leave_due, puts_in, gets_in, leaves_in, operated, performed, left_at, Grown,
  Ran, Ran-followed, process_all-Ran,
}

module _ (d : Doubles) (clock : PosixTime) (dht : Dht clock) (total : IsTotal dht) where
  open dht use {World}

  put_step :
      (e : PutEvent) (es : List PutEvent) (n : Node d clock) (w : World)
      → n.connected ≡ true
      → (n' : Node d clock) × (process_put_event d clock dht e n w
          ≡ done (n', performed d clock dht total (put_due e) w))
        × Grown d clock dht n (put_due e ∷ []) n'
        × (n'.connected ≡ true)
  unfolding process_put_event push_elapsed operated puts_in gets_in leaves_in
  put_step e es n w on =
      let t0 = (dht.universal_time w).0 in
      let (v, ran) = total.puts e (dht.universal_time w).1 in
      let t1 = (dht.universal_time v).0 in
      let u = (dht.universal_time v).1 in
      let counted = push_elapsed-count d clock dht t0 t1 n.metrics.put_latency u in
      (
        record n {
          metrics = record (n.metrics) {
            put_latency = (push_elapsed d clock dht t0 t1 n.metrics.put_latency u).0;
          };
        },
        rw (on, ran) refl,
        record {
          counts = record {
            put_count = omega (arith, counted);
            get_count = omega arith;
            leave_count = omega arith;
          };
          stays = rw on (ground arith);
        },
        on,
      )

  get_step :
      (e : GetEvent) (es : List GetEvent) (n : Node d clock) (w : World)
      → n.connected ≡ true
      → (n' : Node d clock) × (process_get_event d clock dht e n w
          ≡ done (n', performed d clock dht total (get_due e) w))
        × Grown d clock dht n (get_due e ∷ []) n'
        × (n'.connected ≡ true)
  unfolding process_get_event push_elapsed operated puts_in gets_in leaves_in
  get_step e es n w on =
      let t0 = (dht.universal_time w).0 in
      let (b, v, ran) = total.gets e (dht.universal_time w).1 in
      let t1 = (dht.universal_time v).0 in
      let u = (dht.universal_time v).1 in
      let counted = push_elapsed-count d clock dht t0 t1 n.metrics.get_latency u in
      (
        record n {
          metrics = record (n.metrics) {
            get_latency = (push_elapsed d clock dht t0 t1 n.metrics.get_latency u).0;
            get_success_rate =
                if b then hit n.metrics.get_success_rate else miss n.metrics.get_success_rate;
          };
        },
        rw (on, ran) refl,
        record {
          counts = record {
            put_count = omega arith;
            get_count = omega (arith, counted);
            leave_count = omega arith;
          };
          stays = rw on (ground arith);
        },
        on,
      )

  -- The node that at most one leave finds connected.
  abbrev CanLeave : List LeaveEvent → Node d clock → Type 0
  CanLeave es n = 0 < length es → (length es < 2) × (n.connected ≡ true)

  leave_step :
      (e : LeaveEvent) (es : List LeaveEvent) (n : Node d clock) (w : World)
      → CanLeave (e ∷ es) n
      → (n' : Node d clock) × (process_leave_event d clock dht n w
          ≡ done (n', performed d clock dht total (leave_due e) w))
        × Grown d clock dht n (leave_due e ∷ []) n'
        × CanLeave es n'
  unfolding process_leave_event push_elapsed operated puts_in gets_in leaves_in
  leave_step e es n w can =
      let (few, on) = can (omega arith) in
      let t0 = (dht.universal_time w).0 in
      let (v, ran) = total.leaves (dht.universal_time w).1 in
      let t1 = (dht.universal_time v).0 in
      let u = (dht.universal_time v).1 in
      let counted = push_elapsed-count d clock dht t0 t1 n.metrics.leave_latency u in
      (
        record {
          connected = false;
          metrics = record (n.metrics) {
            leave_latency = (push_elapsed d clock dht t0 t1 n.metrics.leave_latency u).0;
          };
        },
        rw (on, ran) refl,
        record {
          counts = record {
            put_count = omega arith;
            get_count = omega arith;
            leave_count = omega (arith, counted);
          };
          stays = rw on (ground arith);
        },
        λ some_left. absurd (omega (arith, few, some_left)),
      )

  -- Where the operations of the DHT always return, the timer never has more than the duration left, which fits 32 bits, and at most one
  -- leave is due on a connected node: the due puts run first, then the gets and then the leaves, each in its order, one
  -- operation of the DHT for each between its readings of the clock, and with a look at the timer behind each. Behind the first event
  -- after which not even a second is left, start returns; where there is none, all of them have run and the loop goes on. The node has one more
  -- latency of its kind for each event that has run, counted modulo 2^64, and is connected unless a leave has run.
  pub process_connected-Ran :
      (duration : ℕ) (puts : List PutEvent) (gets : List GetEvent) (leaves : List LeaveEvent)
      (times : ℕ × ℤ) (n : Node d clock) (w : World)
      → duration < u32_mod
      → ((v : World) → left_at d clock dht v ≤ℤ pos duration)
      → n.connected ≡ true
      → length leaves < 2
      → Ran d clock dht total
          (map put_due puts ++ (map get_due gets ++ map leave_due leaves))
          n
          w
          (process_connected d clock dht duration puts gets leaves times n w)
  unfolding process_connected
  process_connected-Ran duration puts gets leaves times n w fits bounded on few =
      let (first, on1) =
        process_all-Ran d clock dht total put_due (process_put_event d clock dht)
          (λ es n. n.connected ≡ true) duration fits bounded put_step puts times n w on in
      Ran-followed d clock dht total _ _ n w _ _ first (λ e1.
        let (second, on2) =
          process_all-Ran d clock dht total get_due (process_get_event d clock dht)
            (λ es n. n.connected ≡ true) duration fits bounded get_step gets first.times first.after
            first.end (on1 e1) in
        Ran-followed d clock dht total _ _ first.after first.end _ _ second (λ e2.
          (process_all-Ran d clock dht total leave_due
            (λ event n w. process_leave_event d clock dht n w) CanLeave duration fits bounded
            leave_step leaves second.times second.after second.end (λ some_left. (few, on2 e2))).0))
