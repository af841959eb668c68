-- ===== src/Controller/Loop/Connected.antt =====
-- What the operations of a DHT do to a node that is connected.
use dhtperf.Prelude.{ℕ, ◌+◌, ◌%◌, ◌≡◌, refl, arith, Bool, true, false, done}
use dhtperf.Events.{PutEvent, GetEvent}
use dhtperf.Metrics.Statistics.{Doubles, count_mod}
use dhtperf.Metrics.Latency.{PosixTime, latency_count}
use dhtperf.Controller.Operations.{Dht, Node, push_elapsed, process_leave_event}
use dhtperf.Controller.Operations.Joins.{push_elapsed-count}

-- The operations of a DHT that always return.
pub record IsTotal {clock : PosixTime} (dht : Dht clock) : Type 0 where
  pub leaves : (w : dht.World) → (v : dht.World) × (dht.do_leave w ≡ done v)
  pub puts : (e : PutEvent) (w : dht.World) → (v : dht.World) × (dht.do_put e w ≡ done v)
  pub gets :
      (e : GetEvent) (w : dht.World) → (b : Bool) × (v : dht.World) × (dht.do_get e w ≡ done (b, v))

module _ (d : Doubles) (clock : PosixTime) (dht : Dht clock) where
  open dht use {World}

  abbrev pub puts_of : Node d clock → ℕ
  puts_of n = latency_count d clock n.metrics.put_latency

  abbrev pub gets_of : Node d clock → ℕ
  gets_of n = latency_count d clock n.metrics.get_latency

  abbrev pub leaves_of : Node d clock → ℕ
  leaves_of n = latency_count d clock n.metrics.leave_latency

  -- The node n has come from m by some puts, gets and leaves, counted modulo 2^64.
  pub record Has (m n : Node d clock) (puts gets leaves : ℕ) : Type 0 where
    pub put_count : puts_of n % count_mod ≡ (puts_of m + puts) % count_mod
    pub get_count : gets_of n % count_mod ≡ (gets_of m + gets) % count_mod
    pub leave_count : leaves_of n % count_mod ≡ (leaves_of m + leaves) % count_mod

  pub Has-refl : (m : Node d clock) → Has m m 0 0 0
  Has-refl m = record {
    put_count = omega arith;
    get_count = omega arith;
    leave_count = omega arith;
  }

  module _ (total : IsTotal dht) (m : Node d clock) where
    pub leave_step :
        (p g : ℕ) (n : Node d clock) (w : World)
        → (n.connected ≡ true) × Has m n p g 0
        → (n' : Node d clock) × (v : World) × (process_leave_event d clock dht n w ≡ done (n', v))
          × ((n'.connected ≡ false) × Has m n' p g 1)
    unfolding process_leave_event push_elapsed
    leave_step p g n w (on, has) =
        let t0 = (dht.universal_time w).0 in
        let (v, ran) = total.leaves (dht.universal_time w).1 in
        let t1 = (dht.universal_time v).0 in
        let u = (dht.universal_time v).1 in
        let pushed = push_elapsed d clock dht t0 t1 n.metrics.leave_latency u in
        let counted = push_elapsed-count d clock dht t0 t1 n.metrics.leave_latency u in
        (
          record { connected = false; metrics = record (n.metrics) { leave_latency = pushed.0 } },
          pushed.1,
          rw (on, ran) refl,
          (
            refl,
            record {
              put_count = has.put_count;
              get_count = has.get_count;
              leave_count = omega (arith, counted, has.leave_count);
            },
          ),
        )
