-- ===== src/Controller/Operations.antt =====
-- src/controller/DhtNode.cpp: the four operations with their metrics, and getResults. What the derived class does
-- with its DHT, and the clocks, are behind an interface.
pub mod Joins
pub mod Dummy
use dhtperf.Prelude.{
  ℕ, zero, suc, Option, none, some, Bool, true, false, if◌then◌else◌, Outcome, done, exits, ◌>>=◌,
}
use dhtperf.Prelude.Int.{ℤ}
use dhtperf.Events.{PutEvent, GetEvent}
use dhtperf.Metrics.Statistics.{Doubles}
use dhtperf.Metrics.Latency.{PosixTime, NodeLatency, push_duration, to_string}
use dhtperf.Metrics.SuccessRate.{NodeSuccessRate, hit, miss, to_string as rate_to_string}
use dhtperf.Controller.Report.{NodeResults}

-- The virtual methods of DhtNode. World is all that they and the clocks change; `elapsed` is t1 - t0, and `sleep` waits
-- for a number of seconds.
pub record Dht (clock : PosixTime) : Type 1 where
  pub World : Type 0
  pub do_join : World → Outcome (Bool × World)
  pub do_leave : World → Outcome World
  pub do_put : PutEvent → World → Outcome World
  pub do_get : GetEvent → World → Outcome (Bool × World)
  pub universal_time : World → clock.Ptime × World
  pub elapsed : clock.Ptime → clock.Ptime → clock.Duration
  pub sleep : ℕ → World → World
  -- The timer of start: expires_from_now with a number of seconds, and expires_from_now().total_seconds().
  pub start_timer : ℕ → World → World
  pub remaining : World → ℤ × World

module _ (d : Doubles) (clock : PosixTime) where
  -- The metrics of DhtNode.
  pub record NodeMetrics : Type 0 where
    pub join_latency : NodeLatency d clock
    pub leave_latency : NodeLatency d clock
    pub put_latency : NodeLatency d clock
    pub get_latency : NodeLatency d clock
    pub join_success_rate : NodeSuccessRate
    pub get_success_rate : NodeSuccessRate

  -- DhtNode::getResults
  unfoldable pub get_results : NodeMetrics → NodeResults
  get_results n = record {
    join_latency = to_string d clock n.join_latency;
    leave_latency = to_string d clock n.leave_latency;
    put_latency = to_string d clock n.put_latency;
    get_latency = to_string d clock n.get_latency;
    join_success_rate = rate_to_string n.join_success_rate;
    get_success_rate = rate_to_string n.get_success_rate;
  }

  -- connected_, and the metrics.
  pub record Node : Type 0 where
    pub connected : Bool
    pub metrics : NodeMetrics

  module _ (dht : Dht clock) where
    open dht use {World, do_join, do_leave, do_put, do_get, universal_time, elapsed, sleep}

    -- td(t1 - t0); latency.push(td)
    unfoldable pub push_elapsed :
        clock.Ptime → clock.Ptime → NodeLatency d clock → World → NodeLatency d clock × World
    unfolding push_duration
    push_elapsed t0 t1 latency w =
        let (now, w) = universal_time w in (push_duration d clock now (elapsed t0 t1) latency, w)

    -- The loop of processJoinEvent, which tries again until a join succeeds. It is none where `fuel` attempts have
    -- failed.
    unfoldable pub join_loop : ℕ → NodeMetrics → World → Outcome (Option (NodeMetrics × World))
    unfolding push_elapsed hit miss
    join_loop zero m w = done none
    join_loop (suc fuel) m w =
        let (t0, w) = universal_time w in
        do_join w >>= λ joined.
        let (t1, w) = universal_time joined.1 in
        let (latency, w) = push_elapsed t0 t1 m.join_latency w in
        elim joined.0 [
          | true ↦ done (
              some (
                record m { join_latency = latency; join_success_rate = hit m.join_success_rate },
                w,
              ))
          | false ↦
              join_loop fuel
                (record m { join_latency = latency; join_success_rate = miss m.join_success_rate })
                (sleep 1 w)
        ]

    unfoldable pub process_join_event : ℕ → Node → World → Outcome (Option (Node × World))
    unfolding join_loop
    process_join_event fuel n w = if n.connected then exits 1 else (do
      joined ← join_loop fuel n.metrics w
      elim joined [
        | none ↦ done none
        | some (m, w) ↦ done (some (record { connected = true; metrics = m }, w))
      ])

    unfoldable pub process_leave_event : Node → World → Outcome (Node × World)
    unfolding push_elapsed
    process_leave_event n w =
        if n.connected
        then (do
          let (t0, w) = universal_time w
          w ← do_leave w
          let (t1, w) = universal_time w
          let (latency, w) = push_elapsed t0 t1 n.metrics.leave_latency w
          done (
            record { connected = false; metrics = record (n.metrics) { leave_latency = latency } },
            w,
          ))
        else exits 1

    unfoldable pub process_put_event : PutEvent → Node → World → Outcome (Node × World)
    unfolding push_elapsed
    process_put_event event n w =
        if n.connected
        then (do
          let (t0, w) = universal_time w
          w ← do_put event w
          let (t1, w) = universal_time w
          let (latency, w) = push_elapsed t0 t1 n.metrics.put_latency w
          done (record n { metrics = record (n.metrics) { put_latency = latency } }, w))
        else done (n, w)

    unfoldable pub process_get_event : GetEvent → Node → World → Outcome (Node × World)
    unfolding push_elapsed hit miss
    process_get_event event n w =
        if n.connected
        then (do
          let (t0, w) = universal_time w
          (success, w) ← do_get event w
          let rate =
              if success then hit n.metrics.get_success_rate else miss n.metrics.get_success_rate
          let (t1, w) = universal_time w
          let (latency, w) = push_elapsed t0 t1 n.metrics.get_latency w
          done (
            record n {
              metrics = record (n.metrics) { get_latency = latency; get_success_rate = rate };
            },
            w,
          ))
        else done (n, w)
