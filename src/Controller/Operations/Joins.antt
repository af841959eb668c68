-- ===== src/Controller/Operations/Joins.antt =====
-- The loop of processJoinEvent against a DHT that lets the node in at last.
use dhtperf.Prelude.{
  ℕ, zero, suc, ◌+◌, ◌%◌, ◌<◌, ◌≡◌, refl, sym, ap, ◌∙◌, true, false, some, done, arith,
}
use dhtperf.Prelude.Int.{ℤ, pos, negsuc, ◌+ℤ◌}
use dhtperf.Metrics.Statistics.{Doubles, count_mod, push}
use dhtperf.Metrics.Latency.{PosixTime, NodeLatency, latency_count, push_duration, push_with_time}
use dhtperf.Metrics.SuccessRate.{NodeSuccessRate, hit, miss}
use dhtperf.Controller.Operations.{
  Dht, NodeMetrics, Node, push_elapsed, join_loop, process_join_event,
}

+ℤ-zero : (a : ℤ) → a +ℤ pos 0 ≡ a
unfolding ◌+ℤ◌
+ℤ-zero (pos n) = ap pos (omega arith)
+ℤ-zero (negsuc n) = ground arith

+ℤ-assoc_pos : (a : ℤ) (k : ℕ) → (a +ℤ pos 1) +ℤ pos k ≡ a +ℤ pos (suc k)
unfolding ◌+ℤ◌
+ℤ-assoc_pos (pos n) k = ap pos (omega arith)
+ℤ-assoc_pos (negsuc zero) k = ground arith
+ℤ-assoc_pos (negsuc (suc n)) k = ground arith

module _ (d : Doubles) (clock : PosixTime) (dht : Dht clock) where
  open dht use {World, do_join, universal_time, sleep}

  -- The world behind an attempt, once its end has been measured and pushed.
  abbrev settled : World → World
  settled v = (universal_time (universal_time v).1).1

  -- The DHT lets the node in after k attempts that fail.
  pub data Joins : ℕ → World → World → Type 0 where
    joined : {w v : World} → do_join (universal_time w).1 ≡ done (true, v) → Joins 0 w (settled v)
    retried :
        {k : ℕ} {w v u : World}
        → do_join (universal_time w).1 ≡ done (false, v)
        → Joins k (sleep 1 (settled v)) u
        → Joins (suc k) w u

  pub push_elapsed-count :
      (t0 t1 : clock.Ptime) (n : NodeLatency d clock) (w : World)
      → latency_count d clock (push_elapsed d clock dht t0 t1 n w).0
        ≡ (latency_count d clock n + 1) % count_mod
  unfolding push_elapsed push_duration push_with_time latency_count push
  push_elapsed-count t0 t1 n w = refl

  -- What k failures and a success have made of the metrics.
  abbrev pub HasJoined : ℕ → NodeMetrics d clock → NodeMetrics d clock → Type 0
  HasJoined k m m' =
      (m'.join_success_rate ≡ record {
        hits = m.join_success_rate.hits +ℤ pos 1;
        misses = m.join_success_rate.misses +ℤ pos k;
      })
      × (latency_count d clock m'.join_latency
          ≡ (latency_count d clock m.join_latency + suc k) % count_mod)

  -- The metrics behind an attempt from w that left the DHT in v.
  abbrev attempted :
      World
      → World
      → (NodeSuccessRate → NodeSuccessRate)
      → NodeMetrics d clock
      → NodeMetrics d clock
  attempted w v count_it m = record m {
    join_latency =
        (push_elapsed d clock dht (universal_time w).0 (universal_time v).0 m.join_latency
          (universal_time v).1).0;
    join_success_rate = count_it m.join_success_rate;
  }

  join_loop-Joins :
      (k fuel : ℕ) (w u : World) (m : NodeMetrics d clock)
      → Joins k w u
      → k < fuel
      → (m' : NodeMetrics d clock) × (join_loop d clock dht fuel m w ≡ done (some (m', u)))
        × HasJoined k m m'
  unfolding join_loop hit miss
  join_loop-Joins k zero w u m j lt = absurd (omega arith)
  join_loop-Joins zero (suc fuel) w _ m (joined {v = v} e) lt = (
    attempted w v hit m,
    rw e (unfold push_elapsed in refl),
    (
      ap (λ z. record { hits = m.join_success_rate.hits +ℤ pos 1; misses = z })
          (sym (+ℤ-zero m.join_success_rate.misses)),
      push_elapsed-count (universal_time w).0 (universal_time v).0 m.join_latency
          (universal_time v).1,
    ),
  )
  join_loop-Joins (suc k) (suc fuel) w u m (retried {v = v} e j) lt =
      let (m', run, (rate, count)) =
        join_loop-Joins k fuel _ u (attempted w v miss m) j (omega arith) in
      let pushed =
        push_elapsed-count (universal_time w).0 (universal_time v).0 m.join_latency
          (universal_time v).1 in
      (
        m',
        rw e (unfold push_elapsed in run),
        (
          rate
              ∙ ap (λ z. record { hits = m.join_success_rate.hits +ℤ pos 1; misses = z })
                  (+ℤ-assoc_pos m.join_success_rate.misses k),
          omega (arith, count, pushed),
        ),
      )

  -- Where the DHT lets a disconnected node in after k attempts that fail, processJoinEvent ends within k + 1 attempts, with
  -- the node connected: one hit and k misses more, and k + 1 latencies of joins more, counted modulo 2^64.
  pub process_join_event-Joins :
      (k fuel : ℕ) (w u : World) (n : Node d clock)
      → Joins k w u
      → k < fuel
      → n.connected ≡ false
      → (m : NodeMetrics d clock) × (process_join_event d clock dht fuel n w
          ≡ done (some (record { connected = true; metrics = m }, u)))
        × HasJoined k n.metrics m
  unfolding process_join_event
  process_join_event-Joins k fuel w u n j lt out =
      let (m, run, counted) = join_loop-Joins k fuel w u n.metrics j lt in
      (m, rw (out, run) refl, counted)
