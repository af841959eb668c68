-- ===== src/Master/Dispatch/Status.antt =====
-- The report that pushNodesStatus writes as a text, and src/metrics/NodesStatus.cpp reads.
use dhtperf.Prelude.{ℕ, ◌+◌, ◌^◌, ◌<◌, ◌≡◌, Bytes, true, arith, refl}
use dhtperf.Prelude.Int.{pos}
use dhtperf.Metrics.Streams.{print_ℤ}
use dhtperf.Metrics.NodesStatus.{NodesStatus, set, set-status_text}
use dhtperf.Master.Controllers.{count_waiting}
use dhtperf.Master.Workload.{Workload}
use dhtperf.Master.Dispatch.{ResultSink, Master, init, nodes_status, nodes_status_value, print_int}
use dhtperf.Master.Dispatch.Reachable.{Reach, nodes_status_total}

pub print_int-print_ℤ : (w : ℕ) → w < 2 ^ 31 → print_int w ≡ print_ℤ (pos w)
unfolding print_int print_ℤ
print_int-print_ℤ w h = ground arith

-- The parts of a sum are no larger than the sum.
part_fits : (a b c n : ℕ) → a + b + c ≡ n → n < 2 ^ 31 → (a < 2 ^ 31) × (b < 2 ^ 31) × (c < 2 ^ 31)
part_fits a b c n e h = (omega arith, omega arith, omega arith)

module _ (sink : ResultSink) where
  open sink use {Results}

  -- Whatever completes in whatever order, in a test of at least one and less than 2 ^ 31 nodes:
  -- once the start messages have been sent, NodesStatus.set reads from the text that
  -- pushNodesStatus writes three numbers that add up to the number of nodes; the second is that of
  -- the failed controllers, and the third that of the controllers still waited for.
  pub set-nodes_status_value :
      (w : Workload) (name : Bytes) (results : Results) (m : Master Results) (before : NodesStatus)
      → 0 < w.nodes
      → w.nodes < 2 ^ 31
      → Reach sink (init sink w name results) m
      → m.start_messages_sent ≡ true
      → (finished : ℕ) × (failed : ℕ) × (unfinished : ℕ) × (set (nodes_status_value sink m) before
          ≡ record { finished = pos finished; failed = pos failed; unfinished = pos unfinished })
        × (finished + failed + unfinished ≡ w.nodes)
        × (failed ≡ m.failed_controllers)
        × (unfinished ≡ count_waiting m.controllers)
  unfolding nodes_status_value nodes_status
  set-nodes_status_value w name results m before some_nodes small reach sent =
      let (finished, failed, unfinished) = nodes_status sink m in
      let (total, waiting) =
        nodes_status_total sink w name results m some_nodes (omega arith) reach sent in
      let (f1, f2, f3) = part_fits finished failed unfinished w.nodes total small in
      (
        finished,
        failed,
        unfinished,
        rw
            (
              print_int-print_ℤ finished f1,
              print_int-print_ℤ failed f2,
              print_int-print_ℤ unfinished f3,
            )
            (set-status_text (pos finished) (pos failed) (pos unfinished) before f1 f2 f3),
        total,
        refl,
        waiting,
      )
