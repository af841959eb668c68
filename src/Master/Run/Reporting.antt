-- ===== src/Master/Run/Reporting.antt =====
-- src/master/DhtperfMaster.cpp: the second loop of run, where every controller reports what the node has measured.
use dhtperf.Prelude.{
  ℕ, ◌+◌, ◌<◌, ◌≡◌, refl, ap, ◌∙◌, List, [], ◌∷◌, ◌++◌, Bytes, codes, done, >>=-cong, length, arith,
  All, map, some, append-nil, length-map, false,
}
use dhtperf.Prelude.Int.{ℤ}
use dhtperf.Common.{Boost}
use dhtperf.Protocol.{report, finish, u32_mod}
use dhtperf.Metrics.Statistics.{Doubles}
use dhtperf.Metrics.Latency.{PosixTime, push_latency}
use dhtperf.Metrics.Latency.Text.{TextLaws}
use dhtperf.Metrics.SuccessRate.{push_node}
use dhtperf.Controller.Report.{final_messages}
use dhtperf.Controller.Operations.{NodeMetrics, get_results}
use dhtperf.Master.Dispatch.{ResultSink, Master, Completion, receives}
use dhtperf.Master.Results.{ResultProcessor, result_sink, push_result}
use dhtperf.Master.Results.Reports.{IsReportable, reread, push_reports, push_reports-final_messages}
use dhtperf.Master.Run.{run_ones}
use dhtperf.Master.Run.Sessions.{
  session, all_sessions, push_values, push_sessions, ended, run_ones-all_sessions,
}

module _ (d : Doubles) (clock : PosixTime) where
  -- The reports of a node, as the master gets them.
  abbrev pub pairs : NodeMetrics d clock → List (Bytes × Bytes)
  pairs n =
      let r = get_results d clock n in
      (codes "JoinLatency", r.join_latency)
      ∷ (codes "LeaveLatency", r.leave_latency)
      ∷ (codes "GetLatency", r.get_latency)
      ∷ (codes "PutLatency", r.put_latency)
      ∷ (codes "JoinSuccessRate", r.join_success_rate)
      ∷ (codes "GetSuccessRate", r.get_success_rate)
      ∷ []

  -- Every controller with what it has measured: its final messages complete in their order.
  unfoldable pub reporting : List (ℕ × NodeMetrics d clock) → List Completion
  reporting [] = []
  reporting ((i, n) ∷ tests) =
      map (receives i) (final_messages (get_results d clock n)) ++ reporting tests

  abbrev pub numbered_pairs : ℕ × NodeMetrics d clock → ℕ × List (Bytes × Bytes)
  numbered_pairs t = (t.0, pairs t.1)

  all_sessions-reporting :
      (tests : List (ℕ × NodeMetrics d clock))
      → all_sessions (map numbered_pairs tests) ≡ reporting tests
  unfolding all_sessions session reporting
  all_sessions-reporting [] = refl
  all_sessions-reporting ((i, n) ∷ tests) =
      ap (λ cs. map (receives i) (final_messages (get_results d clock n)) ++ cs)
        (all_sessions-reporting tests)

  module _ (boost : Boost) (junk : ℤ) (junk_double : d.Double) where
    -- What the reports of a node change in the processor.
    unfoldable pub add_node :
        NodeMetrics d clock → ResultProcessor d clock → ResultProcessor d clock
    add_node n r = record r {
      join_latency = push_latency d clock (reread d clock junk n.join_latency) r.join_latency;
      leave_latency = push_latency d clock (reread d clock junk n.leave_latency) r.leave_latency;
      put_latency = push_latency d clock (reread d clock junk n.put_latency) r.put_latency;
      get_latency = push_latency d clock (reread d clock junk n.get_latency) r.get_latency;
      join_success_rate = push_node d n.join_success_rate r.join_success_rate;
      get_success_rate = push_node d n.get_success_rate r.get_success_rate;
    }

    unfoldable pub add_nodes :
        List (ℕ × NodeMetrics d clock) → ResultProcessor d clock → ResultProcessor d clock
    unfolding add_node
    add_nodes [] r = r
    add_nodes ((i, n) ∷ tests) r = add_nodes tests (add_node n r)

    abbrev pub sink : ResultSink
    sink = result_sink d clock boost junk junk_double

    push_values-push_reports :
        (ps : List (Bytes × Bytes)) (r : ResultProcessor d clock)
        → push_values sink ps r
          ≡ push_reports d clock boost junk junk_double
              (map (λ p. report p.0 p.1) ps ++ finish ∷ [])
              r
    unfolding push_values push_reports
    push_values-push_reports [] r = refl
    push_values-push_reports ((type, value) ∷ ps) r =
        >>=-cong (push_result d clock boost junk junk_double type value r) _ _
          (push_values-push_reports ps)

    push_sessions-add_nodes :
        (laws : TextLaws boost clock) (tests : List (ℕ × NodeMetrics d clock))
        (r : ResultProcessor d clock)
        → All (λ t. IsReportable d clock t.1) tests
        → push_sessions sink (map numbered_pairs tests) r ≡ done (add_nodes tests r)
    unfolding push_sessions add_nodes
    push_sessions-add_nodes laws [] r fine = refl
    push_sessions-add_nodes laws ((i, n) ∷ tests) r (h, fine) =
        rw
          (
            push_values-push_reports (pairs n) r,
            push_reports-final_messages d clock boost junk junk_double laws n r h,
          )
          (push_sessions-add_nodes laws tests (add_node n r) fine)

    -- The second loop of run, where all the nodes report.
    pub run_ones-reporting :
        (laws : TextLaws boost clock) (first : ℕ × NodeMetrics d clock)
        (tests : List (ℕ × NodeMetrics d clock)) (m : Master (ResultProcessor d clock))
        → m.stopped ≡ false
        → m.finished_controllers ≡ 0
        → length tests + 1 ≡ m.workload.nodes
        → m.workload.nodes < u32_mod
        → All (λ t. IsReportable d clock t.1) (first ∷ tests)
        → run_ones sink (λ m. m.stopped) (reporting (first ∷ tests)) m
          ≡ done (
              some (
                ended sink
                    (map numbered_pairs (first ∷ tests))
                    m
                    (add_nodes (first ∷ tests) m.results),
                [],
              ))
    run_ones-reporting laws first tests m going none every small fine =
        rw
          (
            ← all_sessions-reporting (first ∷ tests),
            ← append-nil (all_sessions (map numbered_pairs (first ∷ tests))),
          )
          (run_ones-all_sessions sink first.0 (pairs first.1) (map numbered_pairs tests) [] m going
              (omega (arith, length-map numbered_pairs tests)) small
            ∙ rw (push_sessions-add_nodes laws (first ∷ tests) m.results fine) refl)
