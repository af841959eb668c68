-- ===== src/Master/Run/Complete.antt =====
-- src/master/DhtperfMaster.cpp: run, in a test in which every controller reports.
use dhtperf.Prelude.{
  ℕ, ◌+◌, ◌-◌, ◌%◌, ◌<◌, ◌≡◌, ◌^◌, refl, sym, ap, ◌∙◌, List, ◌∷◌, ◌++◌, Bytes, done, ◌>>=◌, length,
  arith, All, map, some, str_eq, Bool,
}
use dhtperf.Prelude.Int.{ℤ, pos}
use dhtperf.Common.{Boost}
use dhtperf.Protocol.{dht_type, u32_mod}
use dhtperf.Protocol.RoundTrip.{IsSendable}
use dhtperf.Metrics.Statistics.{Doubles}
use dhtperf.Metrics.Latency.{PosixTime}
use dhtperf.Metrics.Latency.Text.{TextLaws}
use dhtperf.Metrics.NodesStatus.{set-status_text}
use dhtperf.Controller.Operations.{NodeMetrics}
use dhtperf.Master.Workload.{Workload}
use dhtperf.Master.Dispatch.{
  Master, accepts, init, push_nodes_status, nodes_status_value, nodes_status,
}
use dhtperf.Master.Dispatch.Status.{print_int-print_ℤ}
use dhtperf.Master.Results.{
  ResultProcessor, result_sink, push_result, push_nodes_status as push_status,
}
use dhtperf.Master.Results.Csv.{Directory, process}
use dhtperf.Master.Results.Reports.{IsReportable}
use dhtperf.Master.Run.{collect, close_connections, run}
use dhtperf.Master.Run.Sessions.{ended}
use dhtperf.Master.Run.Gather.{IsAddress, CanGreet, run_ones-accepts}
use dhtperf.Master.Run.Reporting.{reporting, numbered_pairs, add_nodes, run_ones-reporting}

module _ (d : Doubles) (clock : PosixTime) (boost : Boost) (junk : ℤ) (junk_double : d.Double) where
  -- The report on the nodes when all have finished.
  push_nodes_status-all_finished :
      (n : ℕ) (m : Master (ResultProcessor d clock))
      → m.workload.nodes ≡ n
      → m.finished_controllers ≡ n
      → m.failed_controllers ≡ 0
      → n < 2 ^ 31
      → push_nodes_status (result_sink d clock boost junk junk_double) m
        ≡ done (record m {
          results = record m.results {
            nodes_status = record { finished = pos n; failed = pos 0; unfinished = pos 0 };
          };
        })
  unfolding push_nodes_status nodes_status_value nodes_status push_result push_status str_eq
  push_nodes_status-all_finished n m nodes all none small =
      let first : (n + u32_mod - 0) % u32_mod ≡ n = omega arith in
      let last : (n + u32_mod - n) % u32_mod ≡ 0 = omega arith in
      rw
        (
          nodes,
          all,
          none,
          first,
          last,
          print_int-print_ℤ n small,
          print_int-print_ℤ 0 (omega arith),
          set-status_text (pos n) (pos 0) (pos 0) m.results.nodes_status small (omega arith)
              (omega arith),
        )
        refl

  -- What the master has collected when all the nodes of a test have finished.
  abbrev pub collected :
      Workload → List (ℕ × NodeMetrics d clock) → ResultProcessor d clock → ResultProcessor d clock
  collected w tests r = record (add_nodes d clock boost junk junk_double tests r) {
    nodes_status = record { finished = pos w.nodes; failed = pos 0; unfinished = pos 0 };
  }

  -- A test in which everything goes well. The workload is of less than 2^31 nodes, with a profile that fits a message for each
  -- of them; as many controllers connect as it has nodes, and then one controller after the other reports what it has
  -- measured and finishes; and the texts of boost are as documented. Then run comes to its end: it accepts all controllers,
  -- sends them the start messages, takes in every report, stops with the last one, and processes a result that holds
  -- the measurements of all the nodes and a status of the nodes in which all have finished and none has failed.
  pub run-reporting :
      (laws : TextLaws boost clock) (fixed : d.Double → Bytes) (opens : Bytes → Bool)
      (files : Directory) (w : Workload) (name host : Bytes) (hosts : List Bytes)
      (first : ℕ × NodeMetrics d clock) (tests : List (ℕ × NodeMetrics d clock))
      (r : ResultProcessor d clock)
      → length hosts + 1 ≡ w.nodes
      → length tests + 1 ≡ w.nodes
      → w.nodes < 2 ^ 31
      → All IsAddress (host ∷ hosts)
      → IsSendable (dht_type name)
      → ((n : ℕ) → n < w.nodes → CanGreet w n)
      → All (λ t. IsReportable d clock t.1) (first ∷ tests)
      → (m : Master (ResultProcessor d clock)) × (m.results ≡ collected w (first ∷ tests) r)
        × (run d clock boost junk junk_double fixed opens
              (map accepts (host ∷ hosts) ++ reporting d clock (first ∷ tests))
              files
              (init (result_sink d clock boost junk junk_double) w name r)
            ≡ (process d clock fixed opens m.results files >>= λ f. done (some (m, f))))
  unfolding run collect init close_connections
  run-reporting laws fixed opens files w name host hosts first tests r connect every small addresses
        typed can fine =
      let (v, gathered, (_, same, kept, going, none_finished, none_failed)) =
        run_ones-accepts (result_sink d clock boost junk junk_double) host hosts
          (reporting d clock (first ∷ tests))
          (init (result_sink d clock boost junk junk_double) w name r) refl (omega arith) tt
          addresses typed can in
      let nodes : v.workload.nodes ≡ w.nodes = ap (λ (x : Workload). x.nodes) same in
      let served =
        run_ones-reporting d clock boost junk junk_double laws first tests v going none_finished
          (every ∙ sym nodes) (omega (arith, nodes, small)) fine in
      let end : Master (ResultProcessor d clock) =
        close_connections (result_sink d clock boost junk junk_double) (
          ended (result_sink d clock boost junk junk_double)
            (map (numbered_pairs d clock) (first ∷ tests)) v
            (add_nodes d clock boost junk junk_double (first ∷ tests) v.results)) in
      let told = push_nodes_status-all_finished w.nodes end nodes nodes none_failed small in
      (
        record end { results = collected w (first ∷ tests) v.results },
        ap (collected w (first ∷ tests)) kept,
        rw (gathered, served, told) refl,
      )
