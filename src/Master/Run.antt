-- ===== src/Master/Run.antt =====
-- src/master/DhtperfMaster.cpp: loadWorkloadFile, run, closeConnections and processResults. The completions are what the
-- io_service will hand out, in their order.
pub mod Sessions
pub mod Gather
pub mod Reporting
pub mod Complete
use dhtperf.Prelude.{
  ℕ, List, [], ◌∷◌, Bytes, Bool, true, false, Option, none, some, Outcome, done, exits, ◌>>=◌,
  if◌then◌else◌,
}
use dhtperf.Prelude.Int.{ℤ}
use dhtperf.Common.{Boost}
use dhtperf.Metrics.Statistics.{Doubles}
use dhtperf.Metrics.Latency.{PosixTime}
use dhtperf.Master.Workload.{Workload}
use dhtperf.Master.Workload.Load.{load_config}
use dhtperf.Master.Dispatch.{ResultSink, Master, Completion, handle, push_nodes_status}
use dhtperf.Master.Results.{ResultProcessor, result_sink}
use dhtperf.Master.Results.Csv.{Directory, process}

-- loadWorkloadFile, for a file that is its bytes, or none where it cannot be opened.
unfoldable pub load_workload_file : Boost → Option Bytes → ℕ → Workload → Outcome Workload
load_workload_file boost content nodes w =
    load_config boost w content nodes >>= λ r. if r.0 then done r.1 else exits 1

module _ (sink : ResultSink) where
  open sink use {Results}

  -- ioService_.run_one() until it has been enough: none where the completions end before, and the master goes on waiting.
  unfoldable pub run_ones :
      (Master Results → Bool)
      → List Completion
      → Master Results
      → Outcome (Option (Master Results × List Completion))
  run_ones enough [] m = done (if enough m then some (m, []) else none)
  run_ones enough (c ∷ cs) m = elim (enough m) [
    | true ↦ done (some (m, c ∷ cs))
    | false ↦ handle sink c m >>= run_ones enough cs
  ]

  -- Of every shared_ptr the vector holds the only copy that is left, so that assert(unique()) holds.
  unfoldable pub close_connections : Master Results → Master Results
  close_connections m = record m { controllers = [] }

  -- run() up to processResults(). The timer, whose completion is times_out, is set between the two loops.
  unfoldable pub collect : List Completion → Master Results → Outcome (Option (Master Results))
  unfolding run_ones close_connections
  collect cs m = run_ones (λ m. m.start_messages_sent) cs m >>= λ r. elim r [
    | none ↦ done none
    | some (m, cs) ↦ run_ones (λ m. m.stopped) cs m >>= λ r. elim r [
      | none ↦ done none
      | some (m, cs) ↦ push_nodes_status sink (close_connections m) >>= λ m. done (some m)
    ]
  ]

module _ (d : Doubles) (clock : PosixTime) (boost : Boost) (junk : ℤ) (junk_double : d.Double)
    (fixed : d.Double → Bytes) (opens : Bytes → Bool) where
  unfoldable pub run :
      List Completion
      → Directory
      → Master (ResultProcessor d clock)
      → Outcome (Option (Master (ResultProcessor d clock) × Directory))
  unfolding collect
  run cs files m = collect (result_sink d clock boost junk junk_double) cs m >>= λ r. elim r [
    | none ↦ done none
    | some m ↦ process d clock fixed opens m.results files >>= λ files. done (some (m, files))
  ]
