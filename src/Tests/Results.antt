-- ===== src/Tests/Results.antt =====
-- The results of a node, in the processor of the master.
use dhtperf.Prelude.{
  [], ◌∷◌, ◌≡◌, refl, codes, arith, done, Bytes, Bool, true, false, some, get_elem?,
}
use dhtperf.Prelude.Int.{ℤ, pos}
use dhtperf.Metrics.Statistics.{long_int, new_statistics, push, push_all}
use dhtperf.Metrics.Latency.{push_latency}
use dhtperf.Metrics.SuccessRate.{NodeSuccessRate, push_node}
use dhtperf.Controller.Report.{final_messages}
use dhtperf.Master.Results.{ResultProcessor, new_processor}
use dhtperf.Master.Results.Reports.{IsReportable, reread, push_reports, push_reports-final_messages}
use dhtperf.Controller.Operations.{NodeMetrics, get_results}
use dhtperf.Master.Results.Cdf.{cdf_rows, cdf_rows-push_all, count_below}
use dhtperf.Master.Results.Csv.{Directory, process}
use dhtperf.Master.Results.Csv.Appends.{Extends, process-Extends}
use dhtperf.Tests.Numbers.{whole_numbers}
use dhtperf.Tests.Latencies.{spaces, two_times, texts, joins, measured}

abbrev rate : NodeSuccessRate
rate = record { hits = pos 3; misses = pos 1 }

abbrev pub node : NodeMetrics whole_numbers two_times
node = record {
  join_latency = measured;
  leave_latency = joins;
  put_latency = measured;
  get_latency = joins;
  join_success_rate = rate;
  get_success_rate = rate;
}

pub node-IsReportable : IsReportable whole_numbers two_times node
node-IsReportable = record {
  join_order = (((refl, refl), tt), (tt, tt));
  leave_order = (((refl, refl), tt), (tt, tt));
  put_order = (((refl, refl), tt), (tt, tt));
  get_order = (((refl, refl), tt), (tt, tt));
  join_hits = omega arith;
  join_misses = omega arith;
  get_hits = omega arith;
  get_misses = omega arith;
}

abbrev fresh : ResultProcessor whole_numbers two_times
fresh = new_processor whole_numbers two_times spaces (pos 4) (pos 5) (codes "DummyDht") false

push_reports-final_messages_example :
    push_reports whole_numbers two_times spaces
      (pos 4)
      (pos 5)
      (final_messages (get_results whole_numbers two_times node))
      fresh
    ≡ done (record fresh {
      join_latency =
          push_latency whole_numbers two_times
            (reread whole_numbers two_times (pos 4) measured)
            fresh.join_latency;
      leave_latency =
          push_latency whole_numbers two_times
            (reread whole_numbers two_times (pos 4) joins)
            fresh.leave_latency;
      put_latency =
          push_latency whole_numbers two_times
            (reread whole_numbers two_times (pos 4) measured)
            fresh.put_latency;
      get_latency =
          push_latency whole_numbers two_times
            (reread whole_numbers two_times (pos 4) joins)
            fresh.get_latency;
      join_success_rate = push_node whole_numbers rate fresh.join_success_rate;
      get_success_rate = push_node whole_numbers rate fresh.get_success_rate;
    })
push_reports-final_messages_example =
    push_reports-final_messages whole_numbers two_times spaces (pos 4) (pos 5) texts node fresh
      node-IsReportable

cdf_rows-push_all_example :
    get_elem?
      (cdf_rows whole_numbers
        (pos 2)
        30
        0
        (pos 0)
        (pos 10000)
        (push_all whole_numbers (long_int whole_numbers) (pos 14000 ∷ pos 250 ∷ []) (
          new_statistics whole_numbers (long_int whole_numbers) (pos 7) (pos 10000))).frequency_map)
      0
    ≡ some (pos 10, whole_numbers.div (pos 1) (pos 2))
unfolding count_below push_all new_statistics push
cdf_rows-push_all_example =
    cdf_rows-push_all whole_numbers (pos 14000 ∷ pos 250 ∷ []) (pos 7) 10000 0 (omega arith)
      (omega arith) (tt, (tt, tt)) (omega arith) (omega arith)

abbrev opens_all : Bytes → Bool
opens_all name = true

abbrev printed : ℤ → Bytes
printed x = codes "0.000000"

process-Extends_example :
    (g : Directory) × (process whole_numbers two_times printed opens_all fresh
        (λ name. codes "old\n")
      ≡ done g)
    × Extends (λ name. codes "old\n") g
process-Extends_example =
    process-Extends whole_numbers two_times printed opens_all fresh (λ name. codes "old\n")
      (λ name. refl)
