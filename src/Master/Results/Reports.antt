-- ===== src/Master/Results/Reports.antt =====
-- What the results that a node reports come to in the processor of the master.
use dhtperf.Prelude.{◌^◌, ◌≡◌, refl, List, [], ◌∷◌, str_eq, Outcome, done, exits, ◌>>=◌}
use dhtperf.Prelude.Int.{ℤ, pos}
use dhtperf.Common.{Boost}
use dhtperf.Protocol.{Message, dht_type, profile, start, report, finish}
use dhtperf.Metrics.Streams.{Fits}
use dhtperf.Metrics.Statistics.{Doubles, long_int, new_statistics, push_all}
use dhtperf.Metrics.Latency.{PosixTime, NodeLatency, push_latency}
use dhtperf.Metrics.Latency.Text.{TextLaws, Ordered, micros, from_string-print_measurements}
use dhtperf.Metrics.SuccessRate.{push_node, from_string-to_string}
use dhtperf.Controller.Report.{final_messages}
use dhtperf.Controller.Operations.{NodeMetrics, get_results}
use dhtperf.Master.Results.{ResultProcessor, push_result, push_latency_result, push_success_rate}

module _ (d : Doubles) (clock : PosixTime) where
  -- Measurements in the order of their times, and counters of int64_t.
  pub record IsReportable (n : NodeMetrics d clock) : Type 0 where
    pub join_order : Ordered d clock n.join_latency.measurements
    pub leave_order : Ordered d clock n.leave_latency.measurements
    pub put_order : Ordered d clock n.put_latency.measurements
    pub get_order : Ordered d clock n.get_latency.measurements
    pub join_hits : Fits (2 ^ 63) n.join_success_rate.hits
    pub join_misses : Fits (2 ^ 63) n.join_success_rate.misses
    pub get_hits : Fits (2 ^ 63) n.get_success_rate.hits
    pub get_misses : Fits (2 ^ 63) n.get_success_rate.misses

  -- The same measurements, pushed in the order of their times.
  abbrev pub reread : ℤ → NodeLatency d clock → NodeLatency d clock
  reread junk n = record {
    measurements = n.measurements;
    statistics =
        push_all d (long_int d) (micros d clock n.measurements)
          (new_statistics d (long_int d) junk (pos 0));
  }

  module _ (boost : Boost) (junk : ℤ) (junk_double : d.Double) where
    -- pushResult for the reports of a list of messages, as the master calls it for one after the other.
    unfoldable pub push_reports :
        List Message → ResultProcessor d clock → Outcome (ResultProcessor d clock)
    push_reports [] r = done r
    push_reports (report type value ∷ ms) r =
        push_result d clock boost junk junk_double type value r >>= push_reports ms
    push_reports (finish ∷ ms) r = push_reports ms r
    push_reports (dht_type type ∷ ms) r = exits 1
    push_reports (profile j l p g ∷ ms) r = exits 1
    push_reports (start t h e s ∷ ms) r = exits 1

    -- Where boost::split and the texts of boost::posix_time are as documented: when the master processes the final messages of
    -- a node, it accepts them all and pushes, for each of join, leave, put and get, the node's measurements on the latencies of
    -- that operation, and the node's hits and misses on the success rates of join and get; nothing else changes.
    pub push_reports-final_messages :
        (laws : TextLaws boost clock) (n : NodeMetrics d clock) (r : ResultProcessor d clock)
        → IsReportable n
        → push_reports (final_messages (get_results d clock n)) r
          ≡ done (record r {
            join_latency = push_latency d clock (reread junk n.join_latency) r.join_latency;
            leave_latency = push_latency d clock (reread junk n.leave_latency) r.leave_latency;
            put_latency = push_latency d clock (reread junk n.put_latency) r.put_latency;
            get_latency = push_latency d clock (reread junk n.get_latency) r.get_latency;
            join_success_rate = push_node d n.join_success_rate r.join_success_rate;
            get_success_rate = push_node d n.get_success_rate r.get_success_rate;
          })
    unfolding push_reports get_results push_result push_latency_result push_success_rate str_eq
    push_reports-final_messages laws n r fine =
        rw
          (
            from_string-print_measurements d clock boost laws junk n.join_latency fine.join_order,
            from_string-print_measurements d clock boost laws junk n.leave_latency fine.leave_order,
            from_string-print_measurements d clock boost laws junk n.get_latency fine.get_order,
            from_string-print_measurements d clock boost laws junk n.put_latency fine.put_order,
            from_string-to_string n.join_success_rate fine.join_hits fine.join_misses,
            from_string-to_string n.get_success_rate fine.get_hits fine.get_misses,
          )
          refl
