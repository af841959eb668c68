-- ===== src/Master/Results.antt =====
-- src/master/ResultProcessor.cpp: the constructor and pushResult. The uninitialised members of new statistics are the
-- parameters `junk`.
pub mod Reports
pub mod Cdf
pub mod Csv
use dhtperf.Prelude.{
  ℕ, ◌*◌, Bytes, codes, Bool, true, false, str_eq, if◌then◌else◌, Outcome, done, exits, ◌>>=◌,
}
use dhtperf.Prelude.Int.{ℤ, pos}
use dhtperf.Common.{DhtOperation, Boost, join, leave, put, get}
use dhtperf.Metrics.Statistics.{Doubles}
use dhtperf.Metrics.Latency.{
  PosixTime, GeneralLatency, new_general_latency, push_latency, from_string,
}
use dhtperf.Metrics.SuccessRate.{
  GeneralSuccessRate, NodeSuccessRate, new_general, push_node, from_string as rate_from_string,
}
use dhtperf.Metrics.NodesStatus.{NodesStatus, no_status, set}
use dhtperf.Master.Dispatch.{ResultSink}

module _ (d : Doubles) (clock : PosixTime) where
  pub record ResultProcessor : Type 0 where
    pub dht_type : Bytes
    pub join_latency : GeneralLatency d clock
    pub leave_latency : GeneralLatency d clock
    pub put_latency : GeneralLatency d clock
    pub get_latency : GeneralLatency d clock
    pub join_success_rate : GeneralSuccessRate d
    pub get_success_rate : GeneralSuccessRate d
    pub nodes_status : NodesStatus

  module _ (boost : Boost) (junk : ℤ) (junk_double : d.Double) where
    -- The intervals of the frequency maps, in microseconds.
    unfoldable pub new_processor : Bytes → Bool → ResultProcessor
    unfolding new_general_latency new_general
    new_processor dht_type low_latency = record {
      dht_type = dht_type;
      join_latency =
          new_general_latency d clock junk_double junk
            (pos (if low_latency then 250 * 1000 else 500 * 1000));
      leave_latency =
          new_general_latency d clock junk_double junk
            (pos (if low_latency then 250 * 1000 else 500 * 1000));
      put_latency =
          new_general_latency d clock junk_double junk
            (pos (if low_latency then 10 * 1000 else 50 * 1000));
      get_latency =
          new_general_latency d clock junk_double junk
            (pos (if low_latency then 10 * 1000 else 50 * 1000));
      join_success_rate = new_general d junk_double;
      get_success_rate = new_general d junk_double;
      nodes_status = no_status;
    }

    unfoldable pub push_latency_result :
        DhtOperation → Bytes → ResultProcessor → Outcome ResultProcessor
    push_latency_result join value r = do
      node ← from_string d clock boost junk value
      done (record r { join_latency = push_latency d clock node r.join_latency })
    push_latency_result leave value r = do
      node ← from_string d clock boost junk value
      done (record r { leave_latency = push_latency d clock node r.leave_latency })
    push_latency_result put value r = do
      node ← from_string d clock boost junk value
      done (record r { put_latency = push_latency d clock node r.put_latency })
    push_latency_result get value r = do
      node ← from_string d clock boost junk value
      done (record r { get_latency = push_latency d clock node r.get_latency })

    unfoldable pub push_success_rate :
        DhtOperation → Bytes → ResultProcessor → Outcome ResultProcessor
    push_success_rate join value r =
        done (record r {
          join_success_rate = push_node d (rate_from_string value) r.join_success_rate;
        })
    push_success_rate get value r =
        done
          (record r { get_success_rate = push_node d (rate_from_string value) r.get_success_rate })
    push_success_rate leave value r = exits 1
    push_success_rate put value r = exits 1

    unfoldable pub push_nodes_status : Bytes → ResultProcessor → ResultProcessor
    push_nodes_status value r = record r { nodes_status = set value r.nodes_status }

    unfoldable pub push_result : Bytes → Bytes → ResultProcessor → Outcome ResultProcessor
    unfolding push_latency_result push_success_rate push_nodes_status
    push_result type value r =
        if str_eq type (codes "JoinLatency")
        then push_latency_result join value r
        else if str_eq type (codes "LeaveLatency")
        then push_latency_result leave value r
        else if str_eq type (codes "PutLatency")
        then push_latency_result put value r
        else if str_eq type (codes "GetLatency")
        then push_latency_result get value r
        else if str_eq type (codes "JoinSuccessRate")
        then push_success_rate join value r
        else if str_eq type (codes "GetSuccessRate")
        then push_success_rate get value r
        else if str_eq type (codes "NodesStatus")
        then done (push_nodes_status value r)
        else exits 1

    -- The processor as the master calls it.
    abbrev pub result_sink : ResultSink
    result_sink = record { Results = ResultProcessor; push_result = push_result }
