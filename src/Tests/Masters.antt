-- ===== src/Tests/Masters.antt =====
-- A master of two nodes, one of which has finished.
use dhtperf.Prelude.{
  ℕ, ◌+◌, [], ◌∷◌, List, ◌≡◌, refl, Bytes, codes, arith, inl, inr, Outcome, done, true, false, none,
  insert, lookup, str_eq, memcpy, Bool,
}
use dhtperf.Master.Controllers.{Controller, set_waiting, is_waiting, count_waiting, send}
use dhtperf.Protocol.{header_bytes, opcode}
use dhtperf.Prelude.Int.{pos}
use dhtperf.Metrics.NodesStatus.{set, no_status}
use dhtperf.Master.Dispatch.Status.{set-nodes_status_value}
use dhtperf.Protocol.Words.{le_bytes}
use dhtperf.Protocol.Encode.{
  to_bits, dht_type_bits, profile_bits, start_bits, header_of, zeros, profile_sizes,
}
use dhtperf.Master.Connection.{send_message}
use dhtperf.Master.Start.{send_starts, send_start_loop, entry_host, count_node}
use dhtperf.Master.Workload.Load.{get_node_profile}
use dhtperf.Master.Workload.{Workload}
use dhtperf.Master.Dispatch.{
  ResultSink, Master, accepts, loses, handle, init, new_connection, handle_disconnection,
  handle_accept, greet, send_start_messages, nodes_status_value,
}
use dhtperf.Master.Dispatch.Accounting.{Running, IsSound, handle-IsSound}
use dhtperf.Master.Dispatch.Reachable.{here, next}

-- Keeps the results as they come.
abbrev kept_results : ResultSink
kept_results = record {
  Results = List (Bytes × Bytes);
  push_result = λ type value results. done ((type, value) ∷ results);
}

abbrev workload_of : ℕ → Workload
workload_of nodes = record {
  nodes = nodes;
  duration = 60;
  profiles =
      (
        codes "p",
        record {
          name = codes "p";
          join_profile = codes "Now";
          leave_profile = codes "None";
          put_profile = codes "None";
          get_profile = codes "None";
        },
      )
      ∷ [];
  node_profiles = (0, codes "p") ∷ (1, codes "p") ∷ [];
  current_profile = none;
}

abbrev controller : Bytes → Bool → Controller
controller host waiting = record {
  host = host;
  connection = new_connection;
  sent = [];
  waiting = waiting;
}

abbrev half_finished : Master (List (Bytes × Bytes))
half_finished = record {
  workload = workload_of 2;
  dht_type_name = codes "dummy";
  controllers = controller (codes "10.0.0.1") false ∷ controller (codes "10.0.0.2") true ∷ [];
  accepting = false;
  start_messages_sent = true;
  stopped = false;
  finished_controllers = 1;
  failed_controllers = 0;
  results = [];
}

half_finished-Running : Running kept_results half_finished
unfolding count_waiting
half_finished-Running = record {
  closed = refl;
  sent = refl;
  all_here = refl;
  accounted = refl;
  failed_le = omega arith;
  stops = inl (omega arith);
  word = omega arith;
}

abbrev all_finished : Master (List (Bytes × Bytes))
all_finished =
    handle_disconnection kept_results
      (record half_finished { controllers = set_waiting false 1 half_finished.controllers })

handle-IsSound_example : IsSound kept_results all_finished
unfolding handle is_waiting
handle-IsSound_example =
    handle-IsSound kept_results (loses 1) half_finished all_finished (inr half_finished-Running)
      (refl, refl) refl

abbrev result_of : {A : Type 0} → A → Outcome A → A
result_of a (done b) = b
result_of a _ = a

abbrev first : Master (List (Bytes × Bytes))
first = init kept_results (workload_of 1) (codes "dummy") []

abbrev begun : Master (List (Bytes × Bytes))
begun = result_of first (handle kept_results (accepts (codes "10.0.0.1")) first)

accept_first : handle kept_results (accepts (codes "10.0.0.1")) first ≡ done begun
unfolding handle handle_accept greet send_start_messages send_starts send_start_loop entry_host
    count_node send send_message to_bits dht_type_bits profile_bits start_bits header_of zeros
    profile_sizes opcode header_bytes le_bytes memcpy init get_node_profile lookup insert str_eq
accept_first = refl

set-nodes_status_value_example :
    (finished : ℕ) × (failed : ℕ) × (unfinished : ℕ) × (set
        (nodes_status_value kept_results begun)
        no_status
      ≡ record { finished = pos finished; failed = pos failed; unfinished = pos unfinished })
    × (finished + failed + unfinished ≡ 1)
    × (failed ≡ begun.failed_controllers)
    × (unfinished ≡ count_waiting begun.controllers)
unfolding handle handle_accept greet send_start_messages send_starts send_start_loop entry_host
    count_node send send_message to_bits dht_type_bits profile_bits start_bits header_of zeros
    profile_sizes opcode header_bytes le_bytes memcpy init get_node_profile lookup insert str_eq
set-nodes_status_value_example =
    set-nodes_status_value kept_results (workload_of 1) (codes "dummy") [] begun no_status
      (omega arith) (omega arith) (next here (accepts (codes "10.0.0.1")) (refl, refl) accept_first)
      refl
