-- ===== src/Master/Dispatch.antt =====
-- src/master/DhtperfMaster.cpp: the master as a state that the completions of the io_service change.
-- ResultProcessor is behind an interface: its state, and pushResult.

mod Waiting
pub mod Accounting
pub mod Reachable
pub mod Status
pub mod Greeting
pub mod Writes
use dhtperf.Prelude.{
  ℕ, zero, suc, ◌+◌, ◌-◌, ◌%◌, List, [], ◌∷◌, ◌++◌, Bytes, codes, Bool, true, false, ◌==◌, ltb,
  if◌then◌else◌, length, decimal, Outcome, done, exits, ◌>>=◌, ◌^◌,
}
use dhtperf.Protocol.{
  Message, MessageHeader, dht_type, profile, start, report, finish, u32_mod,
  report_and_finish_timeout,
}
use dhtperf.Master.Connection.{Connection}
use dhtperf.Master.Controllers.{Controller, send, set_waiting}
use dhtperf.Master.Start.{send_starts}
use dhtperf.Master.Workload.{Workload}
use dhtperf.Master.Workload.Load.{get_node_profile}

pub record ResultSink : Type 1 where
  pub Results : Type 0
  pub push_result : Bytes → Bytes → Results → Outcome Results

-- The members of DhtperfMaster. `accepting` says that an accept is pending, and `stopped` that
-- ioService_.stop() has been called.
pub record Master (R : Type 0) : Type 0 where
  pub workload : Workload
  pub dht_type_name : Bytes
  pub controllers : List Controller
  pub accepting : Bool
  pub start_messages_sent : Bool
  pub stopped : Bool
  pub finished_controllers : ℕ
  pub failed_controllers : ℕ
  pub results : R

abbrev pub new_connection : Connection
new_connection = record {
  header_buffer = record { opcode = 0; body_size = 0 };
  body_buffer = [];
  write_buffer = [];
}

-- What completes: an accept, a read of a whole message, a read that fails, or the timer.
pub data Completion : Type 0 where
  accepts : Bytes → Completion
  receives : ℕ → Message → Completion
  loses : ℕ → Completion
  times_out : Completion

-- operator<< on an int, given by its bit pattern.
unfoldable pub print_int : ℕ → Bytes
print_int w = if ltb w (2 ^ 31) then decimal w else b'-' ∷ decimal (u32_mod - w)

module _ (sink : ResultSink) where
  open sink use {Results, push_result}

  -- The constructor of DhtperfMaster, after loadWorkloadFile and the first asyncAccept.
  unfoldable pub init : Workload → Bytes → Results → Master Results
  init workload dht_type_name results = record {
    workload = workload;
    dht_type_name = dht_type_name;
    controllers = [];
    accepting = true;
    start_messages_sent = false;
    stopped = false;
    finished_controllers = 0;
    failed_controllers = 0;
    results = results;
  }

  unfoldable pub send_start_messages : Master Results → Outcome (Master Results)
  send_start_messages m = do
    controllers ← send_starts m.workload.duration m.controllers
    done (record m { controllers = controllers; start_messages_sent = true })

  -- sendDhtTypeMessage and sendProfileMessage go to the controller that has just been added.
  unfoldable pub greet : Master Results → ℕ → Bytes → Outcome Controller
  greet m number host = do
    c ←
        send (dht_type m.dht_type_name)
          (record { host = host; connection = new_connection; sent = []; waiting = false })
    p ← get_node_profile m.workload number
    send (profile p.join_profile p.leave_profile p.put_profile p.get_profile) c

  unfoldable pub handle_accept : Master Results → Bytes → Outcome (Master Results)
  unfolding greet send_start_messages
  handle_accept m host = do
    c ← greet m (length m.controllers) host
    let controllers = m.controllers ++ c ∷ []
    if ltb (length controllers) m.workload.nodes
        then done (record m { controllers = controllers; accepting = true })
        else send_start_messages (record m { controllers = controllers; accepting = false })

  unfoldable pub controller_finished : Master Results → Master Results
  controller_finished m =
      let finished = (m.finished_controllers + 1) % u32_mod in
      record m {
        finished_controllers = finished;
        stopped = if finished == m.workload.nodes then true else m.stopped;
      }

  unfoldable pub handle_report_message :
      Master Results → ℕ → Bytes → Bytes → Outcome (Master Results)
  handle_report_message m number type value = do
    results ← push_result type value m.results
    done (record m { results = results; controllers = set_waiting true number m.controllers })

  unfoldable pub handle_message : Master Results → ℕ → Message → Outcome (Master Results)
  unfolding handle_report_message controller_finished
  handle_message m number (report type value) = handle_report_message m number type value
  handle_message m number finish = done (controller_finished m)
  handle_message m number (dht_type type) = exits 1
  handle_message m number (profile join leave put get) = exits 1
  handle_message m number (start duration host entry_offset self_offset) = exits 1

  unfoldable pub handle_disconnection : Master Results → Master Results
  unfolding controller_finished
  handle_disconnection m =
      controller_finished (record m { failed_controllers = (m.failed_controllers + 1) % u32_mod })

  unfoldable pub handle_workload_timeout : Master Results → Master Results
  handle_workload_timeout m = record m { stopped = true }

  -- The handler of a completion. A read is over once its handler runs.
  unfoldable pub handle : Completion → Master Results → Outcome (Master Results)
  unfolding handle_accept handle_message handle_disconnection handle_workload_timeout
  handle (accepts host) m = handle_accept m host
  handle (receives number message) m =
      handle_message (record m { controllers = set_waiting false number m.controllers }) number
        message
  handle (loses number) m =
      done
        (handle_disconnection (record m { controllers = set_waiting false number m.controllers }))
  handle times_out m = done (handle_workload_timeout m)

  -- The three numbers of pushNodesStatus, computed in unsigned int, and their text.
  unfoldable pub nodes_status : Master Results → ℕ × ℕ × ℕ
  nodes_status m = (
    (m.finished_controllers + u32_mod - m.failed_controllers) % u32_mod,
    m.failed_controllers,
    (m.workload.nodes + u32_mod - m.finished_controllers) % u32_mod,
  )

  -- stream << finished << " " << failedControllers_ << " " << unfinished
  unfoldable pub nodes_status_value : Master Results → Bytes
  unfolding nodes_status print_int
  nodes_status_value m =
      let (finished, failed, unfinished) = nodes_status m in
      print_int finished ++ (b' ' ∷ (print_int failed ++ (b' ' ∷ print_int unfinished)))

  unfoldable pub push_nodes_status : Master Results → Outcome (Master Results)
  unfolding nodes_status_value
  push_nodes_status m = do
    results ← push_result (codes "NodesStatus") (nodes_status_value m) m.results
    done (record m { results = results })
