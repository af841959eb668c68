-- ===== src/Tests/Reports.antt =====
-- The results of a node that has joined once.
use dhtperf.Prelude.{◌≡◌, codes, done, arith, []}
use dhtperf.Master.Dispatch.{new_connection}
use dhtperf.Controller.Report.{
  NodeResults, Output, finish_run, receive, final_messages, finish_run-receive,
}

abbrev joined_once : NodeResults
joined_once = record {
  join_latency = codes "20111126T164524.000001 00:00:00.250000";
  leave_latency = [];
  put_latency = [];
  get_latency = [];
  join_success_rate = codes "1 0";
  get_success_rate = codes "0 0";
}

finish_run-receive_example :
    (o : Output) × (finish_run joined_once (record { written = []; good_writes = 9 }) ≡ done o)
    × (receive 7 new_connection o.written ≡ done (final_messages joined_once))
finish_run-receive_example =
    finish_run-receive joined_once 9 new_connection (omega arith) (omega arith) (omega arith)
      (omega arith) (omega arith) (omega arith) (omega arith)
