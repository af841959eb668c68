-- ===== src/Tests/Loops.antt =====
-- A DHT that lets the node in at the second attempt, and the loop of start on it.
use dhtperf.Prelude.{
  ℕ, suc, ◌<◌, ◌≡◌, refl, [], ◌∷◌, List, codes, leb, map, ◌++◌, true, false, some, done, arith,
}
use dhtperf.Prelude.Int.{pos, ◌≤ℤ◌}
use dhtperf.Events.{PutEvent, GetEvent, LeaveEvent}
use dhtperf.Controller.Operations.{Dht, Node, NodeMetrics, process_join_event}
use dhtperf.Controller.Operations.Joins.{
  Joins, joined, retried, HasJoined, process_join_event-Joins,
}
use dhtperf.Controller.Loop.{check_done, process_connected, since_start, to_wait, within}
use dhtperf.Controller.Loop.Waits.{to_wait-check_done}
use dhtperf.Controller.Loop.Trace.{Ran, put_due, get_due, leave_due}
use dhtperf.Controller.Loop.Connected.{IsTotal}
use dhtperf.Controller.Loop.Steps.{process_connected-Ran}
use dhtperf.Tests.Numbers.{whole_numbers}
use dhtperf.Tests.Latencies.{two_times}
use dhtperf.Tests.Results.{node}

abbrev slow : Dht two_times
slow = record {
  World = ℕ;
  do_join = λ w. done (leb 4 w, w);
  do_leave = λ w. done w;
  do_put = λ event w. done w;
  do_get = λ event w. done (true, w);
  universal_time = λ w. (false, suc w);
  elapsed = λ t0 t1. true;
  sleep = λ seconds w. w;
  start_timer = λ duration w. w;
  remaining = λ w. (pos 10, w);
}

slow-IsTotal : IsTotal slow
slow-IsTotal = record {
  leaves = λ w. (w, refl);
  puts = λ e w. (w, refl);
  gets = λ e w. (true, w, refl);
}

abbrev outside : Node whole_numbers two_times
outside = record { connected = false; metrics = node }

abbrev inside : Node whole_numbers two_times
inside = record { connected = true; metrics = node }

second_attempt : Joins whole_numbers two_times slow 1 0 6
second_attempt = retried refl (joined refl)

process_join_event-Joins_example :
    (m : NodeMetrics whole_numbers two_times) × (process_join_event whole_numbers two_times slow 2
        outside 0
      ≡ done (some (record { connected = true; metrics = m }, 6)))
    × HasJoined whole_numbers two_times slow 1 node m
process_join_event-Joins_example =
    process_join_event-Joins whole_numbers two_times slow 1 2 0 6 outside second_attempt
      (omega arith) refl

checked : check_done whole_numbers two_times slow 60 3 ≡ (some (50, pos 10), 3)
unfolding check_done since_start
checked = refl

waited : to_wait (within 60 55) (50, pos 10) ≡ some 5
unfolding to_wait within
waited = refl

to_wait-check_done_example : (0 < 5) × (pos 5 ≤ℤ pos 10)
to_wait-check_done_example =
    to_wait-check_done whole_numbers two_times slow 60 55 50 5 (pos 10) 3 3 (omega arith) checked
      (omega arith) waited

abbrev puts : List PutEvent
puts = record { time = 3; key = codes "a"; value = codes "b" } ∷ []

abbrev gets : List GetEvent
gets = record { time = 4; key = codes "a" } ∷ record { time = 5; key = codes "a" } ∷ []

abbrev leaves : List LeaveEvent
leaves = record { time = 5 } ∷ []

process_connected-Ran_example :
    Ran whole_numbers two_times slow slow-IsTotal
      (map put_due puts ++ (map get_due gets ++ map leave_due leaves))
      inside
      0
      (process_connected whole_numbers two_times slow 60 puts gets leaves (50, pos 10) inside 0)
process_connected-Ran_example =
    process_connected-Ran whole_numbers two_times slow slow-IsTotal 60 puts gets leaves (50, pos 10)
      inside 0 (omega arith) (λ v. omega arith) refl (omega arith)
