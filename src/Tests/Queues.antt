-- ===== src/Tests/Queues.antt =====
-- Queues of events, and statistics.
use mathlib.Core.List.{Perm}
use mathlib.Core.List.Perm
use mathlib.Core.Quot
use dhtperf.Prelude.{ℕ, ◌++◌, [], ◌∷◌, List, ◌≡◌, codes, arith}
use dhtperf.Prelude.Int.{pos, negsuc}
use dhtperf.Events.{GetEvent, get_timed}
use dhtperf.Events.Queue.{pop_events, get_next_event_time}
use dhtperf.Events.Queue.Laws.{Due, IsSorted, Pending, pop_events_lem}
use dhtperf.Events.Queue.Bags.{times}
use dhtperf.Events.Queue.Order.{pop_events-Perm, due_times, remaining, remaining_twice}
use dhtperf.Tests.Numbers.{whole_numbers}
use dhtperf.Metrics.Statistics.{long_int, new_statistics, push_all}
use dhtperf.Metrics.Statistics.Extremes.{Extremes, push_all-Extremes}

abbrev get_at : ℕ → GetEvent
get_at time = record { time = time; key = codes "k" }

abbrev waiting_gets : List GetEvent
waiting_gets = get_at 7 ∷ get_at 3 ∷ get_at 5 ∷ []

pop_events_lem_example :
    Due 5 (pop_events 5 waiting_gets).0
    × IsSorted (pop_events 5 waiting_gets).0
    × Pending 5 (pop_events 5 waiting_gets).1
    × Perm ((pop_events 5 waiting_gets).0 ++ (pop_events 5 waiting_gets).1) waiting_gets
pop_events_lem_example = pop_events_lem 5 waiting_gets

pop_events-Perm_example :
    (get_next_event_time waiting_gets ≡ get_next_event_time (get_at 3 ∷ get_at 7 ∷ get_at 5 ∷ []))
    × (times (pop_events 5 waiting_gets).0
        ≡ times (pop_events 5 (get_at 3 ∷ get_at 7 ∷ get_at 5 ∷ [])).0)
    × Perm (pop_events 5 waiting_gets).0 (pop_events 5 (get_at 3 ∷ get_at 7 ∷ get_at 5 ∷ [])).0
    × Perm (pop_events 5 waiting_gets).1 (pop_events 5 (get_at 3 ∷ get_at 7 ∷ get_at 5 ∷ [])).1
pop_events-Perm_example =
    pop_events-Perm 5 waiting_gets (get_at 3 ∷ get_at 7 ∷ get_at 5 ∷ [])
      (Perm.swap (get_at 3) (get_at 7) (get_at 5 ∷ []))

remaining_twice_example :
    (due_times 4 (Quot.mk waiting_gets) ++ due_times 6 (remaining 4 (Quot.mk waiting_gets))
      ≡ due_times 6 (Quot.mk waiting_gets))
    × (remaining 6 (remaining 4 (Quot.mk waiting_gets)) ≡ remaining 6 (Quot.mk waiting_gets))
remaining_twice_example = remaining_twice 4 6 (Quot.mk waiting_gets) (omega arith)

push_all-Extremes_example :
    Extremes
      (push_all whole_numbers
        (long_int whole_numbers)
        (pos 4 ∷ negsuc 1 ∷ pos 9 ∷ [])
        (new_statistics whole_numbers (long_int whole_numbers) (pos 77) (pos 10)))
      3
      (pos 4 ∷ negsuc 1 ∷ pos 9 ∷ [])
push_all-Extremes_example =
    push_all-Extremes whole_numbers (pos 4) (negsuc 1 ∷ pos 9 ∷ []) (pos 77) (pos 10) (omega arith)
