-- ===== src/Tests/Draws.antt =====
-- A source of random numbers that draws the smallest, and the profiles that use it.
use dhtperf.Prelude.{
  ℕ, suc, ◌≤◌, ◌≡◌, refl, List, [], ◌∷◌, ◌++◌, codes, String, decimal, done, exits, arith, some,
  get_elem?, length, Any, inl,
}
use dhtperf.Prelude.Int.{pos, ◌≤ℤ◌}
use dhtperf.Common.{put, join}
use dhtperf.Events.{time_of}
use dhtperf.Controller.Utils.{Randomness, remove_loop, random_dictionary, get_random_word}
use dhtperf.Controller.Utils.Dictionary.{dictionary, dictionary_size}
use dhtperf.Controller.Utils.Intervals.{DrawsInside, get_time_from_string-decimal}
use dhtperf.Controller.Utils.Times.{get_time_from_string}
use dhtperf.Controller.Utils.Words.{get_random_word_lem, remove_loop_lem, non_empty}
use dhtperf.Controller.Profiles.{Profile, interval, now, get_events, timed, Event}
use dhtperf.Controller.Profiles.Schedule.{schedule_next_event}
use dhtperf.Controller.Profiles.Progress.{
  schedule_next_event-get_events, schedule_next_event_silenced,
}

abbrev lowest : Randomness
lowest = record {
  World = ℕ;
  Double = ℕ;
  open_device = λ w. done (suc w);
  uniform_int = λ min max w. (min, suc w);
  poisson = λ mean w. (pos mean, suc w);
  weibull = λ shape scale w. (pos scale, suc w);
  double_cast = λ text. some (length text);
}

lowest-DrawsInside : DrawsInside lowest
lowest-DrawsInside min max w le = (omega arith, le)

get_time_from_string-decimal_example :
    (get_time_from_string lowest (decimal 5) 0 ≡ done (pos 5, 0))
    × (get_time_from_string lowest (decimal 5 ++ b'-' ∷ decimal 9) 0 ≡ done (pos 5, 2))
    × (pos 5 ≤ℤ pos 5)
    × (pos 5 ≤ℤ pos 9)
    × (get_time_from_string lowest (decimal 9 ++ b'-' ∷ decimal 5) 0 ≡ exits 1)
    × (get_time_from_string lowest (decimal 5 ++ b'-' ∷ decimal 5) 0 ≡ exits 1)
get_time_from_string-decimal_example =
    get_time_from_string-decimal lowest 5 9 0 1 lowest-DrawsInside (omega arith) (omega arith) refl

remove_loop_lem_example : remove_loop 3 ([] ∷ codes "full" ∷ [] ∷ []) ≡ done (codes "full" ∷ [])
unfolding non_empty
remove_loop_lem_example = remove_loop_lem ([] ∷ codes "full" ∷ [] ∷ [])

made : random_dictionary lowest 7 0 ≡ done 1
unfolding random_dictionary dictionary_size
made = refl

get_random_word_lem_example :
    (n : ℕ) × (word : String) × (n ≤ 7)
    × (get_elem? dictionary n ≡ some word)
    × (get_random_word lowest 7 4 ≡ done (codes word, 5))
get_random_word_lem_example = get_random_word_lem lowest 7 0 1 4 lowest-DrawsInside made

abbrev plan : Profile ℕ put
plan = record { generator = interval 7 10 5 1; queue = [] }

abbrev refilled : Profile ℕ put
refilled = record {
  generator = interval 7 15 5 1;
  queue = record { time = 15; key = codes "refuse"; value = codes "refuse_value" } ∷ [];
}

refill_plan : schedule_next_event lowest put (plan, 0) 12 ≡ done (15, (refilled, 1))
unfolding schedule_next_event dhtperf.Controller.Profiles.next_time
    dhtperf.Events.Queue.get_next_event_time get_random_word dictionary
refill_plan = refl

schedule_next_event-get_events_example :
    (e : Event put) × (es : List (Event put)) × ((get_events put 16 refilled).0 ≡ e ∷ es)
    × (time_of ⦃t = timed put⦄ e ≡ 15)
schedule_next_event-get_events_example =
    schedule_next_event-get_events lowest put plan refilled 0 1 12 15 16 refill_plan (ground arith)
      (omega arith)

abbrev stuck : Profile ℕ join
stuck = record { generator = now; queue = record { time = 0 } ∷ [] }

abbrev stuck_again : Profile ℕ join
stuck_again = record { generator = now; queue = record { time = 0 } ∷ record { time = 8 } ∷ [] }

schedule_stuck : schedule_next_event lowest join (stuck, 0) 8 ≡ done (0, (stuck_again, 0))
unfolding schedule_next_event dhtperf.Controller.Profiles.next_time
    dhtperf.Events.Queue.get_next_event_time dhtperf.Events.Queue.push
schedule_stuck = refl

schedule_next_event_silenced_example :
    ◌≡◌ {A = ℕ} 0 0 × Any (λ e. time_of ⦃t = timed join⦄ e ≡ 0) stuck_again.queue
schedule_next_event_silenced_example =
    schedule_next_event_silenced lowest join stuck stuck_again 0 0 8 0 (inl refl) schedule_stuck
