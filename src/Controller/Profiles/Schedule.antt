-- ===== src/Controller/Profiles/Schedule.antt =====
-- src/controller/profiles: the scheduleNextEvent methods.
use dhtperf.Prelude.{ℕ, ◌+◌, ◌%◌, List, ◌==◌, if◌then◌else◌, Outcome, done, ◌>>=◌}
use dhtperf.Common.{DhtOperation}
use dhtperf.Protocol.{u32_mod}
use dhtperf.Controller.Utils.{Randomness, time_unit}
use dhtperf.Controller.NextEvent.{Scheduler}
use dhtperf.Controller.Profiles.{
  Event, Generator, exact, full_dictionary, no_events, n_times_random, now, interval,
  poisson_random, weibull_random, Profile, next_time,
}
use dhtperf.Controller.Profiles.Pushes.{push_now, push_repeated, push_random}

module _ (random : Randomness) (operation : DhtOperation) where
  open random use {World, Double, poisson, weibull}

  -- Exact, FullDictionary and NTimesRandom: the queue is as it is.
  unfoldable pub schedule_queued :
      Profile Double operation → World → Outcome (Profile Double operation × World)
  schedule_queued p w = done (p, w)

  unfoldable pub schedule_interval :
      ℕ → ℕ → ℕ → ℕ → List (Event operation) → World → Outcome (Profile Double operation × World)
  unfolding push_repeated
  schedule_interval size last_event_time frequency repetitions queue w =
      if next_time operation queue == 0
      then (do
        let last_event_time = (last_event_time + frequency) % u32_mod
        (queue, w) ← push_repeated random operation size repetitions last_event_time queue w
        done (
          record { generator = interval size last_event_time frequency repetitions; queue = queue },
          w,
        ))
      else done (
        record { generator = interval size last_event_time frequency repetitions; queue = queue },
        w,
      )

  unfoldable pub schedule_now :
      ℕ → List (Event operation) → World → Outcome (Profile Double operation × World)
  unfolding push_now
  schedule_now current_time queue w =
      if next_time operation queue == 0
      then (do
        queue ← push_now operation current_time queue
        done (record { generator = now; queue = queue }, w))
      else done (record { generator = now; queue = queue }, w)

  unfoldable pub schedule_poisson :
      ℕ → Double → ℕ → List (Event operation) → World → Outcome (Profile Double operation × World)
  unfolding push_random
  schedule_poisson size lambda last_event queue w =
      if next_time operation queue == 0
      then (do
        let (n, w) = poisson lambda w
        let last_event = (last_event + time_unit n) % u32_mod
        (queue, w) ← push_random random operation size last_event queue w
        done (record { generator = poisson_random size lambda last_event; queue = queue }, w))
      else done (record { generator = poisson_random size lambda last_event; queue = queue }, w)

  unfoldable pub schedule_weibull :
      ℕ
      → Double
      → Double
      → ℕ
      → List (Event operation)
      → World
      → Outcome (Profile Double operation × World)
  unfolding push_random
  schedule_weibull size shape scale current_time queue w =
      if next_time operation queue == 0
      then (do
        let (n, w) = weibull shape scale w
        (queue, w) ←
            push_random random operation size ((current_time + time_unit n) % u32_mod) queue w
        done (record { generator = weibull_random size shape scale; queue = queue }, w))
      else done (record { generator = weibull_random size shape scale; queue = queue }, w)

  -- What a scheduleNextEvent does to the queue before it looks at the next event.
  unfoldable pub refill :
      Generator Double
      → List (Event operation)
      → World
      → ℕ
      → Outcome (Profile Double operation × World)
  unfolding schedule_queued schedule_interval schedule_now schedule_poisson schedule_weibull
  refill exact queue w current_time =
      schedule_queued (record { generator = exact; queue = queue }) w
  refill full_dictionary queue w current_time =
      schedule_queued (record { generator = full_dictionary; queue = queue }) w
  refill no_events queue w current_time =
      schedule_queued (record { generator = no_events; queue = queue }) w
  refill (n_times_random size) queue w current_time =
      schedule_queued (record { generator = n_times_random size; queue = queue }) w
  refill now queue w current_time = schedule_now current_time queue w
  refill (interval size last frequency repetitions) queue w current_time =
      schedule_interval size last frequency repetitions queue w
  refill (poisson_random size lambda last) queue w current_time =
      schedule_poisson size lambda last queue w
  refill (weibull_random size shape scale) queue w current_time =
      schedule_weibull size shape scale current_time queue w

  -- What it returns: None has no event, and the others return eventQueue_.getNextEventTime().
  unfoldable pub returned : Generator Double → List (Event operation) → ℕ
  returned no_events queue = 0
  returned exact queue = next_time operation queue
  returned full_dictionary queue = next_time operation queue
  returned (n_times_random size) queue = next_time operation queue
  returned now queue = next_time operation queue
  returned (interval size last frequency repetitions) queue = next_time operation queue
  returned (poisson_random size lambda last) queue = next_time operation queue
  returned (weibull_random size shape scale) queue = next_time operation queue

  -- The virtual method scheduleNextEvent.
  unfoldable pub schedule_next_event :
      Profile Double operation × World → ℕ → Outcome (ℕ × (Profile Double operation × World))
  unfolding refill returned
  schedule_next_event (p, w) current_time = do
    (p', w') ← refill p.generator p.queue w current_time
    done (returned p'.generator p'.queue, (p', w'))

module _ (random : Randomness) where
  open random use {World, Double}

  unfoldable pub scheduler : Scheduler
  unfolding schedule_next_event
  scheduler = record {
    Profile = λ operation. Profile Double operation × World;
    schedule_next_event =
        λ operation p current_time. schedule_next_event random operation p current_time;
  }
