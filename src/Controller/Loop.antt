-- ===== src/Controller/Loop.antt =====
-- src/controller/DhtperfController.cpp: start, the loop that runs the events of the profiles until the time is up.
pub mod Waits
pub mod Batches
pub mod Connected
pub mod Trace
pub mod Steps
pub mod Leaves
use dhtperf.Prelude.{
  ℕ, zero, suc, ◌+◌, ◌-◌, ◌%◌, List, [], ◌∷◌, Option, none, some, Bool, true, false, not, ltb, leb,
  ◌==◌, ◌||◌, ◌&&◌, if◌then◌else◌, Outcome, done, faults, ◌>>=◌,
}
use dhtperf.Prelude.Int.{ℤ, pos, negsuc, ltb_ℤ}
use dhtperf.Common.{DhtOperation}
use dhtperf.Protocol.{u32_mod}
use dhtperf.Events.{JoinEvent}
use dhtperf.Metrics.Statistics.{Doubles}
use dhtperf.Metrics.Latency.{PosixTime}
use dhtperf.Controller.Utils.{Randomness, time_unit}
use dhtperf.Controller.Profiles.{Event, Profile, get_events}
use dhtperf.Controller.Profiles.Schedule.{scheduler}
use dhtperf.Controller.Setup.{ControllerWorkloadProfile}
use dhtperf.Controller.NextEvent.{get_next_event_time}
use dhtperf.Controller.Operations.{
  Dht, Node, process_join_event, process_leave_event, process_put_event, process_get_event,
}

-- How far a piece of the loop has come: it goes on, start has returned since the time is up, or a join has not
-- succeeded within its fuel.
pub data Progress (S : Type 0) : Type 0 where
  going : S → Progress S
  finished : S → Progress S
  retrying : Progress S

-- duration - remaining.total_seconds(), as a timeUnit.
unfoldable pub since_start : ℕ → ℤ → ℕ
since_start duration (pos r) = (duration + (u32_mod - r % u32_mod)) % u32_mod
since_start duration (negsuc r) = (duration + suc r) % u32_mod

-- if (nextEvent > duration) nextEvent = 0;
unfoldable pub within : ℕ → ℕ → ℕ
within duration next_event = if ltb duration next_event then 0 else next_event

-- toWait, from the next event, the time elapsed and the time that remains; none where the loop continues at once.
unfoldable pub to_wait : ℕ → ℕ × ℤ → Option ℕ
to_wait next_event (elapsed, remaining) =
    if next_event == 0
    then some (time_unit remaining)
    else if ltb elapsed next_event
    then some (next_event - elapsed)
    else none

module _ (d : Doubles) (clock : PosixTime) (dht : Dht clock) where
  open dht use {World, sleep, start_timer, remaining}

  -- DHTPERF_CHECK_DONE: none where the time is up.
  unfoldable pub check_done : ℕ → World → Option (ℕ × ℤ) × World
  unfolding since_start
  check_done duration w =
      let (r, w) = remaining w in
      let elapsed = since_start duration r in
      (if ltb_ℤ r (pos 0) || leb duration elapsed then none else some (elapsed, r), w)

  -- BOOST_FOREACH over events, with the check behind each of them. The times are those of the last check.
  unfoldable pub process_all :
      {E : Type 0}
      → (E → Node d clock → World → Outcome (Node d clock × World))
      → ℕ
      → List E
      → ℕ × ℤ
      → Node d clock
      → World
      → Outcome (Progress ((ℕ × ℤ) × (Node d clock × World)))
  unfolding check_done
  process_all process duration [] times n w = done (going (times, (n, w)))
  process_all process duration (e ∷ es) times n w = do
    (n, w) ← process e n w
    let (checked, w) = check_done duration w
    elim checked [
      | none ↦ done (finished (times, (n, w)))
      | some times ↦ process_all process duration es times n w
    ]

  -- The events of a connected node.
  unfoldable pub process_connected :
      ℕ
      → List (Event DhtOperation.put)
      → List (Event DhtOperation.get)
      → List (Event DhtOperation.leave)
      → ℕ × ℤ
      → Node d clock
      → World
      → Outcome (Progress ((ℕ × ℤ) × (Node d clock × World)))
  unfolding process_all process_put_event process_get_event process_leave_event
  process_connected duration puts gets leaves times n w =
      process_all (process_put_event d clock dht) duration puts times n w >>= λ p. elim p [
        | retrying ↦ done retrying
        | finished s ↦ done (finished s)
        | going (times, (n, w)) ↦
            process_all (process_get_event d clock dht) duration gets times n w >>= λ p. elim p [
              | retrying ↦ done retrying
              | finished s ↦ done (finished s)
              | going (times, (n, w)) ↦
                  process_all (λ event n w. process_leave_event d clock dht n w) duration leaves
                    times n w
            ]
      ]

  -- The events of a node that is not.
  unfoldable pub process_joins :
      ℕ
      → ℕ
      → List JoinEvent
      → ℕ × ℤ
      → Node d clock
      → World
      → Outcome (Progress ((ℕ × ℤ) × (Node d clock × World)))
  unfolding process_join_event check_done
  process_joins fuel duration [] times n w = done (going (times, (n, w)))
  process_joins fuel duration (e ∷ es) times n w =
      process_join_event d clock dht fuel n w >>= λ joined. elim joined [
        | none ↦ done retrying
        | some (n, w) ↦
            let (checked, w) = check_done duration w in
            elim checked [
              | none ↦ done (finished (times, (n, w)))
              | some times ↦ process_joins fuel duration es times n w
            ]
      ]

  module _ (random : Randomness) where
    open random use {Double}

    abbrev pub Profiles : Type 0
    Profiles = ControllerWorkloadProfile (λ operation. Profile Double operation × random.World)

    -- ControllerWorkloadProfile::getPutEvents and its like, through a pointer that may be null.
    unfoldable pub due_events :
        (operation : DhtOperation)
        → ℕ
        → Option (Profile Double operation × random.World)
        → Outcome (List (Event operation) × Option (Profile Double operation × random.World))
    unfolding get_events
    due_events operation current_time none = faults
    due_events operation current_time (some (p, v)) =
        let (events, p) = get_events operation current_time p in done (events, some (p, v))

    -- The branch of the loop for an event that is due.
    unfoldable pub process_due :
        ℕ
        → ℕ
        → ℕ × ℤ
        → Profiles
        → Node d clock
        → World
        → Outcome (Profiles × Progress ((ℕ × ℤ) × (Node d clock × World)))
    unfolding due_events process_connected process_joins
    process_due fuel duration times profiles n w =
        if n.connected
        then (do
          (puts, put_profile) ← due_events DhtOperation.put times.0 profiles.put_profile
          (gets, get_profile) ← due_events DhtOperation.get times.0 profiles.get_profile
          (leaves, leave_profile) ← due_events DhtOperation.leave times.0 profiles.leave_profile
          progress ← process_connected duration puts gets leaves times n w
          done (
            record profiles {
              put_profile = put_profile;
              get_profile = get_profile;
              leave_profile = leave_profile;
            },
            progress,
          ))
        else (do
          (joins, join_profile) ← due_events DhtOperation.join times.0 profiles.join_profile
          progress ← process_joins fuel duration joins times n w
          done (record profiles { join_profile = join_profile }, progress))

    -- One round of the loop of start.
    unfoldable pub round :
        ℕ
        → ℕ
        → Profiles
        → Node d clock
        → World
        → Outcome (Progress (Profiles × (Node d clock × World)))
    unfolding process_due to_wait within scheduler get_next_event_time
    round fuel duration profiles n w =
        let (checked, w) = check_done duration w in
        elim checked [
          | none ↦ done (finished (profiles, (n, w)))
          | some times ↦ (do
            (next_event, profiles) ←
                get_next_event_time (scheduler random) times.0 n.connected profiles
            let next_event = within duration next_event
            (profiles, progress) ←
                if leb next_event times.0 && not (next_event == 0)
                then process_due fuel duration times profiles n w
                else done (profiles, going (times, (n, w)))
            elim progress [
              | retrying ↦ done retrying
              | finished (times, s) ↦ done (finished (profiles, s))
              | going (times, (n, w)) ↦ elim (to_wait next_event times) [
                | none ↦ done (going (profiles, (n, w)))
                | some seconds ↦ done (going (profiles, (n, sleep seconds w)))
              ]
            ])
        ]

    -- `rounds` rounds of the loop, unless it ends before.
    unfoldable pub rounds :
        ℕ
        → ℕ
        → ℕ
        → Profiles
        → Node d clock
        → World
        → Outcome (Progress (Profiles × (Node d clock × World)))
    unfolding round
    rounds zero fuel duration profiles n w = done (going (profiles, (n, w)))
    rounds (suc more) fuel duration profiles n w = round fuel duration profiles n w >>= λ p.
        elim p [
          | retrying ↦ done retrying
          | finished s ↦ done (finished s)
          | going (profiles, (n, w)) ↦ rounds more fuel duration profiles n w
        ]

    unfoldable pub start :
        ℕ
        → ℕ
        → Profiles
        → Node d clock
        → World
        → Outcome (Progress (Profiles × (Node d clock × World)))
    unfolding rounds
    start more fuel profiles n w =
        rounds more fuel profiles.duration profiles n (start_timer profiles.duration w)
