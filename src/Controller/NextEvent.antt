-- ===== src/Controller/NextEvent.antt =====
-- src/controller/ControllerWorkloadProfile.cpp: getNextEventTime. The time 0 stands for no event.
use dhtperf.Prelude.{
  ℕ, ◌≤◌, ◌≡◌, ◌≢◌, ◌⊎◌, Bool, true, false, ◌||◌, ◌&&◌, not, ◌==◌, ltb, if◌then◌else◌, Option, none,
  some, Outcome, done, faults, ◌>>=◌,
}
use dhtperf.Common.{DhtOperation}
use dhtperf.Controller.Setup.{ControllerWorkloadProfile}

-- The virtual method Profile::scheduleNextEvent: the time of the next event, and the profile that has it
-- in its queue. It may end the process.
pub record Scheduler : Type 1 where
  pub Profile : DhtOperation → Type 0
  pub schedule_next_event :
      (operation : DhtOperation) → Profile operation → ℕ → Outcome (ℕ × Profile operation)

-- if ((ret == 0) || (aux < ret && aux != 0)) ret = aux;
unfoldable pub earlier : ℕ → ℕ → ℕ
earlier ret aux = if (ret == 0) || (ltb aux ret && not (aux == 0)) then aux else ret

module _ (scheduler : Scheduler) where
  open scheduler use {Profile, schedule_next_event}

  -- profile->scheduleNextEvent(currentTime), through a pointer that may be null.
  unfoldable pub schedule :
      (operation : DhtOperation)
      → Option (Profile operation)
      → ℕ
      → Outcome (ℕ × Option (Profile operation))
  schedule operation none now = faults
  schedule operation (some p) now = do
    (time, p') ← schedule_next_event operation p now
    done (time, some p')

  unfoldable pub get_next_event_time :
      ℕ → Bool → ControllerWorkloadProfile Profile → Outcome (ℕ × ControllerWorkloadProfile Profile)
  unfolding schedule earlier
  get_next_event_time now true w = do
    (ret, leave_profile) ← schedule DhtOperation.leave w.leave_profile now
    (aux, put_profile) ← schedule DhtOperation.put w.put_profile now
    let ret = earlier ret aux
    (aux, get_profile) ← schedule DhtOperation.get w.get_profile now
    let ret = earlier ret aux
    done (
      ret,
      record w {
        leave_profile = leave_profile;
        put_profile = put_profile;
        get_profile = get_profile;
      },
    )
  get_next_event_time now false w = do
    (ret, join_profile) ← schedule DhtOperation.join w.join_profile now
    done (ret, record w { join_profile = join_profile })

  -- The time r is the first of three, where 0 stands for none.
  abbrev pub IsFirst : ℕ → ℕ → ℕ → ℕ → Type 0
  IsFirst r a b c =
      ((r ≡ a) ⊎ ((r ≡ b) ⊎ (r ≡ c)))
      × (a ≢ 0 → (r ≢ 0) × (r ≤ a))
      × (b ≢ 0 → (r ≢ 0) × (r ≤ b))
      × (c ≢ 0 → (r ≢ 0) × (r ≤ c))
