-- ===== src/Tests/Schedules.antt =====
-- Profiles that are the time of their next event.
use dhtperf.Prelude.{ℕ, some, none, done}
use dhtperf.Controller.Setup.{ControllerWorkloadProfile}
use dhtperf.Controller.NextEvent.{Scheduler}

abbrev times : Scheduler
times = record {
  Profile = λ operation. ℕ;
  schedule_next_event = λ operation time now. done (time, time);
}

abbrev planned : ControllerWorkloadProfile (λ operation. ℕ)
planned = record {
  join_profile = none;
  leave_profile = some 0;
  put_profile = some 7;
  get_profile = some 5;
  duration = 60;
}
