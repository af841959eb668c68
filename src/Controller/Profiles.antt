-- ===== src/Controller/Profiles.antt =====
-- src/controller/Profile.h and src/controller/profiles: the profiles, each of which fills a queue of events of one
-- operation. An event that the templates construct is that of the operation they are instantiated at.
pub mod Pushes
pub mod Classes
pub mod Make
pub mod Schedule
pub mod Progress
use dhtperf.Prelude.{ℕ, List, [], Bytes, codes, ◌++◌}
use dhtperf.Common.{DhtOperation, join, leave, put, get}
use dhtperf.Events.{
  Timed, JoinEvent, LeaveEvent, PutEvent, GetEvent, join_timed, leave_timed, put_timed, get_timed,
}
use dhtperf.Events.Queue.{get_next_event_time, pop_events}

abbrev pub Event : DhtOperation → Type 0
Event join = JoinEvent
Event leave = LeaveEvent
Event put = PutEvent
Event get = GetEvent

abbrev pub timed : (operation : DhtOperation) → Timed (Event operation)
timed join = join_timed
timed leave = leave_timed
timed put = put_timed
timed get = get_timed

-- The class of a profile, with its members other than the queue. A RandomDictionary is given by its size, and the
-- distributions by their parameters.
pub data Generator (Double : Type 0) : Type 0 where
  exact : Generator Double
  full_dictionary : Generator Double
  no_events : Generator Double
  n_times_random : ℕ → Generator Double
  now : Generator Double
  interval : ℕ → ℕ → ℕ → ℕ → Generator Double
  poisson_random : ℕ → Double → ℕ → Generator Double
  weibull_random : ℕ → Double → Double → Generator Double

pub record Profile (Double : Type 0) (operation : DhtOperation) : Type 0 where
  pub generator : Generator Double
  pub queue : List (Event operation)

-- eventQueue_.getNextEventTime()
unfoldable pub next_time : (operation : DhtOperation) → List (Event operation) → ℕ
next_time operation queue = get_next_event_time ⦃t = timed operation⦄ queue

-- Profile::getEvents
unfoldable pub get_events :
    {Double : Type 0} (operation : DhtOperation)
    → ℕ
    → Profile Double operation
    → List (Event operation) × Profile Double operation
get_events operation current_time p =
    let (events, queue) = pop_events ⦃t = timed operation⦄ current_time p.queue in
    (events, record p { queue = queue })
