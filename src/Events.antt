-- ===== src/Events.antt =====
-- src/events.h and src/events.cpp: the events of a workload and the queue that they wait in.
pub mod Queue
use dhtperf.Prelude.{
  ℕ, ◌++◌, ◌∷◌, [], List, leb, ltb, Bool, Option, none, some, Bytes, if◌then◌else◌, length, suc,
  zero,
}

-- What the templates ask of a class of events: the member DhtEvent::time.
pub record Timed (T : Type 0) : Type 0 where
  pub time : T → ℕ

pub record JoinEvent : Type 0 where
  pub time : ℕ

pub record LeaveEvent : Type 0 where
  pub time : ℕ

pub record PutEvent : Type 0 where
  pub time : ℕ
  pub key : Bytes
  pub value : Bytes

pub record GetEvent : Type 0 where
  pub time : ℕ
  pub key : Bytes

instance abbrev pub join_timed : Timed JoinEvent
join_timed = record { time = λ e. e.time }

instance abbrev pub leave_timed : Timed LeaveEvent
leave_timed = record { time = λ e. e.time }

instance abbrev pub put_timed : Timed PutEvent
put_timed = record { time = λ e. e.time }

instance abbrev pub get_timed : Timed GetEvent
get_timed = record { time = λ e. e.time }

abbrev pub time_of : {T : Type 0} ⦃t : Timed T⦄ → T → ℕ
time_of ⦃t⦄ = t.time
