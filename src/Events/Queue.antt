-- ===== src/Events/Queue.antt =====
-- src/events.h: EventQueue over std::priority_queue<T, std::vector<T>, std::greater<T>>. A queue is
-- the list of its elements in the order of their insertion; top and pop take an earliest one. Among
-- elements of the same time, where the standard leaves the choice open, it is the first inserted.
pub mod Laws
pub mod Bags
pub mod Order
use dhtperf.Prelude.{
  ℕ, zero, suc, List, [], ◌∷◌, ◌++◌, Option, none, some, leb, length, if◌then◌else◌,
}
use dhtperf.Events.{Timed, time_of}

module _ {T : Type 0} ⦃t : Timed T⦄ where
  -- An earliest element of `x ∷ q`, and the others.
  unfoldable pub earliest : T → List T → T × List T
  earliest x [] = (x, [])
  earliest x (y ∷ q) =
      let (top, rest) = earliest y q in
      if leb (time_of x) (time_of top) then (x, y ∷ q) else (top, x ∷ rest)

  unfoldable pub push : List T → T → List T
  push queue element = queue ++ element ∷ []

  -- top() and pop() in one, as EventQueue::pop calls them; `none` where the queue is empty.
  unfoldable pub pop : List T → Option (T × List T)
  unfolding earliest
  pop [] = none
  pop (x ∷ q) = some (earliest x q)

  unfoldable pub get_next_event_time : List T → ℕ
  unfolding pop
  get_next_event_time queue = elim (pop queue) [ none ↦ 0 | some (top, rest) ↦ time_of top ]

  -- The loop of popEvents, with fuel.
  unfoldable pub pop_events_loop : ℕ → ℕ → List T → List T → List T × List T
  unfolding pop
  pop_events_loop zero now queue ret = (ret, queue)
  pop_events_loop (suc fuel) now queue ret = elim (pop queue) [
    | none ↦ (ret, queue)
    | some (top, rest) ↦
        let more = pop_events_loop fuel now rest (ret ++ top ∷ []) in
        if leb (time_of top) now then more else (ret, queue)
  ]

  -- Each round takes an element out, so one round more than there are elements is enough.
  unfoldable pub pop_events : ℕ → List T → List T × List T
  unfolding pop_events_loop
  pop_events now queue = pop_events_loop (suc (length queue)) now queue []
