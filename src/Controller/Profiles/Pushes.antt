-- ===== src/Controller/Profiles/Pushes.antt =====
-- src/controller/profiles: the pushElement methods. They put events into the queue, for some operations only.
use dhtperf.Prelude.{
  ℕ, zero, suc, List, [], ◌∷◌, ◌++◌, Bytes, codes, Outcome, done, exits, faults, ◌>>=◌,
}
use dhtperf.Common.{DhtOperation, join, leave, put, get}
use dhtperf.Events.{PutEvent, GetEvent}
use dhtperf.Events.Queue.{push}
use dhtperf.Controller.Utils.{Randomness, time_unit, get_random_word}
use dhtperf.Controller.Utils.Times.{get_time_from_string}
use dhtperf.Controller.Profiles.{Event, timed}

-- DhtPutEvent(time, key, key + "_value")
unfoldable pub put_word : ℕ → Bytes → PutEvent
put_word time key = record { time = time; key = key; value = key ++ codes "_value" }

unfoldable pub get_word : ℕ → Bytes → GetEvent
get_word time key = record { time = time; key = key }

-- Now<EventType>::pushElement
unfoldable pub push_now :
    (operation : DhtOperation) → ℕ → List (Event operation) → Outcome (List (Event operation))
push_now join time queue = done (push ⦃t = timed join⦄ queue (record { time = time }))
push_now leave time queue = done (push ⦃t = timed leave⦄ queue (record { time = time }))
push_now put time queue = exits 1
push_now get time queue = exits 1

-- FullDictionary<EventType>::pushElement
unfoldable pub push_key :
    (operation : DhtOperation)
    → ℕ
    → Bytes
    → List (Event operation)
    → Outcome (List (Event operation))
unfolding put_word get_word
push_key join time key queue = exits 1
push_key leave time key queue = exits 1
push_key put time key queue = done (push ⦃t = timed put⦄ queue (put_word time key))
push_key get time key queue = done (push ⦃t = timed get⦄ queue (get_word time key))

module _ (random : Randomness) where
  open random use {World}

  -- The loop of the pushElement methods of Interval and NTimesRandom, for events made from a word.
  unfoldable pub push_words :
      {E : Type 0} → (Bytes → E) → ℕ → ℕ → List E → World → Outcome (List E × World)
  push_words make zero size queue w = done (queue, w)
  push_words make (suc n) size queue w = do
    (word, w) ← get_random_word random size w
    push_words make n size (queue ++ make word ∷ []) w

  -- Interval<EventType>::pushElement and NTimesRandom<EventType>::pushElement
  unfoldable pub push_repeated :
      (operation : DhtOperation)
      → ℕ
      → ℕ
      → ℕ
      → List (Event operation)
      → World
      → Outcome (List (Event operation) × World)
  unfolding push_words put_word get_word
  push_repeated join size repetitions time queue w = exits 1
  push_repeated leave size repetitions time queue w = exits 1
  push_repeated put size repetitions time queue w =
      push_words (put_word time) repetitions size queue w
  push_repeated get size repetitions time queue w =
      push_words (get_word time) repetitions size queue w

  -- PoissonRandom<EventType>::pushElement and WeibullRandom<EventType>::pushElement
  unfoldable pub push_random :
      (operation : DhtOperation)
      → ℕ
      → ℕ
      → List (Event operation)
      → World
      → Outcome (List (Event operation) × World)
  unfolding put_word get_word
  push_random join size time queue w =
      done (push ⦃t = timed join⦄ queue (record { time = time }), w)
  push_random leave size time queue w =
      done (push ⦃t = timed leave⦄ queue (record { time = time }), w)
  push_random put size time queue w = do
    (word, w) ← get_random_word random size w
    done (push ⦃t = timed put⦄ queue (put_word time word), w)
  push_random get size time queue w = do
    (word, w) ← get_random_word random size w
    done (push ⦃t = timed get⦄ queue (get_word time word), w)

  -- The loop of the constructor of Exact over its parameters, with the pushElement of each operation. A put takes three
  -- parameters and a get two, without a test that they are there.
  unfoldable pub exact_times :
      {E : Type 0} → (ℕ → E) → List Bytes → List E → World → Outcome (List E × World)
  exact_times make [] queue w = done (queue, w)
  exact_times make (t ∷ params) queue w = do
    (time, w) ← get_time_from_string random t w
    exact_times make params (queue ++ make (time_unit time) ∷ []) w

  unfoldable pub exact_puts : List Bytes → List PutEvent → World → Outcome (List PutEvent × World)
  exact_puts [] queue w = done (queue, w)
  exact_puts (t ∷ []) queue w = get_time_from_string random t w >>= λ _. faults
  exact_puts (t ∷ key ∷ []) queue w = get_time_from_string random t w >>= λ _. faults
  exact_puts (t ∷ key ∷ value ∷ params) queue w = do
    (time, w) ← get_time_from_string random t w
    exact_puts params (queue ++ record { time = time_unit time; key = key; value = value } ∷ []) w

  unfoldable pub exact_gets : List Bytes → List GetEvent → World → Outcome (List GetEvent × World)
  exact_gets [] queue w = done (queue, w)
  exact_gets (t ∷ []) queue w = get_time_from_string random t w >>= λ _. faults
  exact_gets (t ∷ key ∷ params) queue w = do
    (time, w) ← get_time_from_string random t w
    exact_gets params (queue ++ record { time = time_unit time; key = key } ∷ []) w

  unfoldable pub push_exact :
      (operation : DhtOperation) → List Bytes → World → Outcome (List (Event operation) × World)
  unfolding exact_times exact_puts exact_gets
  push_exact join params w = exact_times (λ time. record { time = time }) params [] w
  push_exact leave params w = exact_times (λ time. record { time = time }) params [] w
  push_exact put params w = exact_puts params [] w
  push_exact get params w = exact_gets params [] w
