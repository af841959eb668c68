-- ===== src/Controller/Profiles/Classes.antt =====
-- src/controller/profiles: the constructors of the classes, from the text of their parameters.
use dhtperf.Prelude.{
  ℕ, ◌+◌, ◌%◌, List, [], ◌∷◌, Bytes, codes, String, none, some, ltb, length, Outcome, done, exits,
  aborts, faults, ◌>>=◌, if◌then◌else◌, take,
}
use dhtperf.Common.{DhtOperation, Boost}
use dhtperf.Protocol.{u32_mod}
use dhtperf.Controller.Utils.{Randomness, remove_loop, random_dictionary, time_unit}
use dhtperf.Controller.Utils.Dictionary.{dictionary, dictionary_size}
use dhtperf.Controller.Utils.Times.{get_time_from_string}
use dhtperf.Controller.Profiles.{
  Event, exact, full_dictionary, no_events, n_times_random, now, interval, poisson_random,
  weibull_random, Profile,
}
use dhtperf.Controller.Profiles.Pushes.{push_now, push_key, push_repeated, push_random, push_exact}

-- boost::is_any_of("\t ")
abbrev pub separators : Bytes
separators = 9 ∷ b' ' ∷ []

module _ (random : Randomness) (boost : Boost) where
  open random use {World, Double, open_device, poisson, double_cast}

  -- boost::split and removeEmptyStringsFromVector
  unfoldable pub split_params : Bytes → Outcome (List Bytes)
  unfolding remove_loop
  split_params params = let v = boost.split separators params in remove_loop (length v) v

  unfoldable pub cast : Bytes → Outcome ℕ
  cast text = elim (boost.lexical_cast text) [ none ↦ aborts | some n ↦ done n ]

  unfoldable pub cast_double : Bytes → Outcome Double
  cast_double text = elim (double_cast text) [ none ↦ aborts | some x ↦ done x ]

  module _ (operation : DhtOperation) where
    unfoldable pub new_exact : Bytes → World → Outcome (Profile Double operation × World)
    unfolding split_params push_exact
    new_exact params w = do
      v ← split_params params
      (queue, w) ← push_exact random operation v w
      done (record { generator = exact; queue = queue }, w)

    unfoldable pub new_none : Bytes → World → Outcome (Profile Double operation × World)
    new_none params w = done (record { generator = no_events; queue = [] }, w)

    unfoldable pub new_now : Bytes → World → Outcome (Profile Double operation × World)
    unfolding split_params push_now
    new_now params w = split_params params >>= λ v. elim v [
      | t ∷ [] ↦ (do
        (time, w) ← get_time_from_string random t w
        queue ← push_now operation (time_unit time) []
        done (record { generator = now; queue = queue }, w))
      | _ ↦ exits 1
    ]

    unfoldable pub new_interval : Bytes → World → Outcome (Profile Double operation × World)
    unfolding split_params cast push_repeated
    new_interval params w = split_params params >>= λ v. elim v [
      | s ∷ r ∷ f ∷ t ∷ [] ↦ (do
        set_size ← cast s
        repetitions ← cast r
        frequency ← cast f
        (time, w) ← get_time_from_string random t w
        let start_time = time_unit time
        w ← random_dictionary random set_size w
        (queue, w) ← push_repeated random operation set_size repetitions start_time [] w
        done (
          record { generator = interval set_size start_time frequency repetitions; queue = queue },
          w,
        ))
      | _ ↦ exits 1
    ]

    -- The loop over the pairs of a time and a number of repetitions; the second is read without a test.
    unfoldable pub n_times_loop :
        ℕ → List Bytes → List (Event operation) → World → Outcome (List (Event operation) × World)
    unfolding cast push_repeated
    n_times_loop size [] queue w = done (queue, w)
    n_times_loop size (t ∷ []) queue w = cast t >>= λ _. faults
    n_times_loop size (t ∷ r ∷ params) queue w = do
      time ← cast t
      repetitions ← cast r
      (queue, w) ← push_repeated random operation size repetitions time queue w
      n_times_loop size params queue w

    unfoldable pub new_n_times_random : Bytes → World → Outcome (Profile Double operation × World)
    unfolding split_params cast n_times_loop
    new_n_times_random params w = split_params params >>= λ v. elim v [
      | [] ↦ faults
      | s ∷ rest ↦ (do
        set_size ← cast s
        w ← random_dictionary random set_size w
        (queue, w) ← n_times_loop set_size rest [] w
        done (record { generator = n_times_random set_size; queue = queue }, w))
    ]

    -- pushElement(time, Utils::dictionary[j]) for the words from the j-th on.
    unfoldable pub push_dictionary :
        ℕ → List String → List (Event operation) → Outcome (List (Event operation))
    unfolding push_key
    push_dictionary time [] queue = done queue
    push_dictionary time (word ∷ words) queue = do
      queue ← push_key operation time (codes word) queue
      push_dictionary time words queue

    unfoldable pub full_loop :
        ℕ → List Bytes → List (Event operation) → World → Outcome (List (Event operation) × World)
    unfolding push_dictionary
    full_loop size [] queue w = done (queue, w)
    full_loop size (t ∷ params) queue w = do
      (time, w) ← get_time_from_string random t w
      queue ← push_dictionary (time_unit time) (take size dictionary) queue
      full_loop size params queue w

    unfoldable pub new_full_dictionary : Bytes → World → Outcome (Profile Double operation × World)
    unfolding split_params cast full_loop
    new_full_dictionary params w = split_params params >>= λ v. elim v [
      | [] ↦ faults
      | s ∷ rest ↦ (do
        set_size ← cast s
        if ltb dictionary_size set_size then exits 1 else do
          (queue, w) ← full_loop set_size rest [] w
          done (record { generator = full_dictionary; queue = queue }, w))
    ]

    unfoldable pub new_poisson_random : Bytes → World → Outcome (Profile Double operation × World)
    unfolding split_params cast cast_double push_random
    new_poisson_random params w = split_params params >>= λ v. elim v [
      | s ∷ l ∷ t ∷ [] ↦ (do
        set_size ← cast s
        lambda ← cast_double l
        time_begin ← cast t
        w ← random_dictionary random set_size w
        w ← open_device w
        let (n, w) = poisson lambda w
        let last_event = (time_begin + time_unit n) % u32_mod
        (queue, w) ← push_random random operation set_size last_event [] w
        done (record { generator = poisson_random set_size lambda last_event; queue = queue }, w))
      | _ ↦ exits 1
    ]

    unfoldable pub new_weibull_random : Bytes → World → Outcome (Profile Double operation × World)
    unfolding split_params cast cast_double
    new_weibull_random params w = split_params params >>= λ v. elim v [
      | s ∷ h ∷ c ∷ [] ↦ (do
        set_size ← cast s
        shape ← cast_double h
        scale ← cast_double c
        w ← random_dictionary random set_size w
        w ← open_device w
        done (record { generator = weibull_random set_size shape scale; queue = [] }, w))
      | _ ↦ exits 1
    ]
