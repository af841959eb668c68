-- ===== src/Tests/Latencies.antt =====
-- Two times and two durations, with texts that are read back, and a function that cuts a text at its spaces.
use dhtperf.Prelude.{
  ℕ, [], ◌∷◌, ◌++◌, List, ◌≡◌, ◌≢◌, refl, ap, ◌∙◌, Bytes, codes, arith, done, true, false, Bool,
  none, some, str_eq, if◌then◌else◌, ◌==◌, All, map,
}
use dhtperf.Prelude.Int.{pos}
use dhtperf.Common.{Boost}
use dhtperf.Metrics.Statistics.{long_int, double, new_statistics, push_all}
use dhtperf.Metrics.Latency.{
  PosixTime, NodeLatency, GeneralLatency, from_string, to_string, new_general_latency,
  mean_in_microseconds,
}
use dhtperf.Metrics.Latency.Text.{IsWord, unwords, TextLaws, from_string-print_measurements}
use dhtperf.Metrics.Latency.Collected.{
  push_latencies, push_latencies-all_micros, with_measurements, all_micros,
}
use dhtperf.Tests.Numbers.{whole_numbers}

prepend : ℕ → List Bytes → List Bytes
prepend c [] = (c ∷ []) ∷ []
prepend c (w ∷ ws) = (c ∷ w) ∷ ws

split_spaces : Bytes → List Bytes
split_spaces [] = [] ∷ []
split_spaces (c ∷ s) = let rest = split_spaces s in if c == b' ' then [] ∷ rest else prepend c rest

abbrev pub spaces : Boost
unfolding split_spaces prepend
spaces = record {
  regex_match = λ pattern text. none;
  lexical_cast = λ text. none;
  split = λ separators text. split_spaces text;
  join = λ separator texts. [];
}

abbrev iso_text : Bool → Bytes
iso_text false = codes "20110101T000000"
iso_text true = codes "20110101T000001"

abbrev simple_text : Bool → Bytes
simple_text false = codes "00:00:00.000250"
simple_text true = codes "00:00:00.014000"

abbrev pub two_times : PosixTime
two_times = record {
  Ptime = Bool;
  Duration = Bool;
  before = λ a b. if a then false else b;
  total_microseconds = λ x. if x then pos 14000 else pos 250;
  from_iso_string = λ text. if str_eq text (iso_text true) then some true else some false;
  to_iso_string = iso_text;
  duration_from_string = λ text. if str_eq text (simple_text true) then some true else some false;
  to_simple_string = simple_text;
}

split_word :
    (w s : Bytes) → All (λ c. c ≢ b' ') w → split_spaces (w ++ b' ' ∷ s) ≡ w ∷ split_spaces s
unfolding split_spaces prepend
split_word [] s h = refl
split_word (c ∷ w) s (other, h) = ground (arith, split_word w s h)

split_last : (w : Bytes) → All (λ c. c ≢ b' ') w → split_spaces w ≡ w ∷ []
unfolding split_spaces prepend
split_last [] h = refl
split_last (c ∷ w) (other, h) = ground (arith, split_last w h)

split-unwords :
    (w : Bytes) (ws : List Bytes) → All IsWord (w ∷ ws) → split_spaces (unwords (w ∷ ws)) ≡ w ∷ ws
split-unwords w [] h = split_last w h.0.1
split-unwords w (v ∷ ws) (h, hs) =
    split_word w (unwords (v ∷ ws)) h.1 ∙ ap (λ r. w ∷ r) (split-unwords v ws hs)

abbrev is_word : Bytes → Bool
is_word [] = true
is_word (c ∷ s) = if c == b' ' then false else is_word s

is_word_lem : (s : Bytes) → is_word s ≡ true → All (λ c. c ≢ b' ') s
is_word_lem [] h = tt
is_word_lem (c ∷ s) h = (ground arith, is_word_lem s (ground arith))

iso-IsWord : (t : Bool) → IsWord (iso_text t)
iso-IsWord false = ((λ e. absurd (ground (arith, e))), is_word_lem (iso_text false) refl)
iso-IsWord true = ((λ e. absurd (ground (arith, e))), is_word_lem (iso_text true) refl)

simple-IsWord : (t : Bool) → IsWord (simple_text t)
simple-IsWord false = ((λ e. absurd (ground (arith, e))), is_word_lem (simple_text false) refl)
simple-IsWord true = ((λ e. absurd (ground (arith, e))), is_word_lem (simple_text true) refl)

iso-back : (t : Bool) → two_times.from_iso_string (iso_text t) ≡ some t
unfolding str_eq
iso-back false = refl
iso-back true = refl

simple-back : (t : Bool) → two_times.duration_from_string (simple_text t) ≡ some t
unfolding str_eq
simple-back false = refl
simple-back true = refl

pub texts : TextLaws spaces two_times
unfolding spaces
texts = record {
  split_nothing = refl;
  split_words = split-unwords;
  iso_word = iso-IsWord;
  iso_back = iso-back;
  simple_word = simple-IsWord;
  simple_back = simple-back;
}

abbrev pub joins : NodeLatency whole_numbers two_times
joins = record {
  measurements = (false, true) ∷ (true, false) ∷ [];
  statistics = new_statistics whole_numbers (long_int whole_numbers) (pos 3) (pos 0);
}

from_string-print_measurements_example :
    from_string whole_numbers two_times spaces (pos 9) (to_string whole_numbers two_times joins)
    ≡ done (record {
      measurements = (false, true) ∷ (true, false) ∷ [];
      statistics =
          push_all whole_numbers
            (long_int whole_numbers)
            (pos 14000 ∷ pos 250 ∷ [])
            (new_statistics whole_numbers (long_int whole_numbers) (pos 9) (pos 0));
    })
from_string-print_measurements_example =
    from_string-print_measurements whole_numbers two_times spaces texts (pos 9) joins
      (((refl, refl), tt), (tt, tt))

abbrev pub measured : NodeLatency whole_numbers two_times
measured = record {
  measurements = joins.measurements;
  statistics =
      push_all whole_numbers (long_int whole_numbers) (pos 14000 ∷ pos 250 ∷ []) joins.statistics;
}

abbrev collected : GeneralLatency whole_numbers two_times
collected = new_general_latency whole_numbers two_times (pos 1) (pos 2) (pos 10000)

push_latencies-all_micros_example :
    push_latencies whole_numbers two_times (joins ∷ measured ∷ []) collected ≡ record {
      nodes = collected.nodes ++ with_measurements whole_numbers two_times (joins ∷ measured ∷ []);
      means_statistics =
          push_all whole_numbers
            (double whole_numbers)
            (map
              (mean_in_microseconds whole_numbers two_times)
              (with_measurements whole_numbers two_times (joins ∷ measured ∷ [])))
            collected.means_statistics;
      general_statistics =
          push_all whole_numbers
            (long_int whole_numbers)
            (all_micros whole_numbers two_times
              (with_measurements whole_numbers two_times (joins ∷ measured ∷ [])))
            collected.general_statistics;
    }
push_latencies-all_micros_example =
    push_latencies-all_micros whole_numbers two_times (joins ∷ measured ∷ []) collected
