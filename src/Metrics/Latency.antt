-- ===== src/Metrics/Latency.antt =====
-- src/metrics/NodeLatency.cpp and src/metrics/GeneralLatency.cpp. boost::posix_time is behind an interface.
pub mod Text
pub mod Collected
use dhtperf.Prelude.{
  ℕ, List, [], ◌∷◌, ◌++◌, Bytes, Option, none, some, Bool, true, false, ◌==◌, if◌then◌else◌,
  Outcome, done, exits, aborts, ◌>>=◌,
}
use dhtperf.Prelude.Int.{ℤ, pos}
use dhtperf.Common.{Boost}
use dhtperf.Metrics.Statistics.{Doubles, Statistics, long_int, double, new_statistics, push}

-- A conversion from a text is none where it throws.
pub record PosixTime : Type 1 where
  pub Ptime : Type 0
  pub Duration : Type 0
  pub before : Ptime → Ptime → Bool
  pub total_microseconds : Duration → ℤ
  pub from_iso_string : Bytes → Option Ptime
  pub to_iso_string : Ptime → Bytes
  pub duration_from_string : Bytes → Option Duration
  pub to_simple_string : Duration → Bytes

-- An exception of boost::date_time that nothing catches.
abbrev pub or_throw : {A : Type 0} → Option A → Outcome A
or_throw none = aborts
or_throw (some a) = done a

module _ (d : Doubles) (clock : PosixTime) where
  open clock use {
    Ptime, Duration, before, total_microseconds, from_iso_string, to_iso_string,
    duration_from_string, to_simple_string,
  }

  -- measurements_ is a std::map, in the order of its keys.
  pub record NodeLatency : Type 0 where
    pub measurements : List (Ptime × Duration)
    pub statistics : Statistics d.Double ℤ

  -- The constructor without arguments; max_ and min_ of the statistics hold any value.
  unfoldable pub new_latency : ℤ → NodeLatency
  unfolding new_statistics
  new_latency junk = record {
    measurements = [];
    statistics = new_statistics d (long_int d) junk (pos 0);
  }

  -- measurements_[time] = duration
  unfoldable pub measure : Ptime → Duration → List (Ptime × Duration) → List (Ptime × Duration)
  measure t x [] = (t, x) ∷ []
  measure t x ((s, y) ∷ m) =
      if before t s
      then (t, x) ∷ (s, y) ∷ m
      else if before s t
      then (s, y) ∷ measure t x m
      else (s, x) ∷ m

  unfoldable pub push_with_time : Ptime → Duration → NodeLatency → NodeLatency
  unfolding measure push
  push_with_time t x n = record {
    measurements = measure t x n.measurements;
    statistics = push d (long_int d) (total_microseconds x) n.statistics;
  }

  -- NodeLatency::push, given what microsec_clock::universal_time() returns.
  unfoldable pub push_duration : Ptime → Duration → NodeLatency → NodeLatency
  unfolding push_with_time
  push_duration time duration n = push_with_time time duration n

  -- The loop of the constructor from a text, over the texts between its spaces, two at a time. An empty text is skipped
  -- together with the one behind it.
  unfoldable pub read_measurements : List Bytes → NodeLatency → Outcome NodeLatency
  unfolding push_with_time
  read_measurements [] n = done n
  read_measurements ([] ∷ []) n = done n
  read_measurements ([] ∷ text ∷ texts) n = read_measurements texts n
  read_measurements ((c ∷ s) ∷ []) n = or_throw (from_iso_string (c ∷ s)) >>= λ time. exits 1
  read_measurements ((c ∷ s) ∷ text ∷ texts) n = do
    time ← or_throw (from_iso_string (c ∷ s))
    duration ← or_throw (duration_from_string text)
    read_measurements texts (push_with_time time duration n)

  unfoldable pub from_string : Boost → ℤ → Bytes → Outcome NodeLatency
  unfolding read_measurements new_latency
  from_string boost junk text = read_measurements (boost.split (b' ' ∷ []) text) (new_latency junk)

  unfoldable pub print_measurements : List (Ptime × Duration) → Bytes
  print_measurements [] = []
  print_measurements ((t, x) ∷ []) = to_iso_string t ++ (b' ' ∷ to_simple_string x)
  print_measurements ((t, x) ∷ u ∷ m) =
      to_iso_string t ++ (b' ' ∷ (to_simple_string x ++ (b' ' ∷ print_measurements (u ∷ m))))

  unfoldable pub to_string : NodeLatency → Bytes
  unfolding print_measurements
  to_string n = print_measurements n.measurements

  unfoldable pub latency_count : NodeLatency → ℕ
  latency_count n = n.statistics.count

  unfoldable pub mean_in_microseconds : NodeLatency → d.Double
  mean_in_microseconds n = if n.statistics.count == 0 then d.zero else n.statistics.mean

  unfoldable pub max_in_microseconds : NodeLatency → ℤ
  max_in_microseconds n = if n.statistics.count == 0 then pos 0 else n.statistics.max

  unfoldable pub min_in_microseconds : NodeLatency → ℤ
  min_in_microseconds n = if n.statistics.count == 0 then pos 0 else n.statistics.min

  pub record GeneralLatency : Type 0 where
    pub nodes : List NodeLatency
    pub means_statistics : Statistics d.Double d.Double
    pub general_statistics : Statistics d.Double ℤ

  unfoldable pub new_general_latency : d.Double → ℤ → ℤ → GeneralLatency
  unfolding new_statistics
  new_general_latency junk_mean junk frequency_map_interval = record {
    nodes = [];
    means_statistics = new_statistics d (double d) junk_mean d.zero;
    general_statistics = new_statistics d (long_int d) junk frequency_map_interval;
  }

  -- BOOST_FOREACH over the measurements of a node.
  unfoldable pub push_measurements :
      List (Ptime × Duration) → Statistics d.Double ℤ → Statistics d.Double ℤ
  unfolding push
  push_measurements [] s = s
  push_measurements ((t, x) ∷ m) s =
      push_measurements m (push d (long_int d) (total_microseconds x) s)

  unfoldable pub push_latency : NodeLatency → GeneralLatency → GeneralLatency
  unfolding latency_count mean_in_microseconds push_measurements push
  push_latency node g = if latency_count node == 0 then g else record {
    nodes = g.nodes ++ node ∷ [];
    means_statistics = push d (double d) (mean_in_microseconds node) g.means_statistics;
    general_statistics = push_measurements node.measurements g.general_statistics;
  }

  -- The results of a GeneralLatency: 0 where no node has been pushed.
  unfoldable pub or_zero : {A : Type 0} → A → A → List NodeLatency → A
  or_zero zero_value value [] = zero_value
  or_zero zero_value value (n ∷ ns) = value

  unfoldable pub general_max_in_microseconds : GeneralLatency → ℤ
  unfolding or_zero
  general_max_in_microseconds g = or_zero (pos 0) g.general_statistics.max g.nodes

  unfoldable pub general_min_in_microseconds : GeneralLatency → ℤ
  unfolding or_zero
  general_min_in_microseconds g = or_zero (pos 0) g.general_statistics.min g.nodes

  unfoldable pub mean_of_means_in_microseconds : GeneralLatency → d.Double
  unfolding or_zero
  mean_of_means_in_microseconds g = or_zero d.zero g.means_statistics.mean g.nodes

  unfoldable pub max_mean_in_microseconds : GeneralLatency → d.Double
  unfolding or_zero
  max_mean_in_microseconds g = or_zero d.zero g.means_statistics.max g.nodes

  unfoldable pub min_mean_in_microseconds : GeneralLatency → d.Double
  unfolding or_zero
  min_mean_in_microseconds g = or_zero d.zero g.means_statistics.min g.nodes

  unfoldable pub general_mean_in_microseconds : GeneralLatency → d.Double
  unfolding or_zero
  general_mean_in_microseconds g = or_zero d.zero g.general_statistics.mean g.nodes

  unfoldable pub general_count : GeneralLatency → ℕ
  unfolding or_zero
  general_count g = or_zero 0 g.general_statistics.count g.nodes
