-- ===== src/Metrics/Statistics.antt =====
-- src/metrics/Statistics.h. The template's T and the type double are behind interfaces.
pub mod Extremes
pub mod Frequencies
use dhtperf.Prelude.{
  ℕ, ◌+◌, ◌%◌, ◌^◌, List, [], ◌∷◌, Bool, true, false, not, ◌==◌, if◌then◌else◌, Option, none, some,
  lookup, insert, Eq,
}
use dhtperf.Prelude.Int.{ℤ, pos, ltb_ℤ, eqb_ℤ, quot, int_keys}

-- double: a type with the operations that the program uses.
pub record Doubles : Type 1 where
  pub Double : Type 0
  pub zero : Double
  pub add : Double → Double → Double
  pub sub : Double → Double → Double
  pub div : Double → Double → Double
  pub less : Double → Double → Bool
  pub equal : Double → Double → Bool
  pub of_int : ℤ → Double

-- What the template asks of T: <, /, == for the keys of a map, the test `if (x)`, and the conversion
-- to double.
pub record Numeric (Double T : Type 0) : Type 0 where
  pub less : T → T → Bool
  pub quotient : T → T → T
  pub same : T → T → Bool
  pub is_zero : T → Bool
  pub to_double : T → Double

abbrev pub count_mod : ℕ
count_mod = 2 ^ 64

pub record Statistics (Double T : Type 0) : Type 0 where
  pub mean : Double
  pub max : T
  pub min : T
  pub count : ℕ
  pub frequency_map_interval : T
  pub frequency_map : List (T × ℕ)

-- operator[] of a map of counters: a key that is not there counts 0.
unfoldable pub frequency : {T : Type 0} → (T → T → Bool) → T → List (T × ℕ) → ℕ
frequency same k [] = 0
frequency same k ((j, n) ∷ m) = if same j k then n else frequency same k m

module _ (d : Doubles) {T : Type 0} (num : Numeric d.Double T) where
  -- The constructor leaves max_ and min_ uninitialised: they hold any value.
  unfoldable pub new_statistics : T → T → Statistics d.Double T
  new_statistics junk interval = record {
    mean = d.zero;
    max = junk;
    min = junk;
    count = 0;
    frequency_map_interval = interval;
    frequency_map = [];
  }

  -- frequencyMap_[k]++
  unfoldable pub count_up : T → List (T × ℕ) → List (T × ℕ)
  count_up k [] = (k, 1) ∷ []
  count_up k ((j, n) ∷ m) =
      if num.same j k then (j, (n + 1) % count_mod) ∷ m else (j, n) ∷ count_up k m

  unfoldable pub push : T → Statistics d.Double T → Statistics d.Double T
  unfolding count_up
  push element s =
      let count = (s.count + 1) % count_mod in
      record s {
        max = if s.count == 0 then element else if num.less s.max element then element else s.max;
        min = if s.count == 0 then element else if num.less element s.min then element else s.min;
        count = count;
        mean = d.add s.mean (d.div (d.sub (num.to_double element) s.mean) (d.of_int (pos count)));
        frequency_map =
            if num.is_zero s.frequency_map_interval
            then s.frequency_map
            else count_up (num.quotient element s.frequency_map_interval) s.frequency_map;
      }

  -- Any number of pushes, one after the other.
  unfoldable pub push_all : List T → Statistics d.Double T → Statistics d.Double T
  unfolding push
  push_all [] s = s
  push_all (x ∷ xs) s = push_all xs (push x s)

-- Statistics<long int>
abbrev pub long_int : (d : Doubles) → Numeric d.Double ℤ
long_int d = record {
  less = ltb_ℤ;
  quotient = quot;
  same = eqb_ℤ;
  is_zero = λ x. eqb_ℤ x (pos 0);
  to_double = d.of_int;
}

-- Statistics<double>
abbrev pub double : (d : Doubles) → Numeric d.Double d.Double
double d = record {
  less = d.less;
  quotient = d.div;
  same = d.equal;
  is_zero = λ x. d.equal x d.zero;
  to_double = λ x. x;
}
