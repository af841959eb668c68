-- ===== src/Tests/Numbers.antt =====
-- Whole numbers in the place of doubles: max, min and count do not look at them, and the others only hand
-- them on.
use dhtperf.Prelude.{true, false}
use dhtperf.Prelude.Int.{ℤ, pos}
use dhtperf.Metrics.Statistics.{Doubles}

abbrev pub whole_numbers : Doubles
whole_numbers = record {
  Double = ℤ;
  zero = pos 0;
  add = λ a b. a;
  sub = λ a b. a;
  div = λ a b. a;
  less = λ a b. false;
  equal = λ a b. true;
  of_int = λ a. a;
}
