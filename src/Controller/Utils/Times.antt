-- ===== src/Controller/Utils/Times.antt =====
-- Utils::getTimeFromString: "X" is an exact time, and "X-Y" an interval to draw one from.
use dhtperf.Prelude.{
  ◌^◌, [], ◌∷◌, Bytes, Bool, true, false, ◌==◌, ltb, leb, if◌then◌else◌, is_digit, scan, Outcome,
  done, exits, faults,
}
use dhtperf.Prelude.Int.{ℤ, pos, minus, ltb_ℤ}
use dhtperf.Metrics.Streams.{skip_spaces}
use dhtperf.Controller.Utils.{Randomness, uniform_random_number}

-- What the conversion %d of sscanf does: it matches a number, fails at a character, finds the end of the text, or
-- meets a number that no int can hold, which the standard leaves undefined.
pub data Converted : Type 0 where
  matched : ℤ → Bytes → Converted
  mismatched : Converted
  ended : Converted
  overflowed : Converted

unfoldable pub convert_digits : Bool → Bytes → Converted
unfolding is_digit
convert_digits negative [] = mismatched
convert_digits negative (c ∷ s) =
    let (n, rest) = scan 0 (c ∷ s) in
    if is_digit c
    then (if negative
        then (if leb n (2 ^ 31) then matched (minus n) rest else overflowed)
        else if ltb n (2 ^ 31)
        then matched (pos n) rest
        else overflowed)
    else mismatched

unfoldable pub convert_sign : Bytes → Converted
unfolding convert_digits
convert_sign [] = ended
convert_sign (c ∷ s) =
    if c == b'-'
    then convert_digits true s
    else if c == b'+'
    then convert_digits false s
    else convert_digits false (c ∷ s)

unfoldable pub convert_int : Bytes → Converted
unfolding convert_sign
convert_int text = convert_sign (skip_spaces text)

-- The number of conversions that sscanf(text, "%d-%d", &min, &max) returns, with what it has stored; `unset` is EOF,
-- before any conversion.
pub data Scanned : Type 0 where
  unset : Scanned
  none_set : Scanned
  one_set : ℤ → Scanned
  both_set : ℤ → ℤ → Scanned
  undefined : Scanned

unfoldable pub scan_second : ℤ → Bytes → Scanned
scan_second min text = elim (convert_int text) [
  | matched max rest ↦ both_set min max
  | mismatched ↦ one_set min
  | ended ↦ one_set min
  | overflowed ↦ undefined
]

-- The character - between the two conversions.
unfoldable pub scan_dash : ℤ → Bytes → Scanned
unfolding scan_second
scan_dash min [] = one_set min
scan_dash min (c ∷ s) = if c == b'-' then scan_second min s else one_set min

unfoldable pub sscanf : Bytes → Scanned
unfolding scan_dash
sscanf text = elim (convert_int text) [
  | matched min rest ↦ scan_dash min rest
  | mismatched ↦ none_set
  | ended ↦ unset
  | overflowed ↦ undefined
]

module _ (random : Randomness) where
  open random use {World}

  -- At the end of the text before any number, sscanf returns EOF, which the tests let through to two variables
  -- that have never been set.
  unfoldable pub get_time_from_string : Bytes → World → Outcome (ℤ × World)
  unfolding sscanf
  get_time_from_string text w = elim (sscanf text) [
    | unset ↦ faults
    | none_set ↦ exits 1
    | one_set min ↦ done (min, w)
    | both_set min max ↦ if ltb_ℤ min max then uniform_random_number random min max w else exits 1
    | undefined ↦ faults
  ]
