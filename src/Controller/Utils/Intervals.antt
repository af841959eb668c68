-- ===== src/Controller/Utils/Intervals.antt =====
-- What getTimeFromString makes of the two formats that its comment allows.
use dhtperf.Prelude.{
  ℕ, ◌^◌, ◌<◌, ◌≡◌, refl, ap, sym, ◌∙◌, [], ◌∷◌, ◌++◌, Bytes, true, false, is_digit, decimal,
  decimal_begins, scan, scan-decimal, done, exits, arith, append-nil, ltb,
}
use dhtperf.Prelude.Int.{ℤ, pos, ltb_ℤ, ◌≤ℤ◌}
use dhtperf.Metrics.Streams.{skip_spaces, is_space}
use dhtperf.Controller.Utils.{Randomness, uniform_random_number}
use dhtperf.Controller.Utils.Times.{
  matched, convert_digits, convert_sign, convert_int, one_set, both_set, scan_second, scan_dash,
  sscanf, get_time_from_string,
}

-- uniform_int draws from the closed interval.
abbrev pub DrawsInside : Randomness → Type 0
DrawsInside random =
    (min max : ℤ) (w : random.World)
    → min ≤ℤ max
    → (min ≤ℤ (random.uniform_int min max w).0) × ((random.uniform_int min max w).0 ≤ℤ max)

convert_digit :
    (c : ℕ) (s : Bytes) → is_digit c ≡ true → convert_int (c ∷ s) ≡ convert_digits false (c ∷ s)
unfolding convert_int convert_sign skip_spaces is_space is_digit
convert_digit c s digit = ground arith

-- What may follow a number: the end, or a dash.
abbrev Stops : Bytes → Type 0
Stops [] = Unit {0}
Stops (c ∷ s) = c ≡ b'-'

scan-Stops : (n : ℕ) (rest : Bytes) → Stops rest → scan n rest ≡ (n, rest)
unfolding scan is_digit
scan-Stops n [] h = refl
scan-Stops n (c ∷ rest) h = ground arith

convert_int-decimal :
    (n : ℕ) (rest : Bytes)
    → n < 2 ^ 31
    → Stops rest
    → convert_int (decimal n ++ rest) ≡ matched (pos n) rest
unfolding convert_digits
convert_int-decimal n rest fits stops =
    let (c, s, begins, digit) = decimal_begins n in
    let whole : scan 0 (c ∷ s ++ rest) ≡ (n, rest) =
      ap (λ t. scan 0 (t ++ rest)) (sym begins) ∙ (scan-decimal n rest ∙ scan-Stops n rest stops) in
    let in_range : ltb n (2 ^ 31) ≡ true = ground arith in
    ap (λ t. convert_int (t ++ rest)) begins
    ∙ (convert_digit c (s ++ rest) digit ∙ rw (whole, digit, in_range) refl)

sscanf-decimal : (n : ℕ) → n < 2 ^ 31 → sscanf (decimal n) ≡ one_set (pos n)
unfolding sscanf scan_dash
sscanf-decimal n fits =
    ap sscanf (sym (append-nil (decimal n))) ∙ rw (convert_int-decimal n [] fits tt, sscanf) refl

sscanf-interval :
    (a b : ℕ)
    → a < 2 ^ 31
    → b < 2 ^ 31
    → sscanf (decimal a ++ b'-' ∷ decimal b) ≡ both_set (pos a) (pos b)
unfolding sscanf scan_dash scan_second
sscanf-interval a b fa fb =
    let second = ap convert_int (sym (append-nil (decimal b))) ∙ convert_int-decimal b [] fb tt in
    rw (convert_int-decimal a (b'-' ∷ decimal b) fa refl, sscanf, second, scan_second) refl

module _ (random : Randomness) where
  open random use {World, open_device, uniform_int}

  -- For numbers a < b below 2^31, where the random device can be opened and uniform_int draws from its closed interval: the
  -- text of a is the time a, and draws nothing; the text a-b is a time from a to b; the texts b-a and a-a end the process with
  -- an error.
  pub get_time_from_string-decimal :
      (a b : ℕ) (w w' : World)
      → DrawsInside random
      → a < b
      → b < 2 ^ 31
      → open_device w ≡ done w'
      → (get_time_from_string random (decimal a) w ≡ done (pos a, w))
        × (get_time_from_string random (decimal a ++ b'-' ∷ decimal b) w
            ≡ done (uniform_int (pos a) (pos b) w'))
        × (pos a ≤ℤ (uniform_int (pos a) (pos b) w').0)
        × ((uniform_int (pos a) (pos b) w').0 ≤ℤ pos b)
        × (get_time_from_string random (decimal b ++ b'-' ∷ decimal a) w ≡ exits 1)
        × (get_time_from_string random (decimal a ++ b'-' ∷ decimal a) w ≡ exits 1)
  unfolding get_time_from_string uniform_random_number
  get_time_from_string-decimal a b w w' inside lt fb device =
      let fa : a < 2 ^ 31 = omega arith in
      let test : ltb_ℤ (pos a) (pos b) ≡ true = ground arith in
      let reversed : ltb_ℤ (pos b) (pos a) ≡ false = ground arith in
      let same : ltb_ℤ (pos a) (pos a) ≡ false = ground arith in
      let (low, high) = inside (pos a) (pos b) w' (omega arith) in
      (
        rw (sscanf-decimal a fa, get_time_from_string) refl,
        rw (sscanf-interval a b fa fb, get_time_from_string, test, device) refl,
        low,
        high,
        rw (sscanf-interval b a fb fa, get_time_from_string, reversed) refl,
        rw (sscanf-interval a a fa fa, get_time_from_string, same) refl,
      )
