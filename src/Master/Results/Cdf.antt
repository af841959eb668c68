-- ===== src/Master/Results/Cdf.antt =====
-- src/master/ResultProcessor.cpp: the distribution that processLatency accumulates from the frequency map.
use native.Mathlib.Nat.{le-div_iff_mul-le, div-lt_iff_lt-mul}
use dhtperf.Prelude.{
  ℕ, zero, suc, ◌+◌, ◌*◌, ◌/◌, ◌<◌, ◌≤◌, ◌≡◌, refl, List, [], ◌∷◌, some, get_elem?, length, All,
  if◌then◌else◌, arith, ◌==◌, ◌^◌, subst, sym,
}
use dhtperf.Prelude.Int.{
  ℤ, pos, negsuc, eqb_ℤ, eqb_ℤ_iff, quot, scale, ltb_ℤ, to_long, to_long_small, ◌+ℤ◌,
}
use dhtperf.Metrics.Statistics.{Doubles, long_int, new_statistics, push_all, frequency, count_mod}
use dhtperf.Metrics.Statistics.Extremes.{push_all-Extremes}
use dhtperf.Metrics.Statistics.Frequencies.{in_class, push_all-frequency}

-- The rows from the i-th on, `n` of them: the bound of the class in milliseconds, and the share of the total that has accumulated.
-- The sums and products are those of long int; a product that wraps here is undefined behaviour there.
unfoldable pub cdf_rows :
    (d : Doubles) → d.Double → ℕ → ℕ → ℤ → ℤ → List (ℤ × ℕ) → List (ℤ × d.Double)
unfolding to_long
cdf_rows d total zero i accumulated interval map = []
cdf_rows d total (suc n) i accumulated interval map =
    let accumulated = to_long (accumulated +ℤ pos (frequency eqb_ℤ (pos i) map)) in
    (quot (to_long (scale (i + 1) interval)) (pos 1000), d.div (d.of_int accumulated) total)
    ∷ cdf_rows d total n (i + 1) accumulated interval map

-- How many elements are below a bound.
unfoldable pub count_below : ℕ → List ℤ → ℕ
count_below b [] = 0
count_below b (x ∷ xs) = let rest = count_below b xs in if ltb_ℤ x (pos b) then suc rest else rest

abbrev pub IsDuration : ℤ → Type 0
IsDuration (pos n) = Unit {0}
IsDuration (negsuc n) = ⊥

class_bounds :
    (a k i : ℕ)
    → 0 < k
    → ((a / k ≡ i) → (i * k ≤ a) × (a < (i + 1) * k)) × (i * k ≤ a → a < (i + 1) * k → a / k ≡ i)
class_bounds a k i positive =
    let low = le-div_iff_mul-le {x = i} {y = a} positive in
    let high = div-lt_iff_lt-mul {x = a} {y = i + 1} positive in
    (
      (λ e. (low.0 (omega (arith, e)), high.0 (omega (arith, e)))),
      (λ l h. omega (arith, low.1 l, high.1 h)),
    )

eqb_pos : (a b : ℕ) → eqb_ℤ (pos a) (pos b) ≡ (a == b)
unfolding eqb_ℤ
eqb_pos a b = refl

-- The elements of the i-th class are those between its bounds.
count_below-in_class :
    (k i : ℕ) (xs : List ℤ)
    → 0 < k
    → All IsDuration xs
    → count_below (i * k) xs + in_class (pos k) (pos i) xs ≡ count_below ((i + 1) * k) xs
unfolding count_below in_class quot
count_below-in_class k i [] positive h = omega arith
count_below-in_class k i (negsuc n ∷ xs) positive h = absurd (h.0)
count_below-in_class k i (pos a ∷ xs) positive h =
    let (inside, back) = class_bounds a k i positive in
    let wider : (i + 1) * k ≡ i * k + k = grind arith in
    let rest = count_below-in_class k i xs positive h.1 in
    rw (eqb_pos (a / k) i) (ground (arith, inside, back, wider, rest))

count_below-le : (b : ℕ) (xs : List ℤ) → count_below b xs ≤ length xs
unfolding count_below
count_below-le b [] = omega arith
count_below-le b (x ∷ xs) = ground (arith, count_below-le b xs)

-- A row, where nothing wraps.
row_count_below :
    (d : Doubles) (total : d.Double) (n j k a : ℕ) (xs : List ℤ) (m : List (ℤ × ℕ))
    → 0 < k
    → All IsDuration xs
    → ((q : ℕ) → frequency eqb_ℤ (pos q) m ≡ in_class (pos k) (pos q) xs)
    → length xs < 2 ^ 63
    → (j + suc n) * k < 2 ^ 63
    → count_below (j * k) xs ≡ a
    → cdf_rows d total (suc n) j (pos a) (pos k) m
      ≡ (pos ((j + 1) * k / 1000), d.div (d.of_int (pos (count_below ((j + 1) * k) xs))) total)
        ∷ cdf_rows d total n (j + 1) (pos (count_below ((j + 1) * k) xs)) (pos k) m
unfolding cdf_rows quot scale ◌+ℤ◌
row_count_below d total n j k a xs m positive h counts fits small start =
    let split : (j + suc n) * k ≡ (j + 1) * k + n * k = grind arith in
    let sum : a + in_class (pos k) (pos j) xs ≡ count_below ((j + 1) * k) xs =
      omega (arith, start, count_below-in_class k j xs positive h) in
    let few : count_below ((j + 1) * k) xs < 2 ^ 63 =
      omega (arith, count_below-le ((j + 1) * k) xs, fits) in
    rw
      (
        counts j,
        sum,
        to_long_small (count_below ((j + 1) * k) xs) few,
        to_long_small ((j + 1) * k) (omega (arith, split, small)),
      )
      refl

cdf_rows-count_below :
    (d : Doubles) (total : d.Double) (n j k a i : ℕ) (xs : List ℤ) (m : List (ℤ × ℕ))
    → 0 < k
    → All IsDuration xs
    → ((q : ℕ) → frequency eqb_ℤ (pos q) m ≡ in_class (pos k) (pos q) xs)
    → length xs < 2 ^ 63
    → (j + n) * k < 2 ^ 63
    → count_below (j * k) xs ≡ a
    → i < n
    → get_elem? (cdf_rows d total n j (pos a) (pos k) m) i
      ≡ some (
        pos ((j + i + 1) * k / 1000),
        d.div (d.of_int (pos (count_below ((j + i + 1) * k) xs))) total,
      )
cdf_rows-count_below d total zero j k a i xs m positive h counts fits small start lt =
    absurd (omega arith)
cdf_rows-count_below d total (suc n) j k a zero xs m positive h counts fits small start lt =
    let here : j + 0 + 1 ≡ j + 1 = omega arith in
    rw (row_count_below d total n j k a xs m positive h counts fits small start, here) refl
cdf_rows-count_below d total (suc n) j k a (suc i) xs m positive h counts fits small start lt =
    let there : j + 1 + i + 1 ≡ j + suc i + 1 = omega arith in
    let rows : j + 1 + n ≡ j + suc n = omega arith in
    rw (row_count_below d total n j k a xs m positive h counts fits small start, ← there)
      (cdf_rows-count_below d total n (j + 1) k (count_below ((j + 1) * k) xs) i xs m positive h
        counts fits (rw rows small) refl (omega arith))

none_below : (k : ℕ) (ys : List ℤ) → All IsDuration ys → count_below (0 * k) ys ≡ 0
unfolding count_below
none_below k [] g = refl
none_below k (negsuc n ∷ ys) g = absurd (g.0)
none_below k (pos a ∷ ys) g =
    let zero_bound : 0 * k ≡ 0 = omega arith in ground (arith, none_below k ys g.1, zero_bound)

push_all-count :
    (d : Doubles) (xs : List ℤ) (junk interval : ℤ)
    → length xs < count_mod
    → (push_all d (long_int d) xs (new_statistics d (long_int d) junk interval)).count ≡ length xs
unfolding push_all new_statistics
push_all-count d [] junk interval fits = refl
push_all-count d (x ∷ xs) junk interval fits = (push_all-Extremes d x xs junk interval fits).0

-- The distribution of less than 2^63 durations, none of them negative, over classes of k microseconds, k positive and 30 * k below
-- 2^63, so that no long int overflows: row i of the thirty that processLatency writes stands for (i + 1) * k / 1000 milliseconds, and the
-- number in it is that of the durations below (i + 1) * k microseconds, divided by that of all.
pub cdf_rows-push_all :
    (d : Doubles) (xs : List ℤ) (junk : ℤ) (k i : ℕ)
    → 0 < k
    → 30 * k < 2 ^ 63
    → All IsDuration xs
    → length xs < 2 ^ 63
    → i < 30
    → let s = push_all d (long_int d) xs (new_statistics d (long_int d) junk (pos k)) in
      get_elem? (cdf_rows d (d.of_int (pos s.count)) 30 0 (pos 0) (pos k) s.frequency_map) i
      ≡ some (
        pos ((i + 1) * k / 1000),
        d.div (d.of_int (pos (count_below ((i + 1) * k) xs))) (d.of_int (pos (length xs))),
      )
cdf_rows-push_all d xs junk k i positive small h fits lt =
    let s = push_all d (long_int d) xs (new_statistics d (long_int d) junk (pos k)) in
    let here : 0 + i + 1 ≡ i + 1 = omega arith in
    let rows : (0 + 30) * k ≡ 30 * k = omega arith in
    let row =
      cdf_rows-count_below d (d.of_int (pos (length xs))) 30 0 k 0 i xs s.frequency_map positive h
        (λ q.
          push_all-frequency d xs (pos q) junk (pos k) (ground (arith, eqb_ℤ_iff (pos k) (pos 0)))
            (omega arith))
        fits (rw rows small) (none_below k xs h) lt in
    subst
      (λ n.
        get_elem? (cdf_rows d (d.of_int (pos n)) 30 0 (pos 0) (pos k) s.frequency_map) i
        ≡ some (
          pos ((i + 1) * k / 1000),
          d.div (d.of_int (pos (count_below ((i + 1) * k) xs))) (d.of_int (pos (length xs))),
        ))
      (sym (push_all-count d xs junk (pos k) (omega arith))) (rw (← here) row)
