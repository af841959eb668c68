-- ===== src/Metrics/Statistics/Frequencies.antt =====
-- getFrequencyMap() of Statistics<long int>.
use dhtperf.Prelude.{
  ℕ, suc, ◌+◌, ◌<◌, ◌≡◌, ◌≢◌, ◌∙◌, List, [], ◌∷◌, length, arith, false, if◌then◌else◌,
}
use dhtperf.Prelude.Int.{ℤ, pos, eqb_ℤ, eqb_ℤ_iff, quot}
use dhtperf.Metrics.Statistics.{
  Doubles, Statistics, long_int, new_statistics, push, push_all, count_mod, count_up, frequency,
}

-- How many elements fall into a class: those whose quotient by the interval is k.
unfoldable pub in_class : ℤ → ℤ → List ℤ → ℕ
in_class interval k [] = 0
in_class interval k (x ∷ xs) =
    let rest = in_class interval k xs in if eqb_ℤ (quot x interval) k then suc rest else rest

module _ (d : Doubles) where
  frequency-count_up :
      (j k : ℤ) (m : List (ℤ × ℕ))
      → frequency eqb_ℤ k m + 1 < count_mod
      → frequency eqb_ℤ k (count_up d (long_int d) j m)
        ≡ (if eqb_ℤ j k then frequency eqb_ℤ k m + 1 else frequency eqb_ℤ k m)
  unfolding frequency count_up
  frequency-count_up j k [] fits = ground arith
  frequency-count_up j k ((a, n) ∷ m) fits =
      ground (arith, eqb_ℤ_iff a j, eqb_ℤ_iff a k, eqb_ℤ_iff j k, frequency-count_up j k m)

  frequency-push :
      (x k : ℤ) (s : Statistics d.Double ℤ)
      → eqb_ℤ s.frequency_map_interval (pos 0) ≡ false
      → frequency eqb_ℤ k s.frequency_map + 1 < count_mod
      → frequency eqb_ℤ k (push d (long_int d) x s).frequency_map ≡ (
          if eqb_ℤ (quot x s.frequency_map_interval) k
          then frequency eqb_ℤ k s.frequency_map + 1
          else frequency eqb_ℤ k s.frequency_map)
  unfolding push
  frequency-push x k s nonzero fits =
      rw nonzero (frequency-count_up (quot x s.frequency_map_interval) k s.frequency_map fits)

  frequency-push_all :
      (xs : List ℤ) (k : ℤ) (s : Statistics d.Double ℤ)
      → eqb_ℤ s.frequency_map_interval (pos 0) ≡ false
      → frequency eqb_ℤ k s.frequency_map + length xs < count_mod
      → frequency eqb_ℤ k (push_all d (long_int d) xs s).frequency_map
        ≡ frequency eqb_ℤ k s.frequency_map + in_class s.frequency_map_interval k xs
  unfolding push_all in_class
  frequency-push_all [] k s nonzero fits = omega arith
  frequency-push_all (x ∷ xs) k s nonzero fits =
      let next = push d (long_int d) x s in
      let step = frequency-push x k s nonzero (omega arith) in
      let later = frequency-push_all xs k next (unfold push in nonzero) (ground (arith, step)) in
      later ∙ unfold push in ground (arith, step)

  -- Push a list of less than 2^64 elements on a new Statistics<long int> whose interval is not 0. Then the frequency
  -- map holds, for every class of values, the number of elements in it.
  pub push_all-frequency :
      (xs : List ℤ) (k junk interval : ℤ)
      → interval ≢ pos 0
      → length xs < count_mod
      → frequency eqb_ℤ k
          (push_all d (long_int d) xs (new_statistics d (long_int d) junk interval)).frequency_map
        ≡ in_class interval k xs
  unfolding new_statistics frequency
  push_all-frequency xs k junk interval nonzero fits =
      let counted =
        frequency-push_all xs k (new_statistics d (long_int d) junk interval) distinct
          (omega arith) in
      omega (arith, counted)
    where
      distinct : eqb_ℤ interval (pos 0) ≡ false
      distinct = ground (arith, eqb_ℤ_iff interval (pos 0))
