-- ===== src/Metrics/Statistics/Extremes.antt =====
-- max(), min() and count() of Statistics<long int>.
use dhtperf.Prelude.{
  ℕ, ◌+◌, ◌<◌, ◌≡◌, refl, ◌∙◌, List, [], ◌∷◌, length, ◌⊎◌, inl, inr, arith, if◌then◌else◌, sym,
  subst,
}
use dhtperf.Prelude.Int.{ℤ, ltb_ℤ, ◌≤ℤ◌}
use dhtperf.Metrics.Statistics.{
  Doubles, Statistics, long_int, new_statistics, push, push_all, count_mod,
}

abbrev pub Occurs : ℤ → List ℤ → Type 0
Occurs a [] = ⊥
Occurs a (x ∷ xs) = (a ≡ x) ⊎ Occurs a xs

≤ℤ_trans : (a b c : ℤ) → a ≤ℤ b → b ≤ℤ c → a ≤ℤ c
≤ℤ_trans a b c h k = omega arith

≤ℤ_refl : (a : ℤ) → a ≤ℤ a
≤ℤ_refl a = omega arith

pick_max :
    (a x : ℤ)
    → (a ≤ℤ (if ltb_ℤ a x then x else a))
      × (x ≤ℤ (if ltb_ℤ a x then x else a))
      × (((if ltb_ℤ a x then x else a) ≡ a) ⊎ ((if ltb_ℤ a x then x else a) ≡ x))
pick_max a x = ground arith

pick_min :
    (a x : ℤ)
    → ((if ltb_ℤ x a then x else a) ≤ℤ a)
      × ((if ltb_ℤ x a then x else a) ≤ℤ x)
      × (((if ltb_ℤ x a then x else a) ≡ a) ⊎ ((if ltb_ℤ x a then x else a) ≡ x))
pick_min a x = ground arith

abbrev pub IsMaximum : ℤ → List ℤ → Type 0
IsMaximum m xs = Occurs m xs × ((y : ℤ) → Occurs y xs → y ≤ℤ m)

abbrev pub IsMinimum : ℤ → List ℤ → Type 0
IsMinimum m xs = Occurs m xs × ((y : ℤ) → Occurs y xs → m ≤ℤ y)

-- The larger p of a and x stands for both.
IsMaximum-split :
    (m p a x : ℤ) (xs : List ℤ)
    → (a ≤ℤ p) × (x ≤ℤ p) × ((p ≡ a) ⊎ (p ≡ x))
    → IsMaximum m (p ∷ xs)
    → IsMaximum m (a ∷ x ∷ xs)
IsMaximum-split m p a x xs (a≤p, x≤p, which) (occurs, above) = (
  elim occurs [
    | inl m≡p ↦ elim which [ inl p≡a ↦ inl (m≡p ∙ p≡a) | inr p≡x ↦ inr (inl (m≡p ∙ p≡x)) ]
    | inr later ↦ inr (inr later)
  ],
  λ y h. elim h [
    | inl y≡a ↦ ≤ℤ_trans y p m (subst (λ z. z ≤ℤ p) (sym y≡a) a≤p) (above p (inl refl))
    | inr (inl y≡x) ↦ ≤ℤ_trans y p m (subst (λ z. z ≤ℤ p) (sym y≡x) x≤p) (above p (inl refl))
    | inr (inr later) ↦ above y (inr later)
  ],
)

IsMinimum-split :
    (m p a x : ℤ) (xs : List ℤ)
    → (p ≤ℤ a) × (p ≤ℤ x) × ((p ≡ a) ⊎ (p ≡ x))
    → IsMinimum m (p ∷ xs)
    → IsMinimum m (a ∷ x ∷ xs)
IsMinimum-split m p a x xs (p≤a, p≤x, which) (occurs, below) = (
  elim occurs [
    | inl m≡p ↦ elim which [ inl p≡a ↦ inl (m≡p ∙ p≡a) | inr p≡x ↦ inr (inl (m≡p ∙ p≡x)) ]
    | inr later ↦ inr (inr later)
  ],
  λ y h. elim h [
    | inl y≡a ↦ ≤ℤ_trans m p y (below p (inl refl)) (subst (λ z. p ≤ℤ z) (sym y≡a) p≤a)
    | inr (inl y≡x) ↦ ≤ℤ_trans m p y (below p (inl refl)) (subst (λ z. p ≤ℤ z) (sym y≡x) p≤x)
    | inr (inr later) ↦ below y (inr later)
  ],
)

abbrev pub Extremes : {D : Type 0} → Statistics D ℤ → ℕ → List ℤ → Type 0
Extremes s n xs = (s.count ≡ n) × IsMaximum s.max xs × IsMinimum s.min xs

module _ (d : Doubles) where
  push-count :
      (x : ℤ) (s : Statistics d.Double ℤ)
      → s.count + 1 < count_mod
      → (push d (long_int d) x s).count ≡ s.count + 1
  unfolding push
  push-count x s fits = omega arith

  push-max :
      (x : ℤ) (s : Statistics d.Double ℤ)
      → 0 < s.count
      → (push d (long_int d) x s).max ≡ (if ltb_ℤ s.max x then x else s.max)
  unfolding push
  push-max x s counted = ground arith

  push-min :
      (x : ℤ) (s : Statistics d.Double ℤ)
      → 0 < s.count
      → (push d (long_int d) x s).min ≡ (if ltb_ℤ x s.min then x else s.min)
  unfolding push
  push-min x s counted = ground arith

  push_all-Extremes_from :
      (xs : List ℤ) (s : Statistics d.Double ℤ)
      → 0 < s.count
      → s.count + length xs < count_mod
      → ((push_all d (long_int d) xs s).count ≡ s.count + length xs)
        × IsMaximum (push_all d (long_int d) xs s).max (s.max ∷ xs)
        × IsMinimum (push_all d (long_int d) xs s).min (s.min ∷ xs)
  unfolding push_all
  push_all-Extremes_from [] s counted fits = (
    omega arith,
    (
      inl refl,
      λ y h. elim h [
        | inl same ↦ subst (λ z. z ≤ℤ s.max) (sym same) (≤ℤ_refl s.max)
        | inr none_left ↦ elim none_left [ ]
      ],
    ),
    (
      inl refl,
      λ y h. elim h [
        | inl same ↦ subst (λ z. s.min ≤ℤ z) (sym same) (≤ℤ_refl s.min)
        | inr none_left ↦ elim none_left [ ]
      ],
    ),
  )
  push_all-Extremes_from (x ∷ xs) s counted fits =
      let next = push d (long_int d) x s in
      let one_more = push-count x s (omega arith) in
      let (count, maximum, minimum) =
        push_all-Extremes_from xs next (omega (arith, one_more)) (omega (arith, one_more)) in
      let larger =
        subst (λ p. (s.max ≤ℤ p) × (x ≤ℤ p) × ((p ≡ s.max) ⊎ (p ≡ x))) (sym (push-max x s counted))
          (pick_max s.max x) in
      let smaller =
        subst (λ p. (p ≤ℤ s.min) × (p ≤ℤ x) × ((p ≡ s.min) ⊎ (p ≡ x))) (sym (push-min x s counted))
          (pick_min s.min x) in
      (
        omega (arith, one_more, count),
        IsMaximum-split (push_all d (long_int d) xs next).max next.max s.max x xs larger maximum,
        IsMinimum-split (push_all d (long_int d) xs next).min next.min s.min x xs smaller minimum,
      )

  -- Push the elements of a list that is not empty and has less than 2^64 elements on a new Statistics<long
  -- int>, whatever its uninitialised members hold. Then count() is the length of the list, max() is an
  -- element of it that none exceeds, and min() one that exceeds none.
  pub push_all-Extremes :
      (x : ℤ) (xs : List ℤ) (junk interval : ℤ)
      → length (x ∷ xs) < count_mod
      → Extremes
          (push_all d (long_int d) (x ∷ xs) (new_statistics d (long_int d) junk interval))
          (length (x ∷ xs))
          (x ∷ xs)
  unfolding push_all push new_statistics
  push_all-Extremes x xs junk interval fits =
      let (count, maximum, minimum) =
        push_all-Extremes_from xs
          (push d (long_int d) x (new_statistics d (long_int d) junk interval)) (omega arith)
          (omega arith) in
      (omega (arith, count), maximum, minimum)
