-- ===== src/Controller/Loop/Waits.antt =====
-- How long the loop of start waits.
use dhtperf.Prelude.{
  subst, ℕ, ◌<◌, ◌≡◌, refl, sym, ap, ◌∙◌, none, some, arith, leb, ◌||◌, if◌then◌else◌, true, false,
  Option, Bool,
}
use dhtperf.Prelude.Int.{ℤ, pos, negsuc, ltb_ℤ, ◌≤ℤ◌}
use dhtperf.Protocol.{u32_mod}
use dhtperf.Metrics.Statistics.{Doubles}
use dhtperf.Metrics.Latency.{PosixTime}
use dhtperf.Controller.Utils.{time_unit}
use dhtperf.Controller.Operations.{Dht}
use dhtperf.Controller.Loop.{since_start, within, to_wait, check_done}

waits :
    (duration next n : ℕ) (r : ℤ)
    → duration < u32_mod
    → r ≤ℤ pos duration
    → (ltb_ℤ r (pos 0) || leb duration (since_start duration r)) ≡ false
    → to_wait (within duration next) (since_start duration r, r) ≡ some n
    → (0 < n) × (pos n ≤ℤ r)
unfolding to_wait within since_start time_unit
waits duration next n (negsuc r) fits le passed e = absurd (ground (arith, passed))
waits duration next n (pos r) fits le passed e = ground (arith, fits, le, passed, e)

module _ (d : Doubles) (clock : PosixTime) (dht : Dht clock) where
  open dht use {World, remaining}

  checked-some :
      (duration : ℕ) (r : ℤ) (elapsed : ℕ) (s : ℤ) (late : Bool)
      → ◌≡◌ {A = Option (ℕ × ℤ)}
          (if late then none else some (since_start duration r, r))
          (some (elapsed, s))
      → (late ≡ false) × (since_start duration r ≡ elapsed) × (r ≡ s)
  checked-some duration r elapsed s true e = absurd (cc)
  checked-some duration r elapsed s false e =
      let same : ◌≡◌ {A = ℕ × ℤ} (since_start duration r, r) (elapsed, s) =
        ap (λ o. elim o [ none ↦ (since_start duration r, r) | some t ↦ t ]) e in
      (refl, ap (λ t. t.0) same, ap (λ t. t.1) same)

  -- Once the time has been checked, in a test whose timer was set to its duration and so does not have more than that left:
  -- whatever time the profiles return, the loop of start waits for at least a second, or not at all, and never for longer
  -- than what is left of the test.
  pub to_wait-check_done :
      (duration next_event elapsed n : ℕ) (r : ℤ) (w v : World)
      → duration < u32_mod
      → check_done d clock dht duration w ≡ (some (elapsed, r), v)
      → r ≤ℤ pos duration
      → to_wait (within duration next_event) (elapsed, r) ≡ some n
      → (0 < n) × (pos n ≤ℤ r)
  unfolding check_done
  to_wait-check_done duration next_event elapsed n r w v fits checked le e =
      let (passed, elapsed_same, r_same) =
        checked-some duration (remaining w).0 elapsed r _ (ap (λ c. c.0) checked) in
      waits duration next_event n r fits le
        (subst (λ z. (ltb_ℤ z (pos 0) || leb duration (since_start duration z)) ≡ false) r_same
          passed)
        (subst (λ t. to_wait (within duration next_event) (t, r) ≡ some n)
          (sym elapsed_same ∙ ap (since_start duration) r_same) e)
