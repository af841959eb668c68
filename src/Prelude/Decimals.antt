-- ===== src/Prelude/Decimals.antt =====
-- operator<< and operator>> of a stream on unsigned numbers: decimal digits.
use Prim.Native.Nat.{ℕ, zero, suc, ◌+◌, ◌-◌, ◌*◌, ◌/◌, ◌%◌, ◌<◌}
use mathlib.Core.Path.{◌≡◌, refl}
use mathlib.Core.Logic.{inl, inr}
use mathlib.Core.Bool.{Bool, true, ◌&&◌}
use mathlib.Core.List.{[], ◌∷◌, ◌++◌}
use native.Mathlib.Omega.{arith}
use dhtperf.Prelude.Tests.{leb, ltb, if◌then◌else◌, Bool-cases}
use dhtperf.Prelude.Lists.{Bytes}

unfoldable pub is_digit : ℕ → Bool
is_digit c = leb b'0' c && leb c b'9'

-- The digits of a number before those of `rest`. A number has at most as many digits as its value
-- plus one, so that much fuel is enough.
unfoldable pub digits : ℕ → ℕ → Bytes → Bytes
digits zero n rest = rest
digits (suc fuel) n rest =
    let more = digits fuel (n / 10) ((b'0' + n % 10) ∷ rest) in
    if ltb n 10 then (b'0' + n) ∷ rest else more

unfoldable pub decimal : ℕ → Bytes
unfolding digits
decimal n = digits (suc n) n []

-- The number that a run of digits spells behind `acc`, and what follows the run.
unfoldable pub scan : ℕ → Bytes → ℕ × Bytes
unfolding is_digit
scan acc [] = (acc, [])
scan acc (c ∷ s) = if is_digit c then scan (acc * 10 + (c - b'0')) s else (acc, c ∷ s)

scan_digit : (acc d : ℕ) (s : Bytes) → d < 10 → scan acc ((b'0' + d) ∷ s) ≡ scan (acc * 10 + d) s
unfolding scan
scan_digit acc d s h = ground arith

scan-digits : (fuel n : ℕ) (rest : Bytes) → n < fuel → scan 0 (digits fuel n rest) ≡ scan n rest
unfolding digits
scan-digits zero n rest h = absurd (omega arith)
scan-digits (suc fuel) n rest h = elim (Bool-cases (ltb n 10)) [
  | inl small ↦ rw (small, scan_digit 0 n rest (ground arith)) (ground arith)
  | inr large ↦
      rw
        (
          large,
          scan-digits fuel (n / 10) ((b'0' + n % 10) ∷ rest) (ground arith),
          scan_digit (n / 10) (n % 10) rest (omega arith),
        )
        (ground arith)
]

digits-append :
    (fuel n : ℕ) (rest tail : Bytes) → digits fuel n rest ++ tail ≡ digits fuel n (rest ++ tail)
unfolding digits
digits-append zero n rest tail = refl
digits-append (suc fuel) n rest tail =
    ground (arith, digits-append fuel (n / 10) ((b'0' + n % 10) ∷ rest) tail)

-- Reading digits back from a text goes on with the number behind what follows it.
pub scan-decimal : (n : ℕ) (rest : Bytes) → scan 0 (decimal n ++ rest) ≡ scan n rest
unfolding decimal
scan-decimal n rest =
    rw (digits-append (suc n) n [] rest) (scan-digits (suc n) n rest (omega arith))

digits_begin :
    (fuel n : ℕ) (rest : Bytes)
    → n < fuel
    → (c : ℕ) × (s : Bytes) × (digits fuel n rest ≡ c ∷ s) × (is_digit c ≡ true)
unfolding digits is_digit
digits_begin zero n rest h = absurd (omega arith)
digits_begin (suc fuel) n rest h = elim (Bool-cases (ltb n 10)) [
  | inl small ↦ (b'0' + n, rest, rw small refl, ground arith)
  | inr large ↦ rw large (digits_begin fuel (n / 10) ((b'0' + n % 10) ∷ rest) (ground arith))
]

-- A printed number begins with a digit.
pub decimal_begins : (n : ℕ) → (c : ℕ) × (s : Bytes) × (decimal n ≡ c ∷ s) × (is_digit c ≡ true)
unfolding decimal
decimal_begins n = digits_begin (suc n) n [] (omega arith)
