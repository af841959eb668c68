-- ===== src/Prelude/Int.antt =====
-- long int and its order. The program's latencies are differences of times in microseconds, and stay
-- far inside 64 bits; the model does not wrap them.
use Prim.Native.Nat.{◌%◌, ◌^◌, ◌<◌, ◌*◌, ◌-◌, ℕ, zero, suc, ◌+◌, ◌/◌, ◌≤◌}
use mathlib.Core.Path.{◌≡◌}
use mathlib.Core.Logic.{◌↔◌}
use mathlib.Core.Bool.{Bool, true, false}
use native.Mathlib.Omega.{arith}
use dhtperf.Prelude.Tests.{if◌then◌else◌, ltb, ◌==◌ as nat_eq, ==_iff}
use dhtperf.Prelude.Maps.{Eq}

-- `negsuc n` is -(n + 1).
pub data ℤ : Type 0 where
  pos : ℕ → ℤ
  negsuc : ℕ → ℤ

abbrev pub pos_part : ℤ → ℕ
pos_part (pos n) = n
pos_part (negsuc n) = 0

abbrev pub neg_part : ℤ → ℕ
neg_part (pos n) = 0
neg_part (negsuc n) = suc n

abbrev pub ltb_ℤ : ℤ → ℤ → Bool
ltb_ℤ a b = ltb (pos_part a + neg_part b) (pos_part b + neg_part a)

infix 50 ◌≤ℤ◌
abbrev pub ◌≤ℤ◌ : ℤ → ℤ → Type 0
a ≤ℤ b = pos_part a + neg_part b ≤ pos_part b + neg_part a

unfoldable pub eqb_ℤ : ℤ → ℤ → Bool
eqb_ℤ (pos a) (pos b) = nat_eq a b
eqb_ℤ (pos a) (negsuc b) = false
eqb_ℤ (negsuc a) (pos b) = false
eqb_ℤ (negsuc a) (negsuc b) = nat_eq a b

pub eqb_ℤ_iff : (a b : ℤ) → (eqb_ℤ a b ≡ true) ↔ (a ≡ b)
unfolding eqb_ℤ
eqb_ℤ_iff (pos a) (pos b) = ground (arith, ==_iff a b)
eqb_ℤ_iff (pos a) (negsuc b) = ground arith
eqb_ℤ_iff (negsuc a) (pos b) = ground arith
eqb_ℤ_iff (negsuc a) (negsuc b) = ground (arith, ==_iff a b)

instance abbrev pub int_keys : Eq ℤ
int_keys = record { beq = eqb_ℤ; beq_iff = eqb_ℤ_iff }

unfoldable pub minus : ℕ → ℤ
minus zero = pos 0
minus (suc n) = negsuc n

-- Division of long int, which cuts toward 0.
unfoldable pub quot : ℤ → ℤ → ℤ
unfolding minus
quot (pos a) (pos b) = pos (a / b)
quot (negsuc a) (pos b) = minus (suc a / b)
quot (pos a) (negsuc b) = minus (a / suc b)
quot (negsuc a) (negsuc b) = pos (suc a / suc b)

infixl 60 ◌+ℤ◌
unfoldable pub ◌+ℤ◌ : ℤ → ℤ → ℤ
pos a +ℤ pos b = pos (a + b)
pos a +ℤ negsuc b = if ltb a (suc b) then negsuc (b - a) else pos (a - suc b)
negsuc a +ℤ pos b = if ltb b (suc a) then negsuc (a - b) else pos (b - suc a)
negsuc a +ℤ negsuc b = negsuc (suc (a + b))

unfoldable pub scale : ℕ → ℤ → ℤ
unfolding minus
scale n (pos k) = pos (n * k)
scale n (negsuc k) = minus (n * suc k)

-- The long int of 64 bits that an integer wraps around to.
unfoldable pub to_long : ℤ → ℤ
unfolding minus
to_long (pos n) = let m = n % 2 ^ 64 in if ltb m (2 ^ 63) then pos m else minus (2 ^ 64 - m)
to_long (negsuc n) = let m = suc n % 2 ^ 64 in if ltb (2 ^ 63) m then pos (2 ^ 64 - m) else minus m

pub to_long_small : (n : ℕ) → n < 2 ^ 63 → to_long (pos n) ≡ pos n
unfolding to_long
to_long_small n h = ground (arith, h)
