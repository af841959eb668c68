-- ===== src/Prelude/Maps.antt =====
-- std::map as an association list. Its order matters nowhere in what is modelled of the program
-- but where a map is iterated over; see the users.
use mathlib.Core.Path.{◌≡◌, refl, subst}
use mathlib.Core.Logic.{◌↔◌, inl, inr}
use mathlib.Core.Bool.{Bool, true}
use mathlib.Core.List.{List, [], ◌∷◌}
use mathlib.Core.Option.{Option, none, some, some-injective}
use Prim.Native.Nat.{ℕ}
use native.Mathlib.Omega.{arith}
use dhtperf.Prelude.Tests.{◌==◌ as nat_eq, ==_iff, str_eq, str_eq_iff, if◌then◌else◌, Bool-cases}
use dhtperf.Prelude.Lists.{All}

-- A type whose values the program compares by ==.
pub record Eq (K : Type 0) : Type 0 where
  pub beq : K → K → Bool
  pub beq_iff : (a b : K) → (beq a b ≡ true) ↔ (a ≡ b)

instance abbrev pub nat_keys : Eq ℕ
nat_keys = record { beq = nat_eq; beq_iff = ==_iff }

instance abbrev pub text_keys : Eq (List ℕ)
text_keys = record { beq = str_eq; beq_iff = str_eq_iff }

module _ {K V : Type 0} ⦃e : Eq K⦄ where
  unfoldable pub lookup : K → List (K × V) → Option V
  lookup k [] = none
  lookup k ((j, v) ∷ m) = if e.beq j k then some v else lookup k m

  unfoldable pub insert : K → V → List (K × V) → List (K × V)
  insert k v [] = (k, v) ∷ []
  insert k v ((j, w) ∷ m) = if e.beq j k then (k, v) ∷ m else (j, w) ∷ insert k v m

  pub lookup-insert :
      (k j : K) (v : V) (m : List (K × V))
      → lookup j (insert k v m) ≡ (if e.beq k j then some v else lookup j m)
  unfolding lookup insert
  lookup-insert k j v [] = refl
  lookup-insert k j v ((i, w) ∷ m) =
      ground (arith, e.beq_iff k j, e.beq_iff i k, e.beq_iff i j, lookup-insert k j v m)

  pub lookup-All :
      (P : V → Type 0) (k : K) (m : List (K × V)) {v : V}
      → All (λ (entry : K × V). P entry.1) m
      → lookup k m ≡ some v
      → P v
  unfolding lookup
  lookup-All P k [] h l = absurd (ground arith)
  lookup-All P k ((j, w) ∷ m) h l = elim (Bool-cases (e.beq j k)) [
    | inl c ↦ let same : some w ≡ some _ = rw c at l in subst P (some-injective w _ same) h.0
    | inr c ↦ lookup-All P k m h.1 (rw c at l)
  ]
