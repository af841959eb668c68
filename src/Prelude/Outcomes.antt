-- ===== src/Prelude/Outcomes.antt =====
-- How a piece of the program ends: with a value, by exit(n), by a failed assertion or an exception
-- that nothing catches, or in undefined behaviour such as an access out of bounds.
use Prim.Native.Nat.{ℕ}
use mathlib.Core.Path.{◌≡◌, refl, ap}
use mathlib.Core.Bool.{Bool, true, false}

pub data Outcome {ℓ} (A : Type ℓ) : Type ℓ where
  done : A → Outcome A
  exits : ℕ → Outcome A
  aborts : Outcome A
  faults : Outcome A

infixl 5 ◌>>=◌ ◌>>◌
abbrev pub ◌>>=◌ {ℓ κ} : {A : Type ℓ} {B : Type κ} → Outcome A → (A → Outcome B) → Outcome B
done a >>= f = f a
exits n >>= f = exits n
aborts >>= f = aborts
faults >>= f = faults

abbrev pub ◌>>◌ {ℓ κ} : {A : Type ℓ} {B : Type κ} → Outcome A → Outcome B → Outcome B
m >> k = m >>= λ _. k

-- assert(test)
abbrev pub assert : Bool → Outcome (Unit {0})
assert true = done tt
assert false = aborts

pub >>=-eq-done {ℓ κ} :
    {A : Type ℓ} {B : Type κ} (m : Outcome A) (f : A → Outcome B) {b : B}
    → (m >>= f) ≡ done b
    → (a : A) × (m ≡ done a) × (f a ≡ done b)
>>=-eq-done (done a) f h = (a, refl, h)
>>=-eq-done (exits n) f h = cc
>>=-eq-done aborts f h = cc
>>=-eq-done faults f h = cc

-- The value of an outcome that is known to have one.
pub done-injective {ℓ} : {A : Type ℓ} (a b : A) → done a ≡ done b → a ≡ b
done-injective {A} a b h = ap value h
  where
    value : Outcome A → A
    value (done x) = x
    value (exits n) = a
    value aborts = a
    value faults = a

pub >>=-cong {ℓ κ} :
    {A : Type ℓ} {B : Type κ} (o : Outcome A) (f g : A → Outcome B)
    → ((a : A) → f a ≡ g a)
    → (o >>= f) ≡ (o >>= g)
>>=-cong (done a) f g h = h a
>>=-cong (exits n) f g h = refl
>>=-cong aborts f g h = refl
>>=-cong faults f g h = refl

pub >>=-assoc {ℓ κ μ} :
    {A : Type ℓ} {B : Type κ} {C : Type μ} (o : Outcome A) (f : A → Outcome B) (g : B → Outcome C)
    → ((o >>= f) >>= g) ≡ (o >>= λ a. f a >>= g)
>>=-assoc (done a) f g = refl
>>=-assoc (exits n) f g = refl
>>=-assoc aborts f g = refl
>>=-assoc faults f g = refl
