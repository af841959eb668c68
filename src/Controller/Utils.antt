-- ===== src/Controller/Utils.antt =====
-- src/controller/Utils.cpp: the sources of random numbers, and the helpers on texts. The engines and
-- distributions of std::tr1, boost::math and /dev/urandom are behind an interface.
pub mod Dictionary
pub mod Times
pub mod Intervals
pub mod Words
use dhtperf.Prelude.{
  ℕ, zero, suc, ◌+◌, ◌%◌, ◌-◌, List, [], ◌∷◌, Bytes, codes, Option, none, some, leb, get_elem?,
  if◌then◌else◌, Outcome, done, exits, faults, ◌>>=◌,
}
use dhtperf.Prelude.Int.{ℤ, pos, negsuc}
use dhtperf.Protocol.{u32_mod}
use Dictionary.{dictionary, dictionary_size}

-- `World` is the state of the random device and of every engine. open_device is the constructor of RandomDevice
-- and the seed that an engine takes from it; the others draw a number from a distribution.
pub record Randomness : Type 1 where
  pub World : Type 0
  pub Double : Type 0
  pub open_device : World → Outcome World
  pub uniform_int : ℤ → ℤ → World → ℤ × World
  pub poisson : Double → World → ℤ × World
  -- (int)round(weibull_->get())
  pub weibull : Double → Double → World → ℤ × World
  -- boost::lexical_cast<double>
  pub double_cast : Bytes → Option Double

-- An int that is stored in a timeUnit.
unfoldable pub time_unit : ℤ → ℕ
time_unit (pos n) = n % u32_mod
time_unit (negsuc n) = (u32_mod - suc n % u32_mod) % u32_mod

-- v.erase(v.begin() + i)
unfoldable pub erase : ℕ → List Bytes → List Bytes
erase i [] = []
erase zero (x ∷ v) = v
erase (suc i) (x ∷ v) = x ∷ erase i v

-- The loop of removeEmptyStringsFromVector, from index i - 1 down to 0.
unfoldable pub remove_loop : ℕ → List Bytes → Outcome (List Bytes)
unfolding erase
remove_loop zero v = done v
remove_loop (suc i) v = elim (get_elem? v i) [
  | none ↦ faults
  | some text ↦ elim text [ [] ↦ remove_loop i (erase i v) | c ∷ rest ↦ remove_loop i v ]
]

module _ (random : Randomness) where
  open random use {World, open_device, uniform_int}

  -- The constructor of RandomDictionary; the object is given by its size.
  unfoldable pub random_dictionary : ℕ → World → Outcome World
  random_dictionary size w = do
    w ← open_device w
    if leb dictionary_size size then exits 1 else done w

  -- dictionary[n]
  unfoldable pub word_at : ℤ → Outcome Bytes
  word_at (pos n) = elim (get_elem? dictionary n) [ none ↦ faults | some word ↦ done (codes word) ]
  word_at (negsuc n) = faults

  unfoldable pub get_random_word : ℕ → World → Outcome (Bytes × World)
  unfolding word_at
  get_random_word size w =
      let (n, w') = uniform_int (pos 0) (pos size) w in word_at n >>= λ word. done (word, w')

  -- UniformRandomNumber r(min, max); r.get()
  unfoldable pub uniform_random_number : ℤ → ℤ → World → Outcome (ℤ × World)
  uniform_random_number min max w = do w ← open_device w; done (uniform_int min max w)
