-- ===== src/Controller/Utils/Words.antt =====
-- removeEmptyStringsFromVector against a filter, and the bounds of the dictionary.
use dhtperf.Prelude.{
  ℕ, zero, suc, ◌<◌, ◌≤◌, ◌≡◌, refl, ap, sym, ◌∙◌, List, [], ◌∷◌, ◌++◌, Bytes, codes, some,
  get_elem?, leb, length, append_assoc, append-nil, arith, done, >>=-eq-done, Bool-cases, inl, inr,
  String, subst,
}
use dhtperf.Prelude.Int.{ℤ, pos, negsuc, ◌≤ℤ◌}
use dhtperf.Controller.Utils.{
  Randomness, erase, remove_loop, random_dictionary, word_at, get_random_word,
}
use dhtperf.Controller.Utils.Dictionary.{dictionary, dictionary_size}
use dhtperf.Controller.Utils.Intervals.{DrawsInside}

unfoldable pub non_empty : List Bytes → List Bytes
non_empty [] = []
non_empty ([] ∷ v) = non_empty v
non_empty ((c ∷ s) ∷ v) = (c ∷ s) ∷ non_empty v

non_empty-append : (v w : List Bytes) → non_empty (v ++ w) ≡ non_empty v ++ non_empty w
unfolding non_empty
non_empty-append [] w = refl
non_empty-append ([] ∷ v) w = non_empty-append v w
non_empty-append ((c ∷ s) ∷ v) w = ap (λ r. (c ∷ s) ∷ r) (non_empty-append v w)

-- A vector of i + 1 elements ends in an element behind i others.
snoc-cases :
    (i : ℕ) (v : List Bytes)
    → length v ≡ suc i
    → (f : List Bytes) × (x : Bytes) × (v ≡ f ++ x ∷ []) × (length f ≡ i)
snoc-cases i [] h = absurd (omega arith)
snoc-cases zero (x ∷ []) h = ([], x, refl, refl)
snoc-cases zero (x ∷ y ∷ v) h = absurd (omega arith)
snoc-cases (suc i) (x ∷ []) h = absurd (omega arith)
snoc-cases (suc i) (x ∷ y ∷ v) h =
    let (f, z, e, n) = snoc-cases i (y ∷ v) (omega arith) in (x ∷ f, z, ap (λ r. x ∷ r) e, ap suc n)

get_elem?-behind :
    (f : List Bytes) (x : Bytes) (back : List Bytes) → get_elem? (f ++ x ∷ back) (length f) ≡ some x
get_elem?-behind [] x back = refl
get_elem?-behind (y ∷ f) x back = get_elem?-behind f x back

erase-behind :
    (f : List Bytes) (x : Bytes) (back : List Bytes) → erase (length f) (f ++ x ∷ back) ≡ f ++ back
unfolding erase
erase-behind [] x back = refl
erase-behind (y ∷ f) x back = ap (λ r. y ∷ r) (erase-behind f x back)

remove_loop_step :
    (f : List Bytes) (x : Bytes) (back : List Bytes)
    → remove_loop (suc (length f)) (f ++ x ∷ back)
      ≡ remove_loop (length f) (f ++ (non_empty (x ∷ []) ++ back))
unfolding remove_loop non_empty
remove_loop_step f [] back =
    rw (get_elem?-behind f [] back, remove_loop, erase-behind f [] back) refl
remove_loop_step f (c ∷ s) back = rw (get_elem?-behind f (c ∷ s) back, remove_loop) refl

remove_loop-non_empty :
    (i : ℕ) (front back : List Bytes)
    → length front ≡ i
    → remove_loop i (front ++ back) ≡ done (non_empty front ++ back)
unfolding remove_loop non_empty
remove_loop-non_empty zero [] back h = refl
remove_loop-non_empty zero (x ∷ front) back h = absurd (omega arith)
remove_loop-non_empty (suc i) front back h =
    let (f, x, e, n) = snoc-cases i front h in
    let more = non_empty (x ∷ []) ++ back in
    let step : remove_loop (suc i) (f ++ x ∷ back) ≡ remove_loop i (f ++ more) =
      subst (λ k. remove_loop (suc k) (f ++ x ∷ back) ≡ remove_loop k (f ++ more)) n
        (remove_loop_step f x back) in
    ap (λ v. remove_loop (suc i) (v ++ back)) e
    ∙ (ap (remove_loop (suc i)) (append_assoc f (x ∷ []) back)
        ∙ (step
            ∙ (remove_loop-non_empty i f more n
                ∙ ap done (
                    sym (append_assoc (non_empty f) (non_empty (x ∷ [])) back)
                    ∙ (ap (λ v. v ++ back) (sym (non_empty-append f (x ∷ [])))
                        ∙ ap (λ v. non_empty v ++ back) (sym e))))))

-- removeEmptyStringsFromVector, which erases from the end of the vector on, never leaves the vector, and keeps
-- exactly the texts that are not empty, in their order.
pub remove_loop_lem : (v : List Bytes) → remove_loop (length v) v ≡ done (non_empty v)
remove_loop_lem v =
    ap (remove_loop (length v)) (sym (append-nil v))
    ∙ (remove_loop-non_empty (length v) v [] refl ∙ ap done (append-nil (non_empty v)))

element : {A : Type 0} (xs : List A) (n : ℕ) → n < length xs → (x : A) × (get_elem? xs n ≡ some x)
element [] n h = absurd (omega arith)
element (x ∷ xs) zero h = (x, refl)
element (x ∷ xs) (suc n) h = element xs n (omega arith)

module _ (random : Randomness) where
  open random use {World, open_device, uniform_int}

  random_dictionary-lt :
      (size : ℕ) (w v : World) → random_dictionary random size w ≡ done v → size < dictionary_size
  unfolding random_dictionary
  random_dictionary-lt size w v h =
      let (u, opened, f) = >>=-eq-done (open_device w) _ h in
      elim (Bool-cases (leb dictionary_size size)) [
        | inl e ↦ absurd (ground (arith, e))
        | inr e ↦ ground arith
      ]

  -- Where uniform_int draws from its closed interval: once a RandomDictionary of a size has been constructed,
  -- getRandomWord always returns a word, the one at a place from 0 to the size, size included; it never reads outside the
  -- dictionary.
  pub get_random_word_lem :
      (size : ℕ) (w v u : World)
      → DrawsInside random
      → random_dictionary random size w ≡ done v
      → (n : ℕ) × (word : String) × (n ≤ size)
        × (get_elem? dictionary n ≡ some word)
        × (get_random_word random size u ≡ done (codes word, (uniform_int (pos 0) (pos size) u).1))
  unfolding get_random_word dictionary_size
  get_random_word_lem size w v u inside made =
      place (uniform_int (pos 0) (pos size) u).0 refl (inside (pos 0) (pos size) u (omega arith))
    where
      place :
          (z : ℤ)
          → (uniform_int (pos 0) (pos size) u).0 ≡ z
          → (pos 0 ≤ℤ (uniform_int (pos 0) (pos size) u).0)
            × ((uniform_int (pos 0) (pos size) u).0 ≤ℤ pos size)
          → (n : ℕ) × (word : String) × (n ≤ size)
            × (get_elem? dictionary n ≡ some word)
            × (get_random_word random size u
                ≡ done (codes word, (uniform_int (pos 0) (pos size) u).1))
      place (pos n) e bounds =
          let lt = random_dictionary-lt size w v made in
          let le : n ≤ size = ground (arith, e, bounds) in
          let (word, found) = element dictionary n (omega (arith, lt, le)) in
          (n, word, le, found, rw (e, word_at, found) refl)
      place (negsuc n) e bounds = absurd (ground (arith, e, bounds))
