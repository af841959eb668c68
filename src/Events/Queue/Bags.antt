-- ===== src/Events/Queue/Bags.antt =====
-- The queue of src/events.h without the order of its elements: what popEvents takes out does not depend on it.
use native.Mathlib.Bridge.{le_prop}
use mathlib.Core.Logic.{∥∥₁_elim, if_pos, if_neg}
use mathlib.Core.List.{Mem, Perm, filter, mem-cons_self, Memᴰ}
use mathlib.Core.List.Perm
use native.Mathlib.Decide.{dec_le, dec_lt}
use dhtperf.Prelude.{ℕ, ◌≤◌, ◌≡◌, refl, sym, ap, ◌∙◌, subst, List, [], ◌∷◌, ◌++◌, map, All, arith}
use dhtperf.Events.{Timed, time_of}
use dhtperf.Events.Queue.{pop_events}
use dhtperf.Events.Queue.Laws.{IsSorted, Due, Pending, NotBefore, pop_events_lem}

abbrev LowerBound : ℕ → List ℕ → Type 0
LowerBound n = All (λ m. n ≤ m)

LowerBound-Memᴰ : (n m : ℕ) (xs : List ℕ) → LowerBound n xs → Memᴰ m xs → n ≤ m
LowerBound-Memᴰ n m [] h i = elim i [ ]
LowerBound-Memᴰ n m (x ∷ xs) h (Memᴰ.head e) = omega (arith, h.0, e)
LowerBound-Memᴰ n m (x ∷ xs) h (Memᴰ.tail i) = LowerBound-Memᴰ n m xs h.1 i

LowerBound-Mem : (n m : ℕ) (xs : List ℕ) → LowerBound n xs → Mem m xs → n ≤ m
LowerBound-Mem n m xs h i = ∥∥₁_elim i (le_prop) (LowerBound-Memᴰ n m xs h)

abbrev Ascending : List ℕ → Type 0
Ascending [] = Unit {0}
Ascending (x ∷ xs) = LowerBound x xs × Ascending xs

least : (x y : ℕ) (xs ys : List ℕ) → Ascending (y ∷ ys) → Perm (x ∷ xs) (y ∷ ys) → y ≤ x
least x y xs ys h p = LowerBound-Mem y x (y ∷ ys) (omega arith, h.0) (Perm.subset p x mem-cons_self)

-- Ascending numbers have only one order.
Ascending-unique : (xs ys : List ℕ) → Ascending xs → Ascending ys → Perm xs ys → xs ≡ ys
Ascending-unique [] ys hx hy p = sym (Perm.eq-nil (Perm.symm p))
Ascending-unique (x ∷ xs) [] hx hy p = Perm.eq-nil p
Ascending-unique (x ∷ xs) (y ∷ ys) hx hy p =
    let same : x ≡ y = omega (arith, least x y xs ys hy p, least y x ys xs hx (Perm.symm p)) in
    let rest =
      Ascending-unique xs ys hx.1 hy.1
        (Perm.cons_inv (subst (λ z. Perm (x ∷ xs) (z ∷ ys)) (sym same) p)) in
    rw (same, rest) refl

module _ {T : Type 0} ⦃t : Timed T⦄ where
  abbrev pub times : List T → List ℕ
  times = map time_of

  IsSorted-Ascending : (p : List T) → IsSorted p → Ascending (times p)
  IsSorted-Ascending [] h = tt
  IsSorted-Ascending (x ∷ p) h = (bound (time_of x) p h.0, IsSorted-Ascending p h.1)
    where
      bound : (n : ℕ) (p : List T) → NotBefore n p → LowerBound n (times p)
      bound n [] h = tt
      bound n (x ∷ p) h = (h.0, bound n p h.1)

  due : (now : ℕ) → List T → List T
  due now = filter (λ e. dec_le (time_of e) now)

  pending : (now : ℕ) → List T → List T
  pending now = filter (λ e. dec_lt now (time_of e))

  due-append : (now : ℕ) (p l : List T) → Due now p → Pending now l → due now (p ++ l) ≡ p
  unfolding due
  due-append now [] [] hp hl = refl
  due-append now [] (x ∷ l) hp hl =
      if_neg (dec_le (time_of x) now) (λ h. omega arith) (x ∷ due now l) (due now l)
      ∙ due-append now [] l tt hl.1
  due-append now (x ∷ p) l hp hl =
      if_pos (dec_le (time_of x) now) hp.0 (x ∷ due now (p ++ l)) (due now (p ++ l))
      ∙ ap (λ r. x ∷ r) (due-append now p l hp.1 hl)

  pending-append : (now : ℕ) (p l : List T) → Due now p → Pending now l → pending now (p ++ l) ≡ l
  unfolding pending
  pending-append now [] [] hp hl = refl
  pending-append now [] (x ∷ l) hp hl =
      if_pos (dec_lt now (time_of x)) hl.0 (x ∷ pending now l) (pending now l)
      ∙ ap (λ r. x ∷ r) (pending-append now [] l tt hl.1)
  pending-append now (x ∷ p) l hp hl =
      if_neg (dec_lt now (time_of x)) (λ h. omega (arith, hp.0)) (x ∷ pending now (p ++ l))
        (pending now (p ++ l))
      ∙ pending-append now p l hp.1 hl

  Perm-cast : {a a' b b' : List T} → a ≡ a' → b ≡ b' → Perm a b → Perm a' b'
  Perm-cast {a} {a'} {b} {b'} e f p = subst (λ x. Perm x b') e (subst (λ y. Perm a y) f p)

  -- What popEvents returns and leaves is determined by what is due and what is not.
  pub pop_events_unique :
      (now : ℕ) (q p l : List T)
      → Due now p
      → IsSorted p
      → Pending now l
      → Perm (p ++ l) q
      → (times p ≡ times (pop_events now q).0)
        × Perm p (pop_events now q).0
        × Perm l (pop_events now q).1
  unfolding due pending
  pop_events_unique now q p l d s f same =
      let (d', s', f', same') = pop_events_lem now q in
      let whole = Perm.trans same (Perm.symm same') in
      let popped : Perm p (pop_events now q).0 =
        Perm-cast (due-append now p l d f) (due-append now _ _ d' f')
          (Perm.filter (λ e. dec_le (time_of e) now) whole) in
      let left : Perm l (pop_events now q).1 =
        Perm-cast (pending-append now p l d f) (pending-append now _ _ d' f')
          (Perm.filter (λ e. dec_lt now (time_of e)) whole) in
      (
        Ascending-unique (times p) _ (IsSorted-Ascending p s) (IsSorted-Ascending _ s')
            (Perm.map time_of popped),
        popped,
        left,
      )
