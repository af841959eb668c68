-- ===== src/Events/Queue/Order.antt =====
-- The queue of src/events.h as a bag of events.
use native.Mathlib.Bridge.{le_prop}
use native.Mathlib.Nat.{ℕ_set}
use mathlib.Core.HLevel.{×_prop}
use mathlib.Core.Logic.{∥∥₁_elim}
use mathlib.Core.List.{Perm, Permᴰ}
use mathlib.Core.List.Perm
use mathlib.Core.Quot
use mathlib.Core.Quot.{Quot, Quot-set}
use dhtperf.Prelude.{
  ℕ, ◌≤◌, ◌<◌, ◌≡◌, refl, sym, ap, ◌∙◌, subst, List, [], ◌∷◌, ◌++◌, All-append, arith, inl, inr,
  Bool-cases, ltb, ltb→lt, append_assoc,
}
use dhtperf.Events.{Timed, time_of}
use dhtperf.Events.Queue.{get_next_event_time, pop_events}
use dhtperf.Events.Queue.Laws.{IsSorted, Due, Pending, NotBefore, pop_events_lem, pop_events-next}
use dhtperf.Events.Queue.Bags.{times, pop_events_unique}

module _ {T : Type 0} ⦃t : Timed T⦄ where
  next-le :
      (x y : T) (q r : List T)
      → Perm (x ∷ q) (y ∷ r)
      → get_next_event_time (y ∷ r) ≤ get_next_event_time (x ∷ q)
  next-le x y q r same =
      elim (Bool-cases (ltb (get_next_event_time (x ∷ q)) (get_next_event_time (y ∷ r)))) [
        | inr e ↦ ground arith
        | inl e ↦
            let now = get_next_event_time (x ∷ q) in
            let (d, s, f, whole) = pop_events_lem now (x ∷ q) in
            let (_, popped, _) = pop_events_unique now (y ∷ r) _ _ d s f (Perm.trans whole same) in
            let none = (pop_events-next now y r).1 (ltb→lt _ _ e) in
            let empty = Perm.eq-nil (subst (λ p. Perm (pop_events now (x ∷ q)).0 p) none popped) in
            absurd (omega (arith, (pop_events-next now x q).0 empty))
      ]

  pub get_next_event_time-Perm :
      (q r : List T) → Perm q r → get_next_event_time q ≡ get_next_event_time r
  get_next_event_time-Perm [] r same = ap get_next_event_time (sym (Perm.eq-nil (Perm.symm same)))
  get_next_event_time-Perm (x ∷ q) [] same = ap get_next_event_time (Perm.eq-nil same)
  get_next_event_time-Perm (x ∷ q) (y ∷ r) same =
      omega (arith, next-le x y q r same, next-le y x r q (Perm.symm same))

-- What the queue does depends on which events are in it, and how often, but not on the order in which they were pushed: the next event
-- time is the same, popEvents returns the same events up to order, with the same times in the same order, and leaves
-- the same events. So it does not matter which of several events of the same time a priority_queue takes first.
pub pop_events-Perm :
    {T : Type 0} ⦃t : Timed T⦄ (now : ℕ) (q r : List T)
    → Perm q r
    → (get_next_event_time q ≡ get_next_event_time r)
      × (times (pop_events now q).0 ≡ times (pop_events now r).0)
      × Perm (pop_events now q).0 (pop_events now r).0
      × Perm (pop_events now q).1 (pop_events now r).1
pop_events-Perm now q r same =
    let (d, s, f, whole) = pop_events_lem now q in
    let (same_times, popped, left) = pop_events_unique now r _ _ d s f (Perm.trans whole same) in
    (get_next_event_time-Perm q r same, same_times, popped, left)

module _ {T : Type 0} ⦃t : Timed T⦄ where
  Pending-prop : (n : ℕ) (q : List T) → IsProp (Pending n q)
  Pending-prop n [] = hlevel
  Pending-prop n (x ∷ q) = ×_prop le_prop (Pending-prop n q)

  Pending-Permᴰ : (n : ℕ) {q r : List T} → Permᴰ q r → Pending n q → Pending n r
  Pending-Permᴰ n Permᴰ.nil h = tt
  Pending-Permᴰ n (Permᴰ.cons e d) (h, hs) = (subst (λ z. n < time_of z) e h, Pending-Permᴰ n d hs)
  Pending-Permᴰ n (Permᴰ.swap e f) (h, (i, hs)) =
      (subst (λ z. n < time_of z) f i, (subst (λ z. n < time_of z) e h, hs))
  Pending-Permᴰ n (Permᴰ.trans d f) h = Pending-Permᴰ n f (Pending-Permᴰ n d h)

  Pending-Perm : (n : ℕ) (q r : List T) → Perm q r → Pending n q → Pending n r
  Pending-Perm n q r same h = ∥∥₁_elim same (Pending-prop n r) (λ d. Pending-Permᴰ n d h)

  Pending-prefix : (n : ℕ) (p l : List T) → Pending n (p ++ l) → Pending n p
  Pending-prefix n [] l h = tt
  Pending-prefix n (x ∷ p) l h = (h.0, Pending-prefix n p l h.1)

  Due-mono : (n m : ℕ) (p : List T) → n ≤ m → Due n p → Due m p
  Due-mono n m [] le h = tt
  Due-mono n m (x ∷ p) le h = (omega (arith, h.0), Due-mono n m p le h.1)

  NotBefore-append :
      (n now : ℕ) (p l : List T) → n ≤ now → NotBefore n p → Pending now l → NotBefore n (p ++ l)
  NotBefore-append n now [] [] le h f = tt
  NotBefore-append n now [] (x ∷ l) le h f =
      (omega (arith, f.0), NotBefore-append n now [] l le tt f.1)
  NotBefore-append n now (x ∷ p) l le h f = (h.0, NotBefore-append n now p l le h.1 f)

  IsSorted-append :
      (now : ℕ) (p l : List T)
      → Due now p
      → IsSorted p
      → Pending now l
      → IsSorted l
      → IsSorted (p ++ l)
  IsSorted-append now [] l d s f sl = sl
  IsSorted-append now (x ∷ p) l (d, ds) (h, s) f sl =
      (NotBefore-append (time_of x) now p l d h f, IsSorted-append now p l ds s f sl)

  times-append : (p l : List T) → times (p ++ l) ≡ times p ++ times l
  times-append [] l = refl
  times-append (x ∷ p) l = ap (λ ts. time_of x ∷ ts) (times-append p l)

-- Two rounds of popEvents, and one at the later moment.
pop_events_twice :
    {T : Type 0} ⦃t : Timed T⦄ (now later : ℕ) (q : List T)
    → now ≤ later
    → (times (pop_events now q).0 ++ times (pop_events later (pop_events now q).1).0
        ≡ times (pop_events later q).0)
      × Perm (pop_events later (pop_events now q).1).1 (pop_events later q).1
pop_events_twice now later q le =
    let (d, s, f, whole) = pop_events_lem now q in
    let (first, rest) = pop_events now q in
    let (second, left) = pop_events later rest in
    let (d', s', f', whole') = pop_events_lem later rest in
    let pending : Pending now second =
      Pending-prefix now second left
        (Pending-Perm now rest (second ++ left) (Perm.symm whole') f) in
    let all : Perm ((first ++ second) ++ left) q =
      subst (λ l. Perm l q) (sym (append_assoc first second left))
        (Perm.trans (Perm.append_left first whole') whole) in
    let (same, _, behind) =
      pop_events_unique later q (first ++ second) left
        (All-append (λ e. time_of e ≤ later) first second (Due-mono now later first le d) d')
        (IsSorted-append now first second d s pending s') f' all in
    (sym (times-append first second) ∙ same, behind)

-- A queue up to the order of its elements.
abbrev pub EventBag : Type 0 → Type 0
EventBag T = Quot (Perm {A = T})

module _ {T : Type 0} ⦃t : Timed T⦄ where
  unfoldable pub next_time : EventBag T → ℕ
  next_time = Quot.lift ℕ_set get_next_event_time get_next_event_time-Perm

  unfoldable pub due_times : ℕ → EventBag T → List ℕ
  due_times now =
      Quot.lift (hlevel) (λ q. times (pop_events now q).0)
        (λ q r same. (pop_events-Perm now q r same).1)

  unfoldable pub remaining : ℕ → EventBag T → EventBag T
  remaining now =
      Quot.lift Quot-set (λ q. Quot.mk (pop_events now q).1)
        (λ q r same. Quot.sound (pop_events-Perm now q r same).3)

-- On queues without the order of their elements: popping the events of two moments, one after the other, is popping those of
-- the later moment at once. The times that come out are the same, in the same order, and so is the queue that stays behind. So
-- no event is lost, doubled or put off by how often the queue is asked.
pub remaining_twice :
    {T : Type 0} ⦃t : Timed T⦄ (now later : ℕ) (b : EventBag T)
    → now ≤ later
    → (due_times now b ++ due_times later (remaining now b) ≡ due_times later b)
      × (remaining later (remaining now b) ≡ remaining later b)
unfolding due_times remaining
remaining_twice now later b le =
    Quot.ind
      {β = λ b.
        (due_times now b ++ due_times later (remaining now b) ≡ due_times later b)
        × (remaining later (remaining now b) ≡ remaining later b)}
      (λ b. ×_prop (hlevel) (Quot-set _ _))
      (λ q. let (same, behind) = pop_events_twice now later q le in (same, Quot.sound behind)) b
