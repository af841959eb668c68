-- ===== src/Events/Queue/Laws.antt =====
-- What leaves the queue, and in which order.
use mathlib.Core.List.{Perm}
use mathlib.Core.List.Perm
use dhtperf.Prelude.{
  leb→le, append-nil, ℕ, zero, suc, ◌≤◌, ◌<◌, ◌≡◌, ◌↔◌, refl, List, [], ◌∷◌, ◌++◌, leb, length,
  if◌then◌else◌, All, arith, append_assoc, inl, inr, Bool-cases, leb→le, true, ◌≢◌, Any,
}
use dhtperf.Events.{Timed, time_of}
use dhtperf.Events.Queue.{earliest, get_next_event_time, pop_events_loop, pop_events}

module _ {T : Type 0} ⦃t : Timed T⦄ where
  abbrev pub NotBefore : ℕ → List T → Type 0
  NotBefore n = All (λ e. n ≤ time_of e)

  earliest-perm : (x : T) (q : List T) → Perm (x ∷ q) ((earliest x q).0 ∷ (earliest x q).1)
  unfolding earliest
  earliest-perm x [] = Perm.refl _
  earliest-perm x (y ∷ q) = elim (Bool-cases (leb (time_of x) (time_of (earliest y q).0))) [
    | inl e ↦ rw e (Perm.refl _)
    | inr e ↦ rw e (Perm.trans (Perm.cons x (earliest-perm y q)) (Perm.swap _ x _))
  ]

  NotBefore-mono : (m n : ℕ) (q : List T) → m ≤ n → NotBefore n q → NotBefore m q
  NotBefore-mono m n [] h b = tt
  NotBefore-mono m n (x ∷ q) h b = (omega arith, NotBefore-mono m n q h b.1)

  earliest-NotBefore :
      (x : T) (q : List T)
      → (time_of (earliest x q).0 ≤ time_of x)
        × NotBefore (time_of (earliest x q).0) q
        × NotBefore (time_of (earliest x q).0) (earliest x q).1
  unfolding earliest
  earliest-NotBefore x [] = (omega arith, tt, tt)
  earliest-NotBefore x (y ∷ q) =
      let (first, old, new) = earliest-NotBefore y q in
      ground (arith, NotBefore-mono (time_of x) (time_of (earliest y q).0) q, first, old, new)

  earliest-bound :
      (n : ℕ) (x : T) (q : List T)
      → NotBefore n (x ∷ q)
      → NotBefore n ((earliest x q).0 ∷ (earliest x q).1)
  unfolding earliest
  earliest-bound n x [] h = h
  earliest-bound n x (y ∷ q) h = ground (arith, earliest-bound n y q h.1)

  length-earliest : (x : T) (q : List T) → length (earliest x q).1 ≡ length q
  unfolding earliest
  length-earliest x [] = refl
  length-earliest x (y ∷ q) = ground (arith, length-earliest y q)

  -- The loop without its accumulator.
  drain : ℕ → ℕ → List T → List T × List T
  drain zero now queue = ([], queue)
  drain (suc fuel) now [] = ([], [])
  drain (suc fuel) now (x ∷ q) =
      let (due, rest) = drain fuel now (earliest x q).1 in
      if leb (time_of (earliest x q).0) now then ((earliest x q).0 ∷ due, rest) else ([], x ∷ q)

  pop_events_loop-drain :
      (fuel now : ℕ) (q ret : List T)
      → pop_events_loop fuel now q ret ≡ (ret ++ (drain fuel now q).0, (drain fuel now q).1)
  unfolding pop_events_loop drain
  pop_events_loop-drain zero now q ret = rw append-nil
  pop_events_loop-drain (suc fuel) now [] ret = rw append-nil
  pop_events_loop-drain (suc fuel) now (x ∷ q) ret =
      elim (Bool-cases (leb (time_of (earliest x q).0) now)) [
        | inl e ↦
            rw
              (
                e,
                pop_events_loop-drain fuel now (earliest x q).1 (ret ++ (earliest x q).0 ∷ []),
                append_assoc,
              )
              refl
        | inr e ↦ rw (e, append-nil) refl
      ]

  abbrev pub IsSorted : List T → Type 0
  IsSorted [] = Unit {0}
  IsSorted (x ∷ xs) = NotBefore (time_of x) xs × IsSorted xs

  abbrev pub Due : ℕ → List T → Type 0
  Due now = All (λ e. time_of e ≤ now)

  abbrev pub Pending : ℕ → List T → Type 0
  Pending now = All (λ e. now < time_of e)

  -- What stays behind an element is not before it, in whatever order it comes out.
  drain-NotBefore : (fuel now n : ℕ) (q : List T) → NotBefore n q → NotBefore n (drain fuel now q).0
  unfolding drain
  drain-NotBefore zero now n q h = tt
  drain-NotBefore (suc fuel) now n [] h = tt
  drain-NotBefore (suc fuel) now n (x ∷ q) h =
      ground (arith, earliest-bound n x q h, drain-NotBefore fuel now n (earliest x q).1)

  NotBefore-Pending : (now n : ℕ) (q : List T) → now < n → NotBefore n q → Pending now q
  NotBefore-Pending now n [] h b = tt
  NotBefore-Pending now n (x ∷ q) h b = (omega arith, NotBefore-Pending now n q h b.1)

  drain_lem :
      (fuel now : ℕ) (q : List T)
      → length q < fuel
      → Due now (drain fuel now q).0
        × Pending now (drain fuel now q).1
        × IsSorted (drain fuel now q).0
  unfolding drain
  drain_lem zero now q h = absurd (omega arith)
  drain_lem (suc fuel) now [] h = (tt, tt, tt)
  drain_lem (suc fuel) now (x ∷ q) h =
      let (first, old, new) = earliest-NotBefore x q in
      let (d, p, s) = drain_lem fuel now (earliest x q).1 (omega (arith, length-earliest x q)) in
      elim (Bool-cases (leb (time_of (earliest x q).0) now)) [
        | inl e ↦ rw e ((leb→le _ _ e, d), p, (drain-NotBefore fuel now _ (earliest x q).1 new, s))
        | inr e ↦ rw e (tt, (ground arith, NotBefore-Pending now _ q (ground arith) old), tt)
      ]

  drain-perm : (fuel now : ℕ) (q : List T) → Perm ((drain fuel now q).0 ++ (drain fuel now q).1) q
  unfolding drain
  drain-perm zero now q = Perm.refl q
  drain-perm (suc fuel) now [] = Perm.refl []
  drain-perm (suc fuel) now (x ∷ q) = elim (Bool-cases (leb (time_of (earliest x q).0) now)) [
    | inl e ↦ rw e (
        Perm.trans (Perm.cons _ (drain-perm fuel now (earliest x q).1))
          (Perm.symm (earliest-perm x q)))
    | inr e ↦ rw e (Perm.refl _)
  ]

-- popEvents takes out every event that is due, earliest first, and no other: what it returns and
-- what it leaves in the queue are together the elements of the queue, as often as they stood there.
pub pop_events_lem :
    {T : Type 0} ⦃t : Timed T⦄ (now : ℕ) (q : List T)
    → Due now (pop_events now q).0
      × IsSorted (pop_events now q).0
      × Pending now (pop_events now q).1
      × Perm ((pop_events now q).0 ++ (pop_events now q).1) q
unfolding pop_events
pop_events_lem now q =
    let (d, p, s) = drain_lem (suc (length q)) now q (omega arith) in
    rw (pop_events_loop-drain (suc (length q)) now q [])
      (d, s, p, drain-perm (suc (length q)) now q)

-- On a queue that is not empty, getNextEventTime is exactly the first time at which popEvents
-- returns an event: before it popEvents returns none, from it on popEvents returns one.
pub pop_events-next :
    {T : Type 0} ⦃t : Timed T⦄ (now : ℕ) (x : T) (q : List T)
    → ((pop_events now (x ∷ q)).0 ≡ []) ↔ (now < get_next_event_time (x ∷ q))
unfolding pop_events get_next_event_time drain
pop_events-next now x q =
    rw (pop_events_loop-drain (suc (length (x ∷ q))) now (x ∷ q) [])
      (elim (Bool-cases (leb (time_of (earliest x q).0) now)) [
        | inl e ↦ rw e ((λ c. absurd (ground arith)), (λ h. absurd (ground arith)))
        | inr e ↦ rw e ((λ c. ground arith), (λ h. refl))
      ])

-- From the next event's time on, the first event that popEvents returns is one of that time.
pub pop_events_first :
    {T : Type 0} ⦃t : Timed T⦄ (now : ℕ) (q : List T)
    → get_next_event_time q ≢ 0
    → get_next_event_time q ≤ now
    → (e : T) × (es : List T) × ((pop_events now q).0 ≡ e ∷ es)
      × (time_of e ≡ get_next_event_time q)
unfolding pop_events get_next_event_time drain
pop_events_first now [] h le = absurd (h refl)
pop_events_first now (x ∷ q) h le =
    let due : leb (time_of (earliest x q).0) now ≡ true = ground arith in
    (
      (earliest x q).0,
      (drain (suc (length q)) now (earliest x q).1).0,
      rw (pop_events_loop-drain (suc (length (x ∷ q))) now (x ∷ q) [], due) refl,
      refl,
    )

Any-NotBefore :
    {T : Type 0} ⦃t : Timed T⦄ (n : ℕ) (q : List T)
    → NotBefore n q
    → Any (λ e. time_of e ≡ 0) q
    → n ≡ 0
Any-NotBefore n [] h z = elim z [ ]
Any-NotBefore n (x ∷ q) h (inl here) = omega (arith, h.0, here)
Any-NotBefore n (x ∷ q) h (inr later) = Any-NotBefore n q h.1 later

-- An event at time 0 is the next one, and hides every other.
pub Any-zero-next :
    {T : Type 0} ⦃t : Timed T⦄ (q : List T) → Any (λ e. time_of e ≡ 0) q → get_next_event_time q ≡ 0
unfolding get_next_event_time
Any-zero-next [] h = elim h [ ]
Any-zero-next (x ∷ q) h =
    let (first, others, left) = earliest-NotBefore x q in
    elim h [
      | inl here ↦ omega (arith, first, here)
      | inr later ↦ Any-NotBefore (time_of (earliest x q).0) q others later
    ]
