-- ===== src/Controller/Loop/Leaves.antt =====
-- Two leave events that are due at once.
use dhtperf.Prelude.{
  ℕ, ◌≡◌, refl, ap, ◌∙◌, List, ◌∷◌, none, some, Option, true, false, Outcome, done, exits, ◌⊎◌, inl,
  inr,
}
use dhtperf.Prelude.Int.{ℤ}
use dhtperf.Events.{LeaveEvent}
use dhtperf.Metrics.Statistics.{Doubles}
use dhtperf.Metrics.Latency.{PosixTime}
use dhtperf.Controller.Operations.{Dht, Node, process_leave_event}
use dhtperf.Controller.Loop.{finished, check_done, process_all}
use dhtperf.Controller.Loop.Batches.{checked_then, process_all-cons}
use dhtperf.Controller.Loop.Connected.{IsTotal, Has-refl, leave_step}

module _ (d : Doubles) (clock : PosixTime) (dht : Dht clock) where
  open dht use {World}

  abbrev leaving : LeaveEvent → Node d clock → World → Outcome (Node d clock × World)
  leaving event n w = process_leave_event d clock dht n w

  not_connected :
      (duration : ℕ) (f : LeaveEvent) (es : List LeaveEvent) (n : Node d clock) (now : ℕ × ℤ)
      (u : World)
      → n.connected ≡ false
      → process_all d clock dht leaving duration (f ∷ es) now n u ≡ exits 1
  unfolding process_all process_leave_event
  not_connected duration f es n now u off = rw off refl

  -- Where the operations of the DHT always return: if two leave events or more are due at once on a connected node, the
  -- second one ends the process with an error, unless the time is up right behind the first.
  pub process_all-two_leaves :
      (total : IsTotal dht) (duration : ℕ) (e f : LeaveEvent) (es : List LeaveEvent) (times : ℕ × ℤ)
      (n : Node d clock) (w : World)
      → n.connected ≡ true
      → ((s : (ℕ × ℤ) × (Node d clock × World)) × (process_all d clock dht
              (λ event n w. process_leave_event d clock dht n w)
              duration
              (e ∷ f ∷ es)
              times
              n
              w
            ≡ done (finished s)))
        ⊎ (process_all d clock dht
              (λ event n w. process_leave_event d clock dht n w)
              duration
              (e ∷ f ∷ es)
              times
              n
              w
            ≡ exits 1)
  process_all-two_leaves total duration e f es times n w on =
      let (n', v, ran, (off, has)) =
        leave_step d clock dht total n 0 0 n w (on, Has-refl d clock dht n) in
      second n' v ran off (check_done d clock dht duration v) refl
    where
      second :
          (n' : Node d clock) (v : World)
          → process_leave_event d clock dht n w ≡ done (n', v)
          → n'.connected ≡ false
          → (c : Option (ℕ × ℤ) × World) → check_done d clock dht duration v ≡ c
          → ((s : (ℕ × ℤ) × (Node d clock × World)) × (process_all d clock dht leaving duration
                  (e ∷ f ∷ es)
                  times
                  n
                  w
                ≡ done (finished s)))
            ⊎ (process_all d clock dht leaving duration (e ∷ f ∷ es) times n w ≡ exits 1)
      second n' v ran off (none, u) checked = inl (
        (times, (n', u)),
        process_all-cons d clock dht leaving duration e (f ∷ es) times n n' w v ran
            ∙ ap (checked_then d clock dht leaving duration (f ∷ es) times n') checked,
      )
      second n' v ran off (some now, u) checked = inr (
          process_all-cons d clock dht leaving duration e (f ∷ es) times n n' w v ran
          ∙ (ap (checked_then d clock dht leaving duration (f ∷ es) times n') checked
              ∙ not_connected duration f es n' now u off))
