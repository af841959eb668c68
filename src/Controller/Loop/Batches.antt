-- ===== src/Controller/Loop/Batches.antt =====
-- Events of one kind that are due at once.
use dhtperf.Prelude.{ℕ, ◌≡◌, refl, List, ◌∷◌, none, some, Option, Outcome, done}
use dhtperf.Prelude.Int.{ℤ}
use dhtperf.Metrics.Statistics.{Doubles}
use dhtperf.Metrics.Latency.{PosixTime}
use dhtperf.Controller.Operations.{Dht, Node}
use dhtperf.Controller.Loop.{Progress, finished, check_done, process_all}

module _ (d : Doubles) (clock : PosixTime) (dht : Dht clock) where
  open dht use {World}

  abbrev pub checked_then :
      {E : Type 0}
      → (E → Node d clock → World → Outcome (Node d clock × World))
      → ℕ
      → List E
      → ℕ × ℤ
      → Node d clock
      → Option (ℕ × ℤ) × World
      → Outcome (Progress ((ℕ × ℤ) × (Node d clock × World)))
  checked_then process duration es times n c = elim c.0 [
    | none ↦ done (finished (times, (n, c.1)))
    | some now ↦ process_all d clock dht process duration es now n c.1
  ]

  pub process_all-cons :
      {E : Type 0} (process : E → Node d clock → World → Outcome (Node d clock × World))
      (duration : ℕ) (e : E) (es : List E) (times : ℕ × ℤ) (n n' : Node d clock) (w v : World)
      → process e n w ≡ done (n', v)
      → process_all d clock dht process duration (e ∷ es) times n w
        ≡ checked_then process duration es times n' (check_done d clock dht duration v)
  unfolding process_all
  process_all-cons process duration e es times n n' w v ran = rw ran refl
