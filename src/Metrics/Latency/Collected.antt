-- ===== src/Metrics/Latency/Collected.antt =====
-- What the measurements of nodes, and the latencies collected from many nodes, come to.
use dhtperf.Prelude.{
  ◌≡◌, refl, List, [], ◌∷◌, ◌++◌, map, true, false, Bool-cases, inl, inr, append_assoc, append-nil,
  if◌then◌else◌, ◌==◌,
}
use dhtperf.Prelude.Int.{ℤ}
use dhtperf.Metrics.Statistics.{Doubles, Statistics, long_int, double, push, push_all}
use dhtperf.Metrics.Latency.{
  PosixTime, NodeLatency, measure, push_measurements, push_latency, GeneralLatency, latency_count,
  mean_in_microseconds,
}
use dhtperf.Metrics.Latency.Text.{Follows, Ordered, micros}

-- operator< of ptime is a strict order.
pub record StrictOrder (clock : PosixTime) : Type 0 where
  pub asym : (a b : clock.Ptime) → clock.before a b ≡ true → clock.before b a ≡ false
  pub trans :
      (a b c : clock.Ptime)
      → clock.before a b ≡ true
      → clock.before b c ≡ true
      → clock.before a c ≡ true

module _ (d : Doubles) (clock : PosixTime) where
  open clock use {Ptime, Duration, before, total_microseconds}

  Follows-measure :
      (s t : Ptime) (x : Duration) (m : List (Ptime × Duration))
      → before s t ≡ true
      → before t s ≡ false
      → Follows d clock s m
      → Follows d clock s (measure d clock t x m)
  unfolding measure
  Follows-measure s t x [] st ts h = ((st, ts), tt)
  Follows-measure s t x ((u, y) ∷ m) st ts (h, hs) = elim (Bool-cases (before t u)) [
    | inl e ↦ rw e ((st, ts), (h, hs))
    | inr e ↦ elim (Bool-cases (before u t)) [
      | inl f ↦ rw (e, f) (h, Follows-measure s t x m st ts hs)
      | inr f ↦ rw (e, f) (h, hs)
    ]
  ]

  module _ (order : StrictOrder clock) where
    Follows-trans :
        (s t : Ptime) (m : List (Ptime × Duration))
        → before s t ≡ true
        → Follows d clock t m
        → Follows d clock s m
    Follows-trans s t [] st h = tt
    Follows-trans s t ((u, y) ∷ m) st ((tu, ut), hs) =
        let su = order.trans s t u st tu in ((su, order.asym s u su), Follows-trans s t m st hs)

    -- Where operator< of ptime is a strict order, a measurement keeps the measurements of a node in the order of their
    -- times, whether it is new or replaces one.
    pub measure-Ordered :
        (t : Ptime) (x : Duration) (m : List (Ptime × Duration))
        → Ordered d clock m
        → Ordered d clock (measure d clock t x m)
    unfolding measure
    measure-Ordered t x [] h = (tt, tt)
    measure-Ordered t x ((s, y) ∷ m) (f, o) = elim (Bool-cases (before t s)) [
      | inl e ↦ rw e (((e, order.asym t s e), Follows-trans t s m e f), (f, o))
      | inr e ↦ elim (Bool-cases (before s t)) [
        | inl g ↦ rw (e, g) (Follows-measure s t x m g e f, measure-Ordered t x m o)
        | inr g ↦ rw (e, g) (f, o)
      ]
    ]

  unfoldable pub push_latencies :
      List (NodeLatency d clock) → GeneralLatency d clock → GeneralLatency d clock
  push_latencies [] g = g
  push_latencies (n ∷ ns) g = push_latencies ns (push_latency d clock n g)

  -- The nodes that have measured something.
  unfoldable pub with_measurements : List (NodeLatency d clock) → List (NodeLatency d clock)
  with_measurements [] = []
  with_measurements (n ∷ ns) =
      if latency_count d clock n == 0 then with_measurements ns else n ∷ with_measurements ns

  -- The durations of all nodes, in microseconds.
  unfoldable pub all_micros : List (NodeLatency d clock) → List ℤ
  all_micros [] = []
  all_micros (n ∷ ns) = micros d clock n.measurements ++ all_micros ns

  push_measurements-push_all :
      (m : List (Ptime × Duration)) (s : Statistics d.Double ℤ)
      → push_measurements d clock m s ≡ push_all d (long_int d) (micros d clock m) s
  unfolding push_measurements push_all
  push_measurements-push_all [] s = refl
  push_measurements-push_all ((t, x) ∷ m) s =
      push_measurements-push_all m (push d (long_int d) (total_microseconds x) s)

  push_all-append :
      (xs ys : List ℤ) (s : Statistics d.Double ℤ)
      → push_all d (long_int d) (xs ++ ys) s
        ≡ push_all d (long_int d) ys (push_all d (long_int d) xs s)
  unfolding push_all
  push_all-append [] ys s = refl
  push_all-append (x ∷ xs) ys s = push_all-append xs ys (push d (long_int d) x s)

  push_latency_filled :
      (n : NodeLatency d clock) (g : GeneralLatency d clock)
      → (latency_count d clock n == 0) ≡ false
      → push_latency d clock n g ≡ record {
        nodes = g.nodes ++ n ∷ [];
        means_statistics = push d (double d) (mean_in_microseconds d clock n) g.means_statistics;
        general_statistics = push_measurements d clock n.measurements g.general_statistics;
      }
  unfolding push_latency
  push_latency_filled n g h = rw h refl

  push_latency_empty :
      (n : NodeLatency d clock) (g : GeneralLatency d clock)
      → (latency_count d clock n == 0) ≡ true
      → push_latency d clock n g ≡ g
  unfolding push_latency
  push_latency_empty n g h = rw h refl

  -- Whatever is collected already, pushing nodes keeps those that have measured something, in their order; the durations of
  -- all their measurements are pushed on the general statistics, and the mean of each node on those of the means.
  pub push_latencies-all_micros :
      (ns : List (NodeLatency d clock)) (g : GeneralLatency d clock)
      → push_latencies ns g ≡ record {
        nodes = g.nodes ++ with_measurements ns;
        means_statistics =
            push_all d
              (double d)
              (map (mean_in_microseconds d clock) (with_measurements ns))
              g.means_statistics;
        general_statistics =
            push_all d (long_int d) (all_micros (with_measurements ns)) g.general_statistics;
      }
  unfolding push_latencies push_all with_measurements all_micros
  push_latencies-all_micros [] g = rw append-nil
  push_latencies-all_micros (n ∷ ns) g = elim (Bool-cases (latency_count d clock n == 0)) [
    | inl empty ↦ rw (empty, push_latency_empty n g empty) (push_latencies-all_micros ns g)
    | inr filled ↦
        rw
          (
            filled,
            push_latency_filled n g filled,
            push_latencies-all_micros ns (record {
              nodes = g.nodes ++ n ∷ [];
              means_statistics =
                  push d (double d) (mean_in_microseconds d clock n) g.means_statistics;
              general_statistics = push_measurements d clock n.measurements g.general_statistics;
            }),
            append_assoc,
            push_measurements-push_all n.measurements g.general_statistics,
            push_all-append (micros d clock n.measurements) (all_micros (with_measurements ns))
                g.general_statistics,
          )
          refl
  ]
