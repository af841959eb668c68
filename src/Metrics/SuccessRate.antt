-- ===== src/Metrics/SuccessRate.antt =====
-- src/metrics/NodeSuccessRate.cpp and src/metrics/GeneralSuccessRate.cpp. The counters are int64_t; the model does
-- not wrap their sums, since no test comes near 2 ^ 63 operations.
use dhtperf.Prelude.{
  ◌^◌, ◌≡◌, refl, ◌∷◌, ◌++◌, [], List, Bytes, some, append_assoc, append-nil, ◌==◌, if◌then◌else◌,
  Bool-cases, inl, inr, map,
}
use dhtperf.Prelude.Int.{ℤ, pos, eqb_ℤ, ◌+ℤ◌}
use dhtperf.Metrics.Streams.{print_ℤ, extract, extract-print_ℤ, extract_last, Fits}
use dhtperf.Metrics.Statistics.{Doubles, Statistics, double, new_statistics, push, push_all}

pub record NodeSuccessRate : Type 0 where
  pub hits : ℤ
  pub misses : ℤ

abbrev pub no_operations : NodeSuccessRate
no_operations = record { hits = pos 0; misses = pos 0 }

unfoldable pub from_string : Bytes → NodeSuccessRate
from_string text =
    let (hits, stream) = extract (2 ^ 63) (pos 0) (some text) in
    let (misses, stream) = extract (2 ^ 63) (pos 0) stream in
    record { hits = hits; misses = misses }

unfoldable pub hit : NodeSuccessRate → NodeSuccessRate
hit n = record n { hits = n.hits +ℤ pos 1 }

unfoldable pub miss : NodeSuccessRate → NodeSuccessRate
miss n = record n { misses = n.misses +ℤ pos 1 }

unfoldable pub node_count : NodeSuccessRate → ℤ
node_count n = n.hits +ℤ n.misses

unfoldable pub to_string : NodeSuccessRate → Bytes
to_string n = print_ℤ n.hits ++ b' ' ∷ print_ℤ n.misses

-- A node reports its hits and misses as a text, and the master gets the same numbers from it, for counters that
-- int64_t can hold.
pub from_string-to_string :
    (n : NodeSuccessRate)
    → Fits (2 ^ 63) n.hits
    → Fits (2 ^ 63) n.misses
    → from_string (to_string n) ≡ n
unfolding from_string to_string
from_string-to_string n fh fm =
    let first = extract-print_ℤ (2 ^ 63) (pos 0) n.hits (b' ' ∷ print_ℤ n.misses) fh refl in
    let second = extract_last (2 ^ 63) (pos 0) n.misses fm in rw (first, second) refl

-- The nodes whose results count, and the order in which they came.
unfoldable pub with_results : List NodeSuccessRate → List NodeSuccessRate
unfolding node_count
with_results [] = []
with_results (n ∷ ns) =
    if eqb_ℤ (node_count n) (pos 0) then with_results ns else n ∷ with_results ns

module _ (d : Doubles) where
  unfoldable pub success_rate : NodeSuccessRate → d.Double
  success_rate n =
      if eqb_ℤ (n.misses +ℤ n.hits) (pos 0)
      then d.zero
      else d.div (d.of_int n.hits) (d.of_int (n.misses +ℤ n.hits))

  pub record GeneralSuccessRate : Type 0 where
    pub nodes : List NodeSuccessRate
    pub statistics : Statistics d.Double d.Double

  unfoldable pub new_general : d.Double → GeneralSuccessRate
  unfolding new_statistics
  new_general junk = record { nodes = []; statistics = new_statistics d (double d) junk d.zero }

  unfoldable pub push_node : NodeSuccessRate → GeneralSuccessRate → GeneralSuccessRate
  unfolding node_count success_rate
  push_node n g = if eqb_ℤ (node_count n) (pos 0) then g else record {
    nodes = g.nodes ++ n ∷ [];
    statistics = push d (double d) (success_rate n) g.statistics;
  }

  unfoldable pub push_nodes : List NodeSuccessRate → GeneralSuccessRate → GeneralSuccessRate
  push_nodes [] g = g
  push_nodes (n ∷ ns) g = push_nodes ns (push_node n g)

  -- max(): 0.0 where no node had results.
  unfoldable pub general_max : GeneralSuccessRate → d.Double
  general_max g = if g.statistics.count == 0 then d.zero else g.statistics.max

  unfoldable pub general_min : GeneralSuccessRate → d.Double
  general_min g = if g.statistics.count == 0 then d.zero else g.statistics.min

  unfoldable pub general_mean : GeneralSuccessRate → d.Double
  general_mean g = if g.statistics.count == 0 then d.zero else g.statistics.mean

  -- Whatever is collected already, pushing nodes keeps those that have results, in their order, and their
  -- success rates are pushed on the statistics; nodes without results change nothing.
  pub push_nodes-with_results :
      (ns : List NodeSuccessRate) (g : GeneralSuccessRate)
      → push_nodes ns g ≡ record {
        nodes = g.nodes ++ with_results ns;
        statistics = push_all d (double d) (map success_rate (with_results ns)) g.statistics;
      }
  unfolding push_nodes push_node push_all with_results
  push_nodes-with_results [] g = rw append-nil
  push_nodes-with_results (n ∷ ns) g = elim (Bool-cases (eqb_ℤ (node_count n) (pos 0))) [
    | inl empty ↦ rw empty (push_nodes-with_results ns g)
    | inr filled ↦
        rw
          (
            filled,
            push_nodes-with_results ns (record {
              nodes = g.nodes ++ n ∷ [];
              statistics = push d (double d) (success_rate n) g.statistics;
            }),
            append_assoc,
          )
          refl
  ]
