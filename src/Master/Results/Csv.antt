-- ===== src/Master/Results/Csv.antt =====
-- src/master/ResultProcessor.cpp: process, which appends to the CSV files. A directory is given by what its files hold,
-- nothing for a file that is not there; `opens` tells which of them can be opened, and `fixed` prints a double with
-- six digits behind the point.
pub mod Appends
use dhtperf.Prelude.{
  ℕ, zero, suc, ◌+◌, ◌-◌, ◌≡◌, refl, sym, ap, ◌∙◌, List, [], ◌∷◌, ◌++◌, Bytes, codes, Bool, true,
  false, str_eq, if◌then◌else◌, length, Outcome, done, exits, ◌>>=◌, >>=-eq-done, Bool-cases, inl,
  inr, subst, done-injective, arith, append_assoc, append-nil,
}
use dhtperf.Prelude.Int.{ℤ, pos}
use dhtperf.Metrics.Streams.{print_ℤ}
use dhtperf.Metrics.Statistics.{Doubles}
use dhtperf.Metrics.Latency.{
  PosixTime, GeneralLatency, general_max_in_microseconds, general_min_in_microseconds,
  general_mean_in_microseconds, mean_of_means_in_microseconds, max_mean_in_microseconds,
  min_mean_in_microseconds, general_count,
}
use dhtperf.Metrics.SuccessRate.{GeneralSuccessRate, general_max, general_min, general_mean}
use dhtperf.Metrics.NodesStatus.{NodesStatus}
use dhtperf.Master.Results.{ResultProcessor}
use dhtperf.Master.Results.Cdf.{cdf_rows}

abbrev pub Directory : Type 0
Directory = Bytes → Bytes

unfoldable pub spaces : ℕ → Bytes
spaces zero = []
spaces (suc n) = b' ' ∷ spaces n

-- std::left and std::right with std::setw(18)
unfoldable pub left : Bytes → Bytes
unfolding spaces
left text = text ++ spaces (18 - length text)

unfoldable pub right : Bytes → Bytes
unfolding spaces
right text = spaces (18 - length text) ++ text

-- Further columns, with a space before each of them.
unfoldable pub columns : List Bytes → Bytes
unfolding right
columns [] = []
columns (c ∷ cs) = b' ' ∷ (right c ++ columns cs)

abbrev newline : Bytes
newline = 10 ∷ []

unfoldable pub row : Bytes → List Bytes → Bytes
unfolding left columns
row first others = left first ++ (columns others ++ newline)

-- '"' + dhtType_ + '"'
unfoldable pub quoted : Bytes → Bytes
quoted type = b'"' ∷ (type ++ b'"' ∷ [])

-- A file that is opened with std::ios::app: `at_start` goes to a file that is empty, `between` to one that is not, and
-- `text` follows.
unfoldable pub appended : Bytes → Bytes → Bytes → Bytes → Directory → Directory
appended name at_start between text files n =
    if str_eq n name
    then files n ++ ((elim (files name) [ [] ↦ at_start | c ∷ s ↦ between ]) ++ text)
    else files n

unfoldable pub append_file :
    (Bytes → Bool) → Bytes → Bytes → Bytes → Bytes → Directory → Outcome Directory
append_file opens name at_start between text files =
    if opens name then done (appended name at_start between text files) else exits 1

module _ (d : Doubles) (clock : PosixTime) (fixed : d.Double → Bytes) (opens : Bytes → Bool) where
  unfoldable pub cdf_lines : List (ℤ × d.Double) → Bytes
  unfolding row
  cdf_lines [] = []
  cdf_lines ((bound, share) ∷ rows) = row (print_ℤ bound) (fixed share ∷ []) ++ cdf_lines rows

  unfoldable pub process_latency :
      Bytes → Bytes → GeneralLatency d clock → Directory → Outcome Directory
  unfolding append_file row quoted cdf_lines cdf_rows
  process_latency dht_type prefix g files = do
    files ←
        append_file opens (prefix ++ codes "-latency.csv")
          (row (codes "# DHT type") (
            codes "Min"
            ∷ codes "Min mean"
            ∷ codes "Mean"
            ∷ codes "Mean of means"
            ∷ codes "Max mean"
            ∷ codes "Max"
            ∷ []))
          []
          (row (quoted dht_type) (
            print_ℤ (general_min_in_microseconds d clock g)
            ∷ fixed (min_mean_in_microseconds d clock g)
            ∷ fixed (general_mean_in_microseconds d clock g)
            ∷ fixed (mean_of_means_in_microseconds d clock g)
            ∷ fixed (max_mean_in_microseconds d clock g)
            ∷ print_ℤ (general_max_in_microseconds d clock g)
            ∷ []))
          files
    append_file opens (prefix ++ codes "-latency-cdf.csv")
        (row (codes "# Range ") (codes "CDF" ∷ [])) (newline ++ newline)
        (codes "# ["
          ++ (dht_type
              ++ (codes "]\n"
                  ++ (row (codes "0") (codes "0" ∷ [])
                      ++ cdf_lines (
                          cdf_rows d (d.of_int (pos (general_count d clock g))) 30 0 (pos 0)
                            g.general_statistics.frequency_map_interval
                            g.general_statistics.frequency_map)))))
        files

  unfoldable pub process_success_rate :
      Bytes → Bytes → GeneralSuccessRate d → Directory → Outcome Directory
  unfolding append_file row quoted
  process_success_rate dht_type prefix g files =
      append_file opens (prefix ++ codes "-success-rate.csv")
        (row (codes "# DHT type") (codes "Min" ∷ codes "Mean" ∷ codes "Max" ∷ [])) []
        (row (quoted dht_type)
          (fixed (general_min d g) ∷ fixed (general_mean d g) ∷ fixed (general_max d g) ∷ []))
        files

  unfoldable pub process_nodes_status : Bytes → NodesStatus → Directory → Outcome Directory
  unfolding append_file row quoted
  process_nodes_status dht_type s files =
      append_file opens (codes "nodes-status.csv")
        (row (codes "# DHT type ") (codes "Finished" ∷ codes "Failed" ∷ codes "Unfinished" ∷ [])) []
        (row (quoted dht_type) (print_ℤ s.finished ∷ print_ℤ s.failed ∷ print_ℤ s.unfinished ∷ []))
        files

  unfoldable pub process : ResultProcessor d clock → Directory → Outcome Directory
  unfolding process_latency process_success_rate process_nodes_status
  process r files = do
    files ← process_latency r.dht_type (codes "join") r.join_latency files
    files ← process_latency r.dht_type (codes "leave") r.leave_latency files
    files ← process_latency r.dht_type (codes "put") r.put_latency files
    files ← process_latency r.dht_type (codes "get") r.get_latency files
    files ← process_success_rate r.dht_type (codes "join") r.join_success_rate files
    files ← process_success_rate r.dht_type (codes "get") r.get_success_rate files
    process_nodes_status r.dht_type r.nodes_status files
