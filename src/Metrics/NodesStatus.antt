-- ===== src/Metrics/NodesStatus.antt =====
-- src/metrics/NodesStatus.cpp. An int is between -(2 ^ 31) and 2 ^ 31 - 1.
use dhtperf.Prelude.{◌^◌, ◌≡◌, refl, ◌∙◌, ◌∷◌, ◌++◌, Bytes, some}
use dhtperf.Prelude.Int.{ℤ, pos}
use dhtperf.Metrics.Streams.{print_ℤ, extract, extract-print_ℤ, extract_space, extract_last, Fits}

pub record NodesStatus : Type 0 where
  pub finished : ℤ
  pub failed : ℤ
  pub unfinished : ℤ

abbrev pub no_status : NodesStatus
no_status = record { finished = pos 0; failed = pos 0; unfinished = pos 0 }

-- stream >> finished_ >> failed_ >> unfinished_
unfoldable pub set : Bytes → NodesStatus → NodesStatus
set value s =
    let (finished, stream) = extract (2 ^ 31) s.finished (some value) in
    let (failed, stream) = extract (2 ^ 31) s.failed stream in
    let (unfinished, stream) = extract (2 ^ 31) s.unfinished stream in
    record { finished = finished; failed = failed; unfinished = unfinished }

-- Three numbers with a space between them, as the master reports them.
abbrev pub status_text : ℤ → ℤ → ℤ → Bytes
status_text a b c = print_ℤ a ++ (b' ' ∷ (print_ℤ b ++ (b' ' ∷ print_ℤ c)))

-- The status that is set from the printed numbers of three ints is these numbers, whatever it was.
pub set-status_text :
    (a b c : ℤ) (s : NodesStatus)
    → Fits (2 ^ 31) a
    → Fits (2 ^ 31) b
    → Fits (2 ^ 31) c
    → set (status_text a b c) s ≡ record { finished = a; failed = b; unfinished = c }
unfolding set
set-status_text a b c s fa fb fc =
    let first =
      extract-print_ℤ (2 ^ 31) s.finished a (b' ' ∷ (print_ℤ b ++ (b' ' ∷ print_ℤ c))) fa refl in
    let second =
      extract_space (2 ^ 31) s.failed (print_ℤ b ++ (b' ' ∷ print_ℤ c))
      ∙ extract-print_ℤ (2 ^ 31) s.failed b (b' ' ∷ print_ℤ c) fb refl in
    let third = extract_last (2 ^ 31) s.unfinished c fc in rw (first, second, third) refl
