-- ===== src/Tests/Forks.antt =====
-- A process with its three standard descriptors, which forks.
use dhtperf.Prelude.{
  ℕ, zero, suc, ◌≡◌, refl, Bool, true, false, Option, none, some, done, arith, ◌==◌, if◌then◌else◌,
  Option-cases, inl, inr,
}
use dhtperf.Controller.Pipes.Descriptors.{
  Descriptors, Forked, Posix, ArePipes, init_and_fork, init_and_fork_lem,
}

abbrev Entries : Type 0
Entries = ℕ → Option ℕ

abbrev set_entry : ℕ → Option ℕ → Entries → Entries
set_entry i f t k = if k == i then f else t k

abbrev copy_entry : Option ℕ → ℕ → Entries → Entries
copy_entry none j t = t
copy_entry (some f) j t = set_entry j (some f) t

abbrev taken : Option ℕ → Bool
taken none = false
taken (some f) = true

-- A process with at most one pipe before: its ends are the descriptors 3 and 4, or else 5 and 6. A file is a number.
abbrev simple : Descriptors
simple = record {
  Table = Entries;
  File = ℕ;
  get = λ i t. t i;
  close = λ i t. set_entry i none t;
  dup2 = λ i j t. copy_entry (t i) j t;
  pipe = λ t.
      if taken (t 3)
      then some (5, 6, set_entry 5 (some 12) (set_entry 6 (some 13) t))
      else some (3, 4, set_entry 3 (some 10) (set_entry 4 (some 11) t));
  forks = true;
}

simple-Posix : Posix simple
simple-Posix = record {
  closed = λ i t. ground arith;
  kept = λ i j t other. ground arith;
  copied = λ i j t f e. rw (copy_entry, e) (ground arith);
  other = λ k i j t other. elim (Option-cases (t i)) [
    | inl e ↦ rw (copy_entry, e) refl
    | inr (f, e) ↦ rw (copy_entry, e) (ground arith)
  ];
  failed = λ i j t e. rw (copy_entry, e) refl;
}

abbrev standard : Entries
standard zero = some 0
standard (suc zero) = some 1
standard (suc (suc zero)) = some 2
standard (suc (suc (suc k))) = none

abbrev one_pipe : Entries
one_pipe = set_entry 3 (some 10) (set_entry 4 (some 11) standard)

abbrev two_pipes : Entries
two_pipes = set_entry 5 (some 12) (set_entry 6 (some 13) one_pipe)

four : ArePipes simple simple-Posix 3 4 5 6 two_pipes
four = record {
  low_r0 = omega arith;
  low_w0 = omega arith;
  low_r1 = omega arith;
  low_w1 = omega arith;
  r0_w0 = λ e. omega arith;
  r0_r1 = λ e. omega arith;
  r0_w1 = λ e. omega arith;
  w0_r1 = λ e. omega arith;
  w0_w1 = λ e. omega arith;
  r1_w1 = λ e. omega arith;
}

init_and_fork_lem_example :
    (s : Forked Entries) × (init_and_fork simple standard ≡ done s)
    × (s.child_table 1 ≡ some 11)
    × (s.child_table 0 ≡ some 12)
    × (s.child_table 2 ≡ some 2)
    × (s.child_table s.in_ ≡ none)
    × (s.child_table s.out_ ≡ none)
    × (s.parent_table s.in_ ≡ some 10)
    × (s.parent_table s.out_ ≡ some 13)
    × (s.parent_table 4 ≡ none)
    × (s.parent_table 5 ≡ none)
init_and_fork_lem_example =
    init_and_fork_lem simple simple-Posix standard one_pipe two_pipes 3 4 5 6 10 11 12 13 refl refl
      refl four refl refl refl refl
