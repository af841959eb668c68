-- ===== src/Master/Workload/Load.antt =====
-- src/master/MasterWorkload.cpp: loadConfig and getNodeProfile. A file is its bytes, or none where it
-- cannot be opened.
use dhtperf.Prelude.{
  ℕ, zero, suc, ◌+◌, List, [], ◌∷◌, ◌++◌, Bytes, Option, none, some, Bool, true, false, ◌==◌,
  length, if◌then◌else◌, lookup, nat_keys, text_keys, Outcome, done, faults, ◌>>=◌, ◌&&◌,
}
use dhtperf.Common.{Boost}
use dhtperf.Master.Workload.{Workload, process_config_line}
use dhtperf.Master.Workload.Profile.{WorkloadProfile, is_complete}

-- The texts that getline takes from the file, up to the one that ends it.
unfoldable pub read_lines : Bytes → List Bytes
read_lines [] = [] ∷ []
read_lines (c ∷ s) = elim (read_lines s) [
  | [] ↦ []
  | line ∷ lines ↦ if c == b'\n' then [] ∷ line ∷ lines else (c ∷ line) ∷ lines
]

unfoldable pub ends_in_backslash : Bytes → Bool
ends_in_backslash [] = false
ends_in_backslash (c ∷ []) = c == b'\\'
ends_in_backslash (c ∷ d ∷ s) = ends_in_backslash (d ∷ s)

-- line.substr(0, line.length() - 1)
unfoldable pub but_last : Bytes → Bytes
but_last [] = []
but_last (c ∷ []) = []
but_last (c ∷ d ∷ s) = c ∷ but_last (d ∷ s)

-- The inner loop at the end of the file, where getline yields only empty texts: one round less than
-- the length of the line is enough, as each takes a byte away.
unfoldable pub strip_backslashes : ℕ → Bytes → Bytes
unfolding ends_in_backslash but_last
strip_backslashes zero line = line
strip_backslashes (suc fuel) line =
    let rest = strip_backslashes fuel (but_last line) in
    if ends_in_backslash line then rest else line

module _ (boost : Boost) where
  -- The loop over the file; `partial` is the line so far, without the backslash that continues it.
  unfoldable pub process_lines : Bytes → List Bytes → Workload → Outcome (Bool × Workload)
  unfolding strip_backslashes process_config_line
  process_lines partial [] w = done (true, w)
  process_lines partial (l ∷ []) w =
      process_config_line boost (strip_backslashes (length (partial ++ l)) (partial ++ l)) w
  process_lines partial (l ∷ m ∷ ls) w =
      let continued = process_lines (but_last (partial ++ l)) (m ∷ ls) w in
      let separate = process_config_line boost (partial ++ l) w >>= λ result. elim result.0 [
        | true ↦ process_lines [] (m ∷ ls) result.1
        | false ↦ done (false, result.1)
      ] in
      if ends_in_backslash (partial ++ l) then continued else separate

-- BOOST_FOREACH over profiles_: is every one complete?
unfoldable pub all_complete : List (Bytes × WorkloadProfile) → Bool
unfolding is_complete
all_complete [] = true
all_complete ((name, p) ∷ profiles) = is_complete p && all_complete profiles

-- The loop over the nodes from `i` on, `count` of them.
unfoldable pub nodes_have_profiles : ℕ → ℕ → Workload → Bool
nodes_have_profiles zero i w = true
nodes_have_profiles (suc count) i w = elim (lookup i w.node_profiles) [
  | none ↦ false
  | some name ↦ elim (lookup name w.profiles) [
    | none ↦ false
    | some p ↦ nodes_have_profiles count (i + 1) w
  ]
]

unfoldable pub is_set : Workload → Bool
unfolding all_complete nodes_have_profiles
is_set w =
    if w.nodes == 0
    then false
    else if w.duration == 0
    then false
    else if length w.profiles == 0
    then false
    else all_complete w.profiles && nodes_have_profiles w.nodes 0 w

unfoldable pub load_config : Boost → Workload → Option Bytes → ℕ → Outcome (Bool × Workload)
unfolding read_lines process_lines is_set
load_config boost w none nodes = done (false, w)
load_config boost w (some content) nodes = do
  (valid, w') ←
      process_lines boost [] (read_lines content)
        (record w { nodes = nodes; duration = 0; profiles = []; node_profiles = [] })
  done (valid && is_set w', w')

-- getNodeProfile. operator[] makes up an empty name for a node that has none, and a null pointer
-- for a name without a profile.
unfoldable pub get_node_profile : Workload → ℕ → Outcome WorkloadProfile
get_node_profile w node =
    let name : Bytes = elim (lookup node w.node_profiles) [ none ↦ [] | some name ↦ name ] in
    elim (lookup name w.profiles) [ none ↦ faults | some p ↦ done p ]

-- XXX of the source: every node enters the DHT through node 0.
unfoldable pub get_node_entry_point_host : ℕ → ℕ
get_node_entry_point_host node = 0
