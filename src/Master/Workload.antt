-- ===== src/Master/Workload.antt =====
-- src/master/MasterWorkload.cpp and src/master/MasterWorkloadProfile.cpp: the workload file.
pub mod Profile
pub mod Load
pub mod Checked
pub mod Nodes
use dhtperf.Prelude.{
  ℕ, zero, suc, ◌+◌, List, [], ◌∷◌, ◌++◌, Bytes, codes, Option, none, some, Bool, true, false, ◌==◌,
  get_elem?, length, take, drop, not, str_eq, if◌then◌else◌, lookup, insert, nat_keys, text_keys,
  Outcome, done, aborts, faults, ◌>>=◌,
}
use dhtperf.Common.{DhtOperation, Boost}
use dhtperf.Master.Workload.Profile.{WorkloadProfile, new_profile, set_profile}

-- currentProfile is a static shared pointer. It always points to the object that the map holds under
-- the name of the last "profile" line, so the model keeps that name.
pub record Workload : Type 0 where
  pub nodes : ℕ
  pub duration : ℕ
  pub profiles : List (Bytes × WorkloadProfile)
  pub node_profiles : List (ℕ × Bytes)
  pub current_profile : Option Bytes

-- line.c_str() ends at the first NUL.
unfoldable pub c_str : Bytes → Bytes
c_str [] = []
c_str (c ∷ s) = if c == 0 then [] else c ∷ c_str s

-- matches[i + 1]; a group that is not there is empty.
unfoldable pub group : List Bytes → ℕ → Bytes
group matches i = elim (get_elem? matches i) [ none ↦ [] | some text ↦ text ]

-- lexical_cast throws bad_lexical_cast, which nothing catches.
unfoldable pub cast : Boost → Bytes → Outcome ℕ
cast boost text = elim (boost.lexical_cast text) [ none ↦ aborts | some n ↦ done n ]

unfoldable pub operation_of : Bytes → Option DhtOperation
operation_of type =
    if str_eq type (codes "join")
    then some DhtOperation.join
    else if str_eq type (codes "leave")
    then some DhtOperation.leave
    else if str_eq type (codes "put")
    then some DhtOperation.put
    else if str_eq type (codes "get")
    then some DhtOperation.get
    else none

-- nodeProfiles_[i] = profileName for i from `i` on, `count` times.
unfoldable pub fill_default : ℕ → ℕ → Bytes → List (ℕ × Bytes) → List (ℕ × Bytes)
fill_default zero i name m = m
fill_default (suc count) i name m = fill_default count (i + 1) name (insert i name m)

unfoldable pub is_comment : Bytes → Bool
is_comment [] = false
is_comment (c ∷ s) = c == b'#'

module _ (boost : Boost) where
  unfoldable pub nodes_line : List Bytes → Workload → Outcome (Bool × Workload)
  unfolding cast group
  nodes_line matches w =
      if w.nodes == 0
      then (do n ← cast boost (group matches 0); done (true, record w { nodes = n }))
      else done (true, w)

  unfoldable pub duration_line : List Bytes → Workload → Outcome (Bool × Workload)
  unfolding cast group
  duration_line matches w = do
    d ← cast boost (group matches 0)
    done (true, record w { duration = d })

  unfoldable pub profile_line : List Bytes → Workload → Outcome (Bool × Workload)
  unfolding group new_profile
  profile_line matches w =
      let name = group matches 0 in
      done (
        true,
        record w {
          profiles = insert name (new_profile name) w.profiles;
          current_profile = some name;
        },
      )

  -- currentProfile->setProfile(operation, text)
  unfoldable pub set_current :
      Bytes → Option DhtOperation → Bytes → Workload → Outcome (Bool × Workload)
  set_current name none text w = done (true, w)
  set_current name (some operation) text w = elim (lookup name w.profiles) [
    | none ↦ faults
    | some p ↦ do
      p' ← set_profile operation text p
      done (true, record w { profiles = insert name p' w.profiles })
  ]

  unfoldable pub operation_line : List Bytes → Workload → Outcome (Bool × Workload)
  unfolding group operation_of set_current
  operation_line matches w = elim w.current_profile [
    | none ↦ done (false, w)
    | some name ↦ set_current name (operation_of (group matches 0)) (group matches 1) w
  ]

  unfoldable pub default_line : List Bytes → Workload → Outcome (Bool × Workload)
  unfolding group fill_default
  default_line matches w =
      done (
        true,
        record w { node_profiles = fill_default w.nodes 0 (group matches 0) w.node_profiles },
      )

  unfoldable pub node_line : List Bytes → Workload → Outcome (Bool × Workload)
  unfolding cast group
  node_line matches w = do
    node_id ← cast boost (group matches 0)
    done (true, record w { node_profiles = insert node_id (group matches 1) w.node_profiles })

  -- One if of the chain: the pattern, what its branch does, and the rest of the chain.
  unfoldable pub when_match :
      Bytes
      → Bytes
      → (List Bytes → Workload → Outcome (Bool × Workload))
      → (Workload → Outcome (Bool × Workload))
      → Workload
      → Outcome (Bool × Workload)
  when_match pattern text branch otherwise w = elim (boost.regex_match pattern text) [
    | none ↦ otherwise w
    | some matches ↦ branch matches w
  ]

  -- The chain of patterns; a line that fits none is printed and accepted.
  unfoldable pub match_line : Bytes → Workload → Outcome (Bool × Workload)
  unfolding when_match nodes_line duration_line profile_line operation_line default_line node_line
  match_line text = when_match (codes "^nodes (\\d+)$") text nodes_line (
      when_match (codes "^duration (\\d+)$") text duration_line (
        when_match (codes "^profile (\\w+)$") text profile_line (
          when_match (codes "^(join|leave|put|get) (\\w+.*)$") text operation_line (
            when_match (codes "^default-profile (\\w+)$") text default_line
              (when_match (codes "^node (\\w+) (\\w+)$") text node_line (λ w. done (true, w)))))))

  unfoldable pub process_config_line : Bytes → Workload → Outcome (Bool × Workload)
  unfolding is_comment c_str match_line
  process_config_line line w = if is_comment line then done (true, w) else match_line (c_str line) w
