-- ===== src/Tests/Workloads.antt =====
-- A workload file, and functions in the place of Boost that agree with it on the lines of this file.
use dhtperf.Prelude.{
  ℕ, [], ◌∷◌, List, ◌≡◌, ◌<◌, refl, Bytes, codes, Outcome, done, true, false, Option, none, some,
  str_eq, if◌then◌else◌, ◌==◌, scan, insert, lookup, is_digit,
}
use dhtperf.Common.{Boost}
use dhtperf.Master.Workload.{
  Workload, process_config_line, is_comment, c_str, match_line, when_match, nodes_line,
  duration_line, profile_line, operation_line, default_line, node_line, set_current, fill_default,
  operation_of, cast, group,
}
use dhtperf.Master.Workload.Load.{
  load_config, read_lines, process_lines, strip_backslashes, ends_in_backslash, but_last, is_set,
  all_complete, nodes_have_profiles,
}
use dhtperf.Master.Workload.Profile.{new_profile, set_profile, is_complete}
use dhtperf.Master.Workload.Checked.{HasProfile, load_config-HasProfile}
use dhtperf.Tests.Latencies.{spaces}

-- The first word of a text, and what follows the space behind it.
split_word : Bytes → Bytes × Bytes
split_word [] = ([], [])
split_word (c ∷ s) =
    let (word, rest) = split_word s in if c == b' ' then ([], s) else (c ∷ word, rest)

-- The word that the lines of a pattern begin with; that of an operation's line is a group.
matches_of : Bytes → Bytes × Bytes → Option (List Bytes)
matches_of pattern (word, rest) =
    if str_eq pattern (codes "^nodes (\\d+)$")
    then (if str_eq word (codes "nodes") then some (rest ∷ []) else none)
    else if str_eq pattern (codes "^duration (\\d+)$")
    then (if str_eq word (codes "duration") then some (rest ∷ []) else none)
    else if str_eq pattern (codes "^profile (\\w+)$")
    then (if str_eq word (codes "profile") then some (rest ∷ []) else none)
    else if str_eq pattern (codes "^default-profile (\\w+)$")
    then (if str_eq word (codes "default-profile") then some (rest ∷ []) else none)
    else if str_eq pattern (codes "^(join|leave|put|get) (\\w+.*)$")
    then (if str_eq word (codes "join")
        then some (word ∷ rest ∷ [])
        else if str_eq word (codes "leave")
        then some (word ∷ rest ∷ [])
        else if str_eq word (codes "put")
        then some (word ∷ rest ∷ [])
        else if str_eq word (codes "get")
        then some (word ∷ rest ∷ [])
        else none)
    else none

abbrev pub words : Boost
unfolding matches_of split_word
words = record {
  regex_match = λ pattern text. matches_of pattern (split_word text);
  lexical_cast = λ text. some (scan 0 text).0;
  split = λ separators text. [];
  join = λ separator texts. [];
}

abbrev pub file : Bytes
file =
    codes
      "# test\nnodes 5\nduration 60\nprofile p\njoin Now\nleave \\\nNone\nput None\nget None\ndefault-profile p\n"

abbrev pub no_workload : Workload
no_workload = record {
  nodes = 0;
  duration = 0;
  profiles = [];
  node_profiles = [];
  current_profile = none;
}

abbrev result_of : {A : Type 0} → A → Outcome A → A
result_of a (done b) = b
result_of a _ = a

abbrev loaded : Workload
loaded = (result_of (false, no_workload) (load_config words no_workload (some file) 2)).1

load_file : load_config words no_workload (some file) 2 ≡ done (true, loaded)
unfolding load_config read_lines process_lines strip_backslashes ends_in_backslash but_last is_set
    all_complete nodes_have_profiles process_config_line is_comment c_str match_line when_match
    nodes_line duration_line profile_line operation_line default_line node_line set_current
    fill_default operation_of cast group new_profile set_profile is_complete insert lookup str_eq
    scan is_digit split_word matches_of
load_file = refl

load_config-HasProfile_example :
    (0 < loaded.nodes) × (0 < loaded.duration) × ((n : ℕ) → n < loaded.nodes → HasProfile loaded n)
load_config-HasProfile_example = load_config-HasProfile words no_workload loaded file 2 load_file

-- The same functions, and one that cuts a text at its spaces.
abbrev pub program_boost : Boost
program_boost = record {
  regex_match = words.regex_match;
  lexical_cast = words.lexical_cast;
  split = spaces.split;
  join = words.join;
}

abbrev pub program_workload : Workload
program_workload = record {
  nodes = 2;
  duration = 60;
  profiles =
      (
        codes "p",
        record {
          name = codes "p";
          join_profile = codes "Now";
          leave_profile = codes "None";
          put_profile = codes "None";
          get_profile = codes "None";
        },
      )
      ∷ [];
  node_profiles = (0, codes "p") ∷ (1, codes "p") ∷ [];
  current_profile = some (codes "p");
}

pub load_program :
    load_config program_boost no_workload (some file) 2 ≡ done (true, program_workload)
unfolding load_config read_lines process_lines strip_backslashes ends_in_backslash but_last is_set
    all_complete nodes_have_profiles process_config_line is_comment c_str match_line when_match
    nodes_line duration_line profile_line operation_line default_line node_line set_current
    fill_default operation_of cast group new_profile set_profile is_complete insert lookup str_eq
    scan is_digit split_word matches_of
load_program = refl
