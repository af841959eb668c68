-- ===== src/Master/Workload/Nodes.antt =====
-- The number of nodes that the command line sets.
use dhtperf.Prelude.{
  ℕ, ◌≡◌, ◌≢◌, sym, ◌∙◌, length, List, [], ◌∷◌, ◌++◌, Bytes, some, Bool, true, arith, Outcome, done,
  >>=-eq-done, Bool-cases, Option-cases, inl, inr, text_keys,
}
use dhtperf.Common.{Boost}
use dhtperf.Master.Workload.{
  Workload, when_match, nodes_line, duration_line, profile_line, operation_line, default_line,
  node_line, process_config_line, match_line, is_comment, c_str, set_current,
}
use dhtperf.Master.Workload.Load.{
  process_lines, read_lines, load_config, but_last, ends_in_backslash, strip_backslashes,
}

-- A branch leaves the number of nodes as it is, wherever it returns.
KeepsNodes : (Workload → Outcome (Bool × Workload)) → Type 0
KeepsNodes step =
    (w : Workload) (b : Bool) (v : Workload)
    → w.nodes ≢ 0
    → step w ≡ done (b, v)
    → v.nodes ≡ w.nodes

module _ (boost : Boost) where
  nodes_line-KeepsNodes : (ms : List Bytes) → KeepsNodes (nodes_line boost ms)
  unfolding KeepsNodes nodes_line
  nodes_line-KeepsNodes ms w b v pos e = ground arith

  duration_line-KeepsNodes : (ms : List Bytes) → KeepsNodes (duration_line boost ms)
  unfolding KeepsNodes duration_line
  duration_line-KeepsNodes ms w b v pos e = ground arith

  profile_line-KeepsNodes : (ms : List Bytes) → KeepsNodes (profile_line boost ms)
  unfolding KeepsNodes profile_line
  profile_line-KeepsNodes ms w b v pos e = ground arith

  operation_line-KeepsNodes : (ms : List Bytes) → KeepsNodes (operation_line boost ms)
  unfolding KeepsNodes operation_line set_current
  operation_line-KeepsNodes ms w b v pos e = ground arith

  default_line-KeepsNodes : (ms : List Bytes) → KeepsNodes (default_line boost ms)
  unfolding KeepsNodes default_line
  default_line-KeepsNodes ms w b v pos e = ground arith

  node_line-KeepsNodes : (ms : List Bytes) → KeepsNodes (node_line boost ms)
  unfolding KeepsNodes node_line
  node_line-KeepsNodes ms w b v pos e = ground arith

  when_match-KeepsNodes :
      (pattern text : Bytes) (branch : List Bytes → Workload → Outcome (Bool × Workload))
      (otherwise : Workload → Outcome (Bool × Workload))
      → ((ms : List Bytes) → KeepsNodes (branch ms))
      → KeepsNodes otherwise
      → KeepsNodes (when_match boost pattern text branch otherwise)
  unfolding KeepsNodes when_match
  when_match-KeepsNodes pattern text branch otherwise hit miss w b v pos e =
      elim (Option-cases (boost.regex_match pattern text)) [
        | inl n ↦ miss w b v pos (rw (n, when_match) at e)
        | inr (ms, n) ↦ hit ms w b v pos (rw (n, when_match) at e)
      ]

  nothing-KeepsNodes : KeepsNodes (λ w'. done (true, w'))
  unfolding KeepsNodes
  nothing-KeepsNodes w b v pos e = ground arith

  match_line-KeepsNodes : (text : Bytes) → KeepsNodes (match_line boost text)
  unfolding match_line
  match_line-KeepsNodes text =
      search
        (
          when_match-KeepsNodes, nodes_line-KeepsNodes, duration_line-KeepsNodes,
          profile_line-KeepsNodes, operation_line-KeepsNodes, default_line-KeepsNodes,
          node_line-KeepsNodes, nothing-KeepsNodes,
        )
        depth 9

  process_config_line-KeepsNodes : (line : Bytes) → KeepsNodes (process_config_line boost line)
  unfolding process_config_line KeepsNodes
  process_config_line-KeepsNodes line w b v pos e = elim (Bool-cases (is_comment line)) [
    | inl c ↦ ground (arith, c)
    | inr c ↦ match_line-KeepsNodes (c_str line) w b v pos (rw (c, process_config_line) at e)
  ]

  process_lines-KeepsNodes :
      (partial : Bytes) (lines : List Bytes) → KeepsNodes (process_lines boost partial lines)
  unfolding process_lines KeepsNodes
  process_lines-KeepsNodes partial [] w b v pos e = ground arith
  process_lines-KeepsNodes partial (l ∷ []) w b v pos e =
      process_config_line-KeepsNodes (strip_backslashes (length (partial ++ l)) (partial ++ l)) w b
        v pos e
  process_lines-KeepsNodes partial (l ∷ m ∷ ls) w b v pos e =
      elim (Bool-cases (ends_in_backslash (partial ++ l))) [
        | inl c ↦
            process_lines-KeepsNodes (but_last (partial ++ l)) (m ∷ ls) w b v pos
              (rw (c, process_lines) at e)
        | inr c ↦
            let ((valid, u), ran, f) =
              >>=-eq-done (process_config_line boost (partial ++ l) w) _
                (rw (c, process_lines) at e) in
            let kept = process_config_line-KeepsNodes (partial ++ l) w valid u pos ran in
            elim (Bool-cases valid) [
              | inl t ↦
                  process_lines-KeepsNodes [] (m ∷ ls) u b v (λ z. pos (sym kept ∙ z)) (rw t at f)
                  ∙ kept
              | inr t ↦ ground (arith, kept, t, f)
            ]
      ]

-- A number of nodes given on the command line is the number of nodes of the test: no "nodes" line of
-- the workload file changes it.
pub load_config-nodes :
    (boost : Boost) (w w' : Workload) (content : Bytes) (nodes : ℕ)
    → nodes ≢ 0
    → load_config boost w (some content) nodes ≡ done (true, w')
    → w'.nodes ≡ nodes
unfolding load_config KeepsNodes
load_config-nodes boost w w' content nodes pos h =
    let begin = record w { nodes = nodes; duration = 0; profiles = []; node_profiles = [] } in
    let ((valid, v), ran, e) =
      >>=-eq-done (process_lines boost [] (read_lines content) begin) _ h in
    let kept = process_lines-KeepsNodes boost [] (read_lines content) begin valid v pos ran in
    ground (arith, kept, e)
