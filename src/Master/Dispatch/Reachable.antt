-- ===== src/Master/Dispatch/Reachable.antt =====
-- Histories of the master: any handlers that may run, in any order.
use dhtperf.Prelude.{
  ℕ, ◌+◌, ◌<◌, ◌≡◌, refl, Bytes, true, length, arith, inl, inr, done, ap, sym, ◌∙◌, ◌++◌, ◌∷◌, [],
  ltb, Bool-cases, done-injective, >>=-eq-done, false,
}
use dhtperf.Protocol.{u32_mod, Message, dht_type, profile, start, report, finish}
use dhtperf.Master.Controllers.{count_waiting}
use dhtperf.Master.Workload.{Workload}
use dhtperf.Master.Dispatch.{
  ResultSink, Master, Completion, handle, init, nodes_status, send_start_messages, handle_accept,
  handle_message, handle_report_message, handle_disconnection, handle_workload_timeout, greet,
  accepts, receives, loses, times_out,
}
use dhtperf.Master.Dispatch.Accounting.{Gathering, IsSound, Enabled, handle-IsSound}
use dhtperf.Master.Start.{send_starts}

module _ (sink : ResultSink) where
  open sink use {Results, push_result}

  pub data Reach (m : Master Results) : Master Results → Type 0 where
    here : Reach m m
    next :
        {u v : Master Results}
        → Reach m u
        → (c : Completion) → Enabled sink c u
        → handle sink c u ≡ done v
        → Reach m v

  send_start_messages-workload :
      (m v : Master Results) → send_start_messages sink m ≡ done v → v.workload ≡ m.workload
  unfolding send_start_messages
  send_start_messages-workload m v e =
      let (cs, ran, f) = >>=-eq-done (send_starts m.workload.duration m.controllers) _ e in
      ap (λ (x : Master Results). x.workload) (sym (done-injective _ v f))

  handle_accept-workload :
      (m v : Master Results) (host : Bytes)
      → handle_accept sink m host ≡ done v
      → v.workload ≡ m.workload
  unfolding handle_accept
  handle_accept-workload m v host e =
      let (c, ran, f) = >>=-eq-done (greet sink m (length m.controllers) host) _ e in
      elim (Bool-cases (ltb (length (m.controllers ++ c ∷ [])) m.workload.nodes)) [
        | inl t ↦ ap (λ (x : Master Results). x.workload) (sym (done-injective _ v (rw t at f)))
        | inr t ↦
            send_start_messages-workload
              (record m { controllers = m.controllers ++ c ∷ []; accepting = false }) v (rw t at f)
      ]

  handle_message-workload :
      (m v : Master Results) (number : ℕ) (message : Message)
      → handle_message sink m number message ≡ done v
      → v.workload ≡ m.workload
  unfolding handle_message handle_report_message
  handle_message-workload m v number (report type value) e =
      let (results, ran, f) = >>=-eq-done (push_result type value m.results) _ e in
      ap (λ (x : Master Results). x.workload) (sym (done-injective _ v f))
  handle_message-workload m v number finish e = ground arith
  handle_message-workload m v number (dht_type type) e = absurd (cc)
  handle_message-workload m v number (profile j l p g) e = absurd (cc)
  handle_message-workload m v number (start d h eo so) e = absurd (cc)

  handle-workload :
      (c : Completion) (m v : Master Results) → handle sink c m ≡ done v → v.workload ≡ m.workload
  unfolding handle handle_disconnection handle_workload_timeout
  handle-workload (accepts host) m v e = handle_accept-workload m v host e
  handle-workload (receives number message) m v e = handle_message-workload _ v number message e
  handle-workload (loses number) m v e = ground arith
  handle-workload times_out m v e = ground arith

  Reach-workload : (m v : Master Results) → Reach m v → v.workload ≡ m.workload
  Reach-workload m v here = refl
  Reach-workload m v (next {u = u} r c on e) = handle-workload c u v e ∙ Reach-workload m u r

  Reach-IsSound : (m v : Master Results) → IsSound sink m → Reach m v → IsSound sink v
  Reach-IsSound m v s here = s
  Reach-IsSound m v s (next {u = u} r c on e) =
      handle-IsSound sink c u v (Reach-IsSound m u s r) on e

  init-Gathering :
      (w : Workload) (name : Bytes) (results : Results)
      → 0 < w.nodes
      → w.nodes < u32_mod
      → Gathering sink (init sink w name results)
  unfolding init count_waiting
  init-Gathering w name results some_nodes word = ground arith

  -- In a test of at least one and less than 2 ^ 32 nodes, whatever completes in whatever order,
  -- once the start messages have been sent the three numbers that pushNodesStatus reports add up
  -- to the number of nodes, with no wrap-around in their subtractions, and the unfinished nodes
  -- are those that the master still waits for.
  pub nodes_status_total :
      (w : Workload) (name : Bytes) (results : Results) (m : Master Results)
      → 0 < w.nodes
      → w.nodes < u32_mod
      → Reach (init sink w name results) m
      → m.start_messages_sent ≡ true
      → ((nodes_status sink m).0 + (nodes_status sink m).1 + (nodes_status sink m).2 ≡ w.nodes)
        × ((nodes_status sink m).2 ≡ count_waiting m.controllers)
  unfolding nodes_status
  nodes_status_total w name results m some_nodes word reach sent =
      status (Reach-IsSound _ m (inl (init-Gathering w name results some_nodes word)) reach)
    where
      same : m.workload.nodes ≡ w.nodes
      same =
          unfold init in
          ap (λ (x : Workload). x.nodes) (Reach-workload (init sink w name results) m reach)

      status :
          IsSound sink m
          → ((nodes_status sink m).0 + (nodes_status sink m).1 + (nodes_status sink m).2 ≡ w.nodes)
            × ((nodes_status sink m).2 ≡ count_waiting m.controllers)
      status (inl g) = absurd (ground arith)
      status (inr r) = (
        omega (arith, r.accounted, r.failed_le, r.word, same),
        omega (arith, r.accounted, r.word),
      )
