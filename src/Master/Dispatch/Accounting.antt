-- ===== src/Master/Dispatch/Accounting.antt =====
-- Every controller is accounted for: it is being waited for, or it has finished or failed.
use dhtperf.Prelude.{
  ℕ, ◌+◌, ◌≤◌, ◌<◌, ◌≡◌, refl, List, [], ◌∷◌, ◌++◌, Bytes, true, false, length, length-append, ltb,
  ◌⊎◌, inl, inr, arith, Bool-cases, done, >>=-eq-done, text_keys, done-injective, subst, ◌∙◌,
  ltb→lt,
}
use dhtperf.Protocol.{Message, dht_type, profile, start, report, finish, u32_mod}
use dhtperf.Master.Controllers.{
  Controller, send, set_waiting, is_waiting, count_waiting, length-set_waiting,
  count_waiting-consume, set_waiting_again,
}
use dhtperf.Master.Start.{send_starts, entry_host}
use dhtperf.Master.Workload.Load.{get_node_profile}
use dhtperf.Master.Dispatch.Waiting.{send_waiting, count_waiting-append, send_start_loop-waiting}
use dhtperf.Master.Dispatch.{
  ResultSink, Master, Completion, accepts, receives, loses, times_out, greet, handle_accept,
  send_start_messages, controller_finished, handle_report_message, handle_message,
  handle_disconnection, handle_workload_timeout, handle, new_connection,
}

module _ (sink : ResultSink) where
  open sink use {Results, push_result}

  pub record Gathering (m : Master Results) : Type 0 where
    pub open_for : m.accepting ≡ true
    pub not_sent : m.start_messages_sent ≡ false
    pub not_stopped : m.stopped ≡ false
    pub none_finished : m.finished_controllers ≡ 0
    pub none_failed : m.failed_controllers ≡ 0
    pub none_waiting : count_waiting m.controllers ≡ 0
    pub room : length m.controllers < m.workload.nodes
    pub word : m.workload.nodes < u32_mod

  pub record Running (m : Master Results) : Type 0 where
    pub closed : m.accepting ≡ false
    pub sent : m.start_messages_sent ≡ true
    pub all_here : length m.controllers ≡ m.workload.nodes
    pub accounted : m.finished_controllers + count_waiting m.controllers ≡ m.workload.nodes
    pub failed_le : m.failed_controllers ≤ m.finished_controllers
    pub stops : (m.finished_controllers < m.workload.nodes) ⊎ (m.stopped ≡ true)
    pub word : m.workload.nodes < u32_mod

  abbrev pub IsSound : Master Results → Type 0
  IsSound m = Gathering m ⊎ Running m

  -- When a handler may run: its operation is pending, and the io_service has not been stopped.
  abbrev pub Enabled : Completion → Master Results → Type 0
  Enabled (accepts host) m = (m.accepting ≡ true) × (m.stopped ≡ false)
  Enabled (receives number message) m =
      (is_waiting number m.controllers ≡ true) × (m.stopped ≡ false)
  Enabled (loses number) m = (is_waiting number m.controllers ≡ true) × (m.stopped ≡ false)
  Enabled times_out m = (m.start_messages_sent ≡ true) × (m.stopped ≡ false)

  greet_waiting :
      (m : Master Results) (number : ℕ) (host : Bytes) (c : Controller)
      → greet sink m number host ≡ done c
      → c.waiting ≡ false
  unfolding greet
  greet_waiting m number host c e =
      let fresh : Controller = record {
        host = host;
        connection = new_connection;
        sent = [];
        waiting = false;
      } in
      let (c1, s1, f) = >>=-eq-done (send (dht_type m.dht_type_name) fresh) _ e in
      let (p, s2, g) = >>=-eq-done (get_node_profile m.workload number) _ f in
      ground (arith, send_waiting _ fresh c1 s1, send_waiting _ c1 c g)

  send_start_messages-Running :
      (m v : Master Results)
      → m.accepting ≡ false
      → m.finished_controllers ≡ 0
      → m.failed_controllers ≡ 0
      → length m.controllers ≡ m.workload.nodes
      → 0 < m.workload.nodes
      → m.workload.nodes < u32_mod
      → send_start_messages sink m ≡ done v
      → Running v
  unfolding send_start_messages send_starts
  send_start_messages-Running m v closed none_finished none_failed full some_nodes word e =
      let (cs, ran, f) = >>=-eq-done (send_starts m.workload.duration m.controllers) _ e in
      let (all, size) =
        send_start_loop-waiting m.workload.duration (entry_host m.controllers) 0 [] m.controllers cs
          ran in
      let same = done-injective _ v f in
      subst Running same (record {
        closed = closed;
        sent = refl;
        all_here = size ∙ full;
        accounted = omega arith;
        failed_le = omega arith;
        stops = inl (omega arith);
        word = word;
      })

  handle_accept-IsSound :
      (m v : Master Results) (host : Bytes)
      → Gathering m
      → handle_accept sink m host ≡ done v
      → IsSound v
  unfolding handle_accept
  handle_accept-IsSound m v host g e =
      let (c, ran, f) = >>=-eq-done (greet sink m (length m.controllers) host) _ e in
      let more = length-append m.controllers (c ∷ []) in
      elim (Bool-cases (ltb (length (m.controllers ++ c ∷ [])) m.workload.nodes)) [
        | inl t ↦ inl (
            subst Gathering (done-injective _ v (rw t at f)) (record {
              open_for = refl;
              not_sent = g.not_sent;
              not_stopped = g.not_stopped;
              none_finished = g.none_finished;
              none_failed = g.none_failed;
              none_waiting =
                  unfold count_waiting in
                  ground (
                    arith,
                    g.none_waiting,
                    count_waiting-append m.controllers (c ∷ []),
                    greet_waiting m (length m.controllers) host c ran,
                  );
              room = ltb→lt _ _ t;
              word = g.word;
            }))
        | inr t ↦ inr (
            send_start_messages-Running
              (record m { controllers = m.controllers ++ c ∷ []; accepting = false }) v refl
              g.none_finished g.none_failed (ground (arith, more, g.room)) (omega (arith, g.room))
              g.word (rw t at f))
      ]

  -- A controller that is no longer waited for has finished.
  controller_finished-Running :
      (m : Master Results) (number : ℕ)
      → Running m
      → is_waiting number m.controllers ≡ true
      → Running (
          controller_finished sink
            (record m { controllers = set_waiting false number m.controllers }))
  unfolding controller_finished
  controller_finished-Running m number r w =
      let one = count_waiting-consume number m.controllers w in
      let size = length-set_waiting false number m.controllers in ground (arith, one, size)

  handle_disconnection-Running :
      (m : Master Results) (number : ℕ)
      → Running m
      → is_waiting number m.controllers ≡ true
      → Running (
          handle_disconnection sink
            (record m { controllers = set_waiting false number m.controllers }))
  unfolding handle_disconnection
  handle_disconnection-Running m number r w =
      let one = count_waiting-consume number m.controllers w in
      let size = length-set_waiting false number m.controllers in ground (arith, one, size)

  handle_message-Running :
      (m v : Master Results) (number : ℕ) (message : Message)
      → Running m
      → is_waiting number m.controllers ≡ true
      → handle_message sink
          (record m { controllers = set_waiting false number m.controllers })
          number
          message
        ≡ done v
      → Running v
  unfolding handle_message handle_report_message
  handle_message-Running m v number (report type value) r w e =
      let (results, ran, f) = >>=-eq-done (push_result type value m.results) _ e in
      let again = set_waiting_again number m.controllers w in
      let s1 = length-set_waiting false number m.controllers in
      let s2 = length-set_waiting true number (set_waiting false number m.controllers) in
      subst Running (done-injective _ v f) (record {
        closed = r.closed;
        sent = r.sent;
        all_here = s2 ∙ (s1 ∙ r.all_here);
        accounted = omega (arith, again, r.accounted);
        failed_le = r.failed_le;
        stops = r.stops;
        word = r.word;
      })
  handle_message-Running m v number finish r w e =
      subst Running (done-injective _ v e) (controller_finished-Running m number r w)
  handle_message-Running m v number (dht_type type) r w e = absurd (cc)
  handle_message-Running m v number (profile j l p g) r w e = absurd (cc)
  handle_message-Running m v number (start d h eo so) r w e = absurd (cc)

  none_pending :
      (number : ℕ) (cs : List Controller) → count_waiting cs ≡ 0 → is_waiting number cs ≡ true → ⊥
  none_pending number cs z w = omega (arith, count_waiting-consume number cs w)

  -- Every handler that may run keeps the account of the controllers: while the master gathers them
  -- none has finished; afterwards the finished ones, the failed among them, and those waited for are
  -- together as many as the workload has nodes, and once all have finished the master stops.
  pub handle-IsSound :
      (c : Completion) (m v : Master Results)
      → IsSound m
      → Enabled c m
      → handle sink c m ≡ done v
      → IsSound v
  unfolding handle
  handle-IsSound (accepts host) m v (inl g) on e = handle_accept-IsSound m v host g e
  handle-IsSound (accepts host) m v (inr r) on e = absurd (ground arith)
  handle-IsSound (receives number message) m v (inl g) on e =
      absurd (none_pending number m.controllers g.none_waiting on.0)
  handle-IsSound (receives number message) m v (inr r) on e =
      inr (handle_message-Running m v number message r on.0 e)
  handle-IsSound (loses number) m v (inl g) on e =
      absurd (none_pending number m.controllers g.none_waiting on.0)
  handle-IsSound (loses number) m v (inr r) on e =
      inr (subst Running (done-injective _ v e) (handle_disconnection-Running m number r on.0))
  handle-IsSound times_out m v (inl g) on e = absurd (ground arith)
  handle-IsSound times_out m v (inr r) on e =
      unfold handle_workload_timeout in
      inr (
        subst Running (done-injective _ v e) (record {
          closed = r.closed;
          sent = r.sent;
          all_here = r.all_here;
          accounted = r.accounted;
          failed_le = r.failed_le;
          stops = inr refl;
          word = r.word;
        }))
