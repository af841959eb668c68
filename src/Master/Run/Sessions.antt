-- ===== src/Master/Run/Sessions.antt =====
-- src/master/DhtperfMaster.cpp: the second loop of run, over the reports of one controller after the other.
use dhtperf.Prelude.{
  ℕ, zero, suc, ◌+◌, ◌<◌, ◌≡◌, refl, sym, ap, ◌∙◌, List, [], ◌∷◌, ◌++◌, Bytes, Bool, true, false,
  some, Outcome, done, ◌>>=◌, >>=-cong, >>=-assoc, length, append_assoc, arith, ◌==◌, ◌%◌,
  append-nil,
}
use dhtperf.Protocol.{report, finish, u32_mod}
use dhtperf.Master.Controllers.{Controller, set_waiting}
use dhtperf.Master.Dispatch.{
  ResultSink, Master, Completion, receives, handle, handle_message, handle_report_message,
  controller_finished,
}
use dhtperf.Master.Run.{run_ones}

-- What completes when a controller reports and finishes.
unfoldable pub session : ℕ → List (Bytes × Bytes) → List Completion
session i [] = receives i finish ∷ []
session i ((type, value) ∷ ps) = receives i (report type value) ∷ session i ps

unfoldable pub all_sessions : List (ℕ × List (Bytes × Bytes)) → List Completion
unfolding session
all_sessions [] = []
all_sessions ((i, ps) ∷ ss) = session i ps ++ all_sessions ss

set_waiting_twice :
    (a b : Bool) (i : ℕ) (cs : List Controller)
    → set_waiting a i (set_waiting b i cs) ≡ set_waiting a i cs
unfolding set_waiting
set_waiting_twice a b i [] = refl
set_waiting_twice a b zero (c ∷ cs) = refl
set_waiting_twice a b (suc i) (c ∷ cs) = ap (◌∷◌ c) (set_waiting_twice a b i cs)

unfoldable pub release : List (ℕ × List (Bytes × Bytes)) → List Controller → List Controller
release [] cs = cs
release ((i, ps) ∷ ss) cs = release ss (set_waiting false i cs)

module _ (sink : ResultSink) where
  open sink use {Results, push_result}

  unfoldable pub push_values : List (Bytes × Bytes) → Results → Outcome Results
  push_values [] r = done r
  push_values ((type, value) ∷ ps) r = push_result type value r >>= push_values ps

  unfoldable pub push_sessions : List (ℕ × List (Bytes × Bytes)) → Results → Outcome Results
  unfolding push_values
  push_sessions [] r = done r
  push_sessions ((i, ps) ∷ ss) r = push_values ps r >>= push_sessions ss

  pub run_ones_enough :
      (enough : Master Results → Bool) (cs : List Completion) (m : Master Results)
      → enough m ≡ true
      → run_ones sink enough cs m ≡ done (some (m, cs))
  unfolding run_ones
  run_ones_enough enough [] m e = rw e refl
  run_ones_enough enough (c ∷ cs) m e = rw (run_ones, e) refl

  pub run_ones_step :
      (enough : Master Results → Bool) (c : Completion) (cs : List Completion) (m : Master Results)
      → enough m ≡ false
      → run_ones sink enough (c ∷ cs) m ≡ (handle sink c m >>= run_ones sink enough cs)
  unfolding run_ones
  run_ones_step enough c cs m e = rw (run_ones, e) refl

  -- The master once a controller has reported and finished.
  abbrev released : ℕ → Results → Master Results → Master Results
  released i r m = record m { results = r; controllers = set_waiting false i m.controllers }

  run_ones-session :
      (i : ℕ) (ps : List (Bytes × Bytes)) (cs : List Completion) (m : Master Results)
      → m.stopped ≡ false
      → run_ones sink (λ m. m.stopped) (session i ps ++ cs) m ≡ (
          push_values ps m.results >>= λ r.
          run_ones sink (λ m. m.stopped) cs (controller_finished sink (released i r m)))
  unfolding session push_values handle handle_message handle_report_message
  run_ones-session i [] cs m e = run_ones_step (λ m. m.stopped) _ cs m e
  run_ones-session i ((type, value) ∷ ps) cs m e =
      let again : (r : Results) → Master Results = λ r. record m {
        results = r;
        controllers = set_waiting true i (set_waiting false i m.controllers);
      } in
      run_ones_step (λ m. m.stopped) _ (session i ps ++ cs) m e
      ∙ (>>=-assoc (push_result type value m.results) _ _
          ∙ (>>=-cong (push_result type value m.results) _ _ (λ r.
                run_ones-session i ps cs (again r) e
                ∙ rw
                    (
                      set_waiting_twice true false i m.controllers,
                      set_waiting_twice false true i m.controllers,
                    )
                    refl)
              ∙ sym (>>=-assoc (push_result type value m.results) (push_values ps) _)))

  -- The master once the last controllers have reported.
  abbrev pub ended : List (ℕ × List (Bytes × Bytes)) → Master Results → Results → Master Results
  ended ss m r = record m {
    results = r;
    controllers = release ss m.controllers;
    finished_controllers = m.workload.nodes;
    stopped = true;
  }

  -- Where as many controllers report and finish, one after the other, as are not yet finished, run takes in all of their
  -- reports and stops.
  pub run_ones-all_sessions :
      (i : ℕ) (ps : List (Bytes × Bytes)) (ss : List (ℕ × List (Bytes × Bytes)))
      (rest : List Completion) (m : Master Results)
      → m.stopped ≡ false
      → m.finished_controllers + length ss + 1 ≡ m.workload.nodes
      → m.workload.nodes < u32_mod
      → run_ones sink (λ m. m.stopped) (all_sessions ((i, ps) ∷ ss) ++ rest) m ≡ (
          push_sessions ((i, ps) ∷ ss) m.results >>= λ r.
          done (some (ended ((i, ps) ∷ ss) m r, rest)))
  unfolding all_sessions push_sessions controller_finished release
  run_ones-all_sessions i ps [] rest m e all small =
      let last : (m.finished_controllers + 1) % u32_mod ≡ m.workload.nodes = omega arith in
      let same : (m.workload.nodes == m.workload.nodes) ≡ true = ground arith in
      rw (append-nil (session i ps)) (
        run_ones-session i ps rest m e
        ∙ (>>=-cong (push_values ps m.results) _ _
              (λ r. rw (last, same) (run_ones_enough (λ m. m.stopped) rest _ refl))
            ∙ sym (>>=-assoc (push_values ps m.results) _ _)))
  run_ones-all_sessions i ps ((j, qs) ∷ ss) rest m e all small =
      let one : (m.finished_controllers + 1) % u32_mod ≡ m.finished_controllers + 1 = omega arith in
      let more : (m.finished_controllers + 1 == m.workload.nodes) ≡ false = ground arith in
      rw (append_assoc (session i ps) (all_sessions ((j, qs) ∷ ss)) rest) (
        run_ones-session i ps (all_sessions ((j, qs) ∷ ss) ++ rest) m e
        ∙ (>>=-cong (push_values ps m.results) _ _ (λ r.
              rw (one, more)
                (run_ones-all_sessions j qs ss rest
                  (record m {
                    results = r;
                    controllers = set_waiting false i m.controllers;
                    finished_controllers = m.finished_controllers + 1;
                  })
                  e (omega arith) small))
            ∙ sym (>>=-assoc (push_values ps m.results) (push_sessions ((j, qs) ∷ ss)) _)))
