-- ===== src/Master/Run/Gather.antt =====
-- src/master/DhtperfMaster.cpp: the first loop of run, which accepts the controllers and sends the start messages.
use dhtperf.Prelude.{
  ℕ, ◌+◌, ◌<◌, ◌≡◌, refl, ◌∙◌, List, [], ◌∷◌, ◌++◌, Bytes, true, false, some, done, length,
  length-append, arith, All, All-append, ltb, map,
}
use dhtperf.Protocol.{dht_type, u32_mod}
use dhtperf.Protocol.RoundTrip.{IsSendable}
use dhtperf.Master.Controllers.{Controller, after_sending}
use dhtperf.Master.Start.{entry_host}
use dhtperf.Master.Start.Ports.{send_starts_lem}
use dhtperf.Master.Workload.{Workload}
use dhtperf.Master.Workload.Profile.{WorkloadProfile}
use dhtperf.Master.Workload.Load.{get_node_profile}
use dhtperf.Master.Dispatch.{
  ResultSink, Master, Completion, accepts, handle, handle_accept, send_start_messages, greet,
}
use dhtperf.Master.Dispatch.Greeting.{profile_message, greeted, greet-greeted}
use dhtperf.Master.Run.{run_ones}
use dhtperf.Master.Run.Sessions.{run_ones_enough, run_ones_step}

-- An address that fits a start message.
abbrev pub IsAddress : Bytes → Type 0
IsAddress host = length host + 8 < u32_mod

-- The profile of a node fits a message.
pub record CanGreet (w : Workload) (n : ℕ) : Type 0 where
  pub profile : WorkloadProfile
  pub found : get_node_profile w n ≡ done profile
  pub sendable : IsSendable (profile_message profile)

entry_host-IsAddress :
    (cs : List Controller) → All (λ c. IsAddress c.host) cs → IsAddress (entry_host cs)
unfolding entry_host
entry_host-IsAddress [] h = omega arith
entry_host-IsAddress (c ∷ cs) h = h.0

module _ (sink : ResultSink) where
  open sink use {Results}

  -- The master when all controllers are there and have got their start messages.
  abbrev pub Gathered : Master Results → Master Results → Type 0
  Gathered m v =
      (v.start_messages_sent ≡ true)
      × (v.workload ≡ m.workload)
      × (v.results ≡ m.results)
      × (v.stopped ≡ m.stopped)
      × (v.finished_controllers ≡ m.finished_controllers)
      × (v.failed_controllers ≡ m.failed_controllers)

  send_start_messages-Gathered :
      (m : Master Results)
      → All (λ c. IsAddress c.host) m.controllers
      → (v : Master Results) × (send_start_messages sink m ≡ done v) × Gathered m v
  unfolding send_start_messages
  send_start_messages-Gathered m hosts =
      let (cs, ran, _) =
        send_starts_lem m.workload.duration m.controllers
          (entry_host-IsAddress m.controllers hosts) in
      (
        record m { controllers = cs; start_messages_sent = true },
        rw ran refl,
        (refl, refl, refl, refl, refl, refl),
      )

  -- The controller that an accept adds.
  add_controller :
      (m : Master Results) (host : Bytes)
      → All (λ c. IsAddress c.host) m.controllers
      → IsAddress host
      → IsSendable (dht_type m.dht_type_name)
      → CanGreet m.workload (length m.controllers)
      → (c : Controller) × (greet sink m (length m.controllers) host ≡ done c)
        × All (λ c. IsAddress c.host) (m.controllers ++ c ∷ [])
  unfolding after_sending
  add_controller m host here h name g = (
    greeted m.dht_type_name host g.profile,
    greet-greeted sink m (length m.controllers) host g.profile g.found name g.sendable,
    All-append (λ c. IsAddress c.host) m.controllers _ here (h, tt),
  )

  -- As many accepts as controllers are missing lead to the start messages.
  pub run_ones-accepts :
      (host : Bytes) (hosts : List Bytes) (rest : List Completion) (m : Master Results)
      → m.start_messages_sent ≡ false
      → length m.controllers + length hosts + 1 ≡ m.workload.nodes
      → All (λ c. IsAddress c.host) m.controllers
      → All IsAddress (host ∷ hosts)
      → IsSendable (dht_type m.dht_type_name)
      → ((n : ℕ) → n < m.workload.nodes → CanGreet m.workload n)
      → (v : Master Results) × (run_ones sink
            (λ m. m.start_messages_sent)
            (map accepts (host ∷ hosts) ++ rest)
            m
          ≡ done (some (v, rest)))
        × Gathered m v
  unfolding handle handle_accept
  run_ones-accepts host [] rest m unsent all here (h, _) name can =
      let (c, greets, hosts) =
        add_controller m host here h name (can (length m.controllers) (omega arith)) in
      let size = length-append m.controllers (c ∷ []) in
      let full : ltb (length (m.controllers ++ c ∷ [])) m.workload.nodes ≡ false = ground arith in
      let (v, ran, gathered) =
        send_start_messages-Gathered
          (record m { controllers = m.controllers ++ c ∷ []; accepting = false }) hosts in
      (
        v,
        run_ones_step sink (λ m. m.start_messages_sent) (accepts host) rest m unsent
            ∙ rw (greets, full, ran)
                (run_ones_enough sink (λ m. m.start_messages_sent) rest v gathered.0),
        gathered,
      )
  run_ones-accepts host (next ∷ hosts) rest m unsent all here (h, hs) name can =
      let (c, greets, more) =
        add_controller m host here h name (can (length m.controllers) (omega arith)) in
      let size = length-append m.controllers (c ∷ []) in
      let room : ltb (length (m.controllers ++ c ∷ [])) m.workload.nodes ≡ true = ground arith in
      let (v, ran, gathered) =
        run_ones-accepts next hosts rest
          (record m { controllers = m.controllers ++ c ∷ []; accepting = true }) unsent
          (omega (arith, size)) more hs name can in
      (
        v,
        run_ones_step sink (λ m. m.start_messages_sent) (accepts host)
              (map accepts (next ∷ hosts) ++ rest) m unsent
            ∙ rw (greets, room) ran,
        gathered,
      )
