-- ===== src/Master/Dispatch/Greeting.antt =====
-- What the master sends to a controller that it has accepted.
use dhtperf.Prelude.{ℕ, ◌≡◌, [], Bytes, done, false}
use dhtperf.Protocol.{Message, dht_type, profile}
use dhtperf.Protocol.RoundTrip.{IsSendable}
use dhtperf.Protocol.Stream.{body_fits}
use dhtperf.Master.Controllers.{Controller, after_sending, send-after_sending}
use dhtperf.Master.Workload.Profile.{WorkloadProfile}
use dhtperf.Master.Workload.Load.{get_node_profile}
use dhtperf.Master.Dispatch.{ResultSink, Master, greet, new_connection}

abbrev pub profile_message : WorkloadProfile → Message
profile_message p = profile p.join_profile p.leave_profile p.put_profile p.get_profile

abbrev pub greeted : Bytes → Bytes → WorkloadProfile → Controller
greeted name host p = after_sending (profile_message p) (
    after_sending (dht_type name)
      (record { host = host; connection = new_connection; sent = []; waiting = false }))

module _ (sink : ResultSink) where
  open sink use {Results}

  pub greet-greeted :
      (m : Master Results) (number : ℕ) (host : Bytes) (p : WorkloadProfile)
      → get_node_profile m.workload number ≡ done p
      → IsSendable (dht_type m.dht_type_name)
      → IsSendable (profile_message p)
      → greet sink m number host ≡ done (greeted m.dht_type_name host p)
  unfolding greet
  greet-greeted m number host p found ht hp =
      rw
        (
          send-after_sending (dht_type m.dht_type_name)
              (record { host = host; connection = new_connection; sent = []; waiting = false })
              (body_fits (dht_type m.dht_type_name) ht),
          found,
        )
        (send-after_sending (profile_message p) _ (body_fits (profile_message p) hp))
