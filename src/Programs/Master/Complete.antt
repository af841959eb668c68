-- ===== src/Programs/Master/Complete.antt =====
-- src/master/dhtperf-master.cpp: main, in a test in which every controller reports.
use dhtperf.Prelude.{ℕ, ◌≡◌, Bytes, Bool, true, false, Option, none, some, done}
use dhtperf.Prelude.Int.{ℤ}
use dhtperf.Common.{Boost}
use dhtperf.Metrics.Statistics.{Doubles}
use dhtperf.Metrics.Latency.{PosixTime}
use dhtperf.Master.Workload.{Workload}
use dhtperf.Protocol.RoundTrip.{IsSendable}
use dhtperf.Master.Workload.Profile.{WorkloadProfile}
use dhtperf.Master.Workload.Load.{load_config, get_node_profile}
use dhtperf.Master.Dispatch.Greeting.{profile_message}
use dhtperf.Controller.DhtNode.{DhtNode, make}
use dhtperf.Programs.Master.{Options, empty_workload}

module _ (d : Doubles) (clock : PosixTime) (boost : Boost) (junk : ℤ) (junk_double : d.Double)
    (fixed : d.Double → Bytes) (opens : Bytes → Bool) (open_file : Bytes → Option Bytes) where
  -- What the command line names is there: a type that make knows, and a workload for it, with texts that fit a message.
  pub record IsTest (o : Options) (w : Workload) : Type 0 where
    pub no_help : o.help ≡ false
    pub no_version : o.version ≡ false
    pub node : DhtNode
    pub known : make o.dht_type ≡ done node
    pub content : Bytes
    pub read : open_file o.workload_file ≡ some content
    pub loaded :
        load_config boost empty_workload (some content) (elim o.nodes [ none ↦ 0 | some n ↦ n ])
        ≡ done (true, w)
    pub fits :
        (n : ℕ) (p : WorkloadProfile)
        → get_node_profile w n ≡ done p
        → IsSendable (profile_message p)
