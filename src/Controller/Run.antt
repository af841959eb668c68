-- ===== src/Controller/Run.antt =====
-- src/controller/DhtperfController.cpp: run. The class that is derived from DhtNode comes with the node; the thread that ends a
-- process that takes too long is left out.
use dhtperf.Prelude.{ℕ, Bytes, Option, none, some, false, Outcome, done, ◌>>=◌}
use dhtperf.Prelude.Int.{ℤ}
use dhtperf.Metrics.SuccessRate.{no_operations}
use dhtperf.Common.{DhtOperation, Boost}
use dhtperf.Metrics.Statistics.{Doubles}
use dhtperf.Metrics.Latency.{PosixTime, new_latency}
use dhtperf.Controller.Utils.{Randomness}
use dhtperf.Controller.Profiles.Make.{profile_factory}
use dhtperf.Controller.Setup.{set_up}
use dhtperf.Controller.DhtNode.{DhtNode}
use dhtperf.Controller.Network.{Network, connect}
use dhtperf.Controller.Operations.{Dht, Node, get_results}
use dhtperf.Controller.Loop.{going, finished, retrying, start}
use dhtperf.Controller.Report.{Output, finish_run}

module _ (d : Doubles) (clock : PosixTime) (junk : ℤ) where
  -- The metrics of a new DhtNode; those of latency have members that nothing sets.
  unfoldable pub unconnected : Node d clock
  unfolding new_latency
  unconnected = record {
    connected = false;
    metrics = record {
      join_latency = new_latency d clock junk;
      leave_latency = new_latency d clock junk;
      put_latency = new_latency d clock junk;
      get_latency = new_latency d clock junk;
      join_success_rate = no_operations;
      get_success_rate = no_operations;
    };
  }

  module _ (net : Network) (incoming : net.Socket → Bytes) (random : Randomness) (boost : Boost)
      (seeds : DhtOperation → random.World) (dht : DhtNode → Dht clock)
      (begin : (n : DhtNode) → (dht n).World) where
    -- What is written to the socket: none where the loop has not come to its end within its fuel. `incoming` is what comes
    -- through a socket.
    unfoldable pub run : ℕ → ℕ → Bytes → ℕ → Output → Outcome (Option Output)
    unfolding connect set_up profile_factory start unconnected get_results finish_run
    run more fuel host port output = connect net host port >>= λ socket.
        set_up (profile_factory random boost seeds) (incoming socket) >>= λ prepared.
        start d clock (dht prepared.0.node) random more fuel prepared.0.profiles unconnected
          (begin prepared.0.node)
        >>= λ progress. elim progress [
          | retrying ↦ done none
          | going s ↦ done none
          | finished (profiles, (n, w)) ↦
              finish_run (get_results d clock n.metrics) output >>= λ o. done (some o)
        ]
