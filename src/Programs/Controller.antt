-- ===== src/Programs/Controller.antt =====
-- src/controller/dhtperf-controller.cpp. What boost::program_options makes of the command line is a parameter.
use dhtperf.Prelude.{ℕ, Bytes, Bool, Option, none, some, Outcome, done, ◌>>=◌, if◌then◌else◌}
use dhtperf.Prelude.Int.{ℤ}
use dhtperf.Common.{DhtOperation, Boost}
use dhtperf.Metrics.Statistics.{Doubles}
use dhtperf.Metrics.Latency.{PosixTime}
use dhtperf.Controller.Utils.{Randomness}
use dhtperf.Controller.DhtNode.{DhtNode}
use dhtperf.Controller.Network.{Network}
use dhtperf.Controller.Operations.{Dht}
use dhtperf.Controller.Report.{Output}
use dhtperf.Controller.Run.{run}

pub record Options : Type 0 where
  pub help : Bool
  pub version : Bool
  pub host : Bytes
  pub port : ℕ

module _ (d : Doubles) (clock : PosixTime) (junk : ℤ) (net : Network)
    (incoming : net.Socket → Bytes) (random : Randomness) (boost : Boost)
    (seeds : DhtOperation → random.World) (dht : DhtNode → Dht clock)
    (begin : (n : DhtNode) → (dht n).World) where
  -- main, for the options or the exception that the command line comes to: what it returns, and what has been written to the master.
  unfoldable pub controller_main : Option Options → ℕ → ℕ → Output → Outcome (Option (ℕ × Output))
  unfolding run
  controller_main none more fuel output = done (some (1, output))
  controller_main (some o) more fuel output =
      if o.help
      then done (some (0, output))
      else if o.version
      then done (some (0, output))
      else run d clock junk net incoming random boost seeds dht begin more fuel o.host o.port output
        >>= λ ran. done (elim ran [ none ↦ none | some written ↦ some (0, written) ])
