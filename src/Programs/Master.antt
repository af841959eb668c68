-- ===== src/Programs/Master.antt =====
-- src/master/dhtperf-master.cpp. What boost::program_options makes of the command line is a parameter; a file is its bytes, or
-- none where it cannot be opened.
pub mod Types
pub mod Complete
use dhtperf.Prelude.{
  ℕ, ◌≡◌, refl, ◌<◌, List, [], Bytes, codes, Bool, true, false, not, ◌&&◌, Option, none, some,
  str_eq, Outcome, done, ◌>>=◌, if◌then◌else◌, Bool-cases, inl, inr, exits, ◌⊎◌, length, ◌∷◌, subst,
  sym, str_eq_iff, arith, ◌+◌, ◌++◌, ◌^◌, All, map, ap, ◌∙◌, >>=-assoc,
}
use dhtperf.Prelude.Int.{ℤ}
use dhtperf.Common.{Boost}
use dhtperf.Protocol.{u32_mod}
use dhtperf.Metrics.Statistics.{Doubles}
use dhtperf.Metrics.Latency.{PosixTime}
use dhtperf.Master.Workload.{Workload}
use dhtperf.Protocol.RoundTrip.{IsSendable}
use dhtperf.Metrics.Latency.Text.{TextLaws}
use dhtperf.Controller.Operations.{NodeMetrics}
use dhtperf.Master.Workload.Profile.{WorkloadProfile}
use dhtperf.Master.Workload.Load.{load_config, get_node_profile}
use dhtperf.Master.Workload.Checked.{load_config-HasProfile}
use dhtperf.Master.Dispatch.Greeting.{profile_message}
use dhtperf.Master.Results.Reports.{IsReportable}
use dhtperf.Master.Run.Gather.{IsAddress, CanGreet}
use dhtperf.Master.Run.Reporting.{reporting}
use dhtperf.Master.Run.Complete.{collected, run-reporting}
use dhtperf.Master.Dispatch.{Completion, accepts, init}
use dhtperf.Master.Results.{ResultProcessor, new_processor, result_sink}
use dhtperf.Master.Results.Csv.{Directory, process}
use dhtperf.Master.Run.{load_workload_file, run}
use dhtperf.Controller.DhtNode.{
  DhtNode, make, new_node, dummy_dht, kaddemo_wrapper, openchord_wrapper, owdhtshell_wrapper,
  past_console_wrapper,
}

-- The variables that the options set, and vm.count of those without a value.
pub record Options : Type 0 where
  pub help : Bool
  pub version : Bool
  pub port : ℕ
  pub workload_file : Bytes
  pub dht_type : Bytes
  pub nodes : Option ℕ
  pub low_latency : Bool

-- The condition under which the type is refused.
unfoldable pub is_invalid : Bytes → Bool
is_invalid type =
    not (str_eq type (codes "dummy"))
    && (not (str_eq type (codes "kaddemo"))
        && (not (str_eq type (codes "openchord"))
            && (not (str_eq type (codes "owshellchord"))
                && (not (str_eq type (codes "owshellkad"))
                    && (not (str_eq type (codes "owshellpastry"))
                        && not (str_eq type (codes "pastconsole")))))))

-- A MasterWorkload before loadConfig.
abbrev pub empty_workload : Workload
empty_workload = record {
  nodes = 0;
  duration = 0;
  profiles = [];
  node_profiles = [];
  current_profile = none;
}

module _ (d : Doubles) (clock : PosixTime) (boost : Boost) (junk : ℤ) (junk_double : d.Double)
    (fixed : d.Double → Bytes) (opens : Bytes → Bool) (open_file : Bytes → Option Bytes) where
  -- The master that is constructed, loads its workload and runs. The result is 0.
  unfoldable pub run_master :
      Options → List Completion → Directory → Outcome (Option (ℕ × Directory))
  unfolding load_workload_file run init new_processor
  run_master o cs files = do
    w ←
        load_workload_file boost (open_file o.workload_file)
          (elim o.nodes [ none ↦ 0 | some n ↦ n ]) empty_workload
    ran ← run d clock boost junk junk_double fixed opens cs files (
        init (result_sink d clock boost junk junk_double) w o.dht_type
          (new_processor d clock boost junk junk_double o.dht_type o.low_latency))
    done (elim ran [ none ↦ none | some (m, files) ↦ some (0, files) ])

  -- main, for the options or the exception that the command line comes to: what it returns, and the files that it leaves. It is none where
  -- the master goes on waiting.
  unfoldable pub master_main :
      Option Options → List Completion → Directory → Outcome (Option (ℕ × Directory))
  unfolding is_invalid run_master
  master_main none cs files = done (some (1, files))
  master_main (some o) cs files =
      if o.help
      then done (some (0, files))
      else if o.version
      then done (some (0, files))
      else if str_eq o.dht_type []
      then done (some (1, files))
      else if is_invalid o.dht_type
      then done (some (1, files))
      else run_master o cs files
