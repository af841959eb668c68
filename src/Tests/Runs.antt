-- ===== src/Tests/Runs.antt =====
-- The master program in a test of two nodes that both report.
use dhtperf.Prelude.{
  [], ◌≡◌, ◌⊎◌, refl, codes, done, exits, some, Bytes, Option, true, false, text_keys,
}
use dhtperf.Prelude.Int.{ℤ, pos}
use dhtperf.Controller.DhtNode.{DhtNode, make}
use dhtperf.Programs.Master.{Options, master_main, run_master}
use dhtperf.Programs.Master.Types.{master_main-make}
use dhtperf.Tests.Numbers.{whole_numbers}
use dhtperf.Tests.Latencies.{two_times}
use dhtperf.Tests.Workloads.{program_boost, file}

abbrev no_text : ℤ → Bytes
no_text x = []

abbrev command_line : Options
command_line = record {
  help = false;
  version = false;
  port = 1234;
  workload_file = codes "test";
  dht_type = codes "dummy";
  nodes = some 2;
  low_latency = false;
}

abbrev file_at : Bytes → Option Bytes
file_at name = some file

abbrev unknown : Options
unknown = record command_line { dht_type = codes "chord" }

master_main-make_example :
    ((make (codes "chord") ≡ exits 1)
      × (master_main whole_numbers two_times program_boost
            (pos 4)
            (pos 5)
            no_text
            (λ name. true)
            file_at
            (some unknown)
            []
            (λ name. [])
          ≡ done (some (1, (λ name. [])))))
    ⊎ ((n : DhtNode) × (make (codes "chord") ≡ done n)
        × (master_main whole_numbers two_times program_boost
              (pos 4)
              (pos 5)
              no_text
              (λ name. true)
              file_at
              (some unknown)
              []
              (λ name. [])
            ≡ run_master whole_numbers two_times program_boost
                (pos 4)
                (pos 5)
                no_text
                (λ name. true)
                file_at
                unknown
                []
                (λ name. [])))
master_main-make_example =
    master_main-make whole_numbers two_times program_boost (pos 4) (pos 5) no_text (λ name. true)
      file_at unknown [] (λ name. []) refl refl
