-- ===== src/Programs/Master/Types.antt =====
-- src/master/dhtperf-master.cpp: which types of DHT it takes.
use dhtperf.Prelude.{
  ◌≡◌, refl, ◌<◌, List, [], Bytes, codes, Bool, true, false, Option, some, str_eq, done,
  if◌then◌else◌, Bool-cases, inl, inr, exits, ◌⊎◌, length, ◌∷◌, subst, sym, str_eq_iff, arith,
}
use dhtperf.Prelude.Int.{ℤ}
use dhtperf.Common.{Boost}
use dhtperf.Protocol.{u32_mod}
use dhtperf.Metrics.Statistics.{Doubles}
use dhtperf.Metrics.Latency.{PosixTime}
use dhtperf.Master.Dispatch.{Completion}
use dhtperf.Master.Results.Csv.{Directory}
use dhtperf.Controller.DhtNode.{
  DhtNode, make, new_node, dummy_dht, kaddemo_wrapper, openchord_wrapper, owdhtshell_wrapper,
  past_console_wrapper,
}
use dhtperf.Programs.Master.{Options, is_invalid, run_master, master_main}

is_short : (s t : Bytes) → str_eq s t ≡ true → length t < u32_mod → length s < u32_mod
is_short s t e h = subst (λ u. length u < u32_mod) (sym ((str_eq_iff s t).0 e)) h

-- The types that the master refuses are those that make does not know.
pub is_invalid-make :
    (type : Bytes)
    → ((is_invalid type ≡ true) × (make type ≡ exits 1))
      ⊎ ((n : DhtNode) × (length type < u32_mod) × (is_invalid type ≡ false) × (make type ≡ done n))
unfolding is_invalid make
is_invalid-make type = elim (Bool-cases (str_eq type (codes "dummy"))) [
  | inl e0 ↦
      inr
        (new_node dummy_dht, is_short type (codes "dummy") e0 (omega arith), rw e0 refl, rw e0 refl)
  | inr e0 ↦ elim (Bool-cases (str_eq type (codes "kaddemo"))) [
    | inl e1 ↦ inr (
      new_node kaddemo_wrapper,
      is_short type (codes "kaddemo") e1 (omega arith),
      rw (e0, e1) refl,
      rw (e0, e1) refl,
    )
    | inr e1 ↦ elim (Bool-cases (str_eq type (codes "openchord"))) [
      | inl e2 ↦ inr (
        new_node openchord_wrapper,
        is_short type (codes "openchord") e2 (omega arith),
        rw (e0, e1, e2) refl,
        rw (e0, e1, e2) refl,
      )
      | inr e2 ↦ elim (Bool-cases (str_eq type (codes "owshellchord"))) [
        | inl e3 ↦ inr (
          new_node (owdhtshell_wrapper (codes "Chord")),
          is_short type (codes "owshellchord") e3 (omega arith),
          rw (e0, e1, e2, e3) refl,
          rw (e0, e1, e2, e3) refl,
        )
        | inr e3 ↦ elim (Bool-cases (str_eq type (codes "owshellkad"))) [
          | inl e4 ↦ inr (
            new_node (owdhtshell_wrapper (codes "Kademlia")),
            is_short type (codes "owshellkad") e4 (omega arith),
            rw (e0, e1, e2, e3, e4) refl,
            rw (e0, e1, e2, e3, e4) refl,
          )
          | inr e4 ↦ elim (Bool-cases (str_eq type (codes "owshellpastry"))) [
            | inl e5 ↦ inr (
              new_node (owdhtshell_wrapper (codes "Pastry")),
              is_short type (codes "owshellpastry") e5 (omega arith),
              rw (e0, e1, e2, e3, e4, e5) refl,
              rw (e0, e1, e2, e3, e4, e5) refl,
            )
            | inr e5 ↦ elim (Bool-cases (str_eq type (codes "pastconsole"))) [
              | inl e6 ↦ inr (
                new_node past_console_wrapper,
                is_short type (codes "pastconsole") e6 (omega arith),
                rw (e0, e1, e2, e3, e4, e5, e6) refl,
                rw (e0, e1, e2, e3, e4, e5, e6) refl,
              )
              | inr e6 ↦ inl (rw (e0, e1, e2, e3, e4, e5, e6) (refl, refl))
            ]
          ]
        ]
      ]
    ]
  ]
]

is_named : (t : Bytes) → is_invalid t ≡ false → str_eq t [] ≡ false
unfolding is_invalid str_eq
is_named [] e = absurd (cc)
is_named (c ∷ t) e = refl

if_same : {A : Type 0} (b : Bool) (a : A) → (if b then a else a) ≡ a
if_same true a = refl
if_same false a = refl

module _ (d : Doubles) (clock : PosixTime) (boost : Boost) (junk : ℤ) (junk_double : d.Double)
    (fixed : d.Double → Bytes) (opens : Bytes → Bool) (open_file : Bytes → Option Bytes) where
  -- What the master program does with a type of DHT is what every controller does with it. Unless it is asked for its help or version,
  -- either DhtNode::make ends a controller that gets the type, and main returns 1 and touches no file, or make constructs a node, and main runs
  -- the test.
  pub master_main-make :
      (o : Options) (cs : List Completion) (files : Directory)
      → o.help ≡ false
      → o.version ≡ false
      → ((make o.dht_type ≡ exits 1)
          × (master_main d clock boost junk junk_double fixed opens open_file (some o) cs files
              ≡ done (some (1, files))))
        ⊎ ((n : DhtNode) × (make o.dht_type ≡ done n)
            × (master_main d clock boost junk junk_double fixed opens open_file (some o) cs files
                ≡ run_master d clock boost junk junk_double fixed opens open_file o cs files))
  unfolding master_main
  master_main-make o cs files no_help no_version = elim (is_invalid-make o.dht_type) [
    | inl (e, unknown) ↦
        inl (unknown, rw (no_help, no_version, e) (if_same (str_eq o.dht_type []) _))
    | inr (n, _, e, known) ↦ inr (n, known, rw (no_help, no_version, is_named o.dht_type e, e) refl)
  ]
