-- ===== src/Controller/Wrappers/Kaddemo.antt =====
-- src/controller/dhtnodes/KaddemoWrapper.cpp: its commands and dialogues. The addresses that Utils looks up and the
-- identifier that the entry point's server sends are parameters.
use dhtperf.Prelude.{
  ℕ, zero, suc, [], ◌∷◌, ◌++◌, Bytes, codes, Bool, false, str_eq, if◌then◌else◌, Option, none, some,
  Outcome, done, ◌>>=◌, decimal, drop,
}
use dhtperf.Master.Workload.{c_str}
use dhtperf.Events.{PutEvent, GetEvent}
use dhtperf.Controller.Pipes.{Child, write}
use dhtperf.Controller.DhtNode.{DhtNode}
use dhtperf.Controller.Wrappers.{starts_with, line_or_abort, wait_line, value_loop}

abbrev pub kaddemo_prompt : Bytes
kaddemo_prompt = codes "demo >"

unfoldable pub kaddemo_command : Bytes → Bytes → Bytes → DhtNode → Bytes
kaddemo_command self_ip entry_point_ip entry_point_id n =
    codes "kaddemo_static -p "
    ++ (decimal n.self_port
        ++ (b' '
            ∷ (if str_eq n.entry_point_host []
                then codes "--externalport "
                  ++ (decimal n.self_port ++ (codes " --externalip " ++ (self_ip ++ codes " ")))
                else codes "--bs_ip "
                  ++ (entry_point_ip
                      ++ (codes " --bs_local_ip "
                          ++ (entry_point_ip
                              ++ (codes " --bs_port "
                                  ++ (decimal n.entry_point_port
                                      ++ (codes " --bs_local_port "
                                          ++ (decimal n.entry_point_port
                                              ++ (codes " --bs_id "
                                                  ++ (entry_point_id ++ codes " "))))))))))))

-- The loop of getSelfId: the text behind ", Node_id: ".
unfoldable pub id_line : ℕ → Child → Outcome (Option (Bytes × Child))
unfolding line_or_abort starts_with c_str
id_line zero child = done none
id_line (suc fuel) child = line_or_abort child >>= λ read.
    let more = id_line fuel read.1 in
    if starts_with (codes ", Node_id: ") read.0
    then done (some (c_str (drop 11 read.0), read.1))
    else more

unfoldable pub get_self_id : ℕ → Child → Outcome (Option (Bytes × Child))
unfolding id_line wait_line write
get_self_id fuel child = id_line fuel (write (codes "getinfo\n") child) >>= λ found. elim found [
  | none ↦ done none
  | some (id, child) ↦ wait_line fuel kaddemo_prompt child >>= λ waited. elim waited [
    | none ↦ done none
    | some child ↦ done (some (id, child))
  ]
]

unfoldable pub kaddemo_put : ℕ → PutEvent → Child → Outcome (Option Child)
unfolding wait_line write
kaddemo_put fuel event child =
    wait_line fuel kaddemo_prompt
      (write (codes "storevalue " ++ (event.key ++ (b' ' ∷ (event.value ++ codes " 600\n")))) child)

-- The loop of doGet: a value begins with "1.  ".
unfoldable pub kaddemo_values : ℕ → Bool → Child → Outcome (Option (Bool × Child))
unfolding value_loop starts_with
kaddemo_values fuel ret child =
    value_loop (codes "Values found for key") kaddemo_prompt (starts_with (codes "1.  ")) fuel ret
      child

unfoldable pub kaddemo_get : ℕ → GetEvent → Child → Outcome (Option (Bool × Child))
unfolding kaddemo_values write
kaddemo_get fuel event child =
    kaddemo_values fuel false (write (codes "findvalue " ++ (event.key ++ codes "\n")) child)
