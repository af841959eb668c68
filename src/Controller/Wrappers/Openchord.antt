-- ===== src/Controller/Wrappers/Openchord.antt =====
-- src/controller/dhtnodes/OpenchordWrapper.cpp: its commands and dialogues.
use dhtperf.Prelude.{
  ℕ, zero, suc, [], ◌∷◌, ◌++◌, Bytes, codes, Bool, true, false, str_eq, if◌then◌else◌, Option, none,
  some, Outcome, done, ◌>>=◌, decimal, not,
}
use dhtperf.Events.{PutEvent, GetEvent}
use dhtperf.Controller.Pipes.{Child, write, readline}
use dhtperf.Controller.DhtNode.{DhtNode}
use dhtperf.Controller.Wrappers.{starts_with, wait_line, start_wrapped, value_loop}

abbrev pub openchord_prompt : Bytes
openchord_prompt = codes "oc >"

unfoldable pub openchord_command : DhtNode → Bytes
openchord_command n =
    codes "joinN -port "
    ++ (decimal n.self_port
        ++ (if str_eq n.entry_point_host []
            then codes "\n"
            else codes " -bootstrap "
              ++ (n.entry_point_host ++ (b':' ∷ (decimal n.entry_point_port ++ codes "\n")))))

unfoldable pub openchord_leave : Child → Child
unfolding write
openchord_leave child = write (codes "y\n") (write (codes "exit\n") child)

-- The loop of doJoin: true at the prompt, false where the join fails or the program ends.
unfoldable pub join_answer : ℕ → Child → Outcome (Option (Bool × Child))
unfolding readline starts_with openchord_leave
join_answer zero child = done none
join_answer (suc fuel) child = readline child >>= λ r. elim r [
  | none ↦ done (some (false, child))
  | some (line, child) ↦
      (let more = join_answer fuel child in
        if str_eq line openchord_prompt
        then done (some (true, child))
        else if starts_with (codes "Join/Creation of network failed.") line
        then done (some (false, openchord_leave child))
        else more)
]

unfoldable pub openchord_join : ℕ → DhtNode → Child → Outcome (Option (Bool × Child))
unfolding start_wrapped openchord_command write join_answer
openchord_join fuel n child = start_wrapped fuel openchord_prompt child >>= λ started.
    elim started [
      | none ↦ done none
      | some (up, child) ↦ elim up [
        | false ↦ done (some (false, child))
        | true ↦ join_answer fuel (write (openchord_command n) child)
      ]
    ]

unfoldable pub openchord_put : ℕ → PutEvent → Child → Outcome (Option Child)
unfolding wait_line write
openchord_put fuel event child = wait_line fuel openchord_prompt (
    write
      (codes "insertN -key " ++ (event.key ++ (codes " -value " ++ (event.value ++ codes "\n"))))
      child)

-- The loop of doGet: a value is a line that is not empty.
unfoldable pub openchord_values : ℕ → Bool → Child → Outcome (Option (Bool × Child))
unfolding value_loop
openchord_values fuel ret child =
    value_loop (codes "Values associated with key") openchord_prompt
      (λ value. not (str_eq value [])) fuel ret child

unfoldable pub openchord_get : ℕ → GetEvent → Child → Outcome (Option (Bool × Child))
unfolding openchord_values write
openchord_get fuel event child =
    openchord_values fuel false (write (codes "retrieveN -key " ++ (event.key ++ codes "\n")) child)
