-- ===== src/Controller/Wrappers/Ruby.antt =====
-- src/controller/dhtnodes/GenericRubyWrapper.cpp, which is built but which DhtNode::make does not construct any more.
pub mod Gets
use dhtperf.Prelude.{
  ℕ, zero, suc, ◌+◌, ◌*◌, ◌%◌, [], ◌∷◌, ◌++◌, Bytes, codes, Bool, true, false, ◌==◌, str_eq,
  if◌then◌else◌, Option, none, some, Outcome, done, ◌>>=◌, decimal,
}
use dhtperf.Protocol.{u16_mod}
use dhtperf.Events.{PutEvent, GetEvent}
use dhtperf.Controller.Pipes.{Child, write}
use dhtperf.Controller.DhtNode.{DhtNode}
use dhtperf.Controller.Wrappers.{line_or_abort, wait_line}

abbrev pub ruby_prompt : Bytes
ruby_prompt = codes "w:$"

unfoldable pub ruby_command : Bytes → DhtNode → Bytes
ruby_command dht_type n =
    dht_type
    ++ (codes "-wrapper --sp "
        ++ (decimal n.self_port
            ++ (if str_eq n.entry_point_host []
                then []
                else codes " --eph "
                  ++ (n.entry_point_host ++ (codes " --epp " ++ decimal n.entry_point_port)))))

unfoldable pub ruby_port : ℕ → ℕ
ruby_port offset = (offset * 2 + 5000) % u16_mod

-- line[0] != '#'; at the end of an empty text stands a NUL.
unfoldable pub is_comment_line : Bytes → Bool
is_comment_line [] = false
is_comment_line (c ∷ line) = c == b'#'

unfoldable pub get_non_comment_line : ℕ → Child → Outcome (Option (Bytes × Child))
unfolding line_or_abort is_comment_line
get_non_comment_line zero child = done none
get_non_comment_line (suc fuel) child = line_or_abort child >>= λ read.
    let more = get_non_comment_line fuel read.1 in
    if is_comment_line read.0 then more else done (some read)

-- The loop of doLeave. Each of its rounds has its own fuel for comments.
unfoldable pub bye_loop : ℕ → ℕ → Child → Outcome (Option Child)
unfolding get_non_comment_line
bye_loop comments zero child = done none
bye_loop comments (suc fuel) child = get_non_comment_line comments child >>= λ found. elim found [
  | none ↦ done none
  | some (line, child) ↦
      (let more = bye_loop comments fuel child in
        if str_eq line (codes "Bye =)") then done (some child) else more)
]

unfoldable pub ruby_leave : ℕ → ℕ → Child → Outcome (Option Child)
unfolding bye_loop write
ruby_leave comments fuel child = bye_loop comments fuel (write (codes "stop\n") child)

unfoldable pub ruby_put : ℕ → PutEvent → Child → Outcome (Option Child)
unfolding wait_line write
ruby_put fuel event child =
    wait_line fuel ruby_prompt
      (write (codes "put " ++ (event.key ++ (b' ' ∷ (event.value ++ 10 ∷ [])))) child)

-- The loop of doGet: whether a value has been found, behind which stands its line.
unfoldable pub found_loop : ℕ → ℕ → Child → Outcome (Option (Bool × Child))
unfolding get_non_comment_line line_or_abort
found_loop comments zero child = done none
found_loop comments (suc fuel) child = get_non_comment_line comments child >>= λ found. elim found [
  | none ↦ done none
  | some (line, child) ↦
      (let more = found_loop comments fuel child in
        let value = line_or_abort child >>= λ read. done (some (true, read.1)) in
        if str_eq line (codes "Value not found")
        then done (some (false, child))
        else if str_eq line (codes "Value found:")
        then value
        else more)
]

unfoldable pub ruby_get : ℕ → ℕ → GetEvent → Child → Outcome (Option (Bool × Child))
unfolding found_loop wait_line write
ruby_get comments fuel event child =
    found_loop comments fuel (write (codes "get " ++ (event.key ++ codes "\n")) child) >>= λ found.
    elim found [
      | none ↦ done none
      | some (ret, child) ↦ wait_line fuel ruby_prompt child >>= λ waited. elim waited [
        | none ↦ done none
        | some child ↦ done (some (ret, child))
      ]
    ]

-- doJoin behind the start of the program: it waits for the prompt, and the node is in.
unfoldable pub ruby_join : ℕ → Child → Outcome (Option (Bool × Child))
unfolding wait_line
ruby_join fuel child = wait_line fuel ruby_prompt child >>= λ waited. elim waited [
  | none ↦ done none
  | some child ↦ done (some (true, child))
]
