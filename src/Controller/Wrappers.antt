-- ===== src/Controller/Wrappers.antt =====
-- src/controller/dhtnodes: the dialogues of OwdhtshellWrapper and PastConsoleWrapper with the programs that they wrap, and
-- those of src/controller/dhtnodes/Wrapper.cpp. A loop that reads lines is none where `fuel` lines were not enough.
pub mod Gets
pub mod Openchord
pub mod Kaddemo
pub mod KaddemoId
pub mod Announced
pub mod Ruby
use dhtperf.Prelude.{
  ℕ, zero, suc, List, [], ◌∷◌, ◌++◌, Bytes, codes, Bool, true, false, ◌==◌, ◌||◌, ◌&&◌, not, str_eq,
  if◌then◌else◌, Option, none, some, Outcome, done, aborts, ◌>>=◌, decimal,
}
use dhtperf.Events.{PutEvent, GetEvent}
use dhtperf.Controller.Pipes.{Child, write, readline}
use dhtperf.Controller.DhtNode.{DhtNode}

-- line.compare(0, n, prefix) == 0, for a prefix of n characters.
unfoldable pub starts_with : Bytes → Bytes → Bool
starts_with [] line = true
starts_with (c ∷ prefix) [] = false
starts_with (c ∷ prefix) (d ∷ line) = (c == d) && starts_with prefix line

abbrev pub owdhtshell_prompt : Bytes
owdhtshell_prompt = codes "Ready."

abbrev pub past_console_prompt : Bytes
past_console_prompt = codes "pc$"

-- A line, where the exception is not caught at its end.
unfoldable pub line_or_abort : Child → Outcome (Bytes × Child)
unfolding readline
line_or_abort child = readline child >>= λ r. elim r [ none ↦ aborts | some read ↦ done read ]

-- The loop of Wrapper::waitPrompt, and that of PastConsoleWrapper::doLeave: up to a line.
unfoldable pub wait_line : ℕ → Bytes → Child → Outcome (Option Child)
unfolding line_or_abort
wait_line zero expected child = done none
wait_line (suc fuel) expected child = line_or_abort child >>= λ read.
    let more = wait_line fuel expected read.1 in
    if str_eq read.0 expected then done (some read.1) else more

-- startWrapped in the try block of doJoin: false where the program ends before its prompt, which stopWrapped follows.
unfoldable pub start_wrapped : ℕ → Bytes → Child → Outcome (Option (Bool × Child))
unfolding readline
start_wrapped zero prompt child = done none
start_wrapped (suc fuel) prompt child = readline child >>= λ r. elim r [
  | none ↦ done (some (false, child))
  | some (line, child) ↦
      (let more = start_wrapped fuel prompt child in
        if str_eq line prompt then done (some (true, child)) else more)
]

-- The words of the command that OwdhtshellWrapper::doJoin runs.
unfoldable pub owdhtshell_command : Bytes → DhtNode → List Bytes
owdhtshell_command algorithm n =
    codes "owdhtshell"
    ∷ codes "--no-upnp"
    ∷ codes "-d"
    ∷ codes "."
    ∷ codes "-s"
    ∷ decimal n.self_port
    ∷ codes "-a"
    ∷ algorithm
    ∷ (if str_eq n.entry_point_host []
        then []
        else (n.entry_point_host ++ (b':' ∷ decimal n.entry_point_port)) ∷ [])

-- The words of the command that PastConsoleWrapper::doJoin runs.
unfoldable pub past_console_command : DhtNode → List Bytes
past_console_command n =
    codes "past-console"
    ∷ decimal n.self_port
    ∷ (if str_eq n.entry_point_host []
        then codes "bootstrap" ∷ []
        else n.entry_point_host ∷ decimal n.entry_point_port ∷ [])

unfoldable pub do_put : ℕ → Bytes → PutEvent → Child → Outcome (Option Child)
unfolding wait_line write
do_put fuel prompt event child =
    wait_line fuel prompt
      (write (codes "put " ++ (event.key ++ (b' ' ∷ (event.value ++ 10 ∷ [])))) child)

-- The loop of doGet: whether a line with the prefix of a value has come before the prompt.
unfoldable pub get_loop : ℕ → Bytes → Bytes → Bool → Child → Outcome (Option (Bool × Child))
unfolding line_or_abort starts_with
get_loop zero prefix prompt ret child = done none
get_loop (suc fuel) prefix prompt ret child = line_or_abort child >>= λ read.
    let found = starts_with prefix read.0 in
    let more = get_loop fuel prefix prompt (found || ret) read.1 in
    if not found && str_eq read.0 prompt then done (some (ret, read.1)) else more

unfoldable pub do_get : ℕ → Bytes → Bytes → GetEvent → Child → Outcome (Option (Bool × Child))
unfolding get_loop write
do_get fuel prefix prompt event child =
    get_loop fuel prefix prompt false (write (codes "get " ++ (event.key ++ 10 ∷ [])) child)

-- The loop of doGet where a line with a head announces the values: whether one of the lines behind such a line is a value.
unfoldable pub value_loop :
    Bytes → Bytes → (Bytes → Bool) → ℕ → Bool → Child → Outcome (Option (Bool × Child))
unfolding line_or_abort starts_with
value_loop head prompt is_value zero ret child = done none
value_loop head prompt is_value (suc fuel) ret child = line_or_abort child >>= λ read.
    elim (starts_with head read.0) [
      | true ↦ line_or_abort read.1 >>= λ value.
          value_loop head prompt is_value fuel (is_value value.0 || ret) value.1
      | false ↦
          (let more = value_loop head prompt is_value fuel ret read.1 in
            if str_eq read.0 prompt then done (some (ret, read.1)) else more)
    ]

unfoldable pub past_console_get : ℕ → GetEvent → Child → Outcome (Option (Bool × Child))
unfolding do_get
past_console_get fuel event child = do_get fuel (codes "Value: ") past_console_prompt event child

unfoldable pub owdhtshell_get : ℕ → GetEvent → Child → Outcome (Option (Bool × Child))
unfolding do_get
owdhtshell_get fuel event child = do_get fuel (codes "value: ") owdhtshell_prompt event child

unfoldable pub past_console_leave : ℕ → Child → Outcome (Option Child)
unfolding wait_line write
past_console_leave fuel child = wait_line fuel (codes "Bye!") (write (codes "exit\n") child)

unfoldable pub owdhtshell_leave : Child → Child
unfolding write
owdhtshell_leave child = write (codes "quit\n") (write (codes "stop\n") child)
