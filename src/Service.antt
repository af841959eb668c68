-- ===== src/Service.antt =====
-- src/service: the daemon dhtperfd and its client, which speak the words of src/service/protocol.h. `log_dir` is LOG_DIR
-- and `version` is DHTPERF_VERSION, which the build sets; the commands that system() is called with are kept in order.
pub mod Dialogue
use dhtperf.Prelude.{
  ℕ, suc, ◌+◌, List, [], ◌∷◌, ◌++◌, Bytes, codes, Bool, true, false, str_eq, if◌then◌else◌, decimal,
  Outcome, done, exits, Option, none, some,
}
use dhtperf.Metrics.Streams.{is_space, skip_spaces}

abbrev pub msg_ping : Bytes
msg_ping = codes "dhtperfping"

abbrev pub msg_start : Bytes
msg_start = codes "dhtperfstart"

abbrev pub msg_stop : Bytes
msg_stop = codes "dhtperfstop"

abbrev pub msg_ack : Bytes
msg_ack = codes "dhtperfack"

abbrev pub msg_update : Bytes
msg_update = codes "dhtperfupdate"

abbrev pub msg_version : Bytes
msg_version = codes "dhtperfversion"

-- std::endl
abbrev pub endl : Bytes
endl = 10 ∷ []

-- The text up to the next space, and the rest.
unfoldable pub until_space : Bytes → Bytes × Bytes
unfolding is_space
until_space [] = ([], [])
until_space (c ∷ s) =
    let (word, rest) = until_space s in if is_space c then ([], c ∷ s) else (c ∷ word, rest)

-- stream >> word; the word is empty at the end of the stream.
unfoldable pub read_word : Bytes → Bytes × Bytes
unfolding until_space skip_spaces
read_word stream = until_space (skip_spaces stream)

-- controllerNumber, and the commands.
pub record Daemon : Type 0 where
  pub controller_number : ℕ
  pub commands : List Bytes

unfoldable pub do_system : Bytes → Daemon → Daemon
do_system cmd s = record s { commands = s.commands ++ cmd ∷ [] }

unfoldable pub controller_command : Bytes → Bytes → ℕ → Bytes
controller_command log_dir host number =
    codes "dhtperf-controller "
    ++ (host
        ++ (codes " > "
            ++ (log_dir ++ (codes "controller." ++ (decimal number ++ codes ".log 2>&1 &")))))

-- What the daemon writes to the stream of a client, from what it reads there.
unfoldable pub handle_client : Bytes → Bytes → Bytes → Daemon → Bytes × Daemon
unfolding read_word do_system controller_command
handle_client log_dir version stream s =
    let (msg, stream) = read_word stream in
    let ack = msg_ack ++ endl in
    if str_eq msg msg_ping
    then (ack, s)
    else if str_eq msg msg_start
    then (let host = (read_word stream).0 in
        let s = do_system (controller_command log_dir host s.controller_number) s in
        (ack, record s { controller_number = s.controller_number + 1 }))
    else if str_eq msg msg_stop
    then (
      ack,
      do_system (codes "pkill java") (
          do_system (codes "pkill dhtperf-controller")
            (do_system (codes "pkill dhtperf-master") s)),
    )
    else if str_eq msg msg_update
    then (ack, do_system (codes "sudo yum update -y &") s)
    else if str_eq msg msg_version
    then (version ++ (endl ++ ack), s)
    else ([], s)

-- The end of the client's main: it waits for the ack, and returns 0 or exits.
unfoldable pub wait_for_reply : Bytes → Outcome ℕ
unfolding read_word
wait_for_reply stream = if str_eq (read_word stream).0 msg_ack then done 0 else exits 1

-- What main of the client, with the arguments behind the program's name, writes to the stream of the daemon; none where
-- it prints its usage.
unfoldable pub request : List Bytes → Option Bytes
request [] = none
request (host ∷ []) = none
request (host ∷ command ∷ more) =
    if str_eq command (codes "ping")
    then some (msg_ping ++ endl)
    else if str_eq command (codes "start")
    then elim more [ master ∷ [] ↦ some (msg_start ++ (b' ' ∷ (master ++ endl))) | _ ↦ none ]
    else if str_eq command (codes "stop")
    then some (msg_stop ++ endl)
    else if str_eq command (codes "update")
    then some (msg_update ++ endl)
    else if str_eq command (codes "version")
    then some (msg_version ++ endl)
    else none

-- Whether main reads a version before the ack.
unfoldable pub asks_version : List Bytes → Bool
asks_version [] = false
asks_version (host ∷ []) = false
asks_version (host ∷ command ∷ more) = str_eq command (codes "version")

-- main of the client, against what the daemon answers to a request.
unfoldable pub client_main : List Bytes → (Bytes → Bytes) → Outcome ℕ
unfolding request asks_version wait_for_reply
client_main args answer = elim (request args) [
  | none ↦ done 1
  | some sent ↦
      wait_for_reply (if asks_version args then (read_word (answer sent)).1 else answer sent)
]
