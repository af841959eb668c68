-- ===== src/Service/Dialogue.antt =====
-- The client of the service against its daemon.
use dhtperf.Prelude.{
  ◌+◌, ◌≡◌, ◌≢◌, refl, List, [], ◌∷◌, ◌++◌, Bytes, codes, false, str_eq, done, some, All,
  append_assoc,
}
use dhtperf.Metrics.Streams.{is_space, skip_spaces}
use dhtperf.Service.{
  Daemon, endl, msg_ack, until_space, read_word, handle_client, controller_command, do_system,
  client_main, request, asks_version, wait_for_reply,
}

-- A text without a space.
abbrev pub IsText : Bytes → Type 0
IsText = All (λ c. is_space c ≡ false)

until_space-IsText :
    (word rest : Bytes) → IsText word → until_space (word ++ (10 ∷ rest)) ≡ (word, 10 ∷ rest)
unfolding until_space is_space
until_space-IsText [] rest h = refl
until_space-IsText (c ∷ word) rest (h, hs) = rw (h, until_space-IsText word rest hs) refl

skip_spaces-IsText :
    (word rest : Bytes) → IsText word → word ≢ [] → skip_spaces (word ++ rest) ≡ word ++ rest
unfolding skip_spaces
skip_spaces-IsText [] rest h some_text = absurd (some_text refl)
skip_spaces-IsText (c ∷ word) rest (h, hs) some_text = rw h refl

read_word-IsText :
    (word rest : Bytes)
    → IsText word
    → word ≢ []
    → read_word (word ++ (10 ∷ rest)) ≡ (word, 10 ∷ rest)
unfolding read_word
read_word-IsText word rest h some_text =
    rw (skip_spaces-IsText word (10 ∷ rest) h some_text) (until_space-IsText word rest h)

-- The commands of the client that its usage names.
pub data IsCommand : List Bytes → Type 0 where
  is_ping : {host : Bytes} → IsCommand (host ∷ codes "ping" ∷ [])
  is_start :
      {host master : Bytes}
      → IsText master
      → master ≢ []
      → IsCommand (host ∷ codes "start" ∷ master ∷ [])
  is_stop : {host : Bytes} → IsCommand (host ∷ codes "stop" ∷ [])
  is_update : {host : Bytes} → IsCommand (host ∷ codes "update" ∷ [])
  is_version : {host : Bytes} → IsCommand (host ∷ codes "version" ∷ [])

-- What the daemon is after the commands: start runs a controller with the master's name and numbers its log.
abbrev pub served : {args : List Bytes} → Bytes → IsCommand args → Daemon → Daemon
served log_dir is_ping s = s
served log_dir (is_start {master = master} text some_text) s = record {
  controller_number = s.controller_number + 1;
  commands = s.commands ++ controller_command log_dir master s.controller_number ∷ [];
}
served log_dir is_stop s = record s {
  commands =
      s.commands
      ++ (codes "pkill dhtperf-master"
          ∷ codes "pkill dhtperf-controller"
          ∷ codes "pkill java"
          ∷ []);
}
served log_dir is_update s = record s { commands = s.commands ++ codes "sudo yum update -y &" ∷ [] }
served log_dir is_version s = s

-- Where the version is a text without spaces: for every command of its usage, with a master's name that has none either,
-- the client sends a request on which the daemon does what the command says, whatever it has done before, and the client
-- gets its ack and returns 0.
pub client_main-handle_client :
    (log_dir version : Bytes) (s : Daemon) (args : List Bytes)
    → IsText version
    → version ≢ []
    → (c : IsCommand args)
    → (sent : Bytes) × (request args ≡ some sent)
      × ((handle_client log_dir version sent s).1 ≡ served log_dir c s)
      × (client_main args (λ sent. (handle_client log_dir version sent s).0) ≡ done 0)
unfolding client_main request asks_version wait_for_reply handle_client do_system read_word
    until_space skip_spaces is_space str_eq
client_main-handle_client log_dir version s _ h some_text is_ping = (_, refl, refl, refl)
client_main-handle_client log_dir version s _ h some_text (is_start {master = m} t n) =
    (_, refl, rw (skip_spaces-IsText m (10 ∷ []) t n, until_space-IsText m [] t) refl, refl)
client_main-handle_client log_dir version s _ h some_text is_stop =
    (_, refl, rw (append_assoc, append_assoc) refl, refl)
client_main-handle_client log_dir version s _ h some_text is_update = (_, refl, refl, refl)
client_main-handle_client log_dir version s _ h some_text is_version = (
  _,
  refl,
  refl,
  rw
      (
        skip_spaces-IsText version (10 ∷ (msg_ack ++ endl)) h some_text,
        until_space-IsText version (msg_ack ++ endl) h,
      )
      refl,
)
