-- ===== src/Tests/Starts.antt =====
-- Three controllers, two of them on one host.
use dhtperf.Prelude.{
  ℕ, [], ◌∷◌, List, ◌≡◌, ◌≢◌, refl, Bytes, codes, arith, done, true, false, some, get_elem?, take,
}
use dhtperf.Master.Controllers.{Controller, after_sending}
use dhtperf.Master.Start.{send_starts, entry_host}
use dhtperf.Master.Start.Ports.{start_for, send_starts_lem}
use dhtperf.Master.Start.Offsets.{ReadsPort, send_starts-ReadsPort}
use dhtperf.Master.Dispatch.{new_connection}

abbrev at : Bytes → Controller
at host = record { host = host; connection = new_connection; sent = []; waiting = false }

abbrev one : Controller
one = at (codes "10.0.0.1")

abbrev two : Controller
two = at (codes "10.0.0.2")

abbrev three : List Controller
three = one ∷ two ∷ one ∷ []

send_starts_lem_example :
    (cs' : List Controller) × (send_starts 60 three ≡ done cs')
    × ((i : ℕ) (c : Controller)
        → get_elem? three i ≡ some c
        → get_elem? cs' i
          ≡ some (record (after_sending (start_for 60 (entry_host three) (take i three) c) c) {
            waiting = true;
          }))
unfolding entry_host
send_starts_lem_example = send_starts_lem 60 three (omega arith)

send_starts-ReadsPort_example :
    (cs' : List Controller) × (a' : Controller) × (b' : Controller) × (p : ℕ) × (q : ℕ)
    × (send_starts 60 three ≡ done cs')
    × (get_elem? cs' 0 ≡ some a')
    × (get_elem? cs' 2 ≡ some b')
    × ReadsPort 60 a' p
    × ReadsPort 60 b' q
    × (p ≢ q)
unfolding entry_host
send_starts-ReadsPort_example =
    send_starts-ReadsPort 60 three 0 2 one one (omega arith) (omega arith) refl refl refl
      (omega arith) (omega arith)
