-- ===== src/Tests/Services.antt =====
-- A client of the service that starts a controller.
use dhtperf.Prelude.{◌≡◌, refl, [], ◌∷◌, List, Bytes, codes, done, some, arith}
use dhtperf.Service.{Daemon, handle_client, request, client_main, controller_command}
use dhtperf.Service.Dialogue.{client_main-handle_client, is_start, IsText}
use dhtperf.Metrics.Streams.{is_space}

abbrev daemon : Daemon
daemon = record { controller_number = 4; commands = codes "pkill java" ∷ [] }

abbrev arguments : List Bytes
arguments = codes "host" ∷ codes "start" ∷ codes "lab" ∷ []

lab-IsText : IsText (codes "lab")
unfolding is_space
lab-IsText = (refl, (refl, (refl, tt)))

version-IsText : IsText (codes "0.1")
unfolding is_space
version-IsText = (refl, (refl, (refl, tt)))

client_main-handle_client_example :
    (sent : Bytes) × (request arguments ≡ some sent)
    × ((handle_client (codes "/tmp/") (codes "0.1") sent daemon).1 ≡ record {
      controller_number = 5;
      commands = codes "pkill java" ∷ controller_command (codes "/tmp/") (codes "lab") 4 ∷ [];
    })
    × (client_main arguments (λ sent. (handle_client (codes "/tmp/") (codes "0.1") sent daemon).0)
        ≡ done 0)
client_main-handle_client_example =
    client_main-handle_client (codes "/tmp/") (codes "0.1") daemon arguments version-IsText
      (λ e. absurd (ground (arith, e))) (is_start lab-IsText (λ e. absurd (ground (arith, e))))
