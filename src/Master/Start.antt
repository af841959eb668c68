-- ===== src/Master/Start.antt =====
-- src/master/DhtperfMaster.cpp: sendStartMessages.
pub mod Ports
pub mod Offsets
use dhtperf.Prelude.{
  ℕ, ◌+◌, ◌-◌, ◌%◌, List, [], ◌∷◌, Bytes, Option, none, some, ◌==◌, if◌then◌else◌, lookup, insert,
  text_keys, true, Outcome, done, ◌>>=◌,
}
use dhtperf.Protocol.{start, u16_mod, u32_mod}
use dhtperf.Master.Controllers.{Controller, send}

-- nodesPerHost[nodeHost], after it has been counted up or set to 1.
unfoldable pub count_node : List (Bytes × ℕ) → Bytes → ℕ
count_node nodes_per_host host = elim (lookup host nodes_per_host) [ none ↦ 1 | some n ↦ n + 1 ]

-- controllers_[0]->socket().remote_endpoint().address()
unfoldable pub entry_host : List Controller → Bytes
entry_host [] = []
entry_host (c ∷ cs) = c.host

-- The loop from controller `i` on; `entry` is the address of controller 0. The port offset is an
-- int that is cut to uint16_t.
unfoldable pub send_start_loop :
    ℕ → Bytes → ℕ → List (Bytes × ℕ) → List Controller → Outcome (List Controller)
unfolding count_node
send_start_loop duration entry i nodes_per_host [] = done []
send_start_loop duration entry i nodes_per_host (c ∷ cs) = do
  let n = count_node nodes_per_host c.host
  let message = start duration (if i == 0 then [] else entry) 0 ((n - 1) % u16_mod)
  c' ← send message c
  rest ← send_start_loop duration entry (i + 1) (insert c.host n nodes_per_host) cs
  done (record c' { waiting = true } ∷ rest)

unfoldable pub send_starts : ℕ → List Controller → Outcome (List Controller)
unfolding entry_host send_start_loop
send_starts duration controllers =
    send_start_loop duration (entry_host controllers) 0 [] controllers
