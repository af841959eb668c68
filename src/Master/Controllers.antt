-- ===== src/Master/Controllers.antt =====
-- The vector controllers_ of src/master/DhtperfMaster.cpp. Of a socket the model keeps the address of
-- the peer, the bytes handed to it, and whether a read is pending, which is when a handler may run.
-- A write is taken to complete before the connection's write buffer is used again; Dispatch/Writes has the buffer
-- with the writes that are under way.
use dhtperf.Prelude.{
  ℕ, zero, suc, ◌+◌, ◌≡◌, ◌<◌, refl, ap, List, [], ◌∷◌, ◌++◌, Bytes, Bool, true, false, none, some,
  get_elem?, length, arith, Outcome, done, ◌>>=◌, if◌then◌else◌,
}
use dhtperf.Protocol.{Message, u32_mod}
use dhtperf.Protocol.Wire.{body, wire, to_bits-wire}
use dhtperf.Master.Connection.{Connection, send_message}

pub record Controller : Type 0 where
  pub host : Bytes
  pub connection : Connection
  pub sent : Bytes
  pub waiting : Bool

-- controllers_[i]->sendMessage(message)
unfoldable pub send : Message → Controller → Outcome Controller
send m c = do
  connection ← send_message c.connection m
  done (record c { connection = connection; sent = c.sent ++ connection.write_buffer })

-- The controller after a message has been sent to it.
unfoldable pub after_sending : Message → Controller → Controller
after_sending m c = record c {
  connection = record c.connection { write_buffer = wire m };
  sent = c.sent ++ wire m;
}

pub send-after_sending :
    (m : Message) (c : Controller) → length (body m) < u32_mod → send m c ≡ done (after_sending m c)
unfolding send after_sending send_message
send-after_sending m c h = rw (to_bits-wire m h) refl

-- Sets or clears the pending read of the controller at an index.
unfoldable pub set_waiting : Bool → ℕ → List Controller → List Controller
set_waiting b i [] = []
set_waiting b zero (c ∷ cs) = record c { waiting = b } ∷ cs
set_waiting b (suc i) (c ∷ cs) = c ∷ set_waiting b i cs

unfoldable pub is_waiting : ℕ → List Controller → Bool
is_waiting i cs = elim (get_elem? cs i) [ none ↦ false | some c ↦ c.waiting ]

unfoldable pub count_waiting : List Controller → ℕ
count_waiting [] = 0
count_waiting (c ∷ cs) = if c.waiting then suc (count_waiting cs) else count_waiting cs

pub length-set_waiting :
    (b : Bool) (i : ℕ) (cs : List Controller) → length (set_waiting b i cs) ≡ length cs
unfolding set_waiting
length-set_waiting b i [] = refl
length-set_waiting b zero (c ∷ cs) = refl
length-set_waiting b (suc i) (c ∷ cs) = ap suc (length-set_waiting b i cs)

pub count_waiting-consume :
    (i : ℕ) (cs : List Controller)
    → is_waiting i cs ≡ true
    → count_waiting (set_waiting false i cs) + 1 ≡ count_waiting cs
unfolding count_waiting set_waiting is_waiting
count_waiting-consume i [] h = absurd (ground arith)
count_waiting-consume zero (c ∷ cs) h = ground arith
count_waiting-consume (suc i) (c ∷ cs) h = ground (arith, count_waiting-consume i cs)

pub set_waiting_again :
    (i : ℕ) (cs : List Controller)
    → is_waiting i cs ≡ true
    → count_waiting (set_waiting true i (set_waiting false i cs)) ≡ count_waiting cs
unfolding count_waiting set_waiting is_waiting
set_waiting_again i [] h = refl
set_waiting_again zero (c ∷ cs) h = ground arith
set_waiting_again (suc i) (c ∷ cs) h = ground (arith, set_waiting_again i cs)
