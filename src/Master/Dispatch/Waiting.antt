-- ===== src/Master/Dispatch/Waiting.antt =====
-- Which controllers the master waits for, after a message and after the start messages.
use dhtperf.Prelude.{
  ℕ, ◌+◌, ◌-◌, ◌≡◌, List, [], ◌∷◌, ◌++◌, Bytes, length, arith, done, >>=-eq-done, insert, text_keys,
  if◌then◌else◌, ◌==◌, ◌%◌,
}
use dhtperf.Protocol.{Message, start, u16_mod}
use dhtperf.Master.Connection.{send_message}
use dhtperf.Master.Controllers.{Controller, send, count_waiting}
use dhtperf.Master.Start.{send_start_loop, count_node}

pub send_waiting : (m : Message) (c c' : Controller) → send m c ≡ done c' → c'.waiting ≡ c.waiting
unfolding send
send_waiting m c c' e =
    let (connection, ran, f) = >>=-eq-done (send_message c.connection m) _ e in ground (arith, f)

pub count_waiting-append :
    (xs ys : List Controller) → count_waiting (xs ++ ys) ≡ count_waiting xs + count_waiting ys
unfolding count_waiting
count_waiting-append [] ys = omega arith
count_waiting-append (c ∷ xs) ys = ground (arith, count_waiting-append xs ys)

-- The loop that sends the start messages leaves a read pending on every controller.
pub send_start_loop-waiting :
    (duration : ℕ) (entry : Bytes) (i : ℕ) (m : List (Bytes × ℕ)) (cs cs' : List Controller)
    → send_start_loop duration entry i m cs ≡ done cs'
    → (count_waiting cs' ≡ length cs) × (length cs' ≡ length cs)
unfolding send_start_loop count_waiting
send_start_loop-waiting duration entry i m [] cs' e = ground arith
send_start_loop-waiting duration entry i m (c ∷ cs) cs' e =
    let n = count_node m c.host in
    let (c', sent, f) =
      >>=-eq-done (send (start duration (if i == 0 then [] else entry) 0 ((n - 1) % u16_mod)) c) _
        e in
    let (rest, ran, g) =
      >>=-eq-done (send_start_loop duration entry (i + 1) (insert c.host n m) cs) _ f in
    let (all, size) =
      send_start_loop-waiting duration entry (i + 1) (insert c.host n m) cs rest ran in
    ground (arith, all, size, g)
