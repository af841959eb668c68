-- ===== src/Tests/Kaddemo.antt =====
-- A node of Kaddemo: its entry point, its identifier, and an answer to a get.
use dhtperf.Prelude.{
  ◌≡◌, ◌&&◌, Option, none, faults, ◌⊎◌, refl, [], ◌∷◌, ◌++◌, List, Bytes, codes, Bool, true, false,
  All, done, exits, some, arith, length, str_eq, not,
}
use dhtperf.Controller.Pipes.{Child, write, strip_return, read_loop, readline}
use dhtperf.Controller.Pipes.Writes.{write_all, write_all-write}
use dhtperf.Controller.Network.{Network, connect, First, Refused, connect-First}
use dhtperf.Controller.Wrappers.{starts_with, line_or_abort, wait_line}
use dhtperf.Controller.Wrappers.Gets.{IsLine, letters}
use dhtperf.Controller.Wrappers.Kaddemo.{kaddemo_prompt, kaddemo_get, get_self_id, id_line}
use dhtperf.Controller.Wrappers.KaddemoId.{accepts, Takes, serve_id, get_id, get_id-serve_id}
use dhtperf.Controller.Wrappers.Announced.{
  Answer, plain, values, IsAnswer, answer_text, has_value, kaddemo_get-answers,
}
use dhtperf.Master.Workload.{c_str}
use dhtperf.Tests.Wrapped.{event}

abbrev informed : Child
informed = record { incoming = codes "Me\n, Node_id: a7\ndemo >\n"; written = [] }

abbrev behind : Child
behind = record { incoming = []; written = codes "getinfo\n" }

own_id : get_self_id 3 informed ≡ done (some (codes "a7", behind))
unfolding get_self_id id_line line_or_abort readline read_loop strip_return starts_with c_str
    wait_line write str_eq
own_id = refl

get_id-serve_id_example :
    ((sents : List Bytes) × (serve_id (codes "a7") (accepts 3 ∷ accepts 9 ∷ []) ≡ done sents)
      × (length sents ≡ 2)
      × All (λ sent. get_id sent ≡ done (codes "a7")) sents)
    × (Takes (codes "a7") (accepts 2)
        ⊎ (serve_id (codes "a7") (accepts 3 ∷ accepts 9 ∷ accepts 2 ∷ []) ≡ faults))
get_id-serve_id_example =
    get_id-serve_id 3 informed (codes "a7") behind (accepts 3 ∷ accepts 9 ∷ []) 2 [] own_id
      (omega arith, (omega arith, tt))

abbrev answer : List Answer
answer =
    plain (codes "searching") ∷ values (codes "Values found for key angle") (codes "1.  7") ∷ []

abbrev answering : Child
answering = record {
  incoming = codes "searching\nValues found for key angle\n1.  7\ndemo >\nmore";
  written = [];
}

answer-IsAnswer : All (IsAnswer (codes "Values found for key") kaddemo_prompt) answer
unfolding strip_return str_eq starts_with
answer-IsAnswer = (
  ((letters (codes "searching") refl, refl), refl, refl),
  (
    (
      (letters (codes "Values found for key angle") refl, refl),
      refl,
      (letters (codes "1.  7") refl, refl),
    ),
    tt,
  ),
)

kaddemo-IsLine : IsLine kaddemo_prompt
unfolding strip_return
kaddemo-IsLine = (letters kaddemo_prompt refl, refl)

answered : answering.incoming ≡ answer_text answer ++ (kaddemo_prompt ++ (10 ∷ codes "more"))
unfolding answer_text
answered = refl

kaddemo_get-answers_example :
    kaddemo_get 4 event answering
    ≡ done (some (true, record { incoming = codes "more"; written = codes "findvalue angle\n" }))
unfolding has_value starts_with
kaddemo_get-answers_example =
    kaddemo_get-answers 4 event answer (codes "more") answering (omega arith) answer-IsAnswer
      kaddemo-IsLine answered

-- Three endpoints, of two protocols; those of the second accept. A socket that is open keeps its protocol, and connects to no
-- endpoint of another one.
abbrev attempt : Option Bool → Bool → Option Bool × Bool
attempt none endpoint = (some endpoint, not endpoint)
attempt (some protocol) endpoint = (some protocol, not (protocol && endpoint))

abbrev three_addresses : Network
three_addresses = record {
  Endpoint = Bool;
  Socket = Option Bool;
  resolve = λ host port. some (false ∷ true ∷ true ∷ []);
  closed = none;
  connect_socket = attempt;
}

connect-First_example :
    ((f : First three_addresses none (false ∷ true ∷ true ∷ [])) × (connect three_addresses
          (codes "master")
          1234
        ≡ done (attempt f.left_over f.endpoint).0))
    ⊎ ((t : Option Bool) × Refused three_addresses none (false ∷ true ∷ true ∷ []) t
        × (connect three_addresses (codes "master") 1234 ≡ exits 1))
connect-First_example =
    connect-First three_addresses (codes "master") 1234 false (true ∷ true ∷ []) refl

write_all-write_example :
    write_all (codes "quit") (some 1 ∷ some 9 ∷ some 2 ∷ some 1 ∷ []) behind
    ≡ done (some (write (codes "quit") behind))
write_all-write_example =
    write_all-write (codes "quit") (some 1 ∷ some 9 ∷ some 2 ∷ some 1 ∷ []) behind (omega arith)
      (omega arith, (omega arith, (omega arith, (omega arith, tt))))
