-- ===== src/Controller/Wrappers/KaddemoId.antt =====
-- src/controller/dhtnodes/KaddemoIdWrapper.cpp: the server that tells the other nodes the identifier of an entry point, and its client.
use dhtperf.Prelude.{
  ℕ, zero, suc, ◌≡◌, ◌≢◌, refl, ap, subst, List, [], ◌∷◌, ◌++◌, Bytes, ◌==◌, Option, none, some,
  some-injective, Outcome, done, exits, ◌>>=◌, >>=-eq-done, done-injective, All, All-append,
  All-drop, if◌then◌else◌, Bool-cases, inl, inr, arith, Option-cases, drop, codes, length, aborts,
  faults, true, false, ◌+◌, ◌<◌, ◌⊎◌, ltb, length-append,
}
use dhtperf.Master.Workload.{c_str}
use dhtperf.Controller.Pipes.{Child, write, strip_return, read_loop, readline}
use dhtperf.Controller.Network.{Network, connect}
use dhtperf.Controller.DhtNode.{DhtNode}
use dhtperf.Controller.Wrappers.{starts_with, line_or_abort, wait_line}
use dhtperf.Controller.Wrappers.Kaddemo.{id_line, get_self_id, kaddemo_prompt}

-- What completes at the server: an accept, whose socket takes so many bytes of a write while handleAccept runs; or an accept or a
-- write that fails.
pub data ServerEvent : Type 0 where
  accepts : ℕ → ServerEvent
  fails : ServerEvent

-- KaddemoIdServer::handleAccept and the handlers that it leads to, over and over: what is sent to each of the clients. The write
-- refers to the idstring of handleAccept, which is destroyed at its end: to write what the socket has not taken by then is
-- undefined behaviour.
unfoldable pub serve_id : Bytes → List ServerEvent → Outcome (List Bytes)
serve_id id [] = done []
serve_id id (accepts taken ∷ cs) =
    let idstring = id ++ 10 ∷ [] in
    let rest = serve_id id cs in
    if ltb taken (length idstring) then faults else (rest >>= λ sent. done (idstring ∷ sent))
serve_id id (fails ∷ cs) = exits 1

-- ba::read_until and getline, on what the server sends before it closes: the text before the first newline, none where
-- there is no newline.
unfoldable pub first_line : Bytes → Option Bytes
first_line [] = none
first_line (c ∷ s) =
    let rest = first_line s in
    if c == 10 then some [] else elim rest [ none ↦ none | some line ↦ some (c ∷ line) ]

-- KaddemoIdClient::getId, behind connect().
unfoldable pub get_id : Bytes → Outcome Bytes
unfolding first_line
get_id stream = elim (first_line stream) [ none ↦ exits 1 | some id ↦ done id ]

-- KaddemoWrapper::getEntryPointId: the client connects to the port behind that of the entry point, and asks. `incoming` is what comes
-- through a socket before the peer closes.
unfoldable pub get_entry_point_id : (net : Network) → (net.Socket → Bytes) → DhtNode → Outcome Bytes
unfolding get_id connect
get_entry_point_id net incoming n =
    connect net n.entry_point_host (n.entry_point_port + 1) >>= λ socket. get_id (incoming socket)

abbrev NoNewline : Bytes → Type 0
NoNewline = All (λ c. c ≢ 10)

first_line-append : (s rest : Bytes) → NoNewline s → first_line (s ++ 10 ∷ rest) ≡ some s
unfolding first_line
first_line-append [] rest h = refl
first_line-append (c ∷ s) rest (other, h) = ground (arith, first_line-append s rest h)

strip_return-NoNewline :
    (s : Bytes) {t : Bytes} → strip_return s ≡ some t → NoNewline s → NoNewline t
unfolding strip_return
strip_return-NoNewline [] e h = absurd (cc)
strip_return-NoNewline (c ∷ []) {t} e h = elim (Bool-cases (c == 13)) [
  | inl r ↦ subst NoNewline (some-injective [] t (rw r at e)) tt
  | inr r ↦ subst NoNewline (some-injective (c ∷ []) t (rw r at e)) h
]
strip_return-NoNewline (c ∷ d ∷ s) {t} e (h, hs) = elim (Option-cases (strip_return (d ∷ s))) [
  | inl f ↦ absurd (ground arith)
  | inr (u, f) ↦
      subst NoNewline (some-injective (c ∷ u) t (rw f at e))
        (h, strip_return-NoNewline (d ∷ s) f hs)
]

-- A line that is read has no newline in it.
read_loop-NoNewline :
    (ret s : Bytes) {line rest : Bytes}
    → read_loop ret s ≡ done (some (line, rest))
    → NoNewline ret
    → NoNewline line
unfolding read_loop
read_loop-NoNewline ret [] e h = absurd (cc)
read_loop-NoNewline ret (c ∷ s) {line} {rest} e h = elim (Bool-cases (c == 10)) [
  | inl n ↦ elim (Option-cases (strip_return ret)) [
    | inl f ↦ absurd (cc)
    | inr (t, f) ↦
        let same : t ≡ line =
          ap (λ (p : Bytes × Bytes). p.0)
            (some-injective (t, s) (line, rest) (done-injective _ _ (rw (n, f) at e))) in
        subst NoNewline same (strip_return-NoNewline ret f h)
  ]
  | inr n ↦
      read_loop-NoNewline (ret ++ c ∷ []) s (rw n at e)
        (All-append (λ c. c ≢ 10) ret (c ∷ []) h (ground arith, tt))
]

readline-NoNewline :
    (child : Child) {line : Bytes} {after : Child}
    → readline child ≡ done (some (line, after))
    → NoNewline line
unfolding readline
readline-NoNewline child {line} {after} e =
    let (s, ran, _) = >>=-eq-done (read_loop [] child.incoming) _ e in from_read s ran
  where
    from_read : (s : Option (Bytes × Bytes)) → read_loop [] child.incoming ≡ done s → NoNewline line
    from_read none ran = absurd (ground (arith, rw ran at e))
    from_read (some (l, rest)) ran =
        let same : l ≡ line =
          ap (λ (p : Bytes × Child). p.0)
            (some-injective (l, record child { incoming = rest }) (line, after)
              (done-injective _ _ (rw ran at e))) in
        subst NoNewline same (read_loop-NoNewline [] child.incoming ran tt)

line_or_abort-NoNewline :
    (child : Child) {line : Bytes} {after : Child}
    → line_or_abort child ≡ done (line, after)
    → NoNewline line
unfolding line_or_abort
line_or_abort-NoNewline child {line} {after} e =
    let (r, ran, _) = >>=-eq-done (readline child) _ e in from_read r ran
  where
    from_read : (r : Option (Bytes × Child)) → readline child ≡ done r → NoNewline line
    from_read none ran = absurd (ground (arith, rw ran at e))
    from_read (some (l, c)) ran =
        let same : l ≡ line =
          ap (λ (p : Bytes × Child). p.0) (done-injective (l, c) (line, after) (rw ran at e)) in
        subst NoNewline same (readline-NoNewline child ran)

c_str-NoNewline : (s : Bytes) → NoNewline s → NoNewline (c_str s)
unfolding c_str
c_str-NoNewline [] h = tt
c_str-NoNewline (c ∷ s) h = ground (arith, c_str-NoNewline s h.1)

id_line-NoNewline :
    (fuel : ℕ) (child : Child) {id : Bytes} {after : Child}
    → id_line fuel child ≡ done (some (id, after))
    → NoNewline id
unfolding id_line
id_line-NoNewline zero child e = absurd (cc)
id_line-NoNewline (suc fuel) child {id} {after} e =
    let ((l, c), ran, f) = >>=-eq-done (line_or_abort child) _ e in
    elim (Bool-cases (starts_with (codes ", Node_id: ") l)) [
      | inl t ↦
          let same : c_str (drop 11 l) ≡ id =
            ap (λ (p : Bytes × Child). p.0)
              (some-injective (c_str (drop 11 l), c) (id, after)
                (done-injective _ _ (rw t at f))) in
          subst NoNewline same (
            c_str-NoNewline (drop 11 l)
              (All-drop (λ c. c ≢ 10) 11 l (line_or_abort-NoNewline child ran)))
      | inr t ↦ id_line-NoNewline fuel c (rw t at f)
    ]

-- Waiting for the prompt does not change the identifier that has been found.
waited_id :
    (i id : Bytes) (waited : Outcome (Option Child)) (after : Child)
    → ◌>>=◌ {B = Option (Bytes × Child)} waited
        (λ r. elim r [ none ↦ done none | some child ↦ done (some (i, child)) ])
      ≡ done (some (id, after))
    → i ≡ id
waited_id i id (done none) after e = absurd (ground arith)
waited_id i id (done (some c)) after e =
    ap (λ (p : Bytes × Child). p.0)
      (some-injective (i, c) (id, after) (done-injective (some (i, c)) (some (id, after)) e))
waited_id i id (exits n) after e = absurd (cc)
waited_id i id aborts after e = absurd (cc)
waited_id i id faults after e = absurd (cc)

get_self_id-NoNewline :
    (fuel : ℕ) (child : Child) {id : Bytes} {after : Child}
    → get_self_id fuel child ≡ done (some (id, after))
    → NoNewline id
unfolding get_self_id
get_self_id-NoNewline fuel child {id} {after} e =
    let (r, ran, _) = >>=-eq-done (id_line fuel (write (codes "getinfo\n") child)) _ e in
    from_found r ran
  where
    from_found :
        (r : Option (Bytes × Child))
        → id_line fuel (write (codes "getinfo\n") child) ≡ done r
        → NoNewline id
    from_found none ran = absurd (ground (arith, rw ran at e))
    from_found (some (i, c)) ran =
        subst NoNewline (waited_id i id (wait_line fuel kaddemo_prompt c) after (rw ran at e))
          (id_line-NoNewline fuel (write (codes "getinfo\n") child) ran)

with_newline : (id : Bytes) → length (id ++ 10 ∷ []) ≡ length id + 1
with_newline id = length-append id (10 ∷ [])

all_taken :
    (id : Bytes) (taken : ℕ) → length id < taken → ltb taken (length (id ++ 10 ∷ [])) ≡ false
all_taken id taken h = ground (arith, h, with_newline id)

few_or_all :
    (id : Bytes) (taken : ℕ) → (ltb taken (length (id ++ 10 ∷ [])) ≡ true) ⊎ (length id < taken)
few_or_all id taken = ground (arith, with_newline id)

-- An accept whose socket takes all of the identifier and its newline at once.
abbrev pub Takes : Bytes → ServerEvent → Type 0
Takes id (accepts taken) = length id < taken
Takes id fails = ⊥

-- The identifier that a node reads from its own program is the one that all the others get. If getSelfId finds it in what
-- the program prints, then each client that the server accepts gets from getId exactly that text, as long as no accept or write fails and
-- each socket takes the text and its newline before handleAccept returns. Behind clients of this kind, one whose socket
-- takes less leads to undefined behaviour.
pub get_id-serve_id :
    (fuel : ℕ) (child : Child) (id : Bytes) (after : Child) (cs : List ServerEvent) (taken : ℕ)
    (later : List ServerEvent)
    → get_self_id fuel child ≡ done (some (id, after))
    → All (Takes id) cs
    → ((sents : List Bytes) × (serve_id id cs ≡ done sents)
        × (length sents ≡ length cs)
        × All (λ sent. get_id sent ≡ done id) sents)
      × (Takes id (accepts taken) ⊎ (serve_id id (cs ++ accepts taken ∷ later) ≡ faults))
unfolding serve_id get_id
get_id-serve_id fuel child id after [] taken later e h = (
  ([], refl, refl, tt),
  elim (few_or_all id taken) [ inl few ↦ inr (rw few refl) | inr all ↦ inl all ],
)
get_id-serve_id fuel child id after (fails ∷ cs) taken later e (h, hs) = absurd h
get_id-serve_id fuel child id after (accepts n ∷ cs) taken later e (h, hs) =
    let ((sents, served, size, all), next) =
      get_id-serve_id fuel child id after cs taken later e hs in
    (
      (
        (id ++ 10 ∷ []) ∷ sents,
        rw (all_taken id n h, served) refl,
        ap suc size,
        (rw (get_id, first_line-append id [] (get_self_id-NoNewline fuel child e)) refl, all),
      ),
      elim next [ inl t ↦ inl t | inr faulty ↦ inr (rw (all_taken id n h, faulty) refl) ],
    )
