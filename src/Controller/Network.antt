-- ===== src/Controller/Network.antt =====
-- connect of src/controller/DhtperfController.cpp and of KaddemoIdClient in src/controller/dhtnodes/KaddemoIdWrapper.cpp. What the
-- resolver finds, and what an attempt to connect makes of a socket, are parameters.
use dhtperf.Prelude.{
  ℕ, ◌≡◌, ◌⊎◌, refl, ap, List, [], ◌∷◌, ◌++◌, Bytes, Bool, true, false, Option, none, some, Outcome,
  done, exits, aborts, decimal, if◌then◌else◌, Bool-cases, inl, inr,
}

-- resolve is none where the resolver throws. connect_socket gives the socket that an attempt leaves, and whether it sets the error:
-- one that has failed leaves the socket open, with the protocol of the endpoint that opened it.
pub record Network : Type 1 where
  pub Endpoint : Type 0
  pub Socket : Type 0
  pub resolve : Bytes → Bytes → Option (List Endpoint)
  pub closed : Socket
  pub connect_socket : Socket → Endpoint → Socket × Bool

module _ (net : Network) where
  open net use {Endpoint, Socket, resolve, closed, connect_socket}

  -- The loop over the endpoints on the one socket, with the error so far.
  unfoldable pub connect_loop : Bool → Socket → List Endpoint → Socket × Bool
  connect_loop error socket [] = (socket, error)
  connect_loop error socket (e ∷ es) =
      let (socket, failed) = connect_socket socket e in
      let next = connect_loop true socket es in if failed then next else (socket, false)

  -- The socket that connect() leaves. lexical_cast prints the port.
  unfoldable pub connect : Bytes → ℕ → Outcome Socket
  unfolding connect_loop
  connect host port = elim (resolve host (decimal port)) [
    | none ↦ aborts
    | some es ↦
        let (socket, error) = connect_loop false closed es in if error then exits 1 else done socket
  ]

  -- Attempts that fail, each on the socket that the one before it has left.
  pub data Refused : Socket → List Endpoint → Socket → Type 0 where
    none_tried : {s : Socket} → Refused s [] s
    tried :
        {s : Socket} {e : Endpoint} {es : List Endpoint} {t : Socket}
        → (connect_socket s e).1 ≡ true
        → Refused (connect_socket s e).0 es t
        → Refused s (e ∷ es) t

  -- An attempt that succeeds, with those before it, from a socket on.
  pub record First (s : Socket) (es : List Endpoint) : Type 0 where
    pub before : List Endpoint
    pub endpoint : Endpoint
    pub after : List Endpoint
    pub whole : es ≡ before ++ endpoint ∷ after
    pub left_over : Socket
    pub refused : Refused s before left_over
    pub accepted : (connect_socket left_over endpoint).1 ≡ false

  -- The error when no attempt has succeeded.
  abbrev after_all : Bool → List Endpoint → Bool
  after_all error [] = error
  after_all error (e ∷ es) = true

  after_all-true : (es : List Endpoint) → after_all true es ≡ true
  after_all-true [] = refl
  after_all-true (e ∷ es) = refl

  connect_loop-First :
      (error : Bool) (s : Socket) (es : List Endpoint)
      → ((f : First s es) × (connect_loop error s es
            ≡ ((connect_socket f.left_over f.endpoint).0, false)))
        ⊎ ((t : Socket) × Refused s es t × (connect_loop error s es ≡ (t, after_all error es)))
  unfolding connect_loop
  connect_loop-First error s [] = inr (s, none_tried, refl)
  connect_loop-First error s (e ∷ es) = elim (Bool-cases (connect_socket s e).1) [
    | inr t ↦ inl (
      record {
        before = [];
        endpoint = e;
        after = es;
        whole = refl;
        left_over = s;
        refused = none_tried;
        accepted = t;
      },
      rw t refl,
    )
    | inl t ↦ elim (connect_loop-First true (connect_socket s e).0 es) [
      | inl (f, same) ↦ inl (
        record {
          before = e ∷ f.before;
          endpoint = f.endpoint;
          after = f.after;
          whole = ap (λ r. e ∷ r) f.whole;
          left_over = f.left_over;
          refused = tried t f.refused;
          accepted = f.accepted;
        },
        rw (t, same) refl,
      )
      | inr (u, all, same) ↦ inr (u, tried t all, rw (t, same, after_all-true es) refl)
    ]
  ]

  -- connect of a controller to its master, and of a Kaddemo node to its entry point, where the resolver finds at least one endpoint: the
  -- endpoints are tried in their order, each on the socket that the failed attempts before it have left, up to the
  -- first attempt that succeeds, whose socket it goes on with; and if all attempts fail, the process exits with 1. It never goes
  -- on after a failed attempt without a later one that succeeds.
  pub connect-First :
      (host : Bytes) (port : ℕ) (e : Endpoint) (es : List Endpoint)
      → resolve host (decimal port) ≡ some (e ∷ es)
      → ((f : First closed (e ∷ es)) × (connect host port
            ≡ done (connect_socket f.left_over f.endpoint).0))
        ⊎ ((t : Socket) × Refused closed (e ∷ es) t × (connect host port ≡ exits 1))
  unfolding connect
  connect-First host port e es found = elim (connect_loop-First false closed (e ∷ es)) [
    | inl (f, same) ↦ inl (f, rw (connect, found, same) refl)
    | inr (t, all, same) ↦ inr (t, all, rw (connect, found, same) refl)
  ]
