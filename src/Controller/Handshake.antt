-- ===== src/Controller/Handshake.antt =====
-- What the master sends to a controller before the test, and what the controller makes of it.
use dhtperf.Prelude.{ℕ, ◌≡◌, refl, ◌++◌, Bytes, Outcome, done, ◌>>=◌, >>=-cong, >>=-assoc}
use dhtperf.Protocol.{dht_type, profile, start, opcode}
use dhtperf.Protocol.Wire.{wire}
use dhtperf.Protocol.RoundTrip.{IsSendable}
use dhtperf.Controller.Receive.{get_next_message-wire}
use dhtperf.Controller.DhtNode.{make}
use dhtperf.Controller.Setup.{
  ProfileFactory, Setup, get_dht_type, get_profile, wait_for_start_message, set_profiles, started,
  set_up,
}

module _ (factory : ProfileFactory) where
  open factory use {Profile}

  get_dht_type-wire :
      (type rest : Bytes)
      → IsSendable (dht_type type)
      → get_dht_type factory (wire (dht_type type) ++ rest)
        ≡ (make type >>= λ node. done (node, rest))
  unfolding get_dht_type opcode
  get_dht_type-wire type rest h = rw (get_next_message-wire (dht_type type) rest h) refl

  get_profile-wire :
      (j l p g rest : Bytes)
      → IsSendable (profile j l p g)
      → get_profile factory (wire (profile j l p g) ++ rest)
        ≡ (set_profiles factory j l p g >>= λ w. done (w, rest))
  unfolding get_profile opcode
  get_profile-wire j l p g rest h = rw (get_next_message-wire (profile j l p g) rest h) refl

  wait_for_start_message-wire :
      (s : Setup Profile) (d : ℕ) (host : Bytes) (eo so : ℕ) (rest : Bytes)
      → IsSendable (start d host eo so)
      → wait_for_start_message factory s (wire (start d host eo so) ++ rest)
        ≡ done (started factory d host eo so s, rest)
  unfolding wait_for_start_message opcode
  wait_for_start_message-wire s d host eo so rest h =
      rw (get_next_message-wire (start d host eo so) rest h) refl

  -- What the three messages ask the controller to do.
  unfoldable pub configure :
      Bytes
      → Bytes
      → Bytes
      → Bytes
      → Bytes
      → (Setup Profile → Setup Profile)
      → Bytes
      → Outcome (Setup Profile × Bytes)
  configure type j l p g begin rest = do
    node ← make type
    w ← set_profiles factory j l p g
    done (begin (record { node = node; profiles = w }), rest)

  -- A controller that receives the messages DhtType, Profile and Start, all of them sendable, makes the node and
  -- the profiles that they name, sets what the start message says, and leaves what follows them; it ends the
  -- process exactly where making the node or a profile does.
  pub set_up-wire :
      (type j l p g : Bytes) (d : ℕ) (host : Bytes) (eo so : ℕ) (rest : Bytes)
      → IsSendable (dht_type type)
      → IsSendable (profile j l p g)
      → IsSendable (start d host eo so)
      → set_up factory
          (wire (dht_type type) ++ (wire (profile j l p g) ++ (wire (start d host eo so) ++ rest)))
        ≡ configure type j l p g (started factory d host eo so) rest
  unfolding set_up configure
  set_up-wire type j l p g d host eo so rest ht hp hs =
      let third = wire (start d host eo so) ++ rest in
      let second = wire (profile j l p g) ++ third in
      rw (get_dht_type-wire type second ht, >>=-assoc (make type))
        (>>=-cong (make type) _ _ (λ node.
          rw (get_profile-wire j l p g third hp, >>=-assoc (set_profiles factory j l p g))
            (>>=-cong (set_profiles factory j l p g) _ _ (λ w.
              wait_for_start_message-wire (record { node = node; profiles = w }) d host eo so rest
                hs))))
