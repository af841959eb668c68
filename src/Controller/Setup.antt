-- ===== src/Controller/Setup.antt =====
-- src/controller/DhtperfController.cpp: getDhtType, getProfile and waitForStartMessage, which run() calls
-- before start(). The profiles are those of src/controller/ControllerWorkloadProfile.cpp, and
-- Profile::makeProfile is behind an interface.
use dhtperf.Prelude.{ℕ, Bytes, Option, none, some, Outcome, done, faults, ◌>>=◌}
use dhtperf.Common.{DhtOperation}
use dhtperf.Protocol.{dht_type, profile, start}
use dhtperf.Protocol.Opcode
use dhtperf.Controller.Receive.{get_next_message}
use dhtperf.Controller.DhtNode.{DhtNode, make, set_entry_point, set_self_port_offset}

-- A class of profiles for each operation, and makeProfile, which may end the process.
pub record ProfileFactory : Type 1 where
  pub Profile : DhtOperation → Type 0
  pub make_profile : (operation : DhtOperation) → Bytes → Outcome (Profile operation)

pub record ControllerWorkloadProfile (P : DhtOperation → Type 0) : Type 0 where
  pub join_profile : Option (P DhtOperation.join)
  pub leave_profile : Option (P DhtOperation.leave)
  pub put_profile : Option (P DhtOperation.put)
  pub get_profile : Option (P DhtOperation.get)
  pub duration : ℕ

pub record Setup (P : DhtOperation → Type 0) : Type 0 where
  pub node : DhtNode
  pub profiles : ControllerWorkloadProfile P

module _ (factory : ProfileFactory) where
  open factory use {Profile, make_profile}

  unfoldable pub no_profiles : ControllerWorkloadProfile Profile
  no_profiles = record {
    join_profile = none;
    leave_profile = none;
    put_profile = none;
    get_profile = none;
    duration = 0;
  }

  unfoldable pub set_profile :
      DhtOperation
      → Bytes
      → ControllerWorkloadProfile Profile
      → Outcome (ControllerWorkloadProfile Profile)
  set_profile DhtOperation.join text w = do
    p ← make_profile DhtOperation.join text
    done (record w { join_profile = some p })
  set_profile DhtOperation.leave text w = do
    p ← make_profile DhtOperation.leave text
    done (record w { leave_profile = some p })
  set_profile DhtOperation.put text w = do
    p ← make_profile DhtOperation.put text
    done (record w { put_profile = some p })
  set_profile DhtOperation.get text w = do
    p ← make_profile DhtOperation.get text
    done (record w { get_profile = some p })

  -- The casts of the source are to the class of the opcode that getNextMessage has checked; a message of another
  -- class would be undefined behaviour.
  unfoldable pub get_dht_type : Bytes → Outcome (DhtNode × Bytes)
  get_dht_type stream = get_next_message Opcode.dht_type stream >>= λ received. elim received.0 [
    | dht_type type ↦ (do node ← make type; done (node, received.1))
    | _ ↦ faults
  ]

  -- setProfile for the four texts.
  unfoldable pub set_profiles :
      Bytes → Bytes → Bytes → Bytes → Outcome (ControllerWorkloadProfile Profile)
  unfolding set_profile no_profiles
  set_profiles j l p g = do
    w ← set_profile DhtOperation.join j no_profiles
    w ← set_profile DhtOperation.leave l w
    w ← set_profile DhtOperation.put p w
    set_profile DhtOperation.get g w

  unfoldable pub get_profile : Bytes → Outcome (ControllerWorkloadProfile Profile × Bytes)
  unfolding set_profiles
  get_profile stream = get_next_message Opcode.profile stream >>= λ received. elim received.0 [
    | profile j l p g ↦ (do w ← set_profiles j l p g; done (w, received.1))
    | _ ↦ faults
  ]

  -- What a start message sets in the node and the profiles.
  unfoldable pub started : ℕ → Bytes → ℕ → ℕ → Setup Profile → Setup Profile
  started duration host entry_offset self_offset s = record {
    node = set_self_port_offset self_offset (set_entry_point host entry_offset s.node);
    profiles = record s.profiles { duration = duration };
  }

  unfoldable pub wait_for_start_message : Setup Profile → Bytes → Outcome (Setup Profile × Bytes)
  unfolding started
  wait_for_start_message s stream = get_next_message Opcode.start stream >>= λ received.
      elim received.0 [
        | start duration host entry_offset self_offset ↦
            done (started duration host entry_offset self_offset s, received.1)
        | _ ↦ faults
      ]

  -- run() up to start(), for a controller that has connected.
  unfoldable pub set_up : Bytes → Outcome (Setup Profile × Bytes)
  unfolding get_dht_type get_profile wait_for_start_message
  set_up stream = do
    (node, stream) ← get_dht_type stream
    (profiles, stream) ← get_profile stream
    wait_for_start_message (record { node = node; profiles = profiles }) stream
