-- ===== src/Master/Dispatch/Writes.antt =====
-- src/master/ControllerConnection.cpp: sendMessage and handleWrite, where a write of one message may still be under way when the next
-- one is sent; and the writes of the three messages that a controller gets before the test.
use dhtperf.Prelude.{
  ℕ, ◌≡◌, ◌≤◌, ◌⊎◌, inl, inr, refl, sym, ap, ◌∙◌, List, [], ◌∷◌, ◌++◌, Bytes, length, take, drop,
  arith, Outcome, done, exits, faults, ◌>>=◌, All, append_assoc, append-nil, take-append-drop,
  length-drop, done-injective, >>=-eq-done, subst,
}
use dhtperf.Protocol.{Message, dht_type, profile, start}
use dhtperf.Protocol.Encode.{to_bits}
use dhtperf.Protocol.Wire.{wire, to_bits-wire}
use dhtperf.Protocol.RoundTrip.{IsSendable}
use dhtperf.Protocol.Stream.{body_fits}
use dhtperf.Controller.Setup.{ProfileFactory, set_up, started}
use dhtperf.Controller.Handshake.{configure, set_up-wire}

-- What the socket has taken, and what it has still to take of writeBuffer_.
pub record Writing : Type 0 where
  pub taken : Bytes
  pub pending : Bytes

-- sendMessage is called; the socket takes so many bytes of the write under way; or handleWrite gets an error.
pub data WriteEvent : Type 0 where
  sends : Message → WriteEvent
  takes : ℕ → WriteEvent
  fails : WriteEvent

-- async_write refers to writeBuffer_ until it has completed: to assign the buffer before is undefined behaviour.
unfoldable pub write_step : WriteEvent → Writing → Outcome Writing
write_step (sends m) w = to_bits m >>= λ bits. elim w.pending [
  | [] ↦ done (record w { pending = bits })
  | c ∷ s ↦ faults
]
write_step (takes n) w =
    done (record { taken = w.taken ++ take n w.pending; pending = drop n w.pending })
write_step fails w = exits 1

unfoldable pub write_run : List WriteEvent → Writing → Outcome Writing
unfolding write_step
write_run [] w = done w
write_run (e ∷ es) w = write_step e w >>= λ w. write_run es w

abbrev pub idle : Writing
idle = record { taken = []; pending = [] }

unfoldable pub messages_of : List WriteEvent → List Message
messages_of [] = []
messages_of (sends m ∷ es) = m ∷ messages_of es
messages_of (takes n ∷ es) = messages_of es
messages_of (fails ∷ es) = messages_of es

unfoldable pub wires : List Message → Bytes
wires [] = []
wires (m ∷ ms) = wire m ++ wires ms

-- A message can be sent only where no write is under way.
sent_when_idle :
    (m : Message) (w u : Writing)
    → IsSendable m
    → write_step (sends m) w ≡ done u
    → (w.pending ≡ []) × (u ≡ record { taken = w.taken; pending = wire m })
unfolding write_step
sent_when_idle m w u h e = by_pending w.pending refl
  where
    by_pending :
        (p : Bytes)
        → w.pending ≡ p
        → (w.pending ≡ []) × (u ≡ record { taken = w.taken; pending = wire m })
    by_pending [] f = (
      f,
      sym (
          done-injective (record { taken = w.taken; pending = wire m }) u
            (rw (to_bits-wire m (body_fits m h), f) at e)),
    )
    by_pending (c ∷ s) f = absurd (ground (arith, rw (to_bits-wire m (body_fits m h), f) at e))

write_run-wires :
    (es : List WriteEvent) (w v : Writing)
    → All IsSendable (messages_of es)
    → write_run es w ≡ done v
    → v.taken ++ v.pending ≡ (w.taken ++ w.pending) ++ wires (messages_of es)
unfolding write_run messages_of wires write_step
write_run-wires [] w v h e = rw (done-injective w v e) (sym (append-nil (v.taken ++ v.pending)))
write_run-wires (sends m ∷ es) w v (h, hs) e =
    let (u, ran, more) = >>=-eq-done (write_step (sends m) w) _ e in
    let (empty, left) = sent_when_idle m w u h ran in
    write_run-wires es u v hs more
    ∙ rw (left, empty, append-nil w.taken) (append_assoc w.taken (wire m) (wires (messages_of es)))
write_run-wires (takes n ∷ es) w v h e =
    write_run-wires es (record { taken = w.taken ++ take n w.pending; pending = drop n w.pending })
      v h e
    ∙ rw (append_assoc w.taken (take n w.pending) (drop n w.pending), take-append-drop n w.pending)
        refl
write_run-wires (fails ∷ es) w v h e = absurd (cc)

-- A message that is sent while the write of the one before it is under way.
overlapping :
    (m o : Message) (n : ℕ) (es : List WriteEvent)
    → IsSendable m
    → IsSendable o
    → (length (wire m) ≤ n) ⊎ (write_run (sends m ∷ takes n ∷ sends o ∷ es) idle ≡ faults)
unfolding write_run write_step
overlapping m o n es h k = by_rest (drop n (wire m)) refl
  where
    by_rest :
        (rest : Bytes)
        → drop n (wire m) ≡ rest
        → (length (wire m) ≤ n) ⊎ (write_run (sends m ∷ takes n ∷ sends o ∷ es) idle ≡ faults)
    by_rest [] f = inl (omega (arith, length-drop n (wire m), ap length f))
    by_rest (c ∷ s) f =
        inr (rw (to_bits-wire m (body_fits m h), f, to_bits-wire o (body_fits o k)) refl)

-- Whatever the socket takes at a time of the writes of a DhtType, a Profile and a Start message, all of them sendable: where no write
-- fails, none of the messages is sent before the write of the one before it has completed, and the last write
-- completes, the controller makes of what it receives the node of the DHT type with the four profiles, and takes over the duration,
-- the entry point and the port offset, with nothing left to read; it ends the process exactly where making the node or a profile does. And
-- where the Profile message is sent right behind the DhtType message, as handleAccept does, either the socket has
-- taken the whole of the first message at once, or the behaviour is undefined.
pub write_run-set_up :
    (factory : ProfileFactory) (type j l p g : Bytes) (d : ℕ) (host : Bytes) (eo so : ℕ)
    (es later : List WriteEvent) (v : Writing) (n : ℕ)
    → IsSendable (dht_type type)
    → IsSendable (profile j l p g)
    → IsSendable (start d host eo so)
    → messages_of es ≡ dht_type type ∷ profile j l p g ∷ start d host eo so ∷ []
    → write_run es idle ≡ done v
    → v.pending ≡ []
    → (set_up factory v.taken ≡ configure factory type j l p g (started factory d host eo so) [])
      × ((length (wire (dht_type type)) ≤ n)
          ⊎ (write_run (sends (dht_type type) ∷ takes n ∷ sends (profile j l p g) ∷ later) idle
              ≡ faults))
unfolding wires
write_run-set_up factory type j l p g d host eo so es later v n ht hp hs same ran complete =
    let bits : v.taken ≡ wires (dht_type type ∷ profile j l p g ∷ start d host eo so ∷ []) =
      sym (append-nil v.taken)
      ∙ rw (complete, same) at
          (write_run-wires es idle v (subst (All IsSendable) (sym same) (ht, (hp, (hs, tt))))
            ran) in
    (
      ap (set_up factory) bits ∙ set_up-wire factory type j l p g d host eo so [] ht hp hs,
      overlapping (dht_type type) (profile j l p g) n later ht hp,
    )
