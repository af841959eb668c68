-- ===== src/Tests/Handshakes.antt =====
-- A controller that has got its three messages; profiles are kept as their texts.
use dhtperf.Prelude.{
  ◌≡◌, ◌≤◌, ◌⊎◌, refl, [], ◌∷◌, List, Bytes, codes, arith, Outcome, done, faults, length, memcpy,
}
use dhtperf.Protocol.{dht_type, profile, start, header_bytes, opcode}
use dhtperf.Protocol.Words.{le_bytes}
use dhtperf.Protocol.Encode.{
  to_bits, dht_type_bits, profile_bits, start_bits, header_of, zeros, profile_sizes,
}
use dhtperf.Protocol.Wire.{wire}
use dhtperf.Controller.Setup.{ProfileFactory, set_up, started}
use dhtperf.Controller.Handshake.{configure}
use dhtperf.Master.Dispatch.Writes.{
  Writing, WriteEvent, sends, takes, idle, messages_of, write_step, write_run, write_run-set_up,
}

abbrev texts : ProfileFactory
texts = record { Profile = λ operation. Bytes; make_profile = λ operation text. done text }

-- The socket takes the first message at once, the second in two parts, and the third before the end.
abbrev in_parts : List WriteEvent
in_parts =
    sends (dht_type (codes "dummy"))
    ∷ takes 100
    ∷ sends (profile (codes "now") (codes "none") (codes "none") (codes "none"))
    ∷ takes 7
    ∷ takes 100
    ∷ sends (start 60 [] 0 0)
    ∷ takes 100
    ∷ []

abbrev written : Outcome Writing → Writing
written (done w) = w
written _ = idle

in_parts_run : write_run in_parts idle ≡ done (written (write_run in_parts idle))
unfolding write_run write_step to_bits dht_type_bits profile_bits start_bits header_of zeros
    profile_sizes opcode header_bytes le_bytes memcpy
in_parts_run = refl

nothing_left : (written (write_run in_parts idle)).pending ≡ []
unfolding write_run write_step to_bits dht_type_bits profile_bits start_bits header_of zeros
    profile_sizes opcode header_bytes le_bytes memcpy
nothing_left = refl

write_run-set_up_example :
    (set_up texts (written (write_run in_parts idle)).taken
      ≡ configure texts
          (codes "dummy")
          (codes "now")
          (codes "none")
          (codes "none")
          (codes "none")
          (started texts 60 [] 0 0)
          [])
    × ((length (wire (dht_type (codes "dummy"))) ≤ 4)
        ⊎ (write_run
              (sends (dht_type (codes "dummy"))
                ∷ takes 4
                ∷ sends (profile (codes "now") (codes "none") (codes "none") (codes "none"))
                ∷ [])
              idle
            ≡ faults))
unfolding messages_of
write_run-set_up_example =
    write_run-set_up texts (codes "dummy") (codes "now") (codes "none") (codes "none")
      (codes "none") 60 [] 0 0 in_parts [] (written (write_run in_parts idle)) 4 (omega arith)
      (omega arith, omega arith, omega arith, omega arith, omega arith)
      (omega arith, omega arith, omega arith, omega arith) refl in_parts_run nothing_left
