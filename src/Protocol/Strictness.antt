-- ===== src/Protocol/Strictness.antt =====
-- src/protocol.cpp: fromBits, from a body back to its bytes.
pub mod Parts
pub mod Fields
pub mod Profiles
use dhtperf.Prelude.{
  ℕ, ◌+◌, ◌-◌, ◌%◌, ◌^◌, ◌≤◌, ◌<◌, ◌≡◌, refl, sym, ap, ◌∙◌, ◌++◌, [], ◌∷◌, Bytes, length, take,
  drop, length-take, length-drop, take-append-drop, drop-drop, All, All-take, All-drop, some, none,
  Outcome, done, exits, assert, read_at, read_at_inv, ◌==◌, ==_iff, arith, take_all, drop_all,
  ◌>>=◌, >>=-eq-done, ltb, if◌then◌else◌, append_assoc, Bool-cases, Option-cases, done-injective,
  Bool, true, false, inl, inr, subst,
}
use dhtperf.Protocol.{
  Message, MessageHeader, dht_type, profile, start, report, finish, opcode, u32_mod, size_mod,
}
use dhtperf.Protocol.Words.{le_bytes, of_le_bytes, IsByte, le_bytes-of_le_bytes, of_le_bytes-lt}
use dhtperf.Protocol.Encode.{profile_sizes}
use dhtperf.Protocol.Decode.{
  from_bits, find_separator, size_of_int32, decode_dht_type, decode_report, decode_start,
  decode_profile, decode_finish, read_word,
}
use dhtperf.Protocol.Wire.{body}
use dhtperf.Protocol.Strictness.Parts.{
  IsReceived, read_bytes, read_word_bytes, join_parts, nil_of_length, find_separator_inv, Strict,
}
use dhtperf.Protocol.Strictness.Fields.{StartRead, start_read, ProfileRead, profile_read}
use dhtperf.Protocol.Strictness.Profiles.{decode_profile-Strict}

module _ (h : MessageHeader) (b : Bytes) (m : Message) (r : IsReceived h b) where
  decode_dht_type-Strict : decode_dht_type h b ≡ done m → Strict 1 b m
  unfolding decode_dht_type body opcode
  decode_dht_type-Strict e =
      let (type, read, value) = >>=-eq-done (read_at b 0 h.body_size) (λ t. done (dht_type t)) e in
      let same : m ≡ dht_type type = cc value in
      let (_, part, _) = read_at_inv b 0 h.body_size read in
      rw same (part ∙ take_all h.body_size b (omega (arith, r.sized)), refl)

  decode_finish-Strict : decode_finish h b ≡ done m → Strict 5 b m
  unfolding decode_finish body opcode
  decode_finish-Strict e = elim (Bool-cases (h.body_size == 0)) [
    | inl z ↦
        let same : m ≡ finish = ground arith in
        rw same (sym (nil_of_length b (omega (arith, r.sized, (==_iff h.body_size 0).0 z))), refl)
    | inr z ↦ absurd (cc)
  ]

  decode_report-Strict : decode_report h b ≡ done m → Strict 4 b m
  unfolding decode_report body opcode
  decode_report-Strict e = elim (Option-cases (find_separator b' ' b)) [
    | inl f ↦ absurd (ground arith)
    | inr ((type, value), f) ↦
        let same : m ≡ report type value = ground arith in
        rw same (sym (find_separator_inv b' ' b f), refl)
  ]

module _ (h : MessageHeader) (b : Bytes) (m : Message) (r : IsReceived h b) where
  start_body : StartRead h b m → Strict 3 b m
  unfolding body opcode
  start_body s =
      let (fits, part, size) = read_at_inv b 8 _ s.read_host in
      let (long, _, _) = read_at_inv b 6 2 s.read_self in
      let tail : s.host ≡ drop 8 b =
        part
        ∙ take_all _ (drop 8 b) (omega (arith, length-drop 8 b, fits, long, r.sized, r.word)) in
      let printed : le_bytes 4 s.duration
            ++ (le_bytes 2 (of_le_bytes s.entry_offset)
                ++ (le_bytes 2 (of_le_bytes s.self_offset) ++ s.host))
          ≡ b =
        rw
          (
            read_word_bytes b r.bytes 0 s.read_duration,
            read_bytes b r.bytes 4 2 s.read_entry,
            read_bytes b r.bytes 6 2 s.read_self,
            tail,
            join_parts b 6 2,
            join_parts b 4 2,
          )
          (join_parts b 0 4) in
      rw (← s.same) (printed, refl)

  decode_start-Strict : decode_start h b ≡ done m → Strict 3 b m
  decode_start-Strict e = start_body (start_read h b m e)

module _ (h : MessageHeader) (b : Bytes) (m : Message) (r : IsReceived h b) where
  same_opcode :
      (n : ℕ) → (h.opcode == n) ≡ true → Strict n b m → (body m ≡ b) × (opcode m ≡ h.opcode)
  same_opcode n e (text, op) = (text, op ∙ sym ((==_iff h.opcode n).0 e))

  -- fromBits accepts nothing but what toBits writes. Where the body, of bytes and as long as the header says, becomes a message,
  -- the format of that message gives back that body, and its opcode is that of the header.
  pub from_bits-body_inv : from_bits h b ≡ done m → (body m ≡ b) × (opcode m ≡ h.opcode)
  unfolding from_bits
  from_bits-body_inv e = elim (Bool-cases (h.opcode == 1)) [
    | inl c1 ↦ same_opcode 1 c1 (decode_dht_type-Strict h b m r (rw c1 at e))
    | inr c1 ↦ elim (Bool-cases (h.opcode == 2)) [
      | inl c2 ↦ same_opcode 2 c2 (decode_profile-Strict h b m r (rw (c1, c2) at e))
      | inr c2 ↦ elim (Bool-cases (h.opcode == 3)) [
        | inl c3 ↦ same_opcode 3 c3 (decode_start-Strict h b m r (rw (c1, c2, c3) at e))
        | inr c3 ↦ elim (Bool-cases (h.opcode == 4)) [
          | inl c4 ↦ same_opcode 4 c4 (decode_report-Strict h b m r (rw (c1, c2, c3, c4) at e))
          | inr c4 ↦ elim (Bool-cases (h.opcode == 5)) [
            | inl c5 ↦
                same_opcode 5 c5 (decode_finish-Strict h b m r (rw (c1, c2, c3, c4, c5) at e))
            | inr c5 ↦ absurd (ground arith)
          ]
        ]
      ]
    ]
  ]
