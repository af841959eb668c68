-- ===== src/Protocol/Strictness/Profiles.antt =====
-- src/protocol.cpp: the sizes and texts of a profile that has been read.
use dhtperf.Prelude.{
  ℕ, ◌+◌, ◌-◌, ◌%◌, ◌^◌, ◌≤◌, ◌<◌, ◌≡◌, refl, sym, ◌∙◌, ◌++◌, Bytes, length, take, drop,
  length-drop, done, read_at, read_at_inv, ◌==◌, ==_iff, arith, take_all, ltb, if◌then◌else◌,
  append_assoc, Bool-cases, true, inl, inr, subst,
}
use dhtperf.Protocol.{Message, MessageHeader, opcode, u32_mod, size_mod}
use dhtperf.Protocol.Encode.{profile_sizes}
use dhtperf.Protocol.Decode.{size_of_int32, decode_profile}
use dhtperf.Protocol.Wire.{body}
use dhtperf.Protocol.Strictness.Parts.{IsReceived, read_word_bytes, join_parts, Strict}
use dhtperf.Protocol.Strictness.Fields.{ProfileRead, profile_read}

-- A part of a buffer of less than 2^32 bytes, whose size is an int32_t.
signed_part :
    (b : Bytes) (off n : ℕ) {s : Bytes}
    → length b < u32_mod
    → read_at b off (size_of_int32 n) ≡ done s
    → (off + n ≤ length b) × (s ≡ take n (drop off b)) × (length s ≡ n)
unfolding size_of_int32
signed_part b off n {s} small read = elim (Bool-cases (ltb n (2 ^ 31))) [
  | inl e ↦
      read_at_inv b off n
        (subst (λ t. read_at b off (if t then n else n + size_mod - u32_mod) ≡ done s) e read)
  | inr e ↦
      let (fits, _, _) =
        read_at_inv b off (n + size_mod - u32_mod)
          (subst (λ t. read_at b off (if t then n else n + size_mod - u32_mod) ≡ done s) e read) in
      absurd (omega (arith, fits))
]

no_wrap : (k : ℕ) → k < u32_mod → k % u32_mod ≡ k
no_wrap k lt = omega arith

module _ (h : MessageHeader) (b : Bytes) (m : Message) (r : IsReceived h b) where
  small : length b < u32_mod
  small = omega (arith, r.sized, r.word)

  module _ (s : ProfileRead h b m) where
    profile_parts :
        (16 + s.jn + s.ln + s.pn + s.gn ≡ length b)
        × (s.j ≡ take s.jn (drop 16 b))
        × (s.l ≡ take s.ln (drop (16 + s.jn) b))
        × (s.p ≡ take s.pn (drop (16 + s.jn + s.ln) b))
        × (s.g ≡ take s.gn (drop (16 + s.jn + s.ln + s.pn) b))
    profile_parts =
        let (fits_j, part_j, _) = signed_part b 16 s.jn small s.read_j in
        let at_l : (16 + s.jn) % u32_mod ≡ 16 + s.jn = no_wrap _ (omega (arith, fits_j, small)) in
        let (fits_l, part_l, _) = signed_part b (16 + s.jn) s.ln small (rw at_l at s.read_l) in
        let at_p : (16 + s.jn + s.ln) % u32_mod ≡ 16 + s.jn + s.ln =
          no_wrap _ (omega (arith, fits_l, small)) in
        let (fits_p, part_p, _) =
          signed_part b (16 + s.jn + s.ln) s.pn small (rw (at_l, at_p) at s.read_p) in
        let at_g : (16 + s.jn + s.ln + s.pn) % u32_mod ≡ 16 + s.jn + s.ln + s.pn =
          no_wrap _ (omega (arith, fits_p, small)) in
        let (fits_g, part_g, _) =
          signed_part b (16 + s.jn + s.ln + s.pn) s.gn small (rw (at_l, at_p, at_g) at s.read_g) in
        let at_end : (16 + s.jn + s.ln + s.pn + s.gn) % u32_mod ≡ 16 + s.jn + s.ln + s.pn + s.gn =
          no_wrap _ (omega (arith, fits_g, small)) in
        let whole : (16 + s.jn + s.ln + s.pn + s.gn == h.body_size) ≡ true =
          rw (at_l, at_p, at_g, at_end) at s.copied in
        ((==_iff _ h.body_size).0 whole ∙ sym r.sized, part_j, part_l, part_p, part_g)

    -- The four sizes print back to the sixteen bytes that they were read from.
    profile_header : (rest : Bytes) → rest ≡ drop 16 b → profile_sizes s.j s.l s.p s.g ++ rest ≡ b
    unfolding profile_sizes
    profile_header rest e =
        let (long, _, _, _, _) = profile_parts in
        let (_, _, size_j) = signed_part b _ s.jn small s.read_j in
        let (_, _, size_l) = signed_part b _ s.ln small s.read_l in
        let (_, _, size_p) = signed_part b _ s.pn small s.read_p in
        let (_, _, size_g) = signed_part b _ s.gn small s.read_g in
        let word_j : length s.j % u32_mod ≡ s.jn = omega (arith, size_j, long, small) in
        let word_l : length s.l % u32_mod ≡ s.ln = omega (arith, size_l, long, small) in
        let word_p : length s.p % u32_mod ≡ s.pn = omega (arith, size_p, long, small) in
        let word_g : length s.g % u32_mod ≡ s.gn = omega (arith, size_g, long, small) in
        rw
          (
            word_j,
            word_l,
            word_p,
            word_g,
            read_word_bytes b r.bytes 0 s.read_jn,
            read_word_bytes b r.bytes 4 s.read_ln,
            read_word_bytes b r.bytes 8 s.read_pn,
            read_word_bytes b r.bytes 12 s.read_gn,
            append_assoc (take 4 b) (take 4 (drop 4 b) ++ (take 4 (drop 8 b) ++ take 4 (drop 12 b)))
                rest,
            append_assoc (take 4 (drop 4 b)) (take 4 (drop 8 b) ++ take 4 (drop 12 b)) rest,
            append_assoc (take 4 (drop 8 b)) (take 4 (drop 12 b)) rest,
            e,
            join_parts b 12 4,
            join_parts b 8 4,
            join_parts b 4 4,
          )
          (join_parts b 0 4)

    profile_texts : s.j ++ (s.l ++ (s.p ++ s.g)) ≡ drop 16 b
    profile_texts =
        let (long, part_j, part_l, part_p, part_g) = profile_parts in
        let last : s.g ≡ drop (16 + s.jn + s.ln + s.pn) b =
          part_g ∙ take_all s.gn _ (omega (arith, long, length-drop (16 + s.jn + s.ln + s.pn) b)) in
        rw
          (
            part_j,
            part_l,
            part_p,
            last,
            join_parts b (16 + s.jn + s.ln) s.pn,
            join_parts b (16 + s.jn) s.ln,
          )
          (join_parts b 16 s.jn)

  pub decode_profile-Strict : decode_profile h b ≡ done m → Strict 2 b m
  unfolding body opcode
  decode_profile-Strict e =
      let s = profile_read h b m e in rw (← s.same) (profile_header s _ (profile_texts s), refl)
