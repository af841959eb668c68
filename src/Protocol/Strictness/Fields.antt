-- ===== src/Protocol/Strictness/Fields.antt =====
-- src/protocol.cpp: what the constructors of Start and Profile have read of a body that they accept.
use dhtperf.Prelude.{
  ℕ, ◌+◌, ◌-◌, ◌%◌, ◌≡◌, refl, Bytes, done, assert, read_at, ◌==◌, >>=-eq-done, done-injective,
  Bool, true, false,
}
use dhtperf.Protocol.{Message, MessageHeader, profile, start, u32_mod, size_mod}
use dhtperf.Protocol.Words.{of_le_bytes}
use dhtperf.Protocol.Decode.{size_of_int32, decode_start, decode_profile, read_word}

assert-true : (t : Bool) (u : Unit {0}) → assert t ≡ done u → t ≡ true
assert-true true u h = refl
assert-true false u h = absurd (cc)

-- What decode_start has read.
pub record StartRead (h : MessageHeader) (b : Bytes) (m : Message) : Type 0 where
  pub duration : ℕ
  pub entry_offset : Bytes
  pub self_offset : Bytes
  pub host : Bytes
  pub read_duration : read_word b 0 ≡ done duration
  pub read_entry : read_at b 4 2 ≡ done entry_offset
  pub read_self : read_at b 6 2 ≡ done self_offset
  pub read_host : read_at b 8 ((h.body_size + size_mod - 8) % size_mod) ≡ done host
  pub same : start duration host (of_le_bytes entry_offset) (of_le_bytes self_offset) ≡ m

pub start_read :
    (h : MessageHeader) (b : Bytes) (m : Message) → decode_start h b ≡ done m → StartRead h b m
unfolding decode_start
start_read h b m e =
    let (d, rd, e1) = >>=-eq-done (read_word b 0) _ e in
    let (eo, re, e2) = >>=-eq-done (read_at b 4 2) _ e1 in
    let (so, rs, e3) = >>=-eq-done (read_at b 6 2) _ e2 in
    let (host, rh, e4) = >>=-eq-done (read_at b 8 ((h.body_size + size_mod - 8) % size_mod)) _ e3 in
    record {
      duration = d;
      entry_offset = eo;
      self_offset = so;
      host = host;
      read_duration = rd;
      read_entry = re;
      read_self = rs;
      read_host = rh;
      same = done-injective _ m e4;
    }

-- What decode_profile has read.
pub record ProfileRead (h : MessageHeader) (b : Bytes) (m : Message) : Type 0 where
  pub jn : ℕ
  pub ln : ℕ
  pub pn : ℕ
  pub gn : ℕ
  pub j : Bytes
  pub l : Bytes
  pub p : Bytes
  pub g : Bytes
  pub read_jn : read_word b 0 ≡ done jn
  pub read_ln : read_word b 4 ≡ done ln
  pub read_pn : read_word b 8 ≡ done pn
  pub read_gn : read_word b 12 ≡ done gn
  pub read_j : read_at b 16 (size_of_int32 jn) ≡ done j
  pub read_l : read_at b ((16 + jn) % u32_mod) (size_of_int32 ln) ≡ done l
  pub read_p : read_at b (((16 + jn) % u32_mod + ln) % u32_mod) (size_of_int32 pn) ≡ done p
  pub read_g :
      read_at b ((((16 + jn) % u32_mod + ln) % u32_mod + pn) % u32_mod) (size_of_int32 gn) ≡ done g
  pub copied :
      (((((16 + jn) % u32_mod + ln) % u32_mod + pn) % u32_mod + gn) % u32_mod == h.body_size) ≡ true
  pub same : profile j l p g ≡ m

pub profile_read :
    (h : MessageHeader) (b : Bytes) (m : Message) → decode_profile h b ≡ done m → ProfileRead h b m
unfolding decode_profile
profile_read h b m e =
    let (jn, rjn, e1) = >>=-eq-done (read_word b 0) _ e in
    let (ln, rln, e2) = >>=-eq-done (read_word b 4) _ e1 in
    let (pn, rpn, e3) = >>=-eq-done (read_word b 8) _ e2 in
    let (gn, rgn, e4) = >>=-eq-done (read_word b 12) _ e3 in
    let (j, rj, e5) = >>=-eq-done (read_at b 16 (size_of_int32 jn)) _ e4 in
    let (l, rl, e6) = >>=-eq-done (read_at b ((16 + jn) % u32_mod) (size_of_int32 ln)) _ e5 in
    let (p, rp, e7) =
      >>=-eq-done (read_at b (((16 + jn) % u32_mod + ln) % u32_mod) (size_of_int32 pn)) _ e6 in
    let (g, rg, e8) =
      >>=-eq-done
        (read_at b ((((16 + jn) % u32_mod + ln) % u32_mod + pn) % u32_mod) (size_of_int32 gn)) _
        e7 in
    let (u, test, e9) = >>=-eq-done (assert _) _ e8 in
    record {
      jn = jn;
      ln = ln;
      pn = pn;
      gn = gn;
      j = j;
      l = l;
      p = p;
      g = g;
      read_jn = rjn;
      read_ln = rln;
      read_pn = rpn;
      read_gn = rgn;
      read_j = rj;
      read_l = rl;
      read_p = rp;
      read_g = rg;
      copied = assert-true _ u test;
      same = done-injective _ m e9;
    }
