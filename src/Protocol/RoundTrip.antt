-- ===== src/Protocol/RoundTrip.antt =====
-- fromBits on what toBits writes.
use dhtperf.Prelude.{
  ℕ, ◌+◌, ◌-◌, ◌%◌, ◌^◌, ◌<◌, ◌≡◌, refl, sym, ◌++◌, [], ◌∷◌, Bytes, length, length-append, All,
  some, ◌≢◌, done, read_at, read_at_middle, eq→==, arith, append_assoc, append-nil, take_all,
}
use dhtperf.Protocol.{
  Message, dht_type, profile, start, report, finish, opcode, u16_mod, u32_mod, size_mod,
}
use dhtperf.Protocol.Words.{le_bytes, length-le_bytes, of_le_bytes-le_bytes}
use dhtperf.Protocol.Encode.{profile_sizes}
use dhtperf.Protocol.Decode.{
  from_bits, find_separator, size_of_int32, decode_report, decode_start, decode_profile, read_word,
}
use dhtperf.Protocol.Wire.{
  body, header, length-body-start, length-body-profile, length-profile_sizes,
}

-- What a message can carry: 32-bit sizes, words of their types, and no space in a report's type.
abbrev pub IsSendable : Message → Type 0
IsSendable (dht_type type) = length type < u32_mod
IsSendable (profile join leave put get) =
    (length join < 2 ^ 31)
    × (length leave < 2 ^ 31)
    × (length put < 2 ^ 31)
    × (length get < 2 ^ 31)
    × (16 + length join + length leave + length put + length get < u32_mod)
IsSendable (start duration host entry_offset self_offset) =
    (duration < u32_mod)
    × (8 + length host < u32_mod)
    × (entry_offset < u16_mod)
    × (self_offset < u16_mod)
IsSendable (report type value) =
    All (λ b. b ≢ b' ') type × (length type + length value + 1 < u32_mod)
IsSendable finish = Unit {0}

find_separator-append :
    (c : ℕ) (before after : Bytes)
    → All (λ b. b ≢ c) before
    → find_separator c (before ++ c ∷ after) ≡ some (before, after)
unfolding find_separator
find_separator-append c [] after h = ground arith
find_separator-append c (b ∷ before) after h =
    ground (arith, find_separator-append c before after h.1)

pub read_at_all : (s : Bytes) → read_at s 0 (length s) ≡ done s
unfolding read_at
read_at_all s = ground (arith, take_all (length s) s)

-- A read of a part of the body, given how the body falls apart.
read_part :
    (front mid back : Bytes) (b : Bytes) (off n : ℕ)
    → b ≡ front ++ (mid ++ back)
    → off ≡ length front
    → n ≡ length mid
    → read_at b off n ≡ done mid
read_part front mid back b off n e f g = rw e (read_at_middle front mid back off n f g)

read_word_part :
    (front back : Bytes) (b : Bytes) (off n : ℕ)
    → b ≡ front ++ (le_bytes 4 n ++ back)
    → off ≡ length front
    → n < u32_mod
    → read_word b off ≡ done n
unfolding read_word
read_word_part front back b off n e f h = rw (
  read_part front (le_bytes 4 n) back b off 4 e f (sym (length-le_bytes 4 n)),
  of_le_bytes-le_bytes 4 n h,
)

from_bits-dht_type :
    (type : Bytes)
    → from_bits (header (dht_type type)) (body (dht_type type)) ≡ done (dht_type type)
unfolding from_bits opcode body
from_bits-dht_type type = rw (read_at_all type)

from_bits-finish : from_bits (header finish) (body finish) ≡ done finish
unfolding from_bits opcode body
from_bits-finish = refl

from_bits-report :
    (type value : Bytes)
    → IsSendable (report type value)
    → from_bits (header (report type value)) (body (report type value)) ≡ done (report type value)
unfolding from_bits opcode body
from_bits-report type value (h, fits) =
    rw (find_separator-append b' ' type value h, decode_report) (ground arith)

from_bits-start :
    (d : ℕ) (host : Bytes) (e s : ℕ)
    → IsSendable (start d host e s)
    → from_bits (header (start d host e s)) (body (start d host e s)) ≡ done (start d host e s)
unfolding from_bits opcode
from_bits-start d host e s (hd, hh, he, hs) =
    let b = body (start d host e s) in
    let d4 = le_bytes 4 d in
    let e2 = le_bytes 2 e in
    let s2 = le_bytes 2 s in
    let l1 = length-le_bytes 4 d in
    let l2 = length-le_bytes 2 e in
    let l3 = length-le_bytes 2 s in
    let sum = length-body-start d host e s in
    let rest : (length b + size_mod - 8) % size_mod ≡ length host = omega arith in
    rw
      (
        read_word_part [] (e2 ++ (s2 ++ host)) b 0 d (unfold body in refl) refl hd,
        read_part d4 e2 (s2 ++ host) b 4 2 (unfold body in refl) (omega arith) (omega arith),
        read_part (d4 ++ e2) s2 host b 6 2 (unfold body in simp append_assoc)
            (omega (arith, length-append d4 e2)) (omega arith),
        rest,
        read_part (d4 ++ (e2 ++ s2)) host [] b 8 (length host)
            (unfold body in simp (append_assoc, append-nil))
            (omega (arith, length-append d4 (e2 ++ s2), length-append e2 s2)) refl,
        of_le_bytes-le_bytes 2 e he,
        of_le_bytes-le_bytes 2 s hs,
        decode_start,
      )
      refl

short : (t : Bytes) → length t < 2 ^ 31 → length t % u32_mod ≡ length t
short t h = omega arith

unsigned : (t : Bytes) → length t < 2 ^ 31 → size_of_int32 (length t) ≡ length t
unfolding size_of_int32
unsigned t h = ground arith

unwrapped : (a b : ℕ) → a + b < u32_mod → (a + b) % u32_mod ≡ a + b
unwrapped a b h = omega arith

from_bits-profile :
    (j l p g : Bytes)
    → IsSendable (profile j l p g)
    → from_bits (header (profile j l p g)) (body (profile j l p g)) ≡ done (profile j l p g)
unfolding from_bits opcode
from_bits-profile j l p g (hj, hl, hp, hg, sum) =
    let b = body (profile j l p g) in
    let w = λ (t : Bytes). le_bytes 4 (length t % u32_mod) in
    let data_part = j ++ (l ++ (p ++ g)) in
    let wl = λ (t : Bytes). length-le_bytes 4 (length t % u32_mod) in
    let sizes = profile_sizes j l p g in
    let sixteen = length-profile_sizes j l p g in
    let total = length-body-profile j l p g in
    rw
      (
        read_word_part [] (w l ++ (w p ++ w g) ++ data_part) b 0 (length j % u32_mod)
            (unfold body in simp append_assoc) refl (omega arith),
        read_word_part (w j) ((w p ++ w g) ++ data_part) b 4 (length l % u32_mod)
            (unfold body in simp append_assoc) (omega (arith, wl j)) (omega arith),
        read_word_part (w j ++ w l) (w g ++ data_part) b 8 (length p % u32_mod)
            (unfold body in simp append_assoc)
            (omega (arith, wl j, wl l, length-append (w j) (w l))) (omega arith),
        read_word_part (w j ++ (w l ++ w p)) data_part b 12 (length g % u32_mod)
            (unfold body in simp append_assoc)
            (omega (
              arith,
              wl j,
              wl l,
              wl p,
              length-append (w j) (w l ++ w p),
              length-append (w l) (w p),
            ))
            (omega arith),
        short j hj,
        short l hl,
        short p hp,
        short g hg,
        unsigned j hj,
        unsigned l hl,
        unsigned p hp,
        unsigned g hg,
        unwrapped 16 (length j) (omega arith),
        unwrapped (16 + length j) (length l) (omega arith),
        unwrapped (16 + length j + length l) (length p) (omega arith),
        unwrapped (16 + length j + length l + length p) (length g) (omega arith),
        read_part sizes j (l ++ (p ++ g)) b 16 (length j) (unfold body in refl) (omega arith) refl,
        read_part (sizes ++ j) l (p ++ g) b (16 + length j) (length l)
            (unfold body in simp append_assoc) (omega (arith, length-append sizes j)) refl,
        read_part (sizes ++ (j ++ l)) p g b (16 + length j + length l) (length p)
            (unfold body in simp append_assoc)
            (omega (arith, length-append sizes (j ++ l), length-append j l)) refl,
        read_part (sizes ++ (j ++ (l ++ p))) g [] b (16 + length j + length l + length p) (length g)
            (unfold body in simp (append_assoc, append-nil))
            (omega (
              arith,
              length-append sizes (j ++ (l ++ p)),
              length-append j (l ++ p),
              length-append l p,
            ))
            refl,
        eq→== _ _ (sym total),
        decode_profile,
      )
      refl

-- fromBits gives back every sendable message (its sizes fit 32 bits, those of a profile 31, its
-- port offsets 16, and the type of a report has no space) from the header and the body of its
-- format.
pub from_bits-body : (m : Message) → IsSendable m → from_bits (header m) (body m) ≡ done m
from_bits-body (dht_type type) h = from_bits-dht_type type
from_bits-body (profile j l p g) h = from_bits-profile j l p g h
from_bits-body (start d host e s) h = from_bits-start d host e s h
from_bits-body (report type value) h = from_bits-report type value h
from_bits-body finish h = from_bits-finish
