-- ===== src/Protocol/Wire.antt =====
-- The format that the comments of src/protocol.cpp describe: a header, then a body for each class.
-- toBits, with its buffer and offsets, implements it.
use dhtperf.Prelude.{
  ℕ, ◌+◌, ◌-◌, ◌%◌, ◌<◌, ◌≡◌, ◌++◌, [], ◌∷◌, Bytes, length, replicate, length-append, eq→==, done,
  memcpy, memcpy_fill, refl, arith, append_assoc, append-nil, ◌∙◌,
}
use dhtperf.Protocol.{
  Message, MessageHeader, dht_type, profile, start, report, finish, opcode, header_bytes, u32_mod,
}
use dhtperf.Protocol.Words.{le_bytes, length-le_bytes}
use dhtperf.Protocol.Encode.{to_bits, profile_sizes, header_of, zeros}

unfoldable pub body : Message → Bytes
unfolding profile_sizes
body (dht_type type) = type
body (profile join leave put get) =
    profile_sizes join leave put get ++ (join ++ (leave ++ (put ++ get)))
body (start duration host entry_offset self_offset) =
    le_bytes 4 duration ++ (le_bytes 2 entry_offset ++ (le_bytes 2 self_offset ++ host))
body (report type value) = type ++ b' ' ∷ value
body finish = []

abbrev pub header : Message → MessageHeader
header m = record { opcode = opcode m; body_size = length (body m) }

abbrev pub wire : Message → Bytes
wire m = header_bytes (header m) ++ body m

pub length-header_bytes : (h : MessageHeader) → length (header_bytes h) ≡ 8
unfolding header_bytes
length-header_bytes h = omega (
  arith,
  length-append (le_bytes 4 h.opcode) (le_bytes 4 h.body_size),
  length-le_bytes 4 h.opcode,
  length-le_bytes 4 h.body_size,
)

pub length-profile_sizes : (j l p g : Bytes) → length (profile_sizes j l p g) ≡ 16
unfolding profile_sizes le_bytes
length-profile_sizes j l p g = refl

-- A header of size 8 fits at the start of the zeros, and the rest is room for the body.
header_fill :
    (h : MessageHeader)
    → memcpy (zeros h) 0 (header_bytes h) ≡ done (header_bytes h ++ replicate h.body_size 0)
unfolding zeros
header_fill h =
    memcpy_fill [] (header_bytes h) 0 (8 + h.body_size) refl (omega (arith, length-header_bytes h))
    ∙ rw (room) refl
  where
    room : 8 + h.body_size - length (header_bytes h) ≡ h.body_size
    room = omega (arith, length-header_bytes h)

-- The last part of the body fills the room that is left.
last_fill :
    (front src : Bytes) (off k : ℕ)
    → off ≡ length front
    → k ≡ length src
    → memcpy (front ++ replicate k 0) off src ≡ done (front ++ src)
last_fill front src off k e f =
    memcpy_fill front src off k e (omega arith) ∙ rw (empty) (rw append-nil)
  where
    empty : k - length src ≡ 0
    empty = omega arith

whole : (n : ℕ) → n < u32_mod → n % u32_mod ≡ n
whole n h = omega arith

pub length-body-report :
    (type value : Bytes) → length (body (report type value)) ≡ length type + length value + 1
unfolding body
length-body-report type value = omega (arith, length-append type (b' ' ∷ value))

pub length-body-start :
    (d : ℕ) (host : Bytes) (e s : ℕ) → length (body (start d host e s)) ≡ 8 + length host
unfolding body le_bytes
length-body-start d host e s = omega arith

pub length-body-profile :
    (j l p g : Bytes)
    → length (body (profile j l p g)) ≡ 16 + length j + length l + length p + length g
unfolding body
length-body-profile j l p g = omega (
  arith,
  length-append (profile_sizes j l p g) (j ++ (l ++ (p ++ g))),
  length-profile_sizes j l p g,
  length-append j (l ++ (p ++ g)),
  length-append l (p ++ g),
  length-append p g,
)

dht_type-wire :
    (type : Bytes) → length type < u32_mod → to_bits (dht_type type) ≡ done (wire (dht_type type))
unfolding to_bits body opcode
dht_type-wire type h =
    rw (whole _ h, header_fill (header (dht_type type)))
      (last_fill (header_bytes (header (dht_type type))) type 8 (length type)
        (omega (arith, length-header_bytes (header (dht_type type)))) refl)

report-wire :
    (type value : Bytes)
    → length (body (report type value)) < u32_mod
    → to_bits (report type value) ≡ done (wire (report type value))
unfolding to_bits
report-wire type value h =
    let m = report type value in
    let head = header_bytes (header m) in
    let size = length (body m) in
    let sum = length-body-report type value in
    let eight = length-header_bytes (header m) in
    let cut : (length type + length value + 1) % u32_mod ≡ size = omega arith in
    rw
      (
        cut,
        header_fill (header m),
        memcpy_fill head type 8 size (omega arith) (omega arith),
        memcpy_fill (head ++ type) (b' ' ∷ []) (8 + length type) (size - length type)
            (omega (arith, length-append head type)) (omega arith),
        last_fill ((head ++ type) ++ b' ' ∷ []) value (8 + length type + 1) (size - length type - 1)
            (omega (arith, length-append head type, length-append (head ++ type) (b' ' ∷ [])))
            (omega arith),
        eq→== (8 + length type + 1 + length value) (8 + size) (omega arith),
      )
      (unfold body in simp append_assoc)

start-wire :
    (d : ℕ) (host : Bytes) (e s : ℕ)
    → length (body (start d host e s)) < u32_mod
    → to_bits (start d host e s) ≡ done (wire (start d host e s))
unfolding to_bits
start-wire d host e s h =
    let m = start d host e s in
    let head = header_bytes (header m) in
    let size = length (body m) in
    let sum = length-body-start d host e s in
    let eight = length-header_bytes (header m) in
    let cut : (4 + 2 + 2 + length host) % u32_mod ≡ size = omega arith in
    let d4 = le_bytes 4 d in
    let e2 = le_bytes 2 e in
    let s2 = le_bytes 2 s in
    let l1 : length (head ++ d4) ≡ 12 = omega (arith, length-append head d4, length-le_bytes 4 d) in
    let l2 : length ((head ++ d4) ++ e2) ≡ 14 =
      omega (arith, length-append (head ++ d4) e2, length-le_bytes 2 e) in
    let l3 : length (((head ++ d4) ++ e2) ++ s2) ≡ 16 =
      omega (arith, length-append ((head ++ d4) ++ e2) s2, length-le_bytes 2 s) in
    rw
      (
        cut,
        header_fill (header m),
        memcpy_fill head d4 8 size (omega arith) (omega (arith, length-le_bytes 4 d)),
        length-le_bytes 4 d,
        memcpy_fill (head ++ d4) e2 12 (size - 4) (omega arith)
            (omega (arith, length-le_bytes 2 e)),
        length-le_bytes 2 e,
        memcpy_fill ((head ++ d4) ++ e2) s2 14 (size - 4 - 2) (omega arith)
            (omega (arith, length-le_bytes 2 s)),
        length-le_bytes 2 s,
        last_fill (((head ++ d4) ++ e2) ++ s2) host 16 (size - 4 - 2 - 2) (omega arith)
            (omega arith),
        eq→== (16 + length host) (8 + size) (omega arith),
      )
      (unfold body in simp append_assoc)

profile-wire :
    (j l p g : Bytes)
    → length (body (profile j l p g)) < u32_mod
    → to_bits (profile j l p g) ≡ done (wire (profile j l p g))
unfolding to_bits
profile-wire j l p g h =
    let m = profile j l p g in
    let head = header_bytes (header m) in
    let size = length (body m) in
    let sizes = profile_sizes j l p g in
    let sum = length-body-profile j l p g in
    let eight = length-header_bytes (header m) in
    let sixteen = length-profile_sizes j l p g in
    let cut : (16 + length j + length l + length p + length g) % u32_mod ≡ size = omega arith in
    let f1 = head ++ sizes in
    let f2 = f1 ++ j in
    let f3 = f2 ++ l in
    let f4 = f3 ++ p in
    let l1 : length f1 ≡ 24 = omega (arith, length-append head sizes) in
    let l2 : length f2 ≡ 24 + length j = omega (arith, length-append f1 j) in
    let l3 : length f3 ≡ 24 + length j + length l = omega (arith, length-append f2 l) in
    let l4 : length f4 ≡ 24 + length j + length l + length p = omega (arith, length-append f3 p) in
    rw
      (
        cut,
        header_fill (header m),
        memcpy_fill head sizes 8 size (omega arith) (omega arith),
        sixteen,
        memcpy_fill f1 j 24 (size - 16) (omega arith) (omega arith),
        memcpy_fill f2 l (24 + length j) (size - 16 - length j) (omega arith) (omega arith),
        memcpy_fill f3 p (24 + length j + length l) (size - 16 - length j - length l) (omega arith)
            (omega arith),
        last_fill f4 g (24 + length j + length l + length p)
            (size - 16 - length j - length l - length p) (omega arith) (omega arith),
        eq→== (24 + length j + length l + length p + length g) (8 + size) (omega arith),
      )
      (unfold body in simp append_assoc)

finish-wire : to_bits finish ≡ done (wire finish)
unfolding to_bits body header_bytes le_bytes header_of zeros memcpy opcode
finish-wire = refl

-- If the body of a message has a size of 32 bits, toBits fills its buffer exactly: it returns the
-- header, with the message's opcode and the size of the body, and then the body; no copy leaves
-- the buffer and no assertion fails.
pub to_bits-wire : (m : Message) → length (body m) < u32_mod → to_bits m ≡ done (wire m)
to_bits-wire (dht_type type) h = dht_type-wire type (unfold body in h)
to_bits-wire (profile j l p g) h = profile-wire j l p g h
to_bits-wire (start d host e s) h = start-wire d host e s h
to_bits-wire (report type value) h = report-wire type value h
to_bits-wire finish h = finish-wire
