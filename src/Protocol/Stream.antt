-- ===== src/Protocol/Stream.antt =====
-- A MessageHeader read from a socket straight into its memory: ba::buffer(&header, headerSize).
use dhtperf.Prelude.{
  ◌<◌, ◌≡◌, refl, sym, ◌++◌, Bytes, length, take, drop, take-append_left, drop-append_left, arith,
  append_assoc,
}
use dhtperf.Protocol.{
  Message, MessageHeader, dht_type, profile, start, report, finish, opcode, header_bytes, u32_mod,
}
use dhtperf.Protocol.Words.{le_bytes, of_le_bytes, length-le_bytes, of_le_bytes-le_bytes}
use dhtperf.Protocol.Wire.{body, header, length-body-start, length-body-profile, length-body-report}
use dhtperf.Protocol.RoundTrip.{IsSendable}

unfoldable pub header_at : Bytes → MessageHeader
header_at bytes = record {
  opcode = of_le_bytes (take 4 bytes);
  body_size = of_le_bytes (take 4 (drop 4 bytes));
}

pub header_at-header_bytes :
    (h : MessageHeader) (rest : Bytes)
    → h.opcode < u32_mod
    → h.body_size < u32_mod
    → header_at (header_bytes h ++ rest) ≡ h
unfolding header_at header_bytes
header_at-header_bytes h rest ho hs =
    let o4 = le_bytes 4 h.opcode in
    let s4 = le_bytes 4 h.body_size in
    let lo = length-le_bytes 4 h.opcode in
    let ls = length-le_bytes 4 h.body_size in
    rw
      (
        append_assoc o4 s4 rest,
        take-append_left o4 (s4 ++ rest) 4 (sym lo),
        drop-append_left o4 (s4 ++ rest) 4 (sym lo),
        take-append_left s4 rest 4 (sym ls),
        of_le_bytes-le_bytes 4 h.opcode ho,
        of_le_bytes-le_bytes 4 h.body_size hs,
      )
      refl

pub opcode-lt : (m : Message) → opcode m < u32_mod
unfolding opcode
opcode-lt (dht_type _) = omega arith
opcode-lt (profile _ _ _ _) = omega arith
opcode-lt (start _ _ _ _) = omega arith
opcode-lt (report _ _) = omega arith
opcode-lt finish = omega arith

pub body_fits : (m : Message) → IsSendable m → length (body m) < u32_mod
body_fits (dht_type type) h = unfold body in h
body_fits (profile j l p g) (_, _, _, _, sum) = omega (arith, length-body-profile j l p g)
body_fits (start d host e s) (_, fits, _, _) = omega (arith, length-body-start d host e s)
body_fits (report type value) (_, fits) = omega (arith, length-body-report type value)
body_fits finish h = unfold body in omega arith

-- The first bytes of a sendable message on the wire, read into a MessageHeader, give its opcode and the
-- size of its body, whatever follows them.
pub header_at-wire :
    (m : Message) (rest : Bytes)
    → IsSendable m
    → header_at (header_bytes (header m) ++ rest) ≡ header m
header_at-wire m rest h = header_at-header_bytes (header m) rest (opcode-lt m) (body_fits m h)
