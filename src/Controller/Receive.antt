-- ===== src/Controller/Receive.antt =====
-- src/controller/DhtperfController.cpp: getNextMessage. The stream is what the socket has still to
-- deliver before it is closed.
use dhtperf.Prelude.{
  ℕ, ◌-◌, ◌+◌, ◌<◌, ◌≡◌, refl, sym, ◌++◌, [], ◌∷◌, ltb, true, false, Bytes, length, length-append,
  take, drop, replicate, ◌==◌, if◌then◌else◌, Outcome, done, exits, arith, eq→==, take-append_left,
  drop-append_left, append_assoc, append-nil, take_all, drop_all, length-replicate, ◌>>=◌,
}
use dhtperf.Protocol.{Message, MessageHeader, dht_type, opcode, header_bytes, header_size, u32_mod}
use dhtperf.Protocol.Opcode
use dhtperf.Protocol.Decode.{from_bits}
use dhtperf.Protocol.Wire.{body, header, wire, length-header_bytes}
use dhtperf.Protocol.RoundTrip.{IsSendable, read_at_all, from_bits-body}
use dhtperf.Protocol.Stream.{header_at, header_at-header_bytes, header_at-wire}

-- The body starts as zeros, and a read that ends early leaves the rest of them: its error is not
-- looked at. A body of size 0 is not read.
unfoldable pub read_body : ℕ → Bytes → Bytes
read_body size stream =
    if ltb 0 size then take size stream ++ replicate (size - length stream) 0 else []

unfoldable pub get_next_message : ℕ → Bytes → Outcome (Message × Bytes)
unfolding read_body
get_next_message expected stream =
    if ltb (length stream) header_size
    then exits 1
    else if (header_at stream).opcode == expected
    then (do
      let size = (header_at stream).body_size
      let rest = drop header_size stream
      message ← from_bits (header_at stream) (read_body size rest)
      done (message, drop size rest))
    else exits 1

read_body-append : (b rest : Bytes) → read_body (length b) (b ++ rest) ≡ b
unfolding read_body
read_body-append [] rest = refl
read_body-append (x ∷ b) rest =
    let none_left : length (x ∷ b) - length (x ∷ b ++ rest) ≡ 0 =
      omega (arith, length-append (x ∷ b) rest) in
    rw (none_left, take-append_left b rest (length b) refl, append-nil) (ground arith)

-- The controller reads back any sendable message of the kind that it waits for, and leaves what
-- follows it in the stream.
pub get_next_message-wire :
    (m : Message) (rest : Bytes)
    → IsSendable m
    → get_next_message (opcode m) (wire m ++ rest) ≡ done (m, rest)
unfolding get_next_message
get_next_message-wire m rest h =
    let hb = header_bytes (header m) in
    let eight = length-header_bytes (header m) in
    let long : ltb (length (hb ++ (body m ++ rest))) 8 ≡ false =
      ground (arith, length-append hb (body m ++ rest)) in
    rw
      (
        append_assoc hb (body m) rest,
        get_next_message,
        long,
        header_at-wire m (body m ++ rest) h,
        eq→== (opcode m) (opcode m) refl,
        drop-append_left hb (body m ++ rest) 8 (sym eight),
        read_body-append (body m) rest,
        from_bits-body m h,
        drop-append_left (body m) rest (length (body m)) refl,
      )
      refl

-- The type of the DHT as the controller takes it from a DhtType message whose stream ends after
-- `part` of the `missing + length part` bytes announced: it is padded with NUL bytes, no error is
-- raised, and the node goes on with that name.
pub get_next_message_truncated :
    (part : Bytes) (missing : ℕ)
    → 0 < missing
    → length part + missing < u32_mod
    → get_next_message Opcode.dht_type (
        header_bytes (record { opcode = Opcode.dht_type; body_size = length part + missing })
        ++ part)
      ≡ done (dht_type (part ++ replicate missing 0), [])
unfolding get_next_message read_body from_bits
get_next_message_truncated part missing short fits =
    let h : MessageHeader = record {
      opcode = Opcode.dht_type;
      body_size = length part + missing;
    } in
    let hb = header_bytes h in
    let eight = length-header_bytes h in
    let long : ltb (length (hb ++ part)) 8 ≡ false = ground (arith, length-append hb part) in
    let pad : length part + missing - length part ≡ missing = omega arith in
    let nonempty : ltb 0 (length part + missing) ≡ true = ground arith in
    let padded = part ++ replicate missing 0 in
    let whole : length part + missing ≡ length padded =
      omega (arith, length-append part (replicate missing 0), length-replicate {A = ℕ} missing 0) in
    rw
      (
        long,
        header_at-header_bytes h part (omega arith) fits,
        drop-append_left hb part 8 (sym eight),
        nonempty,
        take_all (length part + missing) part (omega arith),
        drop_all (length part + missing) part (omega arith),
        pad,
        whole,
        read_at_all padded,
      )
      refl
