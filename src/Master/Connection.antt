-- ===== src/Master/Connection.antt =====
-- src/master/ControllerConnection.cpp. The stream is what the peer has still to send before it closes
-- the connection; ba::async_read completes with all the bytes asked for, or with an error where the
-- stream is shorter.
use dhtperf.Prelude.{
  ◌≡◌, refl, sym, ◌++◌, [], ◌∷◌, ltb, false, Bytes, length, length-append, take, drop,
  if◌then◌else◌, Outcome, done, arith, take-append_left, drop-append_left, append_assoc, ◌>>=◌,
  Bool-cases, read_at, inl, inr,
}
use dhtperf.Protocol.{
  Message, dht_type, profile, start, report, finish, MessageHeader, opcode, header_bytes,
  header_size,
}
use dhtperf.Protocol.Encode.{to_bits}
use dhtperf.Protocol.Decode.{from_bits}
use dhtperf.Protocol.Wire.{
  body, header, wire, length-header_bytes, length-body-report, length-body-start,
  length-body-profile,
}
use dhtperf.Protocol.RoundTrip.{IsSendable, from_bits-body}
use dhtperf.Protocol.Stream.{header_at, header_at-wire}

pub record Connection : Type 0 where
  pub header_buffer : MessageHeader
  pub body_buffer : Bytes
  pub write_buffer : Bytes

-- Which of the two handlers is called: messageHandler_ or disconnectionHandler_.
pub data Arrival : Type 0 where
  arrived : Message → Arrival
  disconnected : Arrival

-- handleMessage(): decodes the buffers and calls the message handler.
unfoldable pub handle_message : Connection → Bytes → Outcome (Arrival × Connection × Bytes)
handle_message c stream = do
  message ← from_bits c.header_buffer c.body_buffer
  done (arrived message, c, stream)

unfoldable pub handle_body_read : Connection → Bytes → Outcome (Arrival × Connection × Bytes)
unfolding handle_message
handle_body_read c stream =
    let size = c.header_buffer.body_size in
    if ltb (length stream) size
    then done (disconnected, c, [])
    else handle_message (record c { body_buffer = take size stream }) (drop size stream)

-- A body of size 0 is not read, and leaves what an earlier message left in the buffer.
unfoldable pub handle_header_read : Connection → Bytes → Outcome (Arrival × Connection × Bytes)
unfolding handle_body_read handle_message
handle_header_read c stream =
    if ltb 0 c.header_buffer.body_size then handle_body_read c stream else handle_message c stream

-- asyncWaitForMessage(), up to the handler that it ends in.
unfoldable pub async_wait_for_message : Connection → Bytes → Outcome (Arrival × Connection × Bytes)
unfolding handle_header_read
async_wait_for_message c stream =
    if ltb (length stream) header_size
    then done (disconnected, c, [])
    else handle_header_read (record c { header_buffer = header_at stream })
        (drop header_size stream)

-- sendMessage(): what is handed to async_write.
unfoldable pub send_message : Connection → Message → Outcome Connection
send_message c m = do bits ← to_bits m; done (record c { write_buffer = bits })

-- What the body buffer holds once a message has been read.
abbrev pub kept : Connection → Message → Bytes
kept c m = if ltb 0 (length (body m)) then body m else c.body_buffer

read_nothing : (s : Bytes) → read_at s 0 0 ≡ done []
unfolding read_at
read_nothing s = ground arith

-- A message without a body does not depend on what the buffer still holds.
from_bits_stale :
    (m : Message) (stale : Bytes)
    → ltb 0 (length (body m)) ≡ false
    → from_bits (header m) stale ≡ done m
from_bits_stale (dht_type []) stale e = unfold from_bits opcode body in rw (read_nothing stale)
from_bits_stale (dht_type (x ∷ t)) stale e = unfold body in absurd (ground arith)
from_bits_stale (profile j l p g) stale e = absurd (ground (arith, length-body-profile j l p g))
from_bits_stale (start d host eo so) stale e =
    absurd (ground (arith, length-body-start d host eo so))
from_bits_stale (report type value) stale e = absurd (ground (arith, length-body-report type value))
from_bits_stale finish stale e = unfold from_bits opcode body in refl

no_body : (b rest : Bytes) → ltb 0 (length b) ≡ false → b ++ rest ≡ rest
no_body [] rest e = refl
no_body (x ∷ b) rest e = absurd (ground arith)

-- Whatever its buffers hold, the connection hands the next sendable message of the stream to the
-- message handler, and leaves what follows it.
pub wait-wire :
    (c : Connection) (m : Message) (rest : Bytes)
    → IsSendable m
    → async_wait_for_message c (wire m ++ rest)
      ≡ done (arrived m, record c { header_buffer = header m; body_buffer = kept c m }, rest)
unfolding async_wait_for_message
wait-wire c m rest h =
    let hb = header_bytes (header m) in
    let eight = length-header_bytes (header m) in
    let long : ltb (length (hb ++ (body m ++ rest))) 8 ≡ false =
      ground (arith, length-append hb (body m ++ rest)) in
    let enough : ltb (length (body m ++ rest)) (length (body m)) ≡ false =
      ground (arith, length-append (body m) rest) in
    rw
      (
        append_assoc hb (body m) rest,
        long,
        header_at-wire m (body m ++ rest) h,
        drop-append_left hb (body m ++ rest) 8 (sym eight),
      )
      (elim (Bool-cases (ltb 0 (length (body m)))) [
        | inl e ↦
            rw
              (
                e,
                enough,
                take-append_left (body m) rest (length (body m)) refl,
                from_bits-body m h,
                drop-append_left (body m) rest (length (body m)) refl,
              )
              refl
        | inr e ↦ rw (e, from_bits_stale m c.body_buffer e, no_body (body m) rest e) refl
      ])
