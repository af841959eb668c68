-- ===== src/Protocol/Decode.antt =====
-- src/protocol.cpp: Message::fromBits and the constructors that it calls.
use dhtperf.Prelude.{
  ℕ, ◌+◌, ◌-◌, ◌%◌, ◌^◌, [], ◌∷◌, Bytes, length, ltb, ◌==◌, if◌then◌else◌, Option, none, some,
  Outcome, done, exits, assert, read_at, ◌>>=◌, ◌>>◌,
}
use dhtperf.Protocol.{
  Message, MessageHeader, dht_type, profile, start, report, finish, u32_mod, size_mod,
}
use dhtperf.Protocol.Opcode
use dhtperf.Protocol.Words.{of_le_bytes}

unfoldable pub decode_dht_type : MessageHeader → Bytes → Outcome Message
decode_dht_type header body = do type ← read_at body 0 header.body_size; done (dht_type type)

-- int32_t to size_t: the sign is extended.
unfoldable pub size_of_int32 : ℕ → ℕ
size_of_int32 w = if ltb w (2 ^ 31) then w else w + size_mod - u32_mod

-- One of the four int32_t fields behind the cast (ProfileSizes*)&body[0].
unfoldable pub read_word : Bytes → ℕ → Outcome ℕ
read_word body off = do bytes ← read_at body off 4; done (of_le_bytes bytes)

-- `copied` is an unsigned int here, and wraps.
unfoldable pub decode_profile : MessageHeader → Bytes → Outcome Message
unfolding size_of_int32 read_word
decode_profile header body = do
  join_size ← read_word body 0
  leave_size ← read_word body 4
  put_size ← read_word body 8
  get_size ← read_word body 12
  let copied : ℕ = 16
  join ← read_at body copied (size_of_int32 join_size)
  let copied = (copied + join_size) % u32_mod
  leave ← read_at body copied (size_of_int32 leave_size)
  let copied = (copied + leave_size) % u32_mod
  put ← read_at body copied (size_of_int32 put_size)
  let copied = (copied + put_size) % u32_mod
  get ← read_at body copied (size_of_int32 get_size)
  let copied = (copied + get_size) % u32_mod
  assert (copied == header.body_size)
  done (profile join leave put get)

-- header.bodySize - copied is computed in size_t.
unfoldable pub decode_start : MessageHeader → Bytes → Outcome Message
unfolding read_word
decode_start header body = do
  duration ← read_word body 0
  entry_offset ← read_at body 4 2
  self_offset ← read_at body 6 2
  host ← read_at body 8 ((header.body_size + size_mod - 8) % size_mod)
  done (start duration host (of_le_bytes entry_offset) (of_le_bytes self_offset))

-- std::string::find(char), with the text before and after the first hit.
unfoldable pub find_separator : ℕ → Bytes → Option (Bytes × Bytes)
find_separator c [] = none
find_separator c (b ∷ bs) = if b == c then some ([], bs) else elim (find_separator c bs) [
  | none ↦ none
  | some (before, after) ↦ some (b ∷ before, after)
]

unfoldable pub decode_report : MessageHeader → Bytes → Outcome Message
unfolding find_separator
decode_report header body = elim (find_separator b' ' body) [
  | none ↦ exits 1
  | some (type, value) ↦ do assert (header.body_size == length body); done (report type value)
]

unfoldable pub decode_finish : MessageHeader → Bytes → Outcome Message
decode_finish header body = do assert (header.body_size == 0); done finish

-- The factory; an unknown opcode ends the process.
unfoldable pub from_bits : MessageHeader → Bytes → Outcome Message
unfolding decode_dht_type decode_profile decode_start decode_report decode_finish
from_bits header body =
    if header.opcode == Opcode.dht_type
    then decode_dht_type header body
    else if header.opcode == Opcode.profile
    then decode_profile header body
    else if header.opcode == Opcode.start
    then decode_start header body
    else if header.opcode == Opcode.report
    then decode_report header body
    else if header.opcode == Opcode.finish
    then decode_finish header body
    else exits 1
