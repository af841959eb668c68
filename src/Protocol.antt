-- ===== src/Protocol.antt =====
-- src/protocol.h: opcodes, the message header, and the classes of messages.
-- A word is the number of its bit pattern, so an opcodeType (int32_t) is below 2 ^ 32 as well.
pub mod Words
pub mod Opcode
pub mod Encode
pub mod Decode
pub mod Wire
pub mod RoundTrip
pub mod Strictness
pub mod Stream
use dhtperf.Prelude.{ℕ, ◌^◌, ◌<◌, ◌++◌, Bytes}
use Words.{le_bytes}

abbrev pub u16_mod : ℕ
u16_mod = 2 ^ 16

abbrev pub u32_mod : ℕ
u32_mod = 2 ^ 32

abbrev pub size_mod : ℕ
size_mod = 2 ^ 64

abbrev pub report_and_finish_timeout : ℕ
report_and_finish_timeout = 90

pub record MessageHeader : Type 0 where
  pub opcode : ℕ
  pub body_size : ℕ

abbrev pub header_size : ℕ
header_size = 8

-- The bytes of a MessageHeader in memory, the least significant byte of a word first.
unfoldable pub header_bytes : MessageHeader → Bytes
header_bytes header = le_bytes 4 header.opcode ++ le_bytes 4 header.body_size

-- A constructor for each class derived from Message, with its members.
pub data Message : Type 0 where
  dht_type : Bytes → Message
  profile : Bytes → Bytes → Bytes → Bytes → Message
  start : ℕ → Bytes → ℕ → ℕ → Message
  report : Bytes → Bytes → Message
  finish : Message

-- Message::opcode()
unfoldable pub opcode : Message → ℕ
opcode (dht_type type) = Opcode.dht_type
opcode (profile join leave put get) = Opcode.profile
opcode (start duration host entry_offset self_offset) = Opcode.start
opcode (report type value) = Opcode.report
opcode finish = Opcode.finish
