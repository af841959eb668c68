-- ===== src/Protocol/Encode.antt =====
-- src/protocol.cpp: the toBits methods. Each allocates a vector of zeros and copies the parts into
-- it at a running offset. `copied` and `size` count bytes in memory, and stay below 2 ^ 64.
use dhtperf.Prelude.{
  ℕ, ◌+◌, ◌%◌, ◌++◌, [], ◌∷◌, Bytes, length, replicate, ◌==◌, Outcome, done, assert, memcpy, ◌>>=◌,
  ◌>>◌,
}
use dhtperf.Protocol.{
  Message, MessageHeader, dht_type, profile, start, report, finish, opcode, header_bytes,
  header_size, u32_mod,
}
use dhtperf.Protocol.Words.{le_bytes}

-- Assigned from size_t, so the size is cut to 32 bits.
unfoldable pub header_of : Message → ℕ → MessageHeader
header_of m size = record { opcode = opcode m; body_size = size % u32_mod }

-- std::vector<char> bits(headerSize + header.bodySize, 0)
unfoldable pub zeros : MessageHeader → Bytes
zeros header = replicate (header_size + header.body_size) 0

unfoldable pub dht_type_bits : Bytes → Outcome Bytes
unfolding header_of zeros
dht_type_bits type = do
  let header = header_of (dht_type type) (length type)
  bits ← memcpy (zeros header) 0 (header_bytes header)
  memcpy bits header_size type

-- ProfileSizes has four int32_t, each assigned from a size_t.
unfoldable pub profile_sizes : Bytes → Bytes → Bytes → Bytes → Bytes
profile_sizes join leave put get =
    le_bytes 4 (length join % u32_mod)
    ++ (le_bytes 4 (length leave % u32_mod)
        ++ (le_bytes 4 (length put % u32_mod) ++ le_bytes 4 (length get % u32_mod)))

unfoldable pub profile_bits : Bytes → Bytes → Bytes → Bytes → Outcome Bytes
unfolding header_of zeros
profile_bits join leave put get = do
  let header =
      header_of (profile join leave put get)
        (16 + length join + length leave + length put + length get)
  let copied = header_size
  bits ← memcpy (zeros header) 0 (header_bytes header)
  bits ← memcpy bits copied (profile_sizes join leave put get)
  let copied = copied + 16
  bits ← memcpy bits copied join
  let copied = copied + length join
  bits ← memcpy bits copied leave
  let copied = copied + length leave
  bits ← memcpy bits copied put
  let copied = copied + length put
  bits ← memcpy bits copied get
  let copied = copied + length get
  assert (copied == header_size + header.body_size)
  done bits

unfoldable pub start_bits : ℕ → Bytes → ℕ → ℕ → Outcome Bytes
unfolding header_of zeros
start_bits duration host entry_offset self_offset = do
  let header = header_of (start duration host entry_offset self_offset) (4 + 2 + 2 + length host)
  bits ← memcpy (zeros header) 0 (header_bytes header)
  let copied = header_size
  bits ← memcpy bits copied (le_bytes 4 duration)
  let copied = copied + 4
  bits ← memcpy bits copied (le_bytes 2 entry_offset)
  let copied = copied + 2
  bits ← memcpy bits copied (le_bytes 2 self_offset)
  let copied = copied + 2
  bits ← memcpy bits copied host
  let copied = copied + length host
  assert (copied == header_size + header.body_size)
  done bits

unfoldable pub report_bits : Bytes → Bytes → Outcome Bytes
unfolding header_of zeros
report_bits type value = do
  let header = header_of (report type value) (length type + length value + 1)
  bits ← memcpy (zeros header) 0 (header_bytes header)
  let copied = header_size
  bits ← memcpy bits copied type
  let copied = copied + length type
  bits ← memcpy bits copied (b' ' ∷ [])
  let copied = copied + 1
  bits ← memcpy bits copied value
  let copied = copied + length value
  assert (copied == header_size + header.body_size)
  done bits

unfoldable pub finish_bits : Outcome Bytes
unfolding header_of zeros
finish_bits = do let header = header_of finish 0; memcpy (zeros header) 0 (header_bytes header)

-- The virtual method toBits().
unfoldable pub to_bits : Message → Outcome Bytes
unfolding dht_type_bits profile_bits start_bits report_bits finish_bits
to_bits (dht_type type) = dht_type_bits type
to_bits (profile join leave put get) = profile_bits join leave put get
to_bits (start duration host entry_offset self_offset) =
    start_bits duration host entry_offset self_offset
to_bits (report type value) = report_bits type value
to_bits finish = finish_bits
