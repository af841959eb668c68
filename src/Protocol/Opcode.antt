-- ===== src/Protocol/Opcode.antt =====
-- src/protocol.h: namespace opcode.
use dhtperf.Prelude.{ℕ}

abbrev pub dht_type : ℕ
dht_type = 1

abbrev pub profile : ℕ
profile = 2

abbrev pub start : ℕ
start = 3

abbrev pub report : ℕ
report = 4

abbrev pub finish : ℕ
finish = 5
