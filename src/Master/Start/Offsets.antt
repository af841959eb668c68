-- ===== src/Master/Start/Offsets.antt =====
-- What the controllers read from the start messages.
use dhtperf.Prelude.{
  ℕ, ◌+◌, ◌%◌, ◌<◌, ◌≡◌, ◌≢◌, sym, ap, ◌∙◌, List, [], Bytes, some, get_elem?, length, ◌==◌,
  if◌then◌else◌, arith, done, append-nil, take, true,
}
use dhtperf.Protocol.{start, opcode, u16_mod, u32_mod}
use dhtperf.Protocol.Opcode
use dhtperf.Protocol.RoundTrip.{IsSendable}
use dhtperf.Controller.Receive.{get_next_message, get_next_message-wire}
use dhtperf.Master.Controllers.{Controller, after_sending}
use dhtperf.Master.Start.{entry_host, send_starts}
use dhtperf.Master.Start.Ports.{start_for, on_host, send_starts_lem, own_offset, own_offset_unique}

start_for-IsSendable :
    (duration : ℕ) (entry : Bytes) (before : List Controller) (c : Controller)
    → duration < u32_mod
    → length entry + 8 < u32_mod
    → IsSendable (start_for duration entry before c)
unfolding start_for
start_for-IsSendable duration entry before c hd he = (hd, ground arith, omega arith, omega arith)

-- A controller that has just been sent its start message reads it, and there is nothing behind it.
abbrev pub ReadsPort : ℕ → Controller → ℕ → Type 0
ReadsPort duration c port =
    (entry : Bytes) × (get_next_message Opcode.start c.connection.write_buffer
      ≡ done (start duration entry 0 port, []))

ReadsPort-start_for :
    (duration : ℕ) (entry : Bytes) (before : List Controller) (c : Controller)
    → duration < u32_mod
    → length entry + 8 < u32_mod
    → ReadsPort duration
        (after_sending (start_for duration entry before c) c)
        (on_host c.host before % u16_mod)
unfolding start_for after_sending opcode
ReadsPort-start_for duration entry before c hd he = (
  (if length before == 0 then [] else entry),
  ap (get_next_message Opcode.start) (sym (append-nil _))
      ∙ get_next_message-wire (start_for duration entry before c) []
          (start_for-IsSendable duration entry before c hd he),
)

-- If the duration has 32 bits and the address of controller 0 is shorter than 2 ^ 32 - 8 bytes,
-- sendStartMessages succeeds, and the controllers on one host get ports of their own: of two of
-- the first 65536 controllers with the same address, each reads the test's duration and a port
-- offset from the message that it has been sent, and the two offsets are different.
pub send_starts-ReadsPort :
    (duration : ℕ) (cs : List Controller) (i j : ℕ) (a b : Controller)
    → duration < u32_mod
    → length (entry_host cs) + 8 < u32_mod
    → get_elem? cs i ≡ some a
    → get_elem? cs j ≡ some b
    → a.host ≡ b.host
    → i < j
    → j < u16_mod
    → (cs' : List Controller) × (a' : Controller) × (b' : Controller) × (p : ℕ) × (q : ℕ)
      × (send_starts duration cs ≡ done cs')
      × (get_elem? cs' i ≡ some a')
      × (get_elem? cs' j ≡ some b')
      × ReadsPort duration a' p
      × ReadsPort duration b' q
      × (p ≢ q)
send_starts-ReadsPort duration cs i j a b hd he ea eb same lt small =
    let (cs', ran, all) = send_starts_lem duration cs he in
    let entry = entry_host cs in
    (
      cs',
      record (after_sending (start_for duration entry (take i cs) a) a) { waiting = true },
      record (after_sending (start_for duration entry (take j cs) b) b) { waiting = true },
      own_offset cs i a,
      own_offset cs j b,
      ran,
      all i a ea,
      all j b eb,
      ReadsPort-start_for duration entry (take i cs) a hd he,
      ReadsPort-start_for duration entry (take j cs) b hd he,
      own_offset_unique cs i j a b ea eb same lt small,
    )
