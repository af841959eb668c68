-- ===== src/Tests/Messages.antt =====
-- Messages between the master and a controller.
use dhtperf.Prelude.{◌++◌, [], ◌≡◌, codes, replicate, arith, done}
use dhtperf.Protocol.{Message, dht_type, profile, start, finish, opcode, header_bytes}
use dhtperf.Protocol.Opcode
use dhtperf.Protocol.Encode.{to_bits}
use dhtperf.Protocol.Decode.{from_bits}
use dhtperf.Protocol.Wire.{body, header, wire, to_bits-wire, length-body-start}
use dhtperf.Protocol.RoundTrip.{IsSendable, from_bits-body}
use dhtperf.Controller.Receive.{get_next_message, get_next_message-wire, get_next_message_truncated}
use dhtperf.Master.Connection.{Connection, arrived, async_wait_for_message, kept, wait-wire}

abbrev texts : Message
texts = profile (codes "Now") (codes "None") (codes "Exact 1 k v") (codes "Exact 2 k")

abbrev second_start : Message
second_start = start 60 (codes "10.0.0.1") 0 1

texts-IsSendable : IsSendable texts
texts-IsSendable = (omega arith, omega arith, omega arith, omega arith, omega arith)

second_start-IsSendable : IsSendable second_start
second_start-IsSendable = (omega arith, omega arith, omega arith, omega arith)

from_bits-body_example : from_bits (header texts) (body texts) ≡ done texts
from_bits-body_example = from_bits-body texts texts-IsSendable

to_bits-wire_example : to_bits second_start ≡ done (wire second_start)
to_bits-wire_example =
    to_bits-wire second_start (omega (arith, length-body-start 60 (codes "10.0.0.1") 0 1))

get_next_message-wire_example :
    get_next_message Opcode.start (wire second_start ++ wire finish)
    ≡ done (second_start, wire finish)
unfolding opcode
get_next_message-wire_example =
    get_next_message-wire second_start (wire finish) second_start-IsSendable

get_next_message_truncated_example :
    get_next_message Opcode.dht_type
      (header_bytes (record { opcode = Opcode.dht_type; body_size = 5 }) ++ codes "past")
    ≡ done (dht_type (codes "past" ++ replicate 1 0), [])
get_next_message_truncated_example =
    get_next_message_truncated (codes "past") 1 (omega arith) (omega arith)

-- The buffers hold an earlier report.
abbrev used_connection : Connection
used_connection = record {
  header_buffer = record { opcode = 4; body_size = 3 };
  body_buffer = codes "A b";
  write_buffer = [];
}

wait-wire_example :
    async_wait_for_message used_connection (wire finish ++ codes "rest")
    ≡ done (
      arrived finish,
      record used_connection {
        header_buffer = header finish;
        body_buffer = kept used_connection finish;
      },
      codes "rest",
    )
wait-wire_example = wait-wire used_connection finish (codes "rest") tt
