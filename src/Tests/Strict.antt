-- ===== src/Tests/Strict.antt =====
-- A report as it arrives, and the message in it.
use dhtperf.Prelude.{◌≡◌, refl, codes, arith}
use dhtperf.Protocol.{MessageHeader, report, opcode}
use dhtperf.Protocol.Wire.{body}
use dhtperf.Protocol.Decode.{from_bits, decode_report, find_separator}
use dhtperf.Protocol.Strictness.{from_bits-body_inv}

abbrev report_header : MessageHeader
report_header = record { opcode = 4; body_size = 5 }

from_bits-body_inv_example :
    (body (report (codes "A") (codes "b c")) ≡ codes "A b c")
    × (opcode (report (codes "A") (codes "b c")) ≡ 4)
unfolding from_bits decode_report find_separator
from_bits-body_inv_example =
    from_bits-body_inv report_header (codes "A b c") (report (codes "A") (codes "b c"))
      (record {
        bytes = (omega arith, (omega arith, (omega arith, (omega arith, (omega arith, tt)))));
        sized = refl;
        word = omega arith;
      })
      refl
