-- ===== src/Common.antt =====
-- src/common.h, and the functions of Boost that the program leaves its texts to.
use dhtperf.Prelude.{ℕ, List, Option, Bytes}

pub data DhtOperation : Type 0 where
  join leave put get : DhtOperation

-- boost::regex_match with a pattern on a text: none where it does not match, and else the texts of
-- the groups from matches[1] on. boost::lexical_cast<unsigned int>: none where it throws.
pub record Boost : Type 0 where
  pub regex_match : Bytes → Bytes → Option (List Bytes)
  pub lexical_cast : Bytes → Option ℕ
  pub split : Bytes → Bytes → List Bytes
  pub join : Bytes → List Bytes → Bytes
