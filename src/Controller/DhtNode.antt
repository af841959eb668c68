-- ===== src/Controller/DhtNode.antt =====
-- src/controller/DhtNode.cpp: make and the setters; portOffsetToPort of the classes under src/controller/dhtnodes.
use dhtperf.Prelude.{
  ℕ, ◌+◌, ◌*◌, ◌%◌, ◌<◌, ◌≢◌, [], Bytes, codes, Bool, false, str_eq, if◌then◌else◌, Outcome, done,
  exits, arith,
}
use dhtperf.Protocol.{u16_mod}

-- The class that make constructs; OwdhtshellWrapper has the name of its algorithm.
pub data Class : Type 0 where
  dummy_dht kaddemo_wrapper openchord_wrapper past_console_wrapper : Class
  owdhtshell_wrapper : Bytes → Class

pub record DhtNode : Type 0 where
  pub class : Class
  pub connected : Bool
  pub entry_point_host : Bytes
  pub entry_point_port : ℕ
  pub self_port : ℕ

-- The constructor DhtNode::DhtNode, for an object of a class.
unfoldable pub new_node : Class → DhtNode
new_node class = record {
  class = class;
  connected = false;
  entry_point_host = [];
  entry_point_port = 0;
  self_port = 0;
}

unfoldable pub make : Bytes → Outcome DhtNode
unfolding new_node
make type =
    if str_eq type (codes "dummy")
    then done (new_node dummy_dht)
    else if str_eq type (codes "kaddemo")
    then done (new_node kaddemo_wrapper)
    else if str_eq type (codes "openchord")
    then done (new_node openchord_wrapper)
    else if str_eq type (codes "owshellchord")
    then done (new_node (owdhtshell_wrapper (codes "Chord")))
    else if str_eq type (codes "owshellkad")
    then done (new_node (owdhtshell_wrapper (codes "Kademlia")))
    else if str_eq type (codes "owshellpastry")
    then done (new_node (owdhtshell_wrapper (codes "Pastry")))
    else if str_eq type (codes "pastconsole")
    then done (new_node past_console_wrapper)
    else exits 1

-- The result is cut to uint16_t. KaddemoWrapper needs two ports for each node.
unfoldable pub port_offset_to_port : Class → ℕ → ℕ
port_offset_to_port dummy_dht offset = offset
port_offset_to_port kaddemo_wrapper offset = (offset * 2 + 5000) % u16_mod
port_offset_to_port openchord_wrapper offset = (offset + 5000) % u16_mod
port_offset_to_port past_console_wrapper offset = (offset + 5000) % u16_mod
port_offset_to_port (owdhtshell_wrapper algorithm) offset = (offset + 5000) % u16_mod

unfoldable pub set_entry_point : Bytes → ℕ → DhtNode → DhtNode
unfolding port_offset_to_port
set_entry_point host port_offset n = record n {
  entry_point_host = host;
  entry_point_port = port_offset_to_port n.class port_offset;
}

unfoldable pub set_self_port_offset : ℕ → DhtNode → DhtNode
unfolding port_offset_to_port
set_self_port_offset port_offset n = record n {
  self_port = port_offset_to_port n.class port_offset;
}

-- How many ports from its own on a node uses.
abbrev pub ports_used : Class → ℕ
ports_used kaddemo_wrapper = 2
ports_used _ = 1

-- Nodes of one class with different port offsets below 30268 use disjoint ranges of ports: where each of them
-- sets its own port offset, no port of the first is a port of the second.
pub set_self_port_offset_disjoint :
    (n : DhtNode) (o p i j : ℕ)
    → o < 30268
    → p < 30268
    → o ≢ p
    → i < ports_used n.class
    → j < ports_used n.class
    → (set_self_port_offset o n).self_port + i ≢ (set_self_port_offset p n).self_port + j
unfolding set_self_port_offset port_offset_to_port
set_self_port_offset_disjoint n o p i j ho hp different hi hj clash = by_class n.class hi hj clash
  where
    by_class :
        (c : Class)
        → i < ports_used c
        → j < ports_used c
        → port_offset_to_port c o + i ≢ port_offset_to_port c p + j
    by_class dummy_dht hi hj clash = different (omega arith)
    by_class kaddemo_wrapper hi hj clash = different (omega arith)
    by_class openchord_wrapper hi hj clash = different (omega arith)
    by_class past_console_wrapper hi hj clash = different (omega arith)
    by_class (owdhtshell_wrapper _) hi hj clash = different (omega arith)
