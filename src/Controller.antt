-- ===== src/Controller.antt =====
-- The process that runs one node of the DHT: src/controller.
pub mod Receive
pub mod Utils
pub mod Profiles
pub mod DhtNode
pub mod Setup
pub mod NextEvent
pub mod Report
pub mod Handshake
pub mod Operations
pub mod Loop
pub mod Pipes
pub mod Network
pub mod Directories
pub mod Run
pub mod Wrappers
