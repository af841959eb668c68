-- ===== src/Metrics.antt =====
-- src/metrics: what the nodes measure, and what the master makes of it.
pub mod Statistics
pub mod Latency
pub mod Streams
pub mod NodesStatus
pub mod SuccessRate
