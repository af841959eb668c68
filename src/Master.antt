-- ===== src/Master.antt =====
-- The process that drives a test: src/master.
pub mod Connection
pub mod Controllers
pub mod Start
pub mod Dispatch
pub mod Results
pub mod Workload
pub mod Run
