-- ===== src/Tests.antt =====
-- Tests: concrete messages, workloads, masters and queues, and the theorems at them.
mod Messages
mod Starts
mod Masters
mod Workloads
mod Queues
mod Reports
mod Schedules
mod Numbers
mod Handshakes
mod Draws
mod Latencies
mod Results
mod Loops
mod Services
mod Wrapped
mod Runs
mod Kaddemo
mod Forks
mod Strict
