-- ===== src/Programs.antt =====
-- The programs dhtperf-master and dhtperf-controller: src/master/dhtperf-master.cpp and src/controller/dhtperf-controller.cpp.
pub mod Master
pub mod Controller
