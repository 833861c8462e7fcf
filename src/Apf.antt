-- ===== src/Apf.antt =====
-- src/apf: the counters that estimate how many blocks a thread will need.
pub mod Histogram
pub mod Liveness
pub mod Trace
pub mod Reuse
pub mod Tuner
mod Tests
