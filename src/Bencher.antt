-- ===== src/Bencher.antt =====
-- runner/src/bin/bencher: the translation of YCSB output, and the statistics.
pub mod Ycsb
pub mod Stats
pub mod Feeder
pub mod Launch
pub mod Tests
