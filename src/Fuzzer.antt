-- ===== src/Fuzzer.antt =====
-- The fuzz tester (runner/src/bin/fuzzer).
pub mod History
pub mod Stats
pub mod Outside
pub mod Random
pub mod Loop
pub mod Main
pub mod Samples
pub mod Tests
