-- ===== src/Runner.antt =====
-- The library crate `runner` (runner/src).
pub mod Error
pub mod Ioapi
pub mod Proc
pub mod Tests
