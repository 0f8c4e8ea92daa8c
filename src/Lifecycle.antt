-- ===== src/Lifecycle.antt =====
-- The controllers of the main process that decide when the proxy may run and how the program ends.
pub mod Shutdown
pub mod Auth
mod Tests
