-- ===== src/History.antt =====
-- electron/session-history-store.js.
pub mod Records
pub mod Size
pub mod Prune
pub mod Store
pub mod Calls
pub mod Loading
pub mod Tests
