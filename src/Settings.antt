-- ===== src/Settings.antt =====
-- shared/settings-schema.mjs.
pub mod Clean
pub mod Host
pub mod Rules
pub mod Patch
pub mod Tests
