-- ===== src/Window.antt =====
-- The window's own calculations: src/lib/traffic.js and their use by src/contexts/RuntimeContext.jsx.
pub mod Traffic
