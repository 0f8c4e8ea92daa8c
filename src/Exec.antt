-- ===== src/Exec.antt =====
-- electron/exec-codec.js: how a remote command is sent, and how its framed output is read.
pub mod Quote
pub mod Base64
pub mod Parser
