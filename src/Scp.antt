-- ===== src/Scp.antt =====
-- electron/scp: the SCP server side that runs over the portal's file API.
pub mod Glob
pub mod Command
pub mod Session
pub mod Protocol
pub mod Upload
