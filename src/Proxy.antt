-- ===== src/Proxy.antt =====
-- electron/proxy-controller.js: the one server that runs, its sessions in the history, and the tasks
-- that start and stop it in turn. The server, the key provider, the clock and the observers are the
-- environment; lines of the log are left out.
pub mod State
pub mod Sessions
pub mod Stopping
pub mod Tasks
pub mod Reports
pub mod Controller
pub mod Balance
pub mod Frame
pub mod Overtaken
pub mod Released
pub mod Tests
