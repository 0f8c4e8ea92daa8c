-- ===== src/Connection.antt =====
-- The services that watch the connection to the portal: electron/recovery-controller.js,
-- electron/health-probe-service.js, electron/token-validation-service.js and
-- electron/portal-preflight.js. Timers, sockets and requests are the environment: each of their
-- answers is an event, and what the services publish is kept in a list.
pub mod Codes
pub mod Preflight
pub mod Recovery
pub mod Validation
pub mod Health
pub mod Tests
