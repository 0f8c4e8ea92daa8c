-- ===== src/Connection/Recovery.antt =====
-- electron/recovery-controller.js: the rounds of attempts that find out whether the portal can be
-- reached again. The parts: the context that a round is bound to, the controller's state and
-- cancellation, one probe, one round, and the whole controller as a step function over events.
pub mod Context
pub mod State
pub mod Probe
pub mod Round
pub mod Controller
pub mod Core
pub mod Valid
pub mod Attempts
pub mod Settled
pub mod Blocked
pub mod Exhausted
pub mod Retried
