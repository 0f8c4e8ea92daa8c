-- ===== src/Lifecycle/Shutdown.antt =====
-- electron/shutdown-coordinator.js. The callbacks, the promise of `stop` and the timer are the
-- environment: their effects arrive as events, and the calls of `exit` are kept in a list.
pub mod Exits
use usshtc.Prelude.{
  ℕ, zero, suc, Bool, true, false, not, ◌&&◌, ◌||◌, List, [], ◌∷◌, ◌++◌, max, if◌then◌else◌,
}
use usshtc.Prelude.Dynamic.{Value, integer, pos, negsuc}

pub record Coordinator : Type 0 where
  pub started : Bool
  -- `shutdownPromise !== null`
  pub promised : Bool
  pub exit_code : ℕ
  pub exit_requested : Bool
  -- the force timer is set and has neither fired nor been cleared
  pub armed : Bool
  -- the promise of `stop` has settled
  pub settled : Bool
  -- how often `onPrepare` was called
  pub prepared : ℕ
  -- the codes that `exit` was called with, the first one last
  pub exits : List ℕ

abbrev pub initial : Coordinator
initial = record {
  started = false;
  promised = false;
  exit_code = 0;
  exit_requested = false;
  armed = false;
  settled = false;
  prepared = 0;
  exits = [];
}

-- How the promise of `stop` ends: `result.ok === false` and a rejection are cleanup errors.
pub data Stopped : Type 0 where
  clean not_ok rejected : Stopped

-- `request` says whether `onPrepare` would throw; the other two are the promise and the timer.
pub data Event : Type 0 where
  request : Value → Bool → Event
  settle : Stopped → Event
  fire : Event

exit_once : ℕ → Coordinator → Coordinator
exit_once code c =
    if c.exit_requested then c else record c { exit_requested = true; exits = code ∷ c.exits }

report_cleanup_error : Coordinator → Coordinator
report_cleanup_error c = record c { exit_code = max c.exit_code 1 }

-- `Number.isInteger(code) && code > 0 ? code : 0`.
unfoldable pub normalized : Value → ℕ
normalized (integer (pos n)) = n
normalized (integer (negsuc n)) = 0
normalized _ = 0

prepare : Bool → Coordinator → Coordinator
unfolding report_cleanup_error
prepare throws c =
    if c.started
    then c
    else (let c' = record c { started = true; prepared = suc c.prepared } in
        if throws then report_cleanup_error c' else c')

on_request : Value → Bool → Coordinator → Coordinator
unfolding normalized prepare
on_request code throws c =
    let ready = prepare throws (record c { exit_code = max c.exit_code (normalized code) }) in
    if ready.promised then ready else record ready { promised = true; armed = true }

after_stop : Stopped → Coordinator → Coordinator
unfolding report_cleanup_error
after_stop clean c = c
after_stop not_ok c = report_cleanup_error c
after_stop rejected c = report_cleanup_error c

-- The promise settles once, if it is there; `finally` clears the timer and exits.
on_settle : Stopped → Coordinator → Coordinator
unfolding after_stop exit_once
on_settle outcome c =
    if c.promised && not c.settled
    then (let c' = after_stop outcome c in
        exit_once c'.exit_code (record c' { armed = false; settled = true }))
    else c

-- The timer fires once, if it is set.
on_fire : Coordinator → Coordinator
unfolding exit_once
on_fire c = if c.armed then exit_once (max c.exit_code 1) (record c { armed = false }) else c

pub step : Event → Coordinator → Coordinator
unfolding on_request on_settle on_fire
step (request code throws) c = on_request code throws c
step (settle outcome) c = on_settle outcome c
step fire c = on_fire c

pub run : List Event → Coordinator → Coordinator
unfolding step
run [] c = c
run (e ∷ events) c = run events (step e c)
