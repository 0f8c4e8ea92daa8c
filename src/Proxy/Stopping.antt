-- ===== src/Proxy/Stopping.antt =====
-- electron/proxy-controller.js: `stopRecord` before and after `server.stop`, `release` and
-- `cancelListen`.
use usshtc.Prelude.{true, false, not, ◌&&◌, none, if◌then◌else◌}
use usshtc.Proxy.State.{
  Reason, proxy_stop_failed, Instance, stopping, stopped, failed, removed, stop_called, accepting,
  Controller, World, emit, set_current, on_current, notify, clear_timers,
}
use usshtc.Proxy.Sessions.{sample_history, finalize_remaining}

abbrev pub refuse : Instance → Controller → Controller
refuse r s = emit (accepting r.id false) (set_current (record r { cancelled = true }) s)

abbrev pub set_reason : Reason → Instance → Controller → Controller
set_reason reason r s = emit (stop_called r.id) (set_current (record r { stop_reason = reason }) s)

-- `stopRecord(record, reason)` until it waits for `server.stop`.
unfoldable pub stop_record : World → Reason → Controller → Controller
unfolding on_current set_current emit notify clear_timers sample_history
stop_record w reason s =
    on_current (set_reason reason)
      (sample_history w (clear_timers (notify stopping (on_current refuse s))))

unfoldable pub release_in : Instance → Controller → Controller
unfolding clear_timers emit
release_in r s = emit (removed r.id) (record (clear_timers s) { current = none })

unfoldable pub release : Controller → Controller
unfolding on_current release_in
release s = on_current release_in s

-- `server.stop` has succeeded, or failed: the server is kept until a later stop succeeds.
unfoldable pub stop_succeeded : World → Reason → Controller → Controller
unfolding finalize_remaining notify release
stop_succeeded w reason s = release (notify stopped (finalize_remaining w reason s))

unfoldable pub stop_failed : Controller → Controller
unfolding notify
stop_failed s = notify (failed proxy_stop_failed) s

unfoldable pub cancel_listen_in : Instance → Controller → Controller
unfolding emit set_current
cancel_listen_in r s =
    if r.started && not r.candidate then s else emit (stop_called r.id) (refuse r s)

unfoldable pub cancel_listen : Controller → Controller
unfolding on_current cancel_listen_in
cancel_listen s = on_current cancel_listen_in s
