-- ===== src/Proxy/Tasks.antt =====
-- electron/proxy-controller.js: `begin` and the other tasks of the queue `lifecycle`, one at a time.
use usshtc.Prelude.{
  suc, Bool, true, false, not, ◌&&◌, ◌||◌, List, [], ◌∷◌, Option, none, some, if◌then◌else◌, ◌==◌,
}
use usshtc.Proxy.State.{
  Reason, proxy_stop, replace, cancelled_start, failed_start, Failure, shutting_down,
  proxy_start_failed, proxy_stop_failed, Instance, starting, running, failed, Reply, done,
  cancelled, already_running, rejected, created, cookie_updated, changed, replied, Start, Task,
  starts, stops, Phase, replacing, preparing, listening, ending, Controller, World, emit,
  set_current, on_current, notify,
}
use usshtc.Proxy.Sessions.{send_stats, start_timers}
use usshtc.Proxy.Stopping.{stop_record, stop_succeeded, stop_failed}

-- The task in progress has ended.
unfoldable pub reply : Reply → Controller → Controller
unfolding emit
reply r s = emit (replied r) (record s { phase = none })

unfoldable pub await : Phase → Controller → Controller
await phase s = record s { phase = some phase }

-- `disposed || generation !== startGeneration`
unfoldable pub is_overtaken : Start → Controller → Bool
is_overtaken t s = s.disposed || not (t.generation == s.start_generation)

unfoldable pub replace_current : World → Start → Option Instance → Controller → Controller
unfolding await stop_record emit reply
replace_current w t none s = await (preparing t) s
replace_current w t (some r) s =
    if r.started && not r.cancelled && not r.candidate && not t.candidate
    then reply already_running (emit (cookie_updated r.id) s)
    else await (replacing t) (stop_record w replace s)

unfoldable pub begin_start : World → Start → Controller → Controller
unfolding reply replace_current
begin_start w t s =
    if s.disposed
    then reply (rejected shutting_down) s
    else if not (t.generation == s.start_generation)
    then reply cancelled s
    else replace_current w t s.current s

unfoldable pub begin_stop : World → Reason → Option Instance → Controller → Controller
unfolding reply await stop_record
begin_stop w reason none s = reply done s
begin_stop w reason (some r) s = await (ending reason done) (stop_record w reason s)

unfoldable pub begin_task : World → Task → Controller → Controller
unfolding begin_start begin_stop
begin_task w (starts t) s = begin_start w t s
begin_task w (stops reason) s = begin_stop w reason s.current s

unfoldable pub take_task : World → List Task → Controller → Controller
unfolding begin_task
take_task w [] s = s
take_task w (t ∷ tasks) s = begin_task w t (record s { tasks = tasks })

-- A task begins when the one before has ended.
unfoldable pub next_task : World → Option Phase → Controller → Controller
unfolding take_task
next_task w none s = take_task w s.tasks s
next_task w (some _) s = s

-- How a wait ends: `server.stop`; the keys and `createServer`; `server.start`, which may return false.
pub data Outcome : Type 0 where
  stopped_well stop_threw server_made started_well started_false start_threw : Outcome
  preparation_threw : Failure → Outcome

-- A server that has been created is the current one.
unfoldable pub install : Start → Controller → Controller
unfolding emit
install t s = emit (created s.instances) (record s {
  current = some (record {
    id = s.instances;
    config = t.config;
    scope = t.scope;
    history_profile = t.scope.profile_id;
    candidate = t.candidate;
    transaction = t.transaction;
    cancelled = false;
    started = false;
    stop_requested = false;
    history_closed = false;
    stop_reason = proxy_stop;
    sessions = [];
  });
  instances = suc s.instances;
  last_stats_at = none;
})

unfoldable pub create : Start → Controller → Controller
unfolding install notify await
create t s = notify starting (await (listening t) (install t s))

unfoldable pub end_failed : Failure → Controller → Controller
unfolding emit reply
end_failed f s = reply (rejected f) (emit (changed s.scope none (failed f)) s)

unfoldable pub announce : Instance → Controller → Controller
unfolding set_current notify
announce r s =
    if r.started
    then s
    else let r' = record r { started = true } in notify (running r'.config) (set_current r' s)

unfoldable pub open_for : World → Start → Controller → Controller
unfolding start_timers send_stats
open_for w t s = if t.candidate then s else send_stats w (start_timers s)

unfoldable pub listened : World → Start → Bool → Instance → Controller → Controller
unfolding is_overtaken await stop_record announce open_for reply on_current
listened w t result r s =
    if r.cancelled || is_overtaken t s || not result
    then await (ending cancelled_start cancelled) (stop_record w cancelled_start s)
    else reply done (open_for w t (announce r s))

unfoldable pub listen_failed : World → Start → Instance → Controller → Controller
unfolding is_overtaken await stop_record
listen_failed w t r s =
    let answer =
      if r.cancelled || is_overtaken t s then cancelled else rejected proxy_start_failed in
    await (ending failed_start answer) (stop_record w failed_start s)

-- The reply after a stop; the observer hears of a start that failed.
unfoldable pub end_with : Reply → Controller → Controller
unfolding end_failed reply
end_with (rejected f) s = end_failed f s
end_with r s = reply r s

unfoldable pub resume_task : World → Phase → Outcome → Controller → Controller
unfolding reply await is_overtaken stop_succeeded stop_failed create end_failed on_current listened
    listen_failed end_with
resume_task w (replacing t) stopped_well s =
    let s' = stop_succeeded w replace s in
    if is_overtaken t s' then reply cancelled s' else await (preparing t) s'
resume_task w (replacing t) stop_threw s = reply (rejected proxy_stop_failed) (stop_failed s)
resume_task w (preparing t) server_made s =
    if is_overtaken t s then reply cancelled s else create t s
resume_task w (preparing t) (preparation_threw f) s =
    if is_overtaken t s then reply cancelled s else end_failed f s
resume_task w (listening t) started_well s = on_current (listened w t true) s
resume_task w (listening t) started_false s = on_current (listened w t false) s
resume_task w (listening t) start_threw s = on_current (listen_failed w t) s
resume_task w (ending reason r) stopped_well s = end_with r (stop_succeeded w reason s)
resume_task w (ending cancelled_start r) stop_threw s =
    await (ending failed_start cancelled) (stop_record w failed_start (stop_failed s))
resume_task w (ending reason r) stop_threw s = reply (rejected proxy_stop_failed) (stop_failed s)
resume_task w _ _ s = s

unfoldable pub resume : World → Option Phase → Outcome → Controller → Controller
unfolding resume_task
resume w none o s = s
resume w (some phase) o s = resume_task w phase o s
