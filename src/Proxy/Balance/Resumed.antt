-- ===== src/Proxy/Balance/Resumed.antt =====
-- The accounts of electron/proxy-controller.js when a task goes on after it has waited.
use usshtc.Prelude.{
  ◌+◌, ◌≤◌, ◌≡◌, refl, ap, ◌∙◌, Bool, true, false, not, ◌||◌, Option, none, some, if◌then◌else◌,
  arith, if-P,
}
use usshtc.Proxy.State.{
  replace, cancelled_start, failed_start, Failure, proxy_start_failed, proxy_stop_failed, Instance,
  starting, running, failed, Reply, done, cancelled, rejected, Start, Phase, replacing, preparing,
  listening, ending, Controller, World, emit, set_current, clear_timers, changed,
}
use usshtc.Proxy.Sessions.{start_timers}
use usshtc.Proxy.Stopping.{stop_record, stop_succeeded, stop_failed}
use usshtc.Proxy.Tasks.{
  await, is_overtaken, Outcome, stopped_well, stop_threw, server_made, started_well, started_false,
  start_threw, preparation_threw, create, end_failed, announce, open_for, listened, listen_failed,
  end_with, resume_task, resume, install,
}
use usshtc.Proxy.Balance.{
  open_in, open_sessions, count, waits, finalized_count, IsBalanced, on_current-P,
  set_current-IsBalanced, notify-IsBalanced,
}
use usshtc.Proxy.Balance.Sessions.{send_stats-IsBalanced}
use usshtc.Proxy.Balance.Tasks.{
  stop_record-IsBalanced, stop_succeeded-IsBalanced, reply-IsBalanced, await-IsBalanced,
  prepare-IsBalanced,
}

none_of : (o : Option Instance) → count o ≤ 0 → o ≡ none
none_of none h = refl
none_of (some r) h = ground arith

install-IsBalanced :
    (t : Start) (s : Controller)
    → s.phase ≡ some (preparing t)
    → IsBalanced s
    → IsBalanced (await (listening t) (install t s))
unfolding install emit await
install-IsBalanced t s e (single, settled, waiting, distinct) =
    let waits_one : waits s.phase ≡ 1 = ap waits e in
    let empty : s.current ≡ none = none_of s.current (omega arith) in
    let counts : count s.current ≡ 0 = ap count empty in
    (
      omega arith,
      λ k. settled k ∙ ap (λ o. finalized_count k s.effects + open_in k (open_sessions o)) empty,
      omega arith,
      (tt, λ k. omega arith),
    )

-- A server is created only when there is none.
create-IsBalanced :
    (t : Start) (s : Controller)
    → s.phase ≡ some (preparing t)
    → IsBalanced s
    → IsBalanced (create t s)
unfolding create
create-IsBalanced t s e v =
    notify-IsBalanced starting (await (listening t) (install t s)) (install-IsBalanced t s e v)

end_failed-IsBalanced : (f : Failure) (s : Controller) → IsBalanced s → IsBalanced (end_failed f s)
unfolding end_failed emit
end_failed-IsBalanced f s v =
    reply-IsBalanced (rejected f) (emit (changed s.scope none (failed f)) s) v

announce-IsBalanced :
    (r : Instance) (s : Controller) → s.current ≡ some r → IsBalanced s → IsBalanced (announce r s)
unfolding announce
announce-IsBalanced r s e v =
    let r' : Instance = record r { started = true } in
    if-P IsBalanced r.started _ _ (λ h. v)
      (λ h.
        notify-IsBalanced (running r.config) (set_current r' s)
          (set_current-IsBalanced r r' s e (λ k. refl) (λ h. h) v))

open_for-IsBalanced :
    (w : World) (t : Start) (s : Controller) → IsBalanced s → IsBalanced (open_for w t s)
unfolding open_for start_timers clear_timers
open_for-IsBalanced w t s v =
    if-P IsBalanced t.candidate _ _ (λ h. v) (λ h. send_stats-IsBalanced w (start_timers s) v)

listened-IsBalanced :
    (w : World) (t : Start) (result : Bool) (r : Instance) (s : Controller)
    → s.current ≡ some r
    → IsBalanced s
    → IsBalanced (listened w t result r s)
unfolding listened
listened-IsBalanced w t result r s e v =
    if-P IsBalanced (r.cancelled || is_overtaken t s || not result) _ _
      (λ h.
        await-IsBalanced (ending cancelled_start cancelled) (stop_record w cancelled_start s) refl
          (stop_record-IsBalanced w cancelled_start s v))
      (λ h.
        reply-IsBalanced done (open_for w t (announce r s))
          (open_for-IsBalanced w t (announce r s) (announce-IsBalanced r s e v)))

listen_failed-IsBalanced :
    (w : World) (t : Start) (r : Instance) (s : Controller)
    → IsBalanced s
    → IsBalanced (listen_failed w t r s)
unfolding listen_failed
listen_failed-IsBalanced w t r s v =
    await-IsBalanced
      (ending failed_start
        (if r.cancelled || is_overtaken t s then cancelled else rejected proxy_start_failed))
      (stop_record w failed_start s) refl (stop_record-IsBalanced w failed_start s v)

end_with-IsBalanced : (r : Reply) (s : Controller) → IsBalanced s → IsBalanced (end_with r s)
unfolding end_with
end_with-IsBalanced (rejected f) s v = end_failed-IsBalanced f s v
end_with-IsBalanced r s v = reply-IsBalanced r s v

stop_failed-IsBalanced : (s : Controller) → IsBalanced s → IsBalanced (stop_failed s)
unfolding stop_failed
stop_failed-IsBalanced s v = notify-IsBalanced (failed proxy_stop_failed) s v

pub resume_task-IsBalanced :
    (w : World) (phase : Phase) (o : Outcome) (s : Controller)
    → s.phase ≡ some phase
    → IsBalanced s
    → IsBalanced (resume_task w phase o s)
unfolding resume_task
resume_task-IsBalanced w (replacing t) stopped_well s e v =
    let s' = stop_succeeded w replace s in
    let (k, empty) = stop_succeeded-IsBalanced w replace s v in
    if-P IsBalanced (is_overtaken t s') _ _ (λ h. reply-IsBalanced cancelled s' k)
      (λ h. prepare-IsBalanced t s' empty k)
resume_task-IsBalanced w (replacing t) stop_threw s e v =
    reply-IsBalanced (rejected proxy_stop_failed) (stop_failed s) (stop_failed-IsBalanced s v)
resume_task-IsBalanced w (preparing t) server_made s e v =
    if-P IsBalanced (is_overtaken t s) _ _ (λ h. reply-IsBalanced cancelled s v)
      (λ h. create-IsBalanced t s e v)
resume_task-IsBalanced w (preparing t) (preparation_threw f) s e v =
    if-P IsBalanced (is_overtaken t s) _ _ (λ h. reply-IsBalanced cancelled s v)
      (λ h. end_failed-IsBalanced f s v)
resume_task-IsBalanced w (listening t) started_well s e v =
    on_current-P IsBalanced (listened w t true) s (λ r e'. listened-IsBalanced w t true r s e' v) v
resume_task-IsBalanced w (listening t) started_false s e v =
    on_current-P IsBalanced (listened w t false) s (λ r e'. listened-IsBalanced w t false r s e' v)
      v
resume_task-IsBalanced w (listening t) start_threw s e v =
    on_current-P IsBalanced (listen_failed w t) s (λ r e'. listen_failed-IsBalanced w t r s v) v
resume_task-IsBalanced w (ending reason r) stopped_well s e v =
    let (k, empty) = stop_succeeded-IsBalanced w reason s v in
    end_with-IsBalanced r (stop_succeeded w reason s) k
resume_task-IsBalanced w (ending cancelled_start r) stop_threw s e v =
    await-IsBalanced (ending failed_start cancelled) (stop_record w failed_start (stop_failed s))
      refl (stop_record-IsBalanced w failed_start (stop_failed s) (stop_failed-IsBalanced s v))
resume_task-IsBalanced w (ending reason r) stop_threw s e v =
    reply-IsBalanced (rejected proxy_stop_failed) (stop_failed s) (stop_failed-IsBalanced s v)
resume_task-IsBalanced w _ _ s e v = v

pub resume-IsBalanced :
    (w : World) (phase : Option Phase) (o : Outcome) (s : Controller)
    → s.phase ≡ phase
    → IsBalanced s
    → IsBalanced (resume w phase o s)
unfolding resume
resume-IsBalanced w none o s e v = v
resume-IsBalanced w (some phase) o s e v = resume_task-IsBalanced w phase o s e v
