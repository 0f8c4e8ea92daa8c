-- ===== src/Proxy/Balance/Tasks.antt =====
-- The accounts of electron/proxy-controller.js while its tasks start and stop servers.
use usshtc.Prelude.{
  ◌+◌, ◌≡◌, refl, ap, ◌∙◌, true, not, ◌&&◌, List, [], ◌∷◌, Option, none, some, ◌==◌, arith, if-P,
}
use usshtc.Proxy.State.{
  Reason, replace, shutting_down, Instance, stopping, stopped, Reply, done, cancelled,
  already_running, rejected, cookie_updated, Start, Task, starts, stops, Phase, replacing,
  preparing, ending, Controller, World, emit, on_option, on_current, notify, clear_timers,
}
use usshtc.Proxy.Sessions.{sample_history, finalize_remaining}
use usshtc.Proxy.Stopping.{
  refuse, set_reason, stop_record, release_in, release, stop_succeeded, cancel_listen_in,
  cancel_listen,
}
use usshtc.Proxy.Tasks.{
  reply, await, replace_current, begin_start, begin_stop, begin_task, take_task, next_task,
}
use usshtc.Proxy.Balance.{
  open_in, open_sessions, count, count_le, waits, finalized_count, IsBalanced, on_current-P,
  set_current-IsBalanced, notify-IsBalanced,
}
use usshtc.Proxy.Balance.Sessions.{sample_history-IsBalanced, finalize_remaining-IsBalanced}
use usshtc.Proxy.Balance.Cleared.{stopped-Cleared}

pub refuse-IsBalanced :
    (r : Instance) (s : Controller) → s.current ≡ some r → IsBalanced s → IsBalanced (refuse r s)
unfolding emit
refuse-IsBalanced r s e v =
    set_current-IsBalanced r (record r { cancelled = true }) s e (λ k. refl) (λ h. h) v

set_reason-IsBalanced :
    (reason : Reason) (r : Instance) (s : Controller)
    → s.current ≡ some r
    → IsBalanced s
    → IsBalanced (set_reason reason r s)
unfolding emit
set_reason-IsBalanced reason r s e v =
    set_current-IsBalanced r (record r { stop_reason = reason }) s e (λ k. refl) (λ h. h) v

pub stop_record-IsBalanced :
    (w : World) (reason : Reason) (s : Controller)
    → IsBalanced s
    → IsBalanced (stop_record w reason s)
unfolding stop_record clear_timers
stop_record-IsBalanced w reason s v =
    let refused = on_current-P IsBalanced refuse s (λ r e. refuse-IsBalanced r s e v) v in
    let cleared = clear_timers (notify stopping (on_current refuse s)) in
    let k =
      sample_history-IsBalanced w cleared
        (notify-IsBalanced stopping (on_current refuse s) refused) in
    on_current-P IsBalanced (set_reason reason) (sample_history w cleared)
      (λ r e. set_reason-IsBalanced reason r (sample_history w cleared) e k) k

-- A server with no session open is released.
release_some-IsBalanced :
    (o : Option Instance) (s : Controller)
    → s.current ≡ o
    → open_sessions s.current ≡ []
    → IsBalanced s
    → IsBalanced (on_option o release_in s) × ((on_option o release_in s).current ≡ none)
unfolding on_option release_in clear_timers emit
release_some-IsBalanced none s e h v = (v, e)
release_some-IsBalanced (some r) s e h (single, settled, waiting, distinct) =
    let counts : count s.current ≡ 1 = ap count e in
    (
      (
        omega arith,
        λ k. settled k ∙ ap (λ es. finalized_count k s.effects + open_in k es) h,
        omega arith,
        tt,
      ),
      refl,
    )

pub stop_succeeded-IsBalanced :
    (w : World) (reason : Reason) (s : Controller)
    → IsBalanced s
    → IsBalanced (stop_succeeded w reason s) × ((stop_succeeded w reason s).current ≡ none)
unfolding stop_succeeded release on_current
stop_succeeded-IsBalanced w reason s v =
    let s' = notify stopped (finalize_remaining w reason s) in
    release_some-IsBalanced s'.current s' refl (stopped-Cleared w reason stopped s) (
      notify-IsBalanced stopped (finalize_remaining w reason s)
        (finalize_remaining-IsBalanced w reason s v))

pub cancel_listen-IsBalanced : (s : Controller) → IsBalanced s → IsBalanced (cancel_listen s)
unfolding cancel_listen cancel_listen_in emit
cancel_listen-IsBalanced s v =
    on_current-P IsBalanced cancel_listen_in s
      (λ r e.
        if-P IsBalanced (r.started && not r.candidate) _ _ (λ t. v)
          (λ t. refuse-IsBalanced r s e v))
      v

pub reply-IsBalanced : (r : Reply) (s : Controller) → IsBalanced s → IsBalanced (reply r s)
unfolding reply emit
reply-IsBalanced r s (single, settled, waiting, distinct) =
    let most = count_le s.current in (single, settled, omega arith, distinct)

pub await-IsBalanced :
    (phase : Phase) (s : Controller)
    → waits (some phase) ≡ 0
    → IsBalanced s
    → IsBalanced (await phase s)
unfolding await
await-IsBalanced phase s h (single, settled, waiting, distinct) =
    let most = count_le s.current in (single, settled, omega arith, distinct)

pub prepare-IsBalanced :
    (t : Start) (s : Controller)
    → s.current ≡ none
    → IsBalanced s
    → IsBalanced (await (preparing t) s)
unfolding await
prepare-IsBalanced t s h (single, settled, waiting, distinct) =
    let counts : count s.current ≡ 0 = ap count h in (single, settled, omega arith, distinct)

replace_current-IsBalanced :
    (w : World) (t : Start) (o : Option Instance) (s : Controller)
    → s.current ≡ o
    → IsBalanced s
    → IsBalanced (replace_current w t o s)
unfolding replace_current emit
replace_current-IsBalanced w t none s e v = prepare-IsBalanced t s e v
replace_current-IsBalanced w t (some r) s e v =
    if-P IsBalanced (r.started && not r.cancelled && not r.candidate && not t.candidate) _ _
      (λ h. reply-IsBalanced already_running (emit (cookie_updated r.id) s) v)
      (λ h.
        await-IsBalanced (replacing t) (stop_record w replace s) refl
          (stop_record-IsBalanced w replace s v))

begin_start-IsBalanced :
    (w : World) (t : Start) (s : Controller) → IsBalanced s → IsBalanced (begin_start w t s)
unfolding begin_start
begin_start-IsBalanced w t s v =
    if-P IsBalanced s.disposed _ _ (λ h. reply-IsBalanced (rejected shutting_down) s v)
      (λ h.
        if-P IsBalanced (not (t.generation == s.start_generation)) _ _
          (λ h'. reply-IsBalanced cancelled s v)
          (λ h'. replace_current-IsBalanced w t s.current s refl v))

begin_stop-IsBalanced :
    (w : World) (reason : Reason) (o : Option Instance) (s : Controller)
    → IsBalanced s
    → IsBalanced (begin_stop w reason o s)
unfolding begin_stop
begin_stop-IsBalanced w reason none s v = reply-IsBalanced done s v
begin_stop-IsBalanced w reason (some r) s v =
    await-IsBalanced (ending reason done) (stop_record w reason s) refl
      (stop_record-IsBalanced w reason s v)

begin_task-IsBalanced :
    (w : World) (t : Task) (s : Controller) → IsBalanced s → IsBalanced (begin_task w t s)
unfolding begin_task
begin_task-IsBalanced w (starts t) s v = begin_start-IsBalanced w t s v
begin_task-IsBalanced w (stops reason) s v = begin_stop-IsBalanced w reason s.current s v

take_task-IsBalanced :
    (w : World) (tasks : List Task) (s : Controller)
    → IsBalanced s
    → IsBalanced (take_task w tasks s)
unfolding take_task
take_task-IsBalanced w [] s v = v
take_task-IsBalanced w (t ∷ tasks) s v = begin_task-IsBalanced w t (record s { tasks = tasks }) v

pub next_task-IsBalanced :
    (w : World) (phase : Option Phase) (s : Controller)
    → IsBalanced s
    → IsBalanced (next_task w phase s)
unfolding next_task
next_task-IsBalanced w none s v = take_task-IsBalanced w s.tasks s v
next_task-IsBalanced w (some phase) s v = v
