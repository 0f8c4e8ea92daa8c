-- ===== src/Proxy/Released.antt =====
-- A server of electron/proxy-controller.js is released only after a stop that succeeded.
use usshtc.Prelude.{
  ℕ, suc, ◌≡◌, refl, ap, ◌∙◌, Bool, true, false, not, ◌&&◌, ◌||◌, List, [], ◌∷◌, Option, none, some,
  ◌==◌, if-P, arith,
}
use usshtc.Prelude.Text.{is_empty}
use usshtc.Proxy.State.{
  Reason, replace, cancelled_start, failed_start, Instance, starting, Task, starts, stops, Start,
  Phase, replacing, preparing, listening, ending, Controller, World, emit, set_current, on_current,
  notify, clear_timers, Reply,
}
use usshtc.Proxy.Sessions.{sample}
use usshtc.Proxy.Stopping.{stop_record, stop_failed, cancel_listen}
use usshtc.Proxy.Tasks.{
  reply, await, is_overtaken, replace_current, begin_start, begin_stop, begin_task, take_task,
  next_task, Outcome, stopped_well, stop_threw, server_made, started_well, started_false,
  start_threw, preparation_threw, install, create, end_failed, announce, open_for, listened,
  listen_failed, resume_task, resume,
}
use usshtc.Proxy.Reports.{on_report}
use usshtc.Proxy.Controller.{
  enqueue, begin, start_candidate, request_stop, stop, dispose, Event, start, start_candidate_call,
  activate_candidate, transaction_committed, stop_call, scope_set, cancel_pending_start, get_stats,
  disposes, sample_tick, traffic_tick, turn, resumes, reports, step,
}
use usshtc.Proxy.Balance.{removed_count, on_current-P}
use usshtc.Proxy.Frame.{
  view, Has, notify-Has, sample_history-Has, send_stats-Has, stop_record-Has, stop_failed-Has,
  cancel_listen-Has, open-Has,
}
use usshtc.Proxy.Frame.Reported.{on_report-Has}
use usshtc.Proxy.Overtaken.Calls.{activate_in-Has, committed-Has, set_scope-Has}

-- The event is the success of `server.stop`.
abbrev pub is_stop_success : Event → Bool
is_stop_success (resumes stopped_well) = true
is_stop_success _ = false

abbrev Released : ℕ → Controller → Type 0
Released n s = removed_count s.effects ≡ n

moved-Released : (n : ℕ) (s s' : Controller) → Has (view s) s' → Released n s → Released n s'
moved-Released n s s' h r = ap (λ v. v.4) h ∙ r

stopping-Released :
    (n : ℕ) (w : World) (reason : Reason) (s : Controller)
    → Released n s
    → Released n (stop_record w reason s)
stopping-Released n w reason s r =
    moved-Released n s (stop_record w reason s) (stop_record-Has (view s) w reason s refl) r

reply-Released : (n : ℕ) (a : Reply) (s : Controller) → Released n s → Released n (reply a s)
unfolding reply emit
reply-Released n a s r = r

replace_current-Released :
    (n : ℕ) (w : World) (t : Start) (o : Option Instance) (s : Controller)
    → Released n s
    → Released n (replace_current w t o s)
unfolding replace_current await reply emit
replace_current-Released n w t none s r = r
replace_current-Released n w t (some x) s r =
    if-P (Released n) (x.started && not x.cancelled && not x.candidate && not t.candidate) _ _
      (λ h. r) (λ h. stopping-Released n w replace s r)

begin_start-Released :
    (n : ℕ) (w : World) (t : Start) (s : Controller) → Released n s → Released n (begin_start w t s)
unfolding begin_start reply emit
begin_start-Released n w t s r =
    if-P (Released n) s.disposed _ _ (λ h. r)
      (λ h.
        if-P (Released n) (not (t.generation == s.start_generation)) _ _ (λ h'. r)
          (λ h'. replace_current-Released n w t s.current s r))

begin_stop-Released :
    (n : ℕ) (w : World) (reason : Reason) (o : Option Instance) (s : Controller)
    → Released n s
    → Released n (begin_stop w reason o s)
unfolding begin_stop reply emit await
begin_stop-Released n w reason none s r = r
begin_stop-Released n w reason (some x) s r = stopping-Released n w reason s r

take_task-Released :
    (n : ℕ) (w : World) (tasks : List Task) (s : Controller)
    → Released n s
    → Released n (take_task w tasks s)
unfolding take_task begin_task
take_task-Released n w [] s r = r
take_task-Released n w (starts t ∷ tasks) s r =
    begin_start-Released n w t (record s { tasks = tasks }) r
take_task-Released n w (stops reason ∷ tasks) s r =
    begin_stop-Released n w reason s.current (record s { tasks = tasks }) r

next_task-Released :
    (n : ℕ) (w : World) (phase : Option Phase) (s : Controller)
    → Released n s
    → Released n (next_task w phase s)
unfolding next_task
next_task-Released n w none s r = take_task-Released n w s.tasks s r
next_task-Released n w (some phase) s r = r

create-Released : (n : ℕ) (t : Start) (s : Controller) → Released n s → Released n (create t s)
unfolding create await install emit
create-Released n t s r =
    let started = await (listening t) (install t s) in
    moved-Released n started (notify starting started)
      (notify-Has (view started) starting started refl) r

listened-Released :
    (n : ℕ) (w : World) (t : Start) (result : Bool) (x : Instance) (s : Controller)
    → Released n s
    → Released n (listened w t result x s)
unfolding listened reply emit await
listened-Released n w t result x s r =
    if-P (Released n) (x.cancelled || is_overtaken t s || not result) _ _
      (λ h. stopping-Released n w cancelled_start s r)
      (λ h. moved-Released n s (open_for w t (announce x s)) (open-Has (view s) w t x s refl) r)

failed-Released : (n : ℕ) (s : Controller) → Released n s → Released n (stop_failed s)
failed-Released n s r = moved-Released n s (stop_failed s) (stop_failed-Has (view s) s refl) r

resume_task-Released :
    (n : ℕ) (w : World) (phase : Phase) (o : Outcome) (s : Controller)
    → is_stop_success (resumes o) ≡ false
    → Released n s
    → Released n (resume_task w phase o s)
unfolding resume_task reply emit end_failed listen_failed await
resume_task-Released n w (replacing t) stopped_well s h r = ground (arith, h)
resume_task-Released n w (replacing t) stop_threw s h r = failed-Released n s r
resume_task-Released n w (preparing t) server_made s h r =
    if-P (Released n) (is_overtaken t s) _ _ (λ e. r) (λ e. create-Released n t s r)
resume_task-Released n w (preparing t) (preparation_threw f) s h r =
    if-P (Released n) (is_overtaken t s) _ _ (λ e. r) (λ e. r)
resume_task-Released n w (listening t) started_well s h r =
    on_current-P (Released n) (listened w t true) s (λ x e. listened-Released n w t true x s r) r
resume_task-Released n w (listening t) started_false s h r =
    on_current-P (Released n) (listened w t false) s (λ x e. listened-Released n w t false x s r) r
resume_task-Released n w (listening t) start_threw s h r =
    on_current-P (Released n) (listen_failed w t) s (λ x e. stopping-Released n w failed_start s r)
      r
resume_task-Released n w (ending reason a) stopped_well s h r = ground (arith, h)
resume_task-Released n w (ending cancelled_start a) stop_threw s h r =
    stopping-Released n w failed_start (stop_failed s) (failed-Released n s r)
resume_task-Released n w (ending reason a) stop_threw s h r = failed-Released n s r
resume_task-Released n w _ _ s h r = r

resume-Released :
    (n : ℕ) (w : World) (phase : Option Phase) (o : Outcome) (s : Controller)
    → is_stop_success (resumes o) ≡ false
    → Released n s
    → Released n (resume w phase o s)
unfolding resume
resume-Released n w none o s h r = r
resume-Released n w (some phase) o s h r = resume_task-Released n w phase o s h r

stop-Released :
    (n : ℕ) (reason : Reason) (s : Controller) → Released n s → Released n (stop reason s)
unfolding stop enqueue set_current emit
stop-Released n reason s r =
    let later : Controller = record s { start_generation = suc s.start_generation } in
    let asked = on_current request_stop later in
    moved-Released n asked (cancel_listen asked) (cancel_listen-Has (view asked) asked refl)
      (on_current-P (Released n) request_stop later (λ x e. r) r)

dispose-Released : (n : ℕ) (s : Controller) → Released n s → Released n (dispose s)
unfolding dispose enqueue clear_timers
dispose-Released n s r =
    let later : Controller =
      clear_timers (record s { disposed = true; start_generation = suc s.start_generation }) in
    moved-Released n later (cancel_listen later) (cancel_listen-Has (view later) later refl) r

-- No event but the success of a stop releases a server.
pub step-released :
    (w : World) (e : Event) (s : Controller)
    → is_stop_success e ≡ false
    → removed_count (step w e s).effects ≡ removed_count s.effects
unfolding step begin enqueue sample start_candidate emit
step-released w (start config scope) s h = refl
step-released w (start_candidate_call config scope transaction has_material) s h =
    if-P (Released (removed_count s.effects)) (is_empty transaction || not has_material) _ _
      (λ e. refl) (λ e. refl)
step-released w (activate_candidate transaction) s h =
    ap (λ v. v.4) (activate_in-Has (view s) transaction s.current s refl)
step-released w (transaction_committed i answer) s h =
    ap (λ v. v.4) (committed-Has (view s) w answer i [] s.activations s refl)
step-released w (stop_call reason) s h = stop-Released (removed_count s.effects) reason s refl
step-released w (scope_set scope) s h = ap (λ v. v.4) (set_scope-Has (view s) scope s refl)
step-released w cancel_pending_start s h =
    let later : Controller = record s { start_generation = suc s.start_generation } in
    ap (λ v. v.4) (cancel_listen-Has (view later) later refl)
step-released w get_stats s h = ap (λ v. v.4) (sample_history-Has (view s) w s refl)
step-released w disposes s h = dispose-Released (removed_count s.effects) s refl
step-released w sample_tick s h =
    if-P (Released (removed_count s.effects)) s.sample_timer _ _
      (λ e. ap (λ v. v.4) (send_stats-Has (view s) w s refl)) (λ e. refl)
step-released w traffic_tick s h =
    let s' : Controller = record s { traffic_timer = false } in
    if-P (Released (removed_count s.effects)) s.traffic_timer _ _
      (λ e. ap (λ v. v.4) (send_stats-Has (view s) w s' refl)) (λ e. refl)
step-released w turn s h = next_task-Released (removed_count s.effects) w s.phase s refl
step-released w (resumes o) s h = resume-Released (removed_count s.effects) w s.phase o s h refl
step-released w (reports r) s h =
    ap (λ v. v.4)
      (on_current-P (Has (view s)) (on_report w r) s (λ x e. on_report-Has (view s) w r x s refl)
        refl)
