-- ===== src/Proxy/Overtaken.antt =====
-- A stop in electron/proxy-controller.js overtakes every start before it.
pub mod Resumed
pub mod Calls
pub mod Runs
use usshtc.Prelude.{
  ℕ, suc, ◌+◌, ◌≤◌, ◌<◌, ◌≡◌, refl, sym, ap, ◌∙◌, Bool, true, false, not, ◌&&◌, ◌||◌, List, [], ◌∷◌,
  ◌++◌, Option, none, some, if◌then◌else◌, ◌==◌, arith, if-P, ==_refl,
}
use mathlib.Core.Path.{subst}
use usshtc.Proxy.State.{
  Reason, replace, cancelled_start, failed_start, Failure, shutting_down, proxy_start_failed,
  proxy_stop_failed, Instance, starting, Reply, done, cancelled, already_running, rejected,
  cookie_updated, Start, Task, starts, stops, Phase, replacing, preparing, listening, ending,
  Controller, World, emit, on_current, notify, failed, changed,
}
use usshtc.Proxy.Stopping.{stop_record, stop_succeeded, stop_failed}
use usshtc.Proxy.Tasks.{
  reply, await, is_overtaken, replace_current, begin_start, begin_stop, begin_task, take_task,
  next_task, Outcome, stopped_well, stop_threw, server_made, started_well, started_false,
  start_threw, preparation_threw, install, create, end_failed, announce, open_for, listened,
  listen_failed, end_with, resume_task, resume,
}
use usshtc.Proxy.Balance.{created_count, on_current-P}
use usshtc.Proxy.Frame.{
  View, view, Has, notify-Has, stop_record-Has, stop_failed-Has, open-Has, Keeps,
}

abbrev pub IsBelow : ℕ → Task → Type 0
IsBelow g (starts t) = t.generation < g
IsBelow g (stops reason) = Unit

abbrev pub AllBelow : ℕ → List Task → Type 0
AllBelow g [] = Unit
AllBelow g (t ∷ tasks) = IsBelow g t × AllBelow g tasks

abbrev pub PhaseBelow : ℕ → Option Phase → Type 0
PhaseBelow g (some (replacing t)) = t.generation < g
PhaseBelow g (some (preparing t)) = t.generation < g
PhaseBelow g _ = Unit

abbrev pub limit : Bool → ℕ → ℕ
limit true g = g
limit false g = suc g

-- No start that waits for its server is of a later generation than that of the controller; after a stop
-- it is of an earlier one, and so many servers have been created.
abbrev pub Past : Bool → ℕ → View → Type 0
Past after n (tasks, phase, g, created, _) =
    AllBelow (limit after g) tasks × PhaseBelow (limit after g) phase × (after ≡ true → created ≡ n)

abbrev pub IsPast : Bool → ℕ → Controller → Type 0
IsPast after n s = Past after n (view s)

pub moved-IsPast :
    (after : Bool) (n : ℕ) (s s' : Controller)
    → Has (view s) s'
    → IsPast after n s
    → IsPast after n s'
moved-IsPast after n s s' h p = subst (Past after n) (sym h) p

pub kept-IsPast :
    (after : Bool) (n : ℕ) (s s' : Controller)
    → Keeps (view s) s'
    → IsPast after n s
    → IsPast after n s'
kept-IsPast after n s s' h p = subst (Past after n) (sym h) p

pub reply-IsPast :
    (after : Bool) (n : ℕ) (r : Reply) (s : Controller)
    → IsPast after n s
    → IsPast after n (reply r s)
unfolding reply emit
reply-IsPast after n r s (tasks, phase, made) = (tasks, tt, made)

pub await-IsPast :
    (after : Bool) (n : ℕ) (phase : Phase) (s : Controller)
    → PhaseBelow (limit after s.start_generation) (some phase)
    → IsPast after n s
    → IsPast after n (await phase s)
unfolding await
await-IsPast after n phase s below (tasks, _, made) = (tasks, below, made)

stop_record-IsPast :
    (after : Bool) (n : ℕ) (w : World) (reason : Reason) (s : Controller)
    → IsPast after n s
    → IsPast after n (stop_record w reason s)
stop_record-IsPast after n w reason s p =
    moved-IsPast after n s (stop_record w reason s) (stop_record-Has (view s) w reason s refl) p

-- The task waits while the server is stopped.
pub stopping-IsPast :
    (after : Bool) (n : ℕ) (w : World) (reason : Reason) (phase : Phase) (s : Controller)
    → PhaseBelow (limit after s.start_generation) (some phase)
    → IsPast after n s
    → IsPast after n (await phase (stop_record w reason s))
stopping-IsPast after n w reason phase s below p =
    let same = stop_record-Has (view s) w reason s refl in
    await-IsPast after n phase (stop_record w reason s)
      (subst (λ v. PhaseBelow (limit after v.2) (some phase)) (sym same) below)
      (stop_record-IsPast after n w reason s p)

replace_current-IsPast :
    (after : Bool) (n : ℕ) (w : World) (t : Start) (o : Option Instance) (s : Controller)
    → t.generation < limit after s.start_generation
    → IsPast after n s
    → IsPast after n (replace_current w t o s)
unfolding replace_current emit
replace_current-IsPast after n w t none s b p = await-IsPast after n (preparing t) s b p
replace_current-IsPast after n w t (some r) s b p =
    if-P (IsPast after n) (r.started && not r.cancelled && not r.candidate && not t.candidate) _ _
      (λ h. reply-IsPast after n already_running (emit (cookie_updated r.id) s) p)
      (λ h. stopping-IsPast after n w replace (replacing t) s b p)

begin_start-IsPast :
    (after : Bool) (n : ℕ) (w : World) (t : Start) (s : Controller)
    → t.generation < limit after s.start_generation
    → IsPast after n s
    → IsPast after n (begin_start w t s)
unfolding begin_start
begin_start-IsPast after n w t s b p =
    if-P (IsPast after n) s.disposed _ _ (λ h. reply-IsPast after n (rejected shutting_down) s p)
      (λ h.
        if-P (IsPast after n) (not (t.generation == s.start_generation)) _ _
          (λ h'. reply-IsPast after n cancelled s p)
          (λ h'. replace_current-IsPast after n w t s.current s b p))

begin_stop-IsPast :
    (after : Bool) (n : ℕ) (w : World) (reason : Reason) (o : Option Instance) (s : Controller)
    → IsPast after n s
    → IsPast after n (begin_stop w reason o s)
unfolding begin_stop
begin_stop-IsPast after n w reason none s p = reply-IsPast after n done s p
begin_stop-IsPast after n w reason (some r) s p =
    stopping-IsPast after n w reason (ending reason done) s tt p

take_task-IsPast :
    (after : Bool) (n : ℕ) (w : World) (tasks : List Task) (s : Controller)
    → s.tasks ≡ tasks
    → IsPast after n s
    → IsPast after n (take_task w tasks s)
unfolding take_task begin_task
take_task-IsPast after n w [] s e p = p
take_task-IsPast after n w (starts t ∷ tasks) s e (old, phase, made) =
    let (b, rest) = subst (AllBelow (limit after s.start_generation)) e old in
    begin_start-IsPast after n w t (record s { tasks = tasks }) b (rest, phase, made)
take_task-IsPast after n w (stops reason ∷ tasks) s e (old, phase, made) =
    let (b, rest) = subst (AllBelow (limit after s.start_generation)) e old in
    begin_stop-IsPast after n w reason s.current (record s { tasks = tasks }) (rest, phase, made)

pub next_task-IsPast :
    (after : Bool) (n : ℕ) (w : World) (phase : Option Phase) (s : Controller)
    → IsPast after n s
    → IsPast after n (next_task w phase s)
unfolding next_task
next_task-IsPast after n w none s p = take_task-IsPast after n w s.tasks s refl p
next_task-IsPast after n w (some phase) s p = p
