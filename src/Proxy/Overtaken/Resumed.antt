-- ===== src/Proxy/Overtaken/Resumed.antt =====
-- A stop in electron/proxy-controller.js overtakes every start before it: a task that has waited.
use usshtc.Prelude.{
  ℕ, ◌<◌, ◌≡◌, refl, sym, Bool, true, false, not, ◌||◌, Option, none, some, if◌then◌else◌, arith,
  if-P,
}
use mathlib.Core.Path.{subst}
use usshtc.Proxy.State.{
  replace, cancelled_start, failed_start, Failure, proxy_start_failed, proxy_stop_failed, Instance,
  starting, Reply, done, cancelled, rejected, Start, Phase, replacing, preparing, listening, ending,
  Controller, World, emit, notify, failed, changed,
}
use usshtc.Proxy.Stopping.{stop_succeeded, stop_failed}
use usshtc.Proxy.Tasks.{
  await, is_overtaken, Outcome, stopped_well, stop_threw, server_made, started_well, started_false,
  start_threw, preparation_threw, install, create, end_failed, announce, open_for, listened,
  listen_failed, end_with, resume_task, resume,
}
use usshtc.Proxy.Balance.{on_current-P}
use usshtc.Proxy.Frame.{view, notify-Has, stop_succeeded-Keeps, stop_failed-Has, open-Has}
use usshtc.Proxy.Overtaken.{
  limit, PhaseBelow, IsPast, moved-IsPast, reply-IsPast, await-IsPast, stopping-IsPast, kept-IsPast,
}

-- A start that is not overtaken is of the generation of the controller, so there was no stop.
is_overtaken-false :
    (t : Start) (s : Controller) → is_overtaken t s ≡ false → t.generation < s.start_generation → ⊥
unfolding is_overtaken
is_overtaken-false t s h b = ground arith

create-IsPast :
    (after : Bool) (n : ℕ) (t : Start) (s : Controller)
    → is_overtaken t s ≡ false
    → t.generation < limit after s.start_generation
    → IsPast after n s
    → IsPast after n (create t s)
unfolding create await install emit
create-IsPast true n t s h b p = elim (is_overtaken-false t s h b) [ ]
create-IsPast false n t s h b (tasks, phase, made) =
    let started = await (listening t) (install t s) in
    moved-IsPast false n started (notify starting started)
      (notify-Has (view started) starting started refl) (tasks, tt, λ e. cc)

end_failed-IsPast :
    (after : Bool) (n : ℕ) (f : Failure) (s : Controller)
    → IsPast after n s
    → IsPast after n (end_failed f s)
unfolding end_failed emit
end_failed-IsPast after n f s p =
    reply-IsPast after n (rejected f) (emit (changed s.scope none (failed f)) s) p

listened-IsPast :
    (after : Bool) (n : ℕ) (w : World) (t : Start) (result : Bool) (r : Instance) (s : Controller)
    → IsPast after n s
    → IsPast after n (listened w t result r s)
unfolding listened
listened-IsPast after n w t result r s p =
    if-P (IsPast after n) (r.cancelled || is_overtaken t s || not result) _ _
      (λ h. stopping-IsPast after n w cancelled_start (ending cancelled_start cancelled) s tt p)
      (λ h.
        reply-IsPast after n done (open_for w t (announce r s))
          (moved-IsPast after n s (open_for w t (announce r s)) (open-Has (view s) w t r s refl) p))

listen_failed-IsPast :
    (after : Bool) (n : ℕ) (w : World) (t : Start) (r : Instance) (s : Controller)
    → IsPast after n s
    → IsPast after n (listen_failed w t r s)
unfolding listen_failed
listen_failed-IsPast after n w t r s p =
    stopping-IsPast after n w failed_start
      (ending failed_start
        (if r.cancelled || is_overtaken t s then cancelled else rejected proxy_start_failed))
      s tt p

end_with-IsPast :
    (after : Bool) (n : ℕ) (r : Reply) (s : Controller)
    → IsPast after n s
    → IsPast after n (end_with r s)
unfolding end_with
end_with-IsPast after n (rejected f) s p = end_failed-IsPast after n f s p
end_with-IsPast after n r s p = reply-IsPast after n r s p

failed-IsPast :
    (after : Bool) (n : ℕ) (s : Controller) → IsPast after n s → IsPast after n (stop_failed s)
failed-IsPast after n s p =
    moved-IsPast after n s (stop_failed s) (stop_failed-Has (view s) s refl) p

resume_task-IsPast :
    (after : Bool) (n : ℕ) (w : World) (phase : Phase) (o : Outcome) (s : Controller)
    → PhaseBelow (limit after s.start_generation) (some phase)
    → IsPast after n s
    → IsPast after n (resume_task w phase o s)
unfolding resume_task
resume_task-IsPast after n w (replacing t) stopped_well s b p =
    let s' = stop_succeeded w replace s in
    let same = stop_succeeded-Keeps (view s) w replace s refl in
    let k = kept-IsPast after n s s' same p in
    if-P (IsPast after n) (is_overtaken t s') _ _ (λ h. reply-IsPast after n cancelled s' k)
      (λ h.
        await-IsPast after n (preparing t) s'
          (subst (λ v. t.generation < limit after v.2) (sym same) b) k)
resume_task-IsPast after n w (replacing t) stop_threw s b p =
    reply-IsPast after n (rejected proxy_stop_failed) (stop_failed s) (failed-IsPast after n s p)
resume_task-IsPast after n w (preparing t) server_made s b p =
    if-P (IsPast after n) (is_overtaken t s) _ _ (λ h. reply-IsPast after n cancelled s p)
      (λ h. create-IsPast after n t s h b p)
resume_task-IsPast after n w (preparing t) (preparation_threw f) s b p =
    if-P (IsPast after n) (is_overtaken t s) _ _ (λ h. reply-IsPast after n cancelled s p)
      (λ h. end_failed-IsPast after n f s p)
resume_task-IsPast after n w (listening t) started_well s b p =
    on_current-P (IsPast after n) (listened w t true) s
      (λ r e. listened-IsPast after n w t true r s p) p
resume_task-IsPast after n w (listening t) started_false s b p =
    on_current-P (IsPast after n) (listened w t false) s
      (λ r e. listened-IsPast after n w t false r s p) p
resume_task-IsPast after n w (listening t) start_threw s b p =
    on_current-P (IsPast after n) (listen_failed w t) s
      (λ r e. listen_failed-IsPast after n w t r s p) p
resume_task-IsPast after n w (ending reason r) stopped_well s b p =
    end_with-IsPast after n r (stop_succeeded w reason s) (
      kept-IsPast after n s (stop_succeeded w reason s)
        (stop_succeeded-Keeps (view s) w reason s refl) p)
resume_task-IsPast after n w (ending cancelled_start r) stop_threw s b p =
    stopping-IsPast after n w failed_start (ending failed_start cancelled) (stop_failed s) tt
      (failed-IsPast after n s p)
resume_task-IsPast after n w (ending reason r) stop_threw s b p =
    reply-IsPast after n (rejected proxy_stop_failed) (stop_failed s) (failed-IsPast after n s p)
resume_task-IsPast after n w _ _ s b p = p

pub resume-IsPast :
    (after : Bool) (n : ℕ) (w : World) (phase : Option Phase) (o : Outcome) (s : Controller)
    → s.phase ≡ phase
    → IsPast after n s
    → IsPast after n (resume w phase o s)
unfolding resume
resume-IsPast after n w none o s e p = p
resume-IsPast after n w (some phase) o s e (tasks, below, made) =
    resume_task-IsPast after n w phase o s
      (subst (PhaseBelow (limit after s.start_generation)) e below) (tasks, below, made)
