-- ===== src/Proxy/Overtaken/Runs.antt =====
-- A stop in electron/proxy-controller.js overtakes every start before it, over every run.
use usshtc.Prelude.{ℕ, suc, ◌≡◌, refl, Bool, true, false, List, [], ◌∷◌, arith, if-P}
use usshtc.Proxy.State.{Reason, Controller, initial, World, on_current}
use usshtc.Proxy.Sessions.{sample, send_stats}
use usshtc.Proxy.Reports.{on_report}
use usshtc.Proxy.Controller.{
  activate_in, committed, stop, set_scope, Event, start, start_candidate_call, activate_candidate,
  transaction_committed, stop_call, scope_set, cancel_pending_start, get_stats, disposes,
  sample_tick, traffic_tick, turn, resumes, reports, step, run,
}
use usshtc.Proxy.Balance.{created_count, on_current-P}
use usshtc.Proxy.Frame.{view, Has, sample_history-Has, send_stats-Has}
use usshtc.Proxy.Frame.Reported.{on_report-Has}
use usshtc.Proxy.Overtaken.{IsPast, moved-IsPast, next_task-IsPast}
use usshtc.Proxy.Overtaken.Calls.{
  starts_server, NoStarts, later-IsPast, cancel_listen-IsPast, stop-IsPast, bumped-IsPast,
  dispose-IsPast, begin-IsPast, start_candidate-IsPast, activate_in-Has, committed-Has,
  set_scope-Has,
}
use usshtc.Proxy.Overtaken.Resumed.{resume-IsPast}

step-IsPast :
    (after : Bool) (n : ℕ) (w : World) (e : Event) (s : Controller)
    → (after ≡ true → starts_server e ≡ false)
    → IsPast after n s
    → IsPast after n (step w e s)
unfolding step sample
step-IsPast true n w (start config scope) s q p = let h = q refl in ground arith
step-IsPast false n w (start config scope) s q p = begin-IsPast n config scope false [] s p
step-IsPast true n w (start_candidate_call config scope transaction has_material) s q p =
    let h = q refl in ground arith
step-IsPast false n w (start_candidate_call config scope transaction has_material) s q p =
    start_candidate-IsPast n config scope transaction has_material s p
step-IsPast after n w (activate_candidate transaction) s q p =
    moved-IsPast after n s (activate_in transaction s.current s)
      (activate_in-Has (view s) transaction s.current s refl) p
step-IsPast after n w (transaction_committed i answer) s q p =
    moved-IsPast after n s (committed w answer i [] s.activations s)
      (committed-Has (view s) w answer i [] s.activations s refl) p
step-IsPast after n w (stop_call reason) s q p = stop-IsPast after n reason s p
step-IsPast after n w (scope_set scope) s q p =
    moved-IsPast after n s (set_scope scope s) (set_scope-Has (view s) scope s refl) p
step-IsPast after n w cancel_pending_start s q p =
    cancel_listen-IsPast after n (record s { start_generation = suc s.start_generation })
      (later-IsPast after n s p)
step-IsPast after n w get_stats s q p =
    moved-IsPast after n s (sample w s) (sample_history-Has (view s) w s refl) p
step-IsPast after n w disposes s q p = dispose-IsPast after n s p
step-IsPast after n w sample_tick s q p =
    if-P (IsPast after n) s.sample_timer _ _
      (λ h. moved-IsPast after n s (send_stats w s) (send_stats-Has (view s) w s refl) p) (λ h. p)
step-IsPast after n w traffic_tick s q p =
    let s' : Controller = record s { traffic_timer = false } in
    if-P (IsPast after n) s.traffic_timer _ _
      (λ h. moved-IsPast after n s (send_stats w s') (send_stats-Has (view s) w s' refl) p) (λ h. p)
step-IsPast after n w turn s q p = next_task-IsPast after n w s.phase s p
step-IsPast after n w (resumes o) s q p = resume-IsPast after n w s.phase o s refl p
step-IsPast after n w (reports r) s q p =
    moved-IsPast after n s (on_current (on_report w r) s)
      (on_current-P (Has (view s)) (on_report w r) s (λ r' e. on_report-Has (view s) w r r' s refl)
        refl)
      p

run-IsPast :
    (events : List (World × Event)) (s : Controller)
    → IsPast false 0 s
    → IsPast false 0 (run events s)
unfolding run
run-IsPast [] s p = p
run-IsPast ((w, e) ∷ events) s p =
    run-IsPast events (step w e s) (step-IsPast false 0 w e s (λ h. cc) p)

quiet-IsPast :
    (n : ℕ) (events : List (World × Event)) (s : Controller)
    → NoStarts events
    → IsPast true n s
    → IsPast true n (run events s)
unfolding run
quiet-IsPast n [] s q p = p
quiet-IsPast n ((w, e) ∷ events) s (h, q) p =
    quiet-IsPast n events (step w e s) q (step-IsPast true n w e s (λ h'. h) p)

-- What was of the generation before or an earlier one is overtaken.
overtaken-IsPast :
    (s : Controller)
    → IsPast false 0 s
    → IsPast true (created_count s.effects) (record s { start_generation = suc s.start_generation })
overtaken-IsPast s (tasks, phase, made) = (tasks, phase, λ h. refl)

-- Whatever happened before a stop, no server is created after it, whatever happens then, unless there is
-- another call that starts one. The starts that were waiting in the queue or for their keys create none.
pub stop-overtakes :
    (before after : List (World × Event)) (reason : Reason)
    → NoStarts after
    → let s = run before initial in
      created_count (run after (stop reason s)).effects ≡ created_count s.effects
stop-overtakes before after reason q =
    let s = run before initial in
    let p = run-IsPast before initial (tt, tt, λ h. cc) in
    let (tasks, phase, made) =
      quiet-IsPast (created_count s.effects) after (stop reason s) q
        (bumped-IsPast true (created_count s.effects) reason s (overtaken-IsPast s p)) in
    made refl
