-- ===== src/Connection/Health/Probes.antt =====
-- What electron/health-probe-service.js promises: one timer or one probe, none when it is stopped, and
-- at most two publications for a probe.
use usshtc.Prelude.{
  ℕ, ◌+◌, ◌≤◌, ◌≡◌, refl, Bool, true, false, ◌&&◌, ◌||◌, List, [], ◌∷◌, Option, none, some,
  if◌then◌else◌, ◌==◌, arith,
}
use usshtc.Connection.Codes.{Code, timeout}
use usshtc.Connection.Health.{
  Context, Phase, published, reading_keys, reading_identity, probing, stalled, Round, Service,
  initial, is_set, is_active, is_stopped, is_current, keys_failure, rejection, Answer, returned,
  identity, succeeded, timed_out, keys, thrown, enter, after_keys, advance, is_awaited, execute,
  resume_round, Event, update_call, cancel_call, suspend, resume, dispose, timer_fired, answer,
  step, run,
}
use mathlib.Core.Path.{subst}
use usshtc.Connection.Health.Counts.{told_by, in_progress, IsTold}
use usshtc.Connection.Health.Kept.{
  IsValid, if-IsValid, if_cases, cancel-IsValid, update-IsValid, finish-IsValid, fired-IsValid,
}

enter-IsValid :
    (phase : Phase) (r : Round) (s : Service)
    → s.active ≡ some r
    → IsValid s
    → IsValid (enter phase r s)
unfolding enter
enter-IsValid phase r s e v =
    let old = subst (λ o. IsTold s.published o s.rounds) e v.told in
    let active : is_active s.active ≡ true = rw e refl in
    record {
      exclusive = cc (v.exclusive, active);
      halted = λ h. same_halted (is_set s.timer) (is_active s.active) active (v.halted h);
      told = record { twice = old.twice; fresh = old.fresh; below = old.below };
    }
  where
    same_halted : (a b : Bool) → b ≡ true → (a || b) ≡ false → (a || true) ≡ false
    same_halted a b h k = ground arith

after_keys-IsValid :
    (code : Option Code) (now : Option Context) (r : Round) (s : Service)
    → s.active ≡ some r
    → IsValid s
    → IsValid (after_keys code now r s)
unfolding after_keys
after_keys-IsValid none now r s e v = enter-IsValid reading_identity r s e v
after_keys-IsValid (some code) now r s e v = finish-IsValid (some code) now r s e v

advance-IsValid :
    (phase : Phase) (a : Answer) (now : Option Context) (r : Round) (s : Service)
    → s.active ≡ some r
    → IsValid s
    → IsValid (advance phase a now r s)
unfolding advance
advance-IsValid published returned now r s e v = enter-IsValid reading_keys r s e v
advance-IsValid reading_keys (keys client host) now r s e v =
    after_keys-IsValid (keys_failure client host) now r s e v
advance-IsValid reading_identity identity now r s e v = enter-IsValid probing r s e v
advance-IsValid reading_keys (thrown code) now r s e v =
    finish-IsValid (some (rejection code)) now r s e v
advance-IsValid reading_identity (thrown code) now r s e v =
    finish-IsValid (some (rejection code)) now r s e v
advance-IsValid probing (thrown code) now r s e v =
    finish-IsValid (some (rejection code)) now r s e v
advance-IsValid _ _ now r s e v = v

awaited-IsValid :
    (phase : Phase) (a : Answer) (now : Option Context) (r : Round) (s : Service)
    → s.active ≡ some r
    → IsValid s
    → IsValid (
        if is_awaited phase a
        then (if is_current now r s then advance phase a now r s else enter stalled r s)
        else s)
awaited-IsValid phase a now r s e v =
    if-IsValid (is_awaited phase a) _ s
      (if-IsValid (is_current now r s) (advance phase a now r s) (enter stalled r s)
        (advance-IsValid phase a now r s e v) (enter-IsValid stalled r s e v))
      v

execute-IsValid :
    (phase : Phase) (a : Answer) (now : Option Context) (r : Round) (s : Service)
    → s.active ≡ some r
    → IsValid s
    → IsValid (execute phase a now r s)
unfolding execute
execute-IsValid phase timed_out now r s e v = finish-IsValid (some timeout) now r s e v
execute-IsValid probing succeeded now r s e v = finish-IsValid none now r s e v
execute-IsValid phase a now r s e v = awaited-IsValid phase a now r s e v

resume_round-IsValid :
    (active : Option Round) (id : ℕ) (a : Answer) (now : Option Context) (s : Service)
    → s.active ≡ active
    → IsValid s
    → IsValid (resume_round active id a now s)
unfolding resume_round
resume_round-IsValid none id a now s e v = v
resume_round-IsValid (some r) id a now s e v =
    if-IsValid (r.id == id) (execute r.phase a now r s) s (execute-IsValid r.phase a now r s e v) v

unpaused-IsValid :
    (s : Service) → IsValid s → IsValid (record s { suspended = false; paused = false })
unpaused-IsValid s v = ground arith

step-IsValid : (now : Option Context) (e : Event) (s : Service) → IsValid s → IsValid (step now e s)
unfolding step
step-IsValid now update_call s v = update-IsValid now s v
step-IsValid now cancel_call s v = cancel-IsValid now true (record s { paused = true }) v.told
step-IsValid now suspend s v = cancel-IsValid now true (record s { suspended = true }) v.told
step-IsValid now resume s v =
    if_cases s.disposed s _ (λ e. v)
      (λ e.
        update-IsValid now (record s { suspended = false; paused = false }) (unpaused-IsValid s v))
step-IsValid now dispose s v = cancel-IsValid now false (record s { disposed = true }) v.told
step-IsValid now timer_fired s v = fired-IsValid s.timer now s v
step-IsValid now (answer id a) s v = resume_round-IsValid s.active id a now s refl v

run-IsValid :
    (events : List (Option Context × Event)) (s : Service) → IsValid s → IsValid (run events s)
unfolding run
run-IsValid [] s v = v
run-IsValid ((now, e) ∷ events) s v = run-IsValid events (step now e s) (step-IsValid now e s v)

initial-IsValid : IsValid initial
initial-IsValid = record {
  exclusive = refl;
  halted = λ h. cc;
  told = record { twice = λ id. omega arith; fresh = λ id later. refl; below = tt };
}

-- Whatever happens, the service never has both its timer set and a probe in progress, it has neither
-- while it is disposed, suspended or paused, and every probe has led to two publications at most, to
-- one at most while it is in progress.
pub run-probes :
    (events : List (Option Context × Event)) (id : ℕ)
    → let s = run events initial in
      ((is_set s.timer && is_active s.active) ≡ false)
      × (is_stopped s ≡ true → (is_set s.timer || is_active s.active) ≡ false)
      × (told_by id s.published + in_progress id s.active ≤ 2)
run-probes events id =
    let v = run-IsValid events initial initial-IsValid in (v.exclusive, v.halted, v.told.twice id)
