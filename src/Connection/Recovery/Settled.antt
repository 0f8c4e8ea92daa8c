-- ===== src/Connection/Recovery/Settled.antt =====
-- How often electron/recovery-controller.js resolves the promise of a round, and what is left of a
-- round when the controller is suspended or disposed.
use usshtc.Prelude.{
  ℕ, ◌+◌, ◌≤◌, ◌≡◌, refl, sym, ap, inl, inr, Bool, true, false, not, ◌&&◌, ◌||◌, List, [], ◌∷◌,
  Option, none, some, if◌then◌else◌, ltb, arith, Bool-cases, all,
}
use usshtc.Connection.Codes.{
  Code, remote_ready_timeout, network_unavailable, code_eq, profile_changed, shutting_down,
}
use usshtc.Connection.Recovery.Context.{
  Scope, same_scope, Context, World, context, key, transport_key,
}
use usshtc.Connection.Recovery.State.{
  error_status, offline, Round, Controller, publish, cancel, stop_hints, schedule_hints, initial,
  is_key, cancelled,
}
use usshtc.Connection.Recovery.Controller.{
  Reply, begin, automatic_in, automatic, retry_in, retry, rearm, forget, update_in, update,
  has_observed, is_scope, remote_not_ready_in, network_error_in, names_other, after_hint, is_news,
  is_turn, Event, answer, retry_call, remote_not_ready, cancel_call, update_call, resume, suspend,
  online, dispose, network_error, hint_fired, step, run, settled, rejected,
}
use usshtc.Connection.Recovery.Core.{Core, core, cancel-core}
use usshtc.Connection.Recovery.Valid.{
  Valid, IsValid, HasValid, publish-IsValid, schedule_hints-IsValid, cancel-IsValid, ended-Valid,
  begin-IsValid, if-IsValid, occurrences, running, attempt_of, is_active, is_delay,
}
use usshtc.Connection.Recovery.Attempts.{resume_round-IsValid}
use mathlib.Core.Path.{subst}

module _ (id : ℕ) where
  automatic_in-IsValid :
      (c : Option Context) (w : World) (s : Controller)
      → (s.disposed || s.suspended) ≡ false
      → IsValid id s
      → IsValid id (automatic_in c w s)
  unfolding automatic_in
  automatic_in-IsValid none w s d v = v
  automatic_in-IsValid (some c) w s d v = elim (Bool-cases c.snapshot.desired_running) [
    | inl e ↦ simp (e) (HasValid.valid (begin-IsValid id w c false s d v))
    | inr e ↦ simp (e) v
  ]

  automatic-IsValid : (w : World) (s : Controller) → IsValid id s → IsValid id (automatic w s)
  unfolding automatic
  automatic-IsValid w s v =
      elim (Bool-cases (s.disposed || s.suspended || not s.enabled || s.paused)) [
        | inl e ↦ rw e v
        | inr e ↦ rw e (automatic_in-IsValid (context w) w s (ground arith) v)
      ]

  stop_hints-IsValid : (s : Controller) → IsValid id s → IsValid id (stop_hints s)
  unfolding stop_hints
  stop_hints-IsValid s v = ground arith

  resumed-IsValid :
      (s : Controller) (idle : Bool)
      → IsValid id s
      → IsValid id (record s { rearm_when_idle = idle; paused = false })
  resumed-IsValid s idle v = ground arith

  rearm-IsValid :
      (w : World) (c : Context) (anew : Bool) (s : Controller)
      → IsValid id s
      → IsValid id (rearm w c anew s)
  unfolding rearm
  rearm-IsValid w c anew s v =
      let rearmed = s.rearm_when_idle && not c.snapshot.operating in
      let begun =
        automatic-IsValid w
          (record s { rearm_when_idle = s.rearm_when_idle && not rearmed; paused = false })
          (resumed-IsValid s (s.rearm_when_idle && not rearmed) v) in
      elim (Bool-cases (not s.enabled || s.suspended || not c.snapshot.desired_running)) [
        | inl e ↦ rw e (stop_hints-IsValid s v)
        | inr e ↦ elim (Bool-cases (anew || rearmed)) [
          | inl f ↦ rw (e, f) (schedule_hints-IsValid id w _ begun)
          | inr f ↦ rw (e, f) (schedule_hints-IsValid id w s v)
        ]
      ]

  if_cancel-IsValid :
      (test : Bool) (w : World) (s : Controller)
      → IsValid id s
      → IsValid id (if test then cancel w s else s)
  if_cancel-IsValid true w s v = cancel-IsValid id w s v
  if_cancel-IsValid false w s v = v

  update_in-IsValid :
      (c : Option Context) (w : World) (s : Controller)
      → IsValid id s
      → IsValid id (update_in c w s)
  unfolding update_in
  update_in-IsValid none w s v = stop_hints-IsValid (cancel w s) (cancel-IsValid id w s v)
  update_in-IsValid (some c) w s v =
      let changed = not (is_key s.observed (key c)) in
      let scope_changed =
        has_observed s.observed && not (is_scope s.observed_scope c.snapshot.scope) in
      let seen : Controller = record s {
        observed = some (key c);
        observed_scope = some c.snapshot.scope;
        enabled = w.reconnect;
      } in
      let stops = changed || (s.enabled && not w.reconnect) in
      rearm-IsValid w c (changed || (not s.enabled && w.reconnect))
        (forget c changed scope_changed (if stops then cancel w seen else seen))
        (unfold forget in if_cancel-IsValid stops w seen v)

  update-IsValid : (w : World) (s : Controller) → IsValid id s → IsValid id (update w s)
  unfolding update
  update-IsValid w s v = elim (Bool-cases (s.disposed || s.cancelling)) [
    | inl e ↦ rw e v
    | inr e ↦ rw e (update_in-IsValid (context w) w s v)
  ]

  remote_not_ready_in-IsValid :
      (c : Option Context) (scope : Scope) (code : Code) (w : World) (s : Controller)
      → IsValid id s
      → IsValid id (remote_not_ready_in c scope code w s)
  unfolding remote_not_ready_in
  remote_not_ready_in-IsValid none scope code w s v = v
  remote_not_ready_in-IsValid (some c) scope code w s v =
      let noted : Controller = record s {
        inhibited = some (transport_key c);
        blocked = some (key c);
        unhealthy = true;
      } in
      elim (Bool-cases (same_scope scope c.snapshot.scope && code_eq code remote_ready_timeout)) [
        | inl e ↦ rw e (
            publish-IsValid id c error_status remote_ready_timeout (stop_hints (cancel w noted))
              (stop_hints-IsValid (cancel w noted) (cancel-IsValid id w noted v)))
        | inr e ↦ rw e v
      ]

  network_error_in-IsValid :
      (c : Option Context) (event : Option Scope) (w : World) (s : Controller)
      → IsValid id s
      → IsValid id (network_error_in c event w s)
  unfolding network_error_in
  network_error_in-IsValid none event w s v = v
  network_error_in-IsValid (some c) event w s v =
      let ill : Controller = record s { unhealthy = true } in
      elim (Bool-cases (
        names_other event c.snapshot.scope
        || is_key s.inhibited (transport_key c)
        || is_key s.blocked (key c))) [
          | inl e ↦ rw e v
          | inr e ↦ rw e (
              automatic-IsValid w (publish c offline network_unavailable ill)
                (publish-IsValid id c offline network_unavailable ill v))
        ]

  after_hint-IsValid :
      (hint : Option Bool) (w : World) (s : Controller)
      → IsValid id s
      → IsValid id (after_hint hint w s)
  unfolding after_hint
  after_hint-IsValid hint w s v =
      let told : Controller = record s { last_online = hint } in
      elim (Bool-cases (is_news hint s.last_online)) [
        | inl e ↦ elim (Bool-cases (is_turn hint s.last_online)) [
          | inl f ↦ rw (e, f) (automatic-IsValid w told v)
          | inr f ↦ rw (e, f) v
        ]
        | inr e ↦ rw e v
      ]

  retry_in-IsValid :
      (c : Option Context) (scope : Scope) (w : World) (s : Controller)
      → s.disposed ≡ false
      → IsValid id s
      → IsValid id (retry_in c scope w s).0
  unfolding retry_in
  retry_in-IsValid none scope w s d v = v
  retry_in-IsValid (some c) scope w s d v =
      let other = not (same_scope scope c.snapshot.scope) in
      let calm : Controller × Reply = (s, settled cancelled) in
      HasValid.valid (
        if-IsValid id other (s, rejected profile_changed)
          (if s.suspended then calm else begin w c true s) (λ _. v)
          (λ _. HasValid.valid (
            if-IsValid id s.suspended calm (begin w c true s) (λ _. v)
              (λ f. HasValid.valid (begin-IsValid id w c true s (ground arith) v)))))

  retry-IsValid :
      (scope : Scope) (w : World) (s : Controller) → IsValid id s → IsValid id (retry scope w s).0
  unfolding retry
  retry-IsValid scope w s v = HasValid.valid (
      if-IsValid id s.disposed (s, rejected shutting_down) (retry_in (context w) scope w s) (λ _. v)
        (λ e. retry_in-IsValid (context w) scope w s e v))

  ended-IsValid :
      (w : World) (s : Controller) (disposed suspended : Bool)
      → IsValid id s
      → IsValid id (stop_hints (cancel w (record s { disposed = disposed; suspended = suspended })))
  unfolding stop_hints
  ended-IsValid w s disposed suspended v =
      let stopped : Controller = record s { disposed = disposed; suspended = suspended } in
      let left = ap (λ (c : Core). record c { hinting = false }) (cancel-core w stopped) in
      subst (Valid id) (sym left) (ended-Valid id s.active (core s) disposed suspended refl v)

  woken-IsValid :
      (s : Controller)
      → s.disposed ≡ false
      → IsValid id s
      → IsValid id (record s { suspended = false; paused = false })
  woken-IsValid s d v = ground arith

  unhinted-IsValid : (s : Controller) → IsValid id s → IsValid id (record s { hinting = false })
  unhinted-IsValid s v = ground arith

  either-IsValid :
      (test : Bool) (x y : Controller)
      → (test ≡ true → IsValid id x)
      → (test ≡ false → IsValid id y)
      → IsValid id (if test then x else y)
  either-IsValid true x y h k = h refl
  either-IsValid false x y h k = k refl

  step-IsValid : (w : World) (e : Event) (s : Controller) → IsValid id s → IsValid id (step w e s)
  unfolding step
  step-IsValid w (answer n a) s v = resume_round-IsValid id s.active n a w s refl v
  step-IsValid w (retry_call scope) s v = retry-IsValid scope w s v
  step-IsValid w (remote_not_ready scope code) s v =
      either-IsValid s.disposed s (remote_not_ready_in (context w) scope code w s) (λ _. v)
        (λ _. remote_not_ready_in-IsValid (context w) scope code w s v)
  step-IsValid w (cancel_call user_stop) s v =
      let noted : Controller = record s { rearm_when_idle = user_stop } in
      stop_hints-IsValid (cancel w noted) (cancel-IsValid id w noted v)
  step-IsValid w update_call s v = update-IsValid w s v
  step-IsValid w resume s v =
      let woken : Controller = record s { suspended = false; paused = false } in
      either-IsValid s.disposed s (automatic w (schedule_hints w woken)) (λ _. v)
        (λ e.
          automatic-IsValid w (schedule_hints w woken)
            (schedule_hints-IsValid id w woken (woken-IsValid s e v)))
  step-IsValid w suspend s v = ended-IsValid w s s.disposed true v
  step-IsValid w online s v = elim (Bool-cases (not s.disposed && s.enabled && not s.suspended)) [
    | inl e ↦ rw e (automatic-IsValid w (record s { last_online = some true }) v)
    | inr e ↦ rw e v
  ]
  step-IsValid w dispose s v = ended-IsValid w s true s.suspended v
  step-IsValid w (network_error event) s v =
      elim (Bool-cases (s.disposed || s.suspended || not s.enabled || s.paused)) [
        | inl e ↦ rw e v
        | inr e ↦ rw e (network_error_in-IsValid (context w) event w s v)
      ]
  step-IsValid w (hint_fired hint) s v =
      let fired : Controller = record s { hinting = false } in
      either-IsValid s.hinting (schedule_hints w (after_hint hint w fired)) s
        (λ _.
          schedule_hints-IsValid id w (after_hint hint w fired)
            (after_hint-IsValid hint w fired (unhinted-IsValid s v)))
        (λ _. v)

  run-IsValid :
      (events : List (World × Event)) (s : Controller) → IsValid id s → IsValid id (run events s)
  unfolding run
  run-IsValid [] s v = v
  run-IsValid ((w, e) ∷ events) s v = run-IsValid events (step w e s) (step-IsValid w e s v)

  initial-IsValid : (reconnect : Bool) → IsValid id (initial reconnect)
  unfolding initial
  initial-IsValid reconnect = ground arith

none_of : (active : Option Round) → is_active active ≡ false → active ≡ none
none_of none h = refl
none_of (some r) h = cc

-- Whatever happens and whenever, each round that has begun either runs, with at most six attempts
-- scheduled, or its promise has been resolved, and that once. A controller that is suspended or
-- disposed has no round and no timer of its hints; each attempt was scheduled with a listed delay.
pub run-settles :
    (reconnect : Bool) (events : List (World × Event)) (id : ℕ)
    → let s = run events (initial reconnect) in
      (occurrences id s.resolved + running id s.active ≡ (if ltb id s.rounds then 1 else 0))
      × (attempt_of s.active ≤ 6)
      × ((s.disposed || s.suspended) ≡ true → (s.active ≡ none) × (s.hinting ≡ false))
      × (all is_delay s.delays ≡ true)
run-settles reconnect events id =
    let v = run-IsValid id events (initial reconnect) (initial-IsValid id reconnect) in
    (v.tally, v.attempts.1, λ h. (none_of _ (v.stopped h), v.silent h), v.delayed)
