-- ===== src/Connection/Recovery/Blocked.antt =====
-- A context that electron/recovery-controller.js has blocked is not tried again by itself.
use usshtc.Prelude.{
  ℕ, ◌≡◌, refl, sym, ap, ◌∙◌, Bool, true, false, not, ◌&&◌, ◌||◌, List, [], ◌∷◌, Option, none, some,
  if◌then◌else◌, arith, All,
}
use mathlib.Core.Path.{subst}
use usshtc.Connection.Codes.{
  Code, remote_ready_timeout, network_unavailable, recovery_exhausted, Key, key_eq_refl, code_eq,
}
use usshtc.Connection.Recovery.Context.{
  Scope, same_scope, Context, World, context, key, transport_key, validate,
}
use usshtc.Connection.Recovery.State.{
  Status, error_status, offline, failed, Round, Controller, is_key, publish, cancel, cancel_active,
  stop_hints, schedule_hints,
}
use usshtc.Connection.Recovery.Round.{resume_round, Answer}
use usshtc.Connection.Recovery.Controller.{
  Reply, settled, begin_validated, begin_new, is_joined, begin, automatic_in, automatic, rearm,
  forget, update_in, has_observed, is_scope, remote_not_ready_in, network_error_in, names_other,
  after_hint, is_news, is_turn, Event, answer, retry_call, remote_not_ready, cancel_call,
  update_call, resume, suspend, online, dispose, network_error, hint_fired, step, run,
}

-- The part of the state that decides whether a round begins.
pub record Stance : Type 0 where
  pub active : Option Round
  pub blocked : Option Key
  pub observed : Option Key
  pub rounds : ℕ

abbrev pub stance : Controller → Stance
stance s = record {
  active = s.active;
  blocked = s.blocked;
  observed = s.observed;
  rounds = s.rounds;
}

publish-stance :
    (c : Context) (status : Status) (code : Code) (s : Controller)
    → stance (publish c status code s) ≡ stance s
unfolding publish
publish-stance c status code s = ground arith

-- No round runs, and the context that was seen last is blocked.
pub record Quiet (k : Key) (n : ℕ) (t : Stance) : Type 0 where
  pub idle : t.active ≡ none
  pub is_blocked : t.blocked ≡ some k
  pub seen : t.observed ≡ some k
  pub begun : t.rounds ≡ n

-- The environment has this context, or cannot be read.
abbrev pub HasKey : Key → Option Context → Type 0
HasKey k none = Unit
HasKey k (some c) = key c ≡ k

cancel-idle :
    (w : World) (s : Controller) → s.active ≡ none → cancel w s ≡ record s { paused = true }
unfolding cancel
cancel-idle w s a =
    ap (λ (active : Option Round). cancel_active active w (record s { paused = true })) a
    ∙ unfold cancel_active in refl

is_key_of : (o : Option Key) (k k' : Key) → o ≡ some k → k' ≡ k → is_key o k' ≡ true
unfolding is_key
is_key_of o k k' e f = rw (e, f) (key_eq_refl k)

kept :
    (a b : Bool) (s : Controller) (first second : Reply) (next : Controller × Reply)
    → b ≡ true
    → (if a then (s, first) else if b then (s, second) else next).0 ≡ s
kept true b s first second next h = refl
kept false b s first second next h = rw h refl

-- An automatic call leaves the state as it is, if the context is blocked.
begin_new-kept :
    (w : World) (c : Context) (s : Controller)
    → is_key s.blocked (key c) ≡ true
    → (begin_new w c false s).0 ≡ s
unfolding begin_new
begin_new-kept w c s h =
    kept (is_key s.inhibited (transport_key c)) (is_key s.blocked (key c)) s
      (settled (failed remote_ready_timeout)) (settled (failed recovery_exhausted))
      (begin_validated (validate c) w c false s) h

abbrev after_cancel : World → Context → Controller → Controller
after_cancel w c s =
    record (cancel w
      (record s { observed = some (key c); observed_scope = some c.snapshot.scope })) {
        paused = false;
      }

begin-idle :
    (w : World) (c : Context) (s : Controller)
    → s.active ≡ none
    → begin w c false s ≡ begin_new w c false (after_cancel w c s)
unfolding begin is_joined
begin-idle w c s a = skipped (is_joined s.active c) _ _ (rw a refl)
  where
    skipped :
        (joined : Bool) (x y : Controller × Reply) → joined ≡ false → (if joined then x else y) ≡ y
    skipped joined x y h = rw h refl

-- Only `retry` asks for a round by hand.
abbrev pub IsByItself : Event → Type 0
IsByItself (retry_call _) = ⊥
IsByItself _ = Unit

module _ (k : Key) (n : ℕ) where
  abbrev IsQuiet : Controller → Type 0
  IsQuiet s = Quiet k n (stance s)

  publish-IsQuiet :
      (c : Context) (status : Status) (code : Code) (s : Controller)
      → IsQuiet s
      → IsQuiet (publish c status code s)
  publish-IsQuiet c status code s q = rw (publish-stance c status code s) q

  cancel-IsQuiet : (w : World) (s : Controller) → IsQuiet s → IsQuiet (cancel w s)
  cancel-IsQuiet w s q = rw (cancel-idle w s q.idle) q

  either-IsQuiet :
      (test : Bool) (x y : Controller)
      → (test ≡ true → IsQuiet x)
      → (test ≡ false → IsQuiet y)
      → IsQuiet (if test then x else y)
  either-IsQuiet true x y h l = h refl
  either-IsQuiet false x y h l = l refl

  seen-IsQuiet :
      (w : World) (c : Context) (s : Controller)
      → key c ≡ k
      → IsQuiet s
      → IsQuiet
          (record (cancel w
            (record s { observed = some (key c); observed_scope = some c.snapshot.scope })) {
              paused = false;
            })
  seen-IsQuiet w c s e q =
      let seen : Controller = record s {
        observed = some (key c);
        observed_scope = some c.snapshot.scope;
      } in
      rw (cancel-idle w seen q.idle)
        (record { idle = q.idle; is_blocked = q.is_blocked; seen = ap some e; begun = q.begun })

  begin-IsQuiet :
      (w : World) (c : Context) (s : Controller)
      → key c ≡ k
      → IsQuiet s
      → IsQuiet (begin w c false s).0
  begin-IsQuiet w c s e q =
      let quiet = seen-IsQuiet w c s e q in
      let same =
        begin_new-kept w c (after_cancel w c s)
          (is_key_of (after_cancel w c s).blocked k (key c) quiet.is_blocked e) in
      let begun = ap (λ (r : Controller × Reply). r.0) (begin-idle w c s q.idle) ∙ same in
      subst (λ (t : Controller). Quiet k n (stance t)) (sym begun) quiet

  automatic_in-IsQuiet :
      (c : Option Context) (w : World) (s : Controller)
      → HasKey k c
      → IsQuiet s
      → IsQuiet (automatic_in c w s)
  unfolding automatic_in
  automatic_in-IsQuiet none w s e q = q
  automatic_in-IsQuiet (some c) w s e q =
      either-IsQuiet c.snapshot.desired_running (begin w c false s).0 s
        (λ _. begin-IsQuiet w c s e q) (λ _. q)

  automatic-IsQuiet :
      (w : World) (s : Controller) → HasKey k (context w) → IsQuiet s → IsQuiet (automatic w s)
  unfolding automatic
  automatic-IsQuiet w s e q =
      either-IsQuiet (s.disposed || s.suspended || not s.enabled || s.paused) s
        (automatic_in (context w) w s) (λ _. q) (λ _. automatic_in-IsQuiet (context w) w s e q)

  schedule_hints-IsQuiet : (w : World) (s : Controller) → IsQuiet s → IsQuiet (schedule_hints w s)
  unfolding schedule_hints
  schedule_hints-IsQuiet w s q = ground arith

  rearm-IsQuiet :
      (w : World) (c : Context) (anew : Bool) (s : Controller)
      → HasKey k (context w)
      → IsQuiet s
      → IsQuiet (rearm w c anew s)
  unfolding rearm stop_hints
  rearm-IsQuiet w c anew s e q =
      let rearmed = s.rearm_when_idle && not c.snapshot.operating in
      let next : Controller = record s {
        rearm_when_idle = s.rearm_when_idle && not rearmed;
        paused = false;
      } in
      either-IsQuiet (not s.enabled || s.suspended || not c.snapshot.desired_running) (stop_hints s)
        (if anew || rearmed then schedule_hints w (automatic w next) else schedule_hints w s)
        (λ _. q)
        (λ _.
          either-IsQuiet (anew || rearmed) (schedule_hints w (automatic w next))
            (schedule_hints w s)
            (λ _. schedule_hints-IsQuiet w (automatic w next) (automatic-IsQuiet w next e q))
            (λ _. schedule_hints-IsQuiet w s q))

  forget-IsQuiet :
      (c : Context) (changed scope_changed : Bool) (s : Controller)
      → changed ≡ false
      → IsQuiet s
      → IsQuiet (forget c changed scope_changed s)
  unfolding forget
  forget-IsQuiet c changed scope_changed s h q = rw h q

  update_in-IsQuiet :
      (c : Option Context) (w : World) (s : Controller)
      → HasKey k (context w)
      → HasKey k c
      → IsQuiet s
      → IsQuiet (update_in c w s)
  unfolding update_in stop_hints
  update_in-IsQuiet none w s e f q = cancel-IsQuiet w s q
  update_in-IsQuiet (some c) w s e f q =
      let changed = not (is_key s.observed (key c)) in
      let scope_changed =
        has_observed s.observed && not (is_scope s.observed_scope c.snapshot.scope) in
      let seen : Controller = record s {
        observed = some (key c);
        observed_scope = some c.snapshot.scope;
        enabled = w.reconnect;
      } in
      let stops = changed || (s.enabled && not w.reconnect) in
      let same : changed ≡ false = ap not (is_key_of s.observed k (key c) q.seen f) in
      let seen_quiet : IsQuiet seen = record {
        idle = q.idle;
        is_blocked = q.is_blocked;
        seen = ap some f;
        begun = q.begun;
      } in
      rearm-IsQuiet w c (changed || (not s.enabled && w.reconnect))
        (forget c changed scope_changed (if stops then cancel w seen else seen)) e
        (forget-IsQuiet c changed scope_changed (if stops then cancel w seen else seen) same (
          either-IsQuiet stops (cancel w seen) seen (λ _. cancel-IsQuiet w seen seen_quiet)
            (λ _. seen_quiet)))

  remote_not_ready_in-IsQuiet :
      (c : Option Context) (scope : Scope) (code : Code) (w : World) (s : Controller)
      → HasKey k c
      → IsQuiet s
      → IsQuiet (remote_not_ready_in c scope code w s)
  unfolding remote_not_ready_in stop_hints
  remote_not_ready_in-IsQuiet none scope code w s e q = q
  remote_not_ready_in-IsQuiet (some c) scope code w s e q =
      let noted : Controller = record s {
        inhibited = some (transport_key c);
        blocked = some (key c);
        unhealthy = true;
      } in
      let noted_quiet : IsQuiet noted = record {
        idle = q.idle;
        is_blocked = ap some e;
        seen = q.seen;
        begun = q.begun;
      } in
      either-IsQuiet (same_scope scope c.snapshot.scope && code_eq code remote_ready_timeout)
        (publish c error_status remote_ready_timeout (stop_hints (cancel w noted))) s
        (λ _.
          publish-IsQuiet c error_status remote_ready_timeout (stop_hints (cancel w noted))
            (cancel-IsQuiet w noted noted_quiet))
        (λ _. q)

  network_error_in-IsQuiet :
      (c : Option Context) (event : Option Scope) (w : World) (s : Controller)
      → HasKey k (context w)
      → IsQuiet s
      → IsQuiet (network_error_in c event w s)
  unfolding network_error_in
  network_error_in-IsQuiet none event w s e q = q
  network_error_in-IsQuiet (some c) event w s e q =
      let ill : Controller = record s { unhealthy = true } in
      either-IsQuiet
        (names_other event c.snapshot.scope
          || is_key s.inhibited (transport_key c)
          || is_key s.blocked (key c))
        s (automatic w (publish c offline network_unavailable ill)) (λ _. q)
        (λ _.
          automatic-IsQuiet w (publish c offline network_unavailable ill) e
            (publish-IsQuiet c offline network_unavailable ill q))

  after_hint-IsQuiet :
      (hint : Option Bool) (w : World) (s : Controller)
      → HasKey k (context w)
      → IsQuiet s
      → IsQuiet (after_hint hint w s)
  unfolding after_hint
  after_hint-IsQuiet hint w s e q =
      let told : Controller = record s { last_online = hint } in
      either-IsQuiet (is_news hint s.last_online)
        (if is_turn hint s.last_online then automatic w told else told) s
        (λ _.
          either-IsQuiet (is_turn hint s.last_online) (automatic w told) told
            (λ _. automatic-IsQuiet w told e q) (λ _. q))
        (λ _. q)

  resume_round-IsQuiet :
      (id : ℕ) (a : Answer) (w : World) (s : Controller)
      → IsQuiet s
      → IsQuiet (resume_round s.active id a w s)
  unfolding resume_round
  resume_round-IsQuiet id a w s q =
      let stays : resume_round s.active id a w s ≡ s =
        ap (λ (active : Option Round). resume_round active id a w s) q.idle in
      subst (λ (t : Controller). Quiet k n (stance t)) (sym stays) q

  step-IsQuiet :
      (w : World) (e : Event) (s : Controller)
      → HasKey k (context w)
      → IsByItself e
      → IsQuiet s
      → IsQuiet (step w e s)
  unfolding step stop_hints
  step-IsQuiet w (answer id a) s e i q = resume_round-IsQuiet id a w s q
  step-IsQuiet w (retry_call scope) s e i q = absurd i
  step-IsQuiet w (remote_not_ready scope code) s e i q =
      either-IsQuiet s.disposed s (remote_not_ready_in (context w) scope code w s) (λ _. q)
        (λ _. remote_not_ready_in-IsQuiet (context w) scope code w s e q)
  step-IsQuiet w (cancel_call user_stop) s e i q =
      cancel-IsQuiet w (record s { rearm_when_idle = user_stop }) q
  step-IsQuiet w update_call s e i q =
      either-IsQuiet (s.disposed || s.cancelling) s (update_in (context w) w s) (λ _. q)
        (λ _. update_in-IsQuiet (context w) w s e e q)
  step-IsQuiet w resume s e i q =
      let woken : Controller = record s { suspended = false; paused = false } in
      either-IsQuiet s.disposed s (automatic w (schedule_hints w woken)) (λ _. q)
        (λ _. automatic-IsQuiet w (schedule_hints w woken) e (schedule_hints-IsQuiet w woken q))
  step-IsQuiet w suspend s e i q = cancel-IsQuiet w (record s { suspended = true }) q
  step-IsQuiet w online s e i q =
      let told : Controller = record s { last_online = some true } in
      either-IsQuiet (not s.disposed && s.enabled && not s.suspended) (automatic w told) s
        (λ _. automatic-IsQuiet w told e q) (λ _. q)
  step-IsQuiet w dispose s e i q = cancel-IsQuiet w (record s { disposed = true }) q
  step-IsQuiet w (network_error event) s e i q =
      either-IsQuiet (s.disposed || s.suspended || not s.enabled || s.paused) s
        (network_error_in (context w) event w s) (λ _. q)
        (λ _. network_error_in-IsQuiet (context w) event w s e q)
  step-IsQuiet w (hint_fired hint) s e i q =
      let fired : Controller = record s { hinting = false } in
      either-IsQuiet s.hinting (schedule_hints w (after_hint hint w fired)) s
        (λ _.
          schedule_hints-IsQuiet w (after_hint hint w fired) (after_hint-IsQuiet hint w fired e q))
        (λ _. q)

-- An event of the controller's own in an environment with this context, or one that cannot be read.
abbrev pub IsWithin : Key → World × Event → Type 0
IsWithin k (w, e) = HasKey k (context w) × IsByItself e

run-IsQuiet :
    (k : Key) (n : ℕ) (events : List (World × Event)) (s : Controller)
    → Quiet k n (stance s)
    → All (IsWithin k) events
    → Quiet k n (stance (run events s))
unfolding run
run-IsQuiet k n [] s q a = q
run-IsQuiet k n ((w, e) ∷ events) s q a =
    run-IsQuiet k n events (step w e s) (step-IsQuiet k n w e s a.0.0 a.0.1 q) a.1

-- Once a context is blocked and no round runs, nothing but a retry by hand or a change of the context
-- begins another round: no update, hint, network error, resume or late answer does.
pub run-blocked :
    (k : Key) (events : List (World × Event)) (s : Controller)
    → Quiet k s.rounds (stance s)
    → All (IsWithin k) events
    → Quiet k s.rounds (stance (run events s))
run-blocked k events s q a = run-IsQuiet k s.rounds events s q a
