-- ===== src/Connection/Health/Kept.antt =====
-- What electron/health-probe-service.js keeps while it cancels, schedules, ends and begins a probe.
use usshtc.Prelude.{
  ℕ, suc, ◌+◌, ◌≤◌, ◌≡◌, refl, Bool, true, false, not, ◌&&◌, ◌||◌, ◌∷◌, Option, none, some,
  if◌then◌else◌, ◌==◌, arith, sym, Bool-cases, inl, inr,
}
use usshtc.Connection.Codes.{Code, no_code, Key, key_eq}
use usshtc.Connection.Recovery.State.{Status, checking, reachable, error_status, status_eq}
use usshtc.Connection.Health.{
  Context, eligible, key, published, Round, Service, is_set, is_active, is_stopped, same_eligible,
  is_current, publish, cancel_active, cancel, schedule_in, schedule, is_observed, observe, continue,
  update_in, update, finish, begin, fired_in, fired, Told, restore, remote_not_ready, authority_key,
}
use mathlib.Core.Path.{subst}
use usshtc.Connection.Health.Counts.{
  told_by, in_progress, IsTold, Bounded, ended-IsTold, more-IsTold, last-IsTold, first-IsTold,
}

pub record IsValid (s : Service) : Type 0 where
  pub exclusive : (is_set s.timer && is_active s.active) ≡ false
  pub halted : is_stopped s ≡ true → (is_set s.timer || is_active s.active) ≡ false
  pub told : Bounded s

pub if-IsValid :
    (test : Bool) (x y : Service) → IsValid x → IsValid y → IsValid (if test then x else y)
if-IsValid true x y h k = h
if-IsValid false x y h k = k

pub if_cases :
    (test : Bool) (x y : Service)
    → (test ≡ true → IsValid x)
    → (test ≡ false → IsValid y)
    → IsValid (if test then x else y)
if_cases true x y h k = h refl
if_cases false x y h k = k refl

publish-IsValid :
    (id : ℕ) (c : Context) (status : Status) (code : Code) (s : Service)
    → ((t : Told) → t.probe ≡ id → IsTold (t ∷ s.published) s.active s.rounds)
    → IsValid s
    → IsValid (publish id c status code s)
unfolding publish
publish-IsValid id c status code s h v =
    let t : Told = record {
      probe = id;
      publication = record { scope = c.scope; status = status; error_code = code };
    } in
    if-IsValid s.disposed s (record s { published = t ∷ s.published }) v
      (record { exclusive = v.exclusive; halted = v.halted; told = h t refl })

last-Bounded :
    (s : Service) (r : Round)
    → s.active ≡ some r
    → Bounded s
    → (t : Told) → t.probe ≡ r.id
    → IsTold (t ∷ s.published) none s.rounds
last-Bounded s r a v t e =
    last-IsTold t s.published r s.rounds e (subst (λ o. IsTold s.published o s.rounds) a v)

ended-IsValid : (s : Service) → IsValid s → IsValid (record s { active = none })
ended-IsValid s v = record {
  exclusive = no_probe (is_set s.timer);
  halted = λ h. still (is_set s.timer) (is_active s.active) (v.halted h);
  told = ended-IsTold s.published s.active s.rounds v.told;
}
  where
    no_probe : (b : Bool) → (b && false) ≡ false
    no_probe b = ground arith

    still : (a b : Bool) → (a || b) ≡ false → (a || false) ≡ false
    still a b h = ground arith

quiet-IsValid : (s : Service) → s.active ≡ none → s.timer ≡ none → Bounded s → IsValid s
quiet-IsValid s a t v = record { exclusive = rw t refl; halted = λ h. rw (t, a) refl; told = v }

restore-IsValid :
    (now : Option Context) (r : Round) (s : Service)
    → ((t : Told) → t.probe ≡ r.id → IsTold (t ∷ s.published) s.active s.rounds)
    → IsValid s
    → IsValid (restore now r s)
unfolding restore
restore-IsValid none r s h v = v
restore-IsValid (some c) r s h v =
    if-IsValid
      (not (remote_not_ready c)
        && key_eq (authority_key c) (authority_key r.context)
        && status_eq c.remote_status checking)
      (publish r.id c r.context.remote_status r.context.error_code s) s
      (publish-IsValid r.id c r.context.remote_status r.context.error_code s h v) v

cancel_active-IsValid :
    (active : Option Round) (now : Option Context) (restores : Bool) (s : Service)
    → s.active ≡ active
    → s.timer ≡ none
    → Bounded s
    → IsValid (cancel_active active now restores s)
unfolding cancel_active
cancel_active-IsValid none now restores s a t v = quiet-IsValid s a t v
cancel_active-IsValid (some r) now restores s a t v =
    let ended : Service = record s { active = none } in
    let k = quiet-IsValid ended refl t (ended-IsTold s.published s.active s.rounds v) in
    if-IsValid (not restores || s.disposed) ended (restore now r ended) k
      (restore-IsValid now r ended (last-Bounded s r a v) k)

pub cancel-IsValid :
    (now : Option Context) (restores : Bool) (s : Service)
    → Bounded s
    → IsValid (cancel now restores s)
unfolding cancel
cancel-IsValid now restores s v =
    cancel_active-IsValid s.active now restores (record s { timer = none }) refl refl v

idle : (a b c : Bool) → (a || b || c) ≡ false → (b ≡ false) × (c ≡ false)
idle false false false e = (refl, refl)
idle false false true e = ground arith
idle false true c e = ground arith
idle true b c e = ground arith

idle_right : (a b : Bool) → (a || b) ≡ false → b ≡ false
idle_right a b e = let free = idle false a b e in free.1

schedule_in-IsValid :
    (now : Option Context) (s : Service)
    → is_active s.active ≡ false
    → is_stopped s ≡ false
    → IsValid s
    → IsValid (schedule_in now s)
unfolding schedule_in
schedule_in-IsValid none s a h v = v
schedule_in-IsValid (some c) s a h v =
    if-IsValid (eligible c) (record s { timer = some (key c) }) s
      (record { exclusive = a; halted = λ e. cc; told = v.told }) v

schedule-IsValid : (now : Option Context) (s : Service) → IsValid s → IsValid (schedule now s)
unfolding schedule
schedule-IsValid now s v =
    if_cases (is_set s.timer || is_active s.active || is_stopped s) s (schedule_in now s) (λ e. v)
      (λ e.
        let free = idle (is_set s.timer) (is_active s.active) (is_stopped s) e in
        schedule_in-IsValid now s free.0 free.1 v)

observe-IsValid : (c : Context) (s : Service) → IsValid s → IsValid (observe c s)
unfolding observe
observe-IsValid c s v =
    if-IsValid (is_observed s.observed (key c)) (record s { observed = some (key c) }) _
      (record { exclusive = v.exclusive; halted = v.halted; told = v.told })
      (cancel-IsValid (some c) true (record s { observed = some (key c); paused = false }) v.told)

continue-IsValid : (c : Context) (s : Service) → IsValid s → IsValid (continue c s)
unfolding continue
continue-IsValid c s v =
    if-IsValid (not (eligible c) || s.suspended || s.paused) (cancel (some c) true s)
      (schedule (some c) s) (cancel-IsValid (some c) true s v.told) (schedule-IsValid (some c) s v)

update_in-IsValid : (now : Option Context) (s : Service) → IsValid s → IsValid (update_in now s)
unfolding update_in
update_in-IsValid none s v = cancel-IsValid none false s v.told
update_in-IsValid (some c) s v = continue-IsValid c (observe c s) (observe-IsValid c s v)

pub update-IsValid : (now : Option Context) (s : Service) → IsValid s → IsValid (update now s)
unfolding update
update-IsValid now s v = if-IsValid s.disposed s (update_in now s) v (update_in-IsValid now s v)

pub finish-IsValid :
    (code : Option Code) (now : Option Context) (r : Round) (s : Service)
    → s.active ≡ some r
    → IsValid s
    → IsValid (finish code now r s)
unfolding finish
finish-IsValid none now r s e v =
    let ended : Service = record s { active = none } in
    let k = ended-IsValid s v in
    update-IsValid now _ (
      if-IsValid (is_current now r s) (publish r.id r.context reachable no_code ended) ended
        (publish-IsValid r.id r.context reachable no_code ended (last-Bounded s r e v.told) k) k)
finish-IsValid (some code) now r s e v =
    let ended : Service = record s { active = none } in
    let k = ended-IsValid s v in
    update-IsValid now _ (
      if-IsValid (is_current now r s) (publish r.id r.context error_status code ended) ended
        (publish-IsValid r.id r.context error_status code ended (last-Bounded s r e v.told) k) k)

not_active : (o : Option Round) → is_active o ≡ false → o ≡ none
not_active none h = refl
not_active (some r) h = cc

begun_once :
    (s : Service) (r : Round)
    → r.id ≡ s.rounds
    → told_by s.rounds s.published ≡ 0
    → told_by s.rounds s.published + in_progress s.rounds (some r) ≤ 1
begun_once s r e h = elim (Bool-cases (r.id == s.rounds)) [
  | inl t ↦ rw t (omega arith)
  | inr t ↦ rw t (omega arith)
]

begin_in-IsValid :
    (c : Context) (s : Service)
    → is_active s.active ≡ false
    → is_stopped s ≡ false
    → s.timer ≡ none
    → IsValid s
    → IsValid (
        publish s.rounds c checking no_code (record s {
          active = some (record { id = s.rounds; context = c; phase = published });
          rounds = suc s.rounds;
        }))
begin_in-IsValid c s a h t v =
    let empty : s.active ≡ none = not_active s.active a in
    let r : Round = record { id = s.rounds; context = c; phase = published } in
    let begun : Service = record s { active = some r; rounds = suc s.rounds } in
    let told =
      first-IsTold s.published c s.rounds
        (subst (λ o. IsTold s.published o s.rounds) empty v.told) in
    publish-IsValid s.rounds c checking no_code begun
      (λ x e.
        more-IsTold x s.published (some r) (suc s.rounds) (omega arith)
          (subst (λ n. told_by n s.published + in_progress n (some r) ≤ 1) (sym e)
            (begun_once s r refl (v.told.fresh s.rounds (omega arith))))
          told)
      (record { exclusive = rw t refl; halted = λ e. cc; told = told })

begin-IsValid : (c : Context) (s : Service) → s.timer ≡ none → IsValid s → IsValid (begin c s)
unfolding begin
begin-IsValid c s t v =
    if_cases (is_active s.active || is_stopped s) s _ (λ e. v)
      (λ e.
        let free = idle false (is_active s.active) (is_stopped s) e in
        begin_in-IsValid c s free.0 free.1 t v)

fired_in-IsValid :
    (now : Option Context) (k : Key) (s : Service)
    → s.timer ≡ none
    → IsValid s
    → IsValid (fired_in now k s)
unfolding fired_in
fired_in-IsValid none k s t v = v
fired_in-IsValid (some c) k s t v =
    if-IsValid (same_eligible (some c) k) (begin c s) (update (some c) s) (begin-IsValid c s t v)
      (update-IsValid (some c) s v)

pub fired-IsValid :
    (timer : Option Key) (now : Option Context) (s : Service)
    → IsValid s
    → IsValid (fired timer now s)
unfolding fired
fired-IsValid none now s v = v
fired-IsValid (some k) now s v =
    fired_in-IsValid now k (record s { timer = none }) refl
      (record {
        exclusive = refl;
        halted = λ e. idle_right (is_set s.timer) (is_active s.active) (v.halted e);
        told = v.told;
      })
