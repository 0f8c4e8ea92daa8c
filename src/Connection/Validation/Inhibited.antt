-- ===== src/Connection/Validation/Inhibited.antt =====
-- What electron/token-validation-service.js promises: one timer or one call, none when it is stopped,
-- and no second call for a token that the portal has refused.
use usshtc.Prelude.{
  ℕ, ◌≡◌, refl, sym, ap, ◌∙◌, inl, inr, Bool, true, false, ◌&&◌, ◌||◌, List, [], ◌∷◌, Option, none,
  some, if◌then◌else◌, ◌==◌, arith, All, Bool-cases, ==_refl,
}
use usshtc.Connection.Codes.{Key, key_eq, key_eq_refl, key_eq→eq}
use usshtc.Connection.Preflight.{invalid}
use usshtc.Connection.Validation.{
  Context, credential_key, key, Round, Service, initial, is_some_key, is_set, is_active, is_current,
  update, fired, Answer, answered, tell, finish, validated, returned, resume_round, Event,
  update_call, cancel_call, suspend, resume, dispose, timer_fired, answer, step, run,
}
use mathlib.Core.Path.{subst}

-- The timer and the call exclude one another, and a service that is stopped has neither.
pub record IsValid (s : Service) : Type 0 where
  pub exclusive : (is_set s.timer && is_active s.active) ≡ false
  pub stopped : (s.disposed || s.suspended) ≡ true → (is_set s.timer || is_active s.active) ≡ false

update-IsValid : (now : Option Context) (s : Service) → IsValid s → IsValid (update now s)
unfolding update
update-IsValid none s v = ground arith
update-IsValid (some c) s v = ground arith

fired-IsValid :
    (timer : Option Key) (now : Option Context) (s : Service)
    → s.timer ≡ timer
    → IsValid s
    → IsValid (fired timer now s)
unfolding fired
fired-IsValid none now s t v = v
fired-IsValid (some k) none s t v = ground arith
fired-IsValid (some k) (some c) s t v = elim (Bool-cases (key_eq (key c) k)) [
  | inl e ↦ rw e (ground arith)
  | inr e ↦ rw e (update-IsValid (some c) (record s { timer = none }) (ground arith))
]

finish-IsValid : (now : Option Context) (s : Service) → IsValid s → IsValid (finish now s)
unfolding finish
finish-IsValid now s v = update-IsValid now (record s { active = none }) (ground arith)

if-IsValid : (test : Bool) (x y : Service) → IsValid x → IsValid y → IsValid (if test then x else y)
if-IsValid true x y h k = h
if-IsValid false x y h k = k

returned-IsValid :
    (told : Bool) (now : Option Context) (s : Service) → IsValid s → IsValid (returned told now s)
unfolding returned
returned-IsValid true now s v = finish-IsValid now s v
returned-IsValid false now s v = v

tell-IsValid :
    (a : Answer) (r : Round) (s : Service) → s.active ≡ some r → IsValid s → IsValid (tell a r s)
unfolding tell
tell-IsValid a r s e v = ground arith

validated-IsValid :
    (told : Bool) (a : Answer) (now : Option Context) (r : Round) (s : Service)
    → s.active ≡ some r
    → IsValid s
    → IsValid (validated told a now r s)
unfolding validated
validated-IsValid true a now r s e v = v
validated-IsValid false a now r s e v =
    if-IsValid (is_current now r s) (tell a r s) (finish now s) (tell-IsValid a r s e v)
      (finish-IsValid now s v)

resume_round-IsValid :
    (active : Option Round) (id : ℕ) (a : Option Answer) (now : Option Context) (s : Service)
    → s.active ≡ active
    → IsValid s
    → IsValid (resume_round active id a now s)
unfolding resume_round
resume_round-IsValid none id a now s e v = v
resume_round-IsValid (some r) id none now s e v =
    if-IsValid (r.id == id) (returned r.told now s) s (returned-IsValid r.told now s v) v
resume_round-IsValid (some r) id (some a) now s e v =
    if-IsValid (r.id == id) (validated r.told a now r s) s (validated-IsValid r.told a now r s e v)
      v

step-IsValid : (now : Option Context) (e : Event) (s : Service) → IsValid s → IsValid (step now e s)
unfolding step
step-IsValid now update_call s v = update-IsValid now s v
step-IsValid now cancel_call s v = ground arith
step-IsValid now suspend s v = ground arith
step-IsValid now resume s v =
    if-IsValid s.disposed s (update now (record s { suspended = false })) v
      (update-IsValid now (record s { suspended = false }) (ground arith))
step-IsValid now dispose s v = ground arith
step-IsValid now timer_fired s v = fired-IsValid s.timer now s refl v
step-IsValid now (answer id a) s v = resume_round-IsValid s.active id a now s refl v

run-IsValid :
    (events : List (Option Context × Event)) (s : Service) → IsValid s → IsValid (run events s)
unfolding run
run-IsValid [] s v = v
run-IsValid ((now, e) ∷ events) s v = run-IsValid events (step now e s) (step-IsValid now e s v)

-- Whatever happens, the service never has both its timer set and a call in progress, and it has neither
-- while it is suspended or disposed.
pub run-exclusive :
    (events : List (Option Context × Event))
    → let s = run events initial in
      ((is_set s.timer && is_active s.active) ≡ false)
      × ((s.disposed || s.suspended) ≡ true → (is_set s.timer || is_active s.active) ≡ false)
run-exclusive events =
    let v = run-IsValid events initial (record { exclusive = refl; stopped = λ h. cc }) in
    (v.exclusive, v.stopped)

-- No call runs or waits, for this credential the service is inhibited, and so many calls have begun.
record Quiet (k : Key) (n : ℕ) (s : Service) : Type 0 where
  calm : (s.timer ≡ none) × (s.active ≡ none)
  held : s.inhibited ≡ some k
  begun : s.rounds ≡ n

abbrev pub HasCredential : Key → Option Context → Type 0
HasCredential k none = Unit
HasCredential k (some c) = credential_key c ≡ k

same_key : (o : Option Key) (k k' : Key) → o ≡ some k → k' ≡ k → is_some_key o k' ≡ true
unfolding is_some_key
same_key o k k' e f = rw (e, f) (key_eq_refl k)

update-Quiet :
    (k : Key) (n : ℕ) (now : Option Context) (s : Service)
    → HasCredential k now
    → Quiet k n s
    → Quiet k n (update now s)
unfolding update
update-Quiet k n none s e q = ground arith
update-Quiet k n (some c) s e q =
    let same = same_key s.inhibited k (credential_key c) q.held e in ground arith

ifs : (test : Bool) (x y : Service) → test ≡ true → (if test then x else y) ≡ x
ifs test x y e = rw e refl

ifs_not : (test : Bool) (x y : Service) → test ≡ false → (if test then x else y) ≡ y
ifs_not test x y e = rw e refl

step-Quiet :
    (k : Key) (n : ℕ) (now : Option Context) (e : Event) (s : Service)
    → HasCredential k now
    → Quiet k n s
    → Quiet k n (step now e s)
unfolding step
step-Quiet k n now update_call s h q = update-Quiet k n now s h q
step-Quiet k n now cancel_call s h q = ground arith
step-Quiet k n now suspend s h q = ground arith
step-Quiet k n now resume s h q = elim (Bool-cases s.disposed) [
  | inl e ↦ subst (Quiet k n) (sym (ifs s.disposed _ _ e)) q
  | inr e ↦
      let woken : Service = record s { suspended = false } in
      subst (Quiet k n) (sym (ifs_not s.disposed _ _ e))
        (update-Quiet k n now woken h (record { calm = q.calm; held = q.held; begun = q.begun }))
]
step-Quiet k n now dispose s h q = ground arith
step-Quiet k n now timer_fired s h q =
    let same : fired s.timer now s ≡ s =
      unfold fired in ap (λ (t : Option Key). fired t now s) q.calm.0 in
    subst (Quiet k n) (sym same) q
step-Quiet k n now (answer id a) s h q =
    let same : resume_round s.active id a now s ≡ s =
      unfold resume_round in ap (λ (r : Option Round). resume_round r id a now s) q.calm.1 in
    subst (Quiet k n) (sym same) q

run-Quiet :
    (k : Key) (n : ℕ) (events : List (Option Context × Event)) (s : Service)
    → All (λ e. HasCredential k e.0) events
    → Quiet k n s
    → Quiet k n (run events s)
unfolding run
run-Quiet k n [] s h q = q
run-Quiet k n ((now, e) ∷ events) s h q =
    run-Quiet k n events (step now e s) h.1 (step-Quiet k n now e s h.0 q)

current_credential :
    (c : Context) (r : Round) (s : Service)
    → is_current (some c) r s ≡ true
    → credential_key c ≡ credential_key r.context
unfolding is_current key
current_credential c r s h =
    let same = key_eq→eq (key c) (key r.context) (ground arith) in unfold key in cc same

answer_told :
    (a : Answer) (r : Round) (now : Option Context) (s : Service)
    → s.active ≡ some r
    → r.told ≡ false
    → is_current now r s ≡ true
    → step now (answer r.id (some a)) s ≡ tell a r s
unfolding step resume_round validated
answer_told a r now s active told current =
    ap (λ (o : Option Round). resume_round o r.id (some a) now s) active
    ∙ ifs (r.id == r.id) _ _ (==_refl r.id)
    ∙ ap (λ (t : Bool). validated t a now r s) told
    ∙ ifs (is_current now r s) _ _ current

observer_returned :
    (a : Answer) (r : Round) (now : Option Context) (s : Service)
    → step now (answer r.id none) (tell a r s) ≡ finish now (tell a r s)
unfolding step resume_round returned tell
observer_returned a r now s = ifs (r.id == r.id) _ _ (==_refl r.id)

told-Quiet :
    (r : Round) (s : Service)
    → s.active ≡ some r
    → IsValid s
    → Quiet
        (credential_key r.context)
        s.rounds
        (record (tell (answered invalid) r s) { active = none })
unfolding tell
told-Quiet r s a v = ground arith

-- Once the portal has found the token of a call invalid, while the call was current, the service calls
-- the portal no more for that profile, login and cookie, whatever events follow: it sets no timer and
-- begins no call until one of the three changes.
pub run-inhibited :
    (r : Round) (c : Context) (s : Service) (events : List (Option Context × Event))
    → s.active ≡ some r
    → r.told ≡ false
    → IsValid s
    → is_current (some c) r s ≡ true
    → All (λ e. HasCredential (credential_key c) e.0) events
    → let t =
        run
          ((some c, answer r.id (some (answered invalid))) ∷ (some c, answer r.id none) ∷ events)
          s in
      (t.timer ≡ none) × (t.active ≡ none) × (t.rounds ≡ s.rounds)
unfolding run
run-inhibited r c s events a told v current h =
    let same = current_credential c r s current in
    let quiet =
      update-Quiet (credential_key c) s.rounds (some c)
        (record (tell (answered invalid) r s) { active = none }) refl
        (subst
          (λ (k : Key). Quiet k s.rounds (record (tell (answered invalid) r s) { active = none }))
          (sym same) (told-Quiet r s a v)) in
    let told_state =
      ap (step (some c) (answer r.id none))
        (answer_told (answered invalid) r (some c) s a told current)
      ∙ observer_returned (answered invalid) r (some c) s in
    let all_quiet =
      run-Quiet (credential_key c) s.rounds events _ h
        (subst (Quiet (credential_key c) s.rounds) (sym told_state) (unfold finish in quiet)) in
    (all_quiet.calm.0, all_quiet.calm.1, all_quiet.begun)
