-- ===== src/Connection/Recovery/Exhausted.antt =====
-- A round of electron/recovery-controller.js whose attempts all fail: how often it tries, how long it
-- waits in between, and how it ends.
use usshtc.Prelude.{
  ℕ, suc, ◌≡◌, ◌≢◌, refl, ap, ◌∙◌, Bool, true, false, List, [], ◌∷◌, ◌++◌, Option, none, some,
  if◌then◌else◌, ◌==◌, ==_refl, arith, All, append-nil,
}
use usshtc.Connection.Codes.{
  Code, no_code, auth_required, Key, key_eq_refl, portal_network, portal_timeout, portal_permission,
  portal_not_found, portal_unimplemented, portal_quota, portal_unknown, operation_cancelled,
}
use usshtc.Connection.Recovery.Context.{Context, World, context, key}
use usshtc.Connection.Recovery.State.{
  Status, checking, Outcome, cancelled, failed, Phase, waiting, published_checking, preflighting,
  probing, published_failure, Round, Controller, publish, settle,
}
use usshtc.Connection.Recovery.Round.{
  Answer, elapsed, returned, preflighted, probed, unanswered, retry_delays, delay_from, is_current,
  after_probe, announce_failure, after_failure, advance, is_awaited, attempt, resume_round,
  preflight_failure, Probed,
}
use usshtc.Connection.Recovery.Controller.{Event, answer, step, run}
use usshtc.Connection.Preflight.{operational_code}

-- The part of the state that tells of the attempts.
pub record View : Type 0 where
  pub active : Option Round
  pub blocked : Option Key
  pub observed : Option Key
  pub rounds : ℕ
  pub disposed : Bool
  pub suspended : Bool
  pub delays : List (Option ℕ)
  pub resolved : List (ℕ × Outcome)

abbrev pub view : Controller → View
view s = record {
  active = s.active;
  blocked = s.blocked;
  observed = s.observed;
  rounds = s.rounds;
  disposed = s.disposed;
  suspended = s.suspended;
  delays = s.delays;
  resolved = s.resolved;
}

publish-view :
    (c : Context) (status : Status) (code : Code) (s : Controller)
    → view (publish c status code s) ≡ view s
unfolding publish
publish-view c status code s = ground arith

announced :
    (code : Code) (terminal : Bool) (r : Round) (s : Controller)
    → code ≢ auth_required
    → after_probe (unanswered code terminal) r s ≡ announce_failure code terminal r s
unfolding after_probe
announced auth_required terminal r s h = absurd (h refl)
announced _ terminal r s h = refl

step-active :
    (w : World) (a : Answer) (r : Round) (s : Controller)
    → s.active ≡ some r
    → step w (answer r.id a) s ≡ attempt r.phase a w r s
unfolding step resume_round
step-active w a r s h =
    ap (λ (active : Option Round). resume_round active r.id a w s) h
    ∙ taken (r.id == r.id) _ _ (==_refl r.id)
  where
    taken : (test : Bool) (x y : Controller) → test ≡ true → (if test then x else y) ≡ x
    taken test x y e = rw e refl

-- How an attempt fails: the preflight throws this code, or the probe ends with it.
pub data Failing : Type 0 where
  in_preflight in_probe : Code → Failing

-- The code that is published: the preflight's own codes as they are, any other as PORTAL_NETWORK.
abbrev pub code_of : Failing → Code
code_of (in_preflight code) = operational_code code
code_of (in_probe code) = code

-- The failure is not that of a missing login.
abbrev pub IsOperational : Failing → Type 0
IsOperational (in_preflight code) = code ≢ auth_required
IsOperational (in_probe code) = code ≢ auth_required

operational-auth : (code : Code) → operational_code code ≢ auth_required
unfolding operational_code
operational-auth portal_network = λ h. ground arith
operational-auth portal_timeout = λ h. ground arith
operational-auth portal_permission = λ h. ground arith
operational-auth portal_not_found = λ h. ground arith
operational-auth portal_unimplemented = λ h. ground arith
operational-auth portal_quota = λ h. ground arith
operational-auth portal_unknown = λ h. ground arith
operational-auth operation_cancelled = λ h. ground arith
operational-auth _ = λ h. ground arith

goes_on :
    (code : Code)
    → code ≢ auth_required
    → preflight_failure code ≡ unanswered (operational_code code) false
unfolding preflight_failure
goes_on auth_required h = absurd (h refl)
goes_on _ h = refl

module _ (w : World) (c : Context) (readable : context w ≡ some c) (n : ℕ) where
  abbrev pub at : ℕ → Phase → Round
  at attempt phase = record { id = n; context = c; attempt = attempt; phase = phase }

  -- The round stands in this phase of this attempt, and nothing has stopped it.
  abbrev pub standing : ℕ → Phase → Option Key → List (Option ℕ) → List (ℕ × Outcome) → View
  standing attempt phase blocked delays resolved = record {
    active = some (at attempt phase);
    blocked = blocked;
    observed = some (key c);
    rounds = suc n;
    disposed = false;
    suspended = false;
    delays = delays;
    resolved = resolved;
  }

  is_current-standing :
      (k : ℕ) (phase : Phase) (s : Controller)
      → s.disposed ≡ false
      → s.suspended ≡ false
      → is_current w (at k phase) s ≡ true
  unfolding is_current
  is_current-standing k phase s d e = rw (d, e, readable) (key_eq_refl (key c))

  abbrev gate : Phase → Answer → ℕ → Controller → Controller
  gate phase a k s =
      if is_awaited phase a
      then (if is_current w (at k phase) s
          then advance phase a w (at k phase) s
          else settle (at k phase) cancelled s)
      else s

  stepped :
      (k : ℕ) (phase : Phase) (a : Answer) (s : Controller) (b : Option Key) (ds : List (Option ℕ))
      (rs : List (ℕ × Outcome))
      → view s ≡ standing k phase b ds rs
      → is_awaited phase a ≡ true
      → attempt phase a w (at k phase) s ≡ gate phase a k s
      → step w (answer n a) s ≡ advance phase a w (at k phase) s
  stepped k phase a s b ds rs v awaited same =
      step-active w a (at k phase) s (ap (λ (t : View). t.active) v)
      ∙ same
      ∙ open_gate (is_awaited phase a) (is_current w (at k phase) s) _ _ _ awaited (
          is_current-standing k phase s (ap (λ (t : View). t.disposed) v)
            (ap (λ (t : View). t.suspended) v))
    where
      open_gate :
          (p q : Bool) (x y z : Controller)
          → p ≡ true
          → q ≡ true
          → (if p then (if q then x else y) else z) ≡ x
      open_gate p q x y z e f = rw (e, f) refl

  module _ (k : ℕ) (b : Option Key) (ds : List (Option ℕ)) (rs : List (ℕ × Outcome)) where
    after_timer :
        (s : Controller)
        → view s ≡ standing k waiting b ds rs
        → view (step w (answer n elapsed) s) ≡ standing k published_checking b ds rs
    unfolding is_awaited
    after_timer s v =
        ap view (stepped k waiting elapsed s b ds rs v refl (unfold attempt in refl))
        ∙ unfold advance in
          ap (λ (t : View). record t { active = some (at k published_checking) })
            (publish-view c checking no_code s ∙ v)

    after_checking :
        (s : Controller)
        → view s ≡ standing k published_checking b ds rs
        → view (step w (answer n returned) s) ≡ standing k preflighting b ds rs
    unfolding is_awaited
    after_checking s v =
        ap view (stepped k published_checking returned s b ds rs v refl (unfold attempt in refl))
        ∙ unfold advance in ap (λ (t : View). record t { active = some (at k preflighting) }) v

    after_preflight :
        (s : Controller)
        → view s ≡ standing k preflighting b ds rs
        → view (step w (answer n (preflighted none)) s) ≡ standing k probing b ds rs
    unfolding is_awaited
    after_preflight s v =
        ap view
          (stepped k preflighting (preflighted none) s b ds rs v refl (unfold attempt in refl))
        ∙ unfold advance in ap (λ (t : View). record t { active = some (at k probing) }) v

    announce-view :
        (phase : Phase) (code : Code) (s : Controller)
        → view s ≡ standing k phase b ds rs
        → view (announce_failure code false (at k phase) s)
          ≡ standing k (published_failure code false) b ds rs
    unfolding announce_failure
    announce-view phase code s v =
        ap (λ (t : View). record t { active = some (at k (published_failure code false)) })
          (publish-view c _ code _ ∙ v)

    probe-announced :
        (code : Code) (s : Controller)
        → code ≢ auth_required
        → view (advance probing (probed (unanswered code false)) w (at k probing) s)
          ≡ view (announce_failure code false (at k probing) s)
    unfolding advance
    probe-announced code s h = ap view (announced code false (at k probing) s h)

    after_unanswered :
        (code : Code) (s : Controller)
        → code ≢ auth_required
        → view s ≡ standing k probing b ds rs
        → view (step w (answer n (probed (unanswered code false))) s)
          ≡ standing k (published_failure code false) b ds rs
    after_unanswered code s h v =
        ap view (
          stepped k probing (probed (unanswered code false)) s b ds rs v (unfold is_awaited in refl)
            (unfold attempt in refl))
        ∙ probe-announced code s h
        ∙ announce-view probing code s v

    preflight-announced :
        (code : Code) (s : Controller)
        → code ≢ auth_required
        → advance preflighting (preflighted (some code)) w (at k preflighting) s
          ≡ announce_failure (operational_code code) false (at k preflighting) s
    unfolding advance
    preflight-announced code s h =
        ap (λ (p : Probed). after_probe p (at k preflighting) s) (goes_on code h)
        ∙ announced (operational_code code) false (at k preflighting) s (operational-auth code)

    after_thrown :
        (code : Code) (s : Controller)
        → code ≢ auth_required
        → view s ≡ standing k preflighting b ds rs
        → view (step w (answer n (preflighted (some code))) s)
          ≡ standing k (published_failure (operational_code code) false) b ds rs
    after_thrown code s h v =
        ap view (
          stepped k preflighting (preflighted (some code)) s b ds rs v (unfold is_awaited in refl)
            (unfold attempt in refl))
        ∙ ap view (preflight-announced code s h)
        ∙ announce-view preflighting (operational_code code) s v

    retry-view :
        (code : Code) (s : Controller)
        → (k == 6) ≡ false
        → view s ≡ standing k (published_failure code false) b ds rs
        → view (after_failure code false (at k (published_failure code false)) s)
          ≡ standing (suc k) waiting b (delay_from retry_delays k ∷ ds) rs
    unfolding after_failure
    retry-view code s h v = rw h (
        ap
          (λ (t : View). record t {
            active = some (at (suc k) waiting);
            delays = delay_from retry_delays k ∷ t.delays;
          })
          v)

    last-view :
        (code : Code) (s : Controller)
        → (k == 6) ≡ true
        → view s ≡ standing k (published_failure code false) b ds rs
        → view (after_failure code false (at k (published_failure code false)) s)
          ≡ record (standing k waiting (some (key c)) ds ((n, failed code) ∷ rs)) { active = none }
    unfolding after_failure
    last-view code s h v = rw h (
        ap
          (λ (t : View). record t {
            active = none;
            blocked = some (key c);
            resolved = (n, failed code) ∷ t.resolved;
          })
          v)

    after_retry :
        (code : Code) (s : Controller)
        → (k == 6) ≡ false
        → view s ≡ standing k (published_failure code false) b ds rs
        → view (step w (answer n returned) s)
          ≡ standing (suc k) waiting b (delay_from retry_delays k ∷ ds) rs
    after_retry code s h v =
        ap view (
          stepped k (published_failure code false) returned s b ds rs v (unfold is_awaited in refl)
            (unfold attempt in refl))
        ∙ unfold advance in retry-view code s h v

    after_last :
        (code : Code) (s : Controller)
        → (k == 6) ≡ true
        → view s ≡ standing k (published_failure code false) b ds rs
        → view (step w (answer n returned) s)
          ≡ record (standing k waiting (some (key c)) ds ((n, failed code) ∷ rs)) { active = none }
    after_last code s h v =
        ap view (
          stepped k (published_failure code false) returned s b ds rs v (unfold is_awaited in refl)
            (unfold attempt in refl))
        ∙ unfold advance in last-view code s h v

  run-append :
      (xs ys : List (World × Event)) (s : Controller) → run (xs ++ ys) s ≡ run ys (run xs s)
  unfolding run
  run-append [] ys s = refl
  run-append ((v, e) ∷ xs) ys s = run-append xs ys (step v e s)

  -- One attempt: the timer, the observer, the preflight or also a probe with this failure, and the
  -- observer.
  abbrev pub failing : Failing → List (World × Event)
  failing (in_preflight code) =
      (w, answer n elapsed)
      ∷ (w, answer n returned)
      ∷ (w, answer n (preflighted (some code)))
      ∷ (w, answer n returned)
      ∷ []
  failing (in_probe code) =
      (w, answer n elapsed)
      ∷ (w, answer n returned)
      ∷ (w, answer n (preflighted none))
      ∷ (w, answer n (probed (unanswered code false)))
      ∷ (w, answer n returned)
      ∷ []

  abbrev pub failing_all : List Failing → List (World × Event)
  failing_all [] = []
  failing_all (f ∷ failures) = failing f ++ failing_all failures

  run-failing :
      (k : ℕ) (b : Option Key) (ds : List (Option ℕ)) (rs : List (ℕ × Outcome)) (f : Failing)
      (s : Controller)
      → IsOperational f
      → (k == 6) ≡ false
      → view s ≡ standing k waiting b ds rs
      → view (run (failing f) s) ≡ standing (suc k) waiting b (delay_from retry_delays k ∷ ds) rs
  unfolding run
  run-failing k b ds rs (in_preflight code) s h e v =
      after_retry k b ds rs (operational_code code) _ e
        (after_thrown k b ds rs code _ h (after_checking k b ds rs _ (after_timer k b ds rs s v)))
  run-failing k b ds rs (in_probe code) s h e v = after_retry k b ds rs code _ e (
      after_unanswered k b ds rs code _ h
        (after_preflight k b ds rs _ (after_checking k b ds rs _ (after_timer k b ds rs s v))))

  run-last :
      (k : ℕ) (b : Option Key) (ds : List (Option ℕ)) (rs : List (ℕ × Outcome)) (f : Failing)
      (s : Controller)
      → IsOperational f
      → (k == 6) ≡ true
      → view s ≡ standing k waiting b ds rs
      → view (run (failing f) s)
        ≡ record (standing k waiting (some (key c)) ds ((n, failed (code_of f)) ∷ rs)) {
          active = none;
        }
  unfolding run
  run-last k b ds rs (in_preflight code) s h e v =
      after_last k b ds rs (operational_code code) _ e
        (after_thrown k b ds rs code _ h (after_checking k b ds rs _ (after_timer k b ds rs s v)))
  run-last k b ds rs (in_probe code) s h e v = after_last k b ds rs code _ e (
      after_unanswered k b ds rs code _ h
        (after_preflight k b ds rs _ (after_checking k b ds rs _ (after_timer k b ds rs s v))))

  -- The view after one failing attempt and more.
  run-more :
      (k : ℕ) (b : Option Key) (ds : List (Option ℕ)) (rs : List (ℕ × Outcome)) (f : Failing)
      (failures : List Failing) (s : Controller)
      → IsOperational f
      → (k == 6) ≡ false
      → view s ≡ standing k waiting b ds rs
      → (t : Controller) × (view t ≡ standing (suc k) waiting b (delay_from retry_delays k ∷ ds) rs)
        × (run (failing_all (f ∷ failures)) s ≡ run (failing_all failures) t)
  run-more k b ds rs f failures s h e v = (
    run (failing f) s,
    run-failing k b ds rs f s h e v,
    run-append (failing f) (failing_all failures) s,
  )

  unfoldable pub ended : Code → List (Option ℕ) → List (ℕ × Outcome) → View
  ended code ds rs = record (standing 6 waiting (some (key c)) ds ((n, failed code) ∷ rs)) {
    active = none;
  }

  pub run-exhausted :
      (s : Controller) (b : Option Key) (ds : List (Option ℕ)) (rs : List (ℕ × Outcome))
      (f₁ f₂ f₃ f₄ f₅ f₆ : Failing)
      → All IsOperational (f₁ ∷ f₂ ∷ f₃ ∷ f₄ ∷ f₅ ∷ f₆ ∷ [])
      → view s ≡ standing 1 waiting b (some 1000 ∷ ds) rs
      → view (run (failing_all (f₁ ∷ f₂ ∷ f₃ ∷ f₄ ∷ f₅ ∷ f₆ ∷ [])) s)
        ≡ ended
            (code_of f₆)
            (some 30000 ∷ some 16000 ∷ some 8000 ∷ some 4000 ∷ some 2000 ∷ some 1000 ∷ ds)
            rs
  unfolding delay_from ended
  run-exhausted s b ds rs f₁ f₂ f₃ f₄ f₅ f₆ h v =
      let (s₂, v₂, e₂) =
        run-more 1 b (some 1000 ∷ ds) rs f₁ (f₂ ∷ f₃ ∷ f₄ ∷ f₅ ∷ f₆ ∷ []) s h.0 refl v in
      let (s₃, v₃, e₃) = run-more 2 b _ rs f₂ (f₃ ∷ f₄ ∷ f₅ ∷ f₆ ∷ []) s₂ h.1.0 refl v₂ in
      let (s₄, v₄, e₄) = run-more 3 b _ rs f₃ (f₄ ∷ f₅ ∷ f₆ ∷ []) s₃ h.1.1.0 refl v₃ in
      let (s₅, v₅, e₅) = run-more 4 b _ rs f₄ (f₅ ∷ f₆ ∷ []) s₄ h.1.1.1.0 refl v₄ in
      let (s₆, v₆, e₆) = run-more 5 b _ rs f₅ (f₆ ∷ []) s₅ h.1.1.1.1.0 refl v₅ in
      ap view (e₂ ∙ e₃ ∙ e₄ ∙ e₅ ∙ e₆)
      ∙ ap (λ es. view (run es s₆)) (append-nil (failing f₆))
      ∙ run-last 6 b _ rs f₆ s₆ h.1.1.1.1.1.0 refl v₆
