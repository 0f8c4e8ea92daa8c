-- ===== src/Connection/Recovery/Retried.antt =====
-- A retry by hand of electron/recovery-controller.js, from its call to the end of its last attempt.
use usshtc.Prelude.{
  ℕ, suc, ◌≡◌, refl, ap, ◌∙◌, Bool, true, false, not, List, [], ◌∷◌, Option, none, some,
  if◌then◌else◌, ◌==◌, arith, All, ==_iff, &&_iff,
}
use usshtc.Prelude.Text.{text_eq, text_eq_iff}
use usshtc.Connection.Codes.{Key}
use usshtc.Connection.Recovery.Context.{Scope, same_scope, Context, World, context, key, validate}
use usshtc.Connection.Recovery.State.{
  Outcome, failed, waiting, Round, Controller, cancel, cancel_active,
}
use usshtc.Connection.Recovery.Controller.{
  Reply, start_round, begin_new, is_joined, begin, retry_in, retry, retry_call, step, run,
}
use usshtc.Connection.Recovery.Blocked.{Quiet, stance}
use usshtc.Connection.Recovery.Exhausted.{
  View, view, standing, ended, failing_all, run-exhausted, Failing, code_of, IsOperational,
}

same_scope_refl : (scope : Scope) → same_scope scope scope ≡ true
unfolding same_scope
same_scope_refl scope =
    (&&_iff (text_eq scope.profile_id scope.profile_id) (scope.epoch == scope.epoch)).1 (
      (text_eq_iff scope.profile_id scope.profile_id).1 refl,
      (==_iff scope.epoch scope.epoch).1 refl,
    )

-- A controller in which nothing runs, and which has not been stopped.
pub record IsFree (s : Controller) : Type 0 where
  pub idle : s.active ≡ none
  pub running : s.disposed ≡ false
  pub awake : s.suspended ≡ false

skipped : (test : Bool) (x y : Controller × Reply) → test ≡ false → (if test then x else y) ≡ y
skipped test x y h = rw h refl

module _ (w : World) (c : Context) (readable : context w ≡ some c) where
  -- The round that has just begun waits for its first attempt.
  abbrev pub begun : ℕ → Option Key → List (Option ℕ) → List (ℕ × Outcome) → View
  begun n blocked delays resolved =
      standing w c readable n 1 waiting blocked (some 1000 ∷ delays) resolved

  new_round :
      (s : Controller)
      → IsFree s
      → s.observed ≡ some (key c)
      → view (start_round w c s).0 ≡ begun s.rounds s.blocked s.delays s.resolved
  unfolding start_round
  new_round s f o = ground arith

  new_by_hand :
      (s : Controller)
      → IsFree s
      → s.observed ≡ some (key c)
      → validate c ≡ none
      → view (begin_new w c true s).0 ≡ begun s.rounds none s.delays s.resolved
  unfolding begin_new
  new_by_hand s f o v =
      let cleared : Controller = record s { inhibited = none; blocked = none } in
      rw v (new_round cleared (record { idle = f.idle; running = f.running; awake = f.awake }) o)

  abbrev seen : Controller → Controller
  seen s = record s { observed = some (key c); observed_scope = some c.snapshot.scope }

  cancel-free : (s : Controller) → s.active ≡ none → cancel w s ≡ record s { paused = true }
  unfolding cancel cancel_active
  cancel-free s a =
      ap (λ (active : Option Round). cancel_active active w (record s { paused = true })) a

  begin-free :
      (s : Controller)
      → s.active ≡ none
      → begin w c true s ≡ begin_new w c true (record (seen s) { paused = false })
  unfolding begin is_joined
  begin-free s a =
      skipped (is_joined s.active c) _ _ (rw a refl)
      ∙ ap (λ (t : Controller). begin_new w c true (record t { paused = false }))
          (cancel-free (seen s) a)

  begin_by_hand :
      (s : Controller)
      → IsFree s
      → validate c ≡ none
      → view (begin w c true s).0 ≡ begun s.rounds none s.delays s.resolved
  begin_by_hand s f v =
      ap (λ (r : Controller × Reply). view r.0) (begin-free s f.idle)
      ∙ new_by_hand (record (seen s) { paused = false })
          (record { idle = f.idle; running = f.running; awake = f.awake }) refl v

  retry-free : (s : Controller) → IsFree s → retry c.snapshot.scope w s ≡ begin w c true s
  unfolding retry retry_in
  retry-free s f =
      skipped s.disposed _ _ f.running
      ∙ ap (λ (o : Option Context). retry_in o c.snapshot.scope w s) readable
      ∙ skipped (not (same_scope c.snapshot.scope c.snapshot.scope)) _ _
          (ap not (same_scope_refl c.snapshot.scope))
      ∙ skipped s.suspended _ _ f.awake

  retry-begun :
      (s : Controller)
      → IsFree s
      → validate c ≡ none
      → view (step w (retry_call c.snapshot.scope) s) ≡ begun s.rounds none s.delays s.resolved
  unfolding step
  retry-begun s f v =
      ap (λ (r : Controller × Reply). view r.0) (retry-free s f) ∙ begin_by_hand s f v

-- A retry by hand that finds nothing running and the context valid begins a round. If its six attempts
-- all fail, each in the preflight or in the probe, none for a missing login or a terminal error of the
-- probe, they wait 1, 2, 4, 8, 16 and 30 seconds, the round ends with the code of the last one and no
-- attempt follows; the context is then blocked.
pub retry-exhausted :
    (w : World) (c : Context) (readable : context w ≡ some c) (s : Controller)
    (f₁ f₂ f₃ f₄ f₅ f₆ : Failing)
    → IsFree s
    → validate c ≡ none
    → All IsOperational (f₁ ∷ f₂ ∷ f₃ ∷ f₄ ∷ f₅ ∷ f₆ ∷ [])
    → let t =
        run
          ((w, retry_call c.snapshot.scope)
            ∷ failing_all w c readable s.rounds (f₁ ∷ f₂ ∷ f₃ ∷ f₄ ∷ f₅ ∷ f₆ ∷ []))
          s in
      (t.delays
        ≡ some 30000 ∷ some 16000 ∷ some 8000 ∷ some 4000 ∷ some 2000 ∷ some 1000 ∷ s.delays)
      × (t.resolved ≡ (s.rounds, failed (code_of f₆)) ∷ s.resolved)
      × Quiet (key c) (suc s.rounds) (stance t)
unfolding run ended
retry-exhausted w c readable s f₁ f₂ f₃ f₄ f₅ f₆ free v h =
    let whole =
      run-exhausted w c readable s.rounds (step w (retry_call c.snapshot.scope) s) none s.delays
        s.resolved f₁ f₂ f₃ f₄ f₅ f₆ h (retry-begun w c readable s free v) in
    (
      ap (λ (t : View). t.delays) whole,
      ap (λ (t : View). t.resolved) whole,
      record {
        idle = ap (λ (t : View). t.active) whole;
        is_blocked = ap (λ (t : View). t.blocked) whole;
        seen = ap (λ (t : View). t.observed) whole;
        begun = ap (λ (t : View). t.rounds) whole;
      },
    )
