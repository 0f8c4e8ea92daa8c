-- ===== src/Connection/Recovery/Core.antt =====
-- The part of the state of electron/recovery-controller.js that the rounds live in, and what the
-- operations of State do to it.
use usshtc.Prelude.{ℕ, ◌≡◌, refl, ap, ◌∙◌, Bool, true, false, List, ◌∷◌, Option, none, some, arith}
use usshtc.Connection.Codes.{Code}
use usshtc.Connection.Recovery.Context.{Context, World, context}
use usshtc.Connection.Recovery.State.{
  Status, Outcome, cancelled, Round, Controller, publish, settle, restore, cancel, cancel_active,
}

-- The part of the state that the rounds live in.
pub record Core : Type 0 where
  pub active : Option Round
  pub rounds : ℕ
  pub resolved : List (ℕ × Outcome)
  pub hinting : Bool
  pub disposed : Bool
  pub suspended : Bool
  pub paused : Bool
  pub cancelling : Bool
  pub delays : List (Option ℕ)

abbrev pub core : Controller → Core
core s = record {
  active = s.active;
  rounds = s.rounds;
  resolved = s.resolved;
  hinting = s.hinting;
  disposed = s.disposed;
  suspended = s.suspended;
  paused = s.paused;
  cancelling = s.cancelling;
  delays = s.delays;
}

pub publish-core :
    (c : Context) (status : Status) (code : Code) (s : Controller)
    → core (publish c status code s) ≡ core s
unfolding publish
publish-core c status code s = ground arith

pub restore-core : (c : Option Context) (s : Controller) → core (restore c s) ≡ core s
unfolding restore
restore-core none s = refl
restore-core (some c) s = ground arith

-- What a cancellation leaves of it.
unfoldable pub dropped : Option Round → Core → Core
dropped none c = c
dropped (some r) c = record c {
  active = none;
  resolved = (r.id, cancelled) ∷ c.resolved;
  cancelling = false;
}

pub cancel_active-core :
    (active : Option Round) (w : World) (s : Controller)
    → core (cancel_active active w s) ≡ dropped active (core s)
unfolding cancel_active dropped
cancel_active-core none w s = refl
cancel_active-core (some r) w s =
    ap (λ (c : Core). record c { cancelling = false })
      (restore-core (context w) (settle r cancelled (record s { cancelling = true })))

pub cancel-core :
    (w : World) (s : Controller)
    → core (cancel w s) ≡ dropped s.active (record (core s) { paused = true })
unfolding cancel
cancel-core w s = cancel_active-core s.active w (record s { paused = true })

pub dropped-active :
    (active : Option Round) (c : Core) → c.active ≡ active → (dropped active c).active ≡ none
unfolding dropped
dropped-active none c a = a
dropped-active (some r) c a = refl

pub dropped-flags :
    (active : Option Round) (c : Core)
    → ((dropped active c).disposed ≡ c.disposed) × ((dropped active c).suspended ≡ c.suspended)
unfolding dropped
dropped-flags none c = (refl, refl)
dropped-flags (some r) c = (refl, refl)

pub cancel-active : (w : World) (s : Controller) → (cancel w s).active ≡ none
cancel-active w s =
    ap (λ (c : Core). c.active) (cancel-core w s)
    ∙ dropped-active s.active (record (core s) { paused = true }) refl

pub cancel-flags :
    (w : World) (s : Controller)
    → ((cancel w s).disposed ≡ s.disposed) × ((cancel w s).suspended ≡ s.suspended)
cancel-flags w s =
    let (d, e) = dropped-flags s.active (record (core s) { paused = true }) in
    (
      ap (λ (c : Core). c.disposed) (cancel-core w s) ∙ d,
      ap (λ (c : Core). c.suspended) (cancel-core w s) ∙ e,
    )
