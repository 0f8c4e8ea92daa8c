-- ===== src/Connection/Recovery/Valid.antt =====
-- What holds between the calls of electron/recovery-controller.js: the rounds are accounted for, and
-- nothing runs in a controller that is suspended or disposed.
use usshtc.Prelude.{
  ℕ, ◌+◌, ◌≤◌, ◌<◌, ◌≡◌, refl, Bool, true, false, ◌||◌, List, [], ◌∷◌, Option, none, some,
  if◌then◌else◌, ◌==◌, ltb, arith, all, if-P,
}
use usshtc.Connection.Codes.{Code, remote_ready_timeout, recovery_exhausted}
use usshtc.Connection.Recovery.Context.{Context, World, key, validate, transport_key}
use usshtc.Connection.Recovery.State.{
  Status, Outcome, failed, Phase, Round, Controller, publish, settle, restore, cancel,
  schedule_hints, is_key,
}
use usshtc.Connection.Recovery.Round.{delay_from, enter, schedule_attempt, block, status_of}
use usshtc.Connection.Recovery.Controller.{
  Reply, start_round, begin, begin_new, begin_validated, settled, pending, is_joined, joined_id,
}
-- The part of the state that the rounds live in.
use usshtc.Connection.Recovery.Core.{
  Core, core, publish-core, restore-core, dropped, cancel-core, cancel-active, cancel-flags,
}

abbrev pub occurrences : ℕ → List (ℕ × Outcome) → ℕ
occurrences id [] = 0
occurrences id ((n, _) ∷ resolved) = (if n == id then 1 else 0) + occurrences id resolved

abbrev pub running : ℕ → Option Round → ℕ
running id none = 0
running id (some r) = if r.id == id then 1 else 0

abbrev pub is_active : Option Round → Bool
is_active none = false
is_active (some _) = true

-- The attempt of the active round; any number in the range where there is none.
abbrev pub attempt_of : Option Round → ℕ
attempt_of none = 1
attempt_of (some r) = r.attempt

abbrev pub is_delay : Option ℕ → Bool
is_delay none = false
is_delay (some _) = true

pub record Valid (id : ℕ) (c : Core) : Type 0 where
  -- a round that has begun runs, or its promise has been resolved once
  pub tally : occurrences id c.resolved + running id c.active ≡ (if ltb id c.rounds then 1 else 0)
  pub attempts : (1 ≤ attempt_of c.active) × (attempt_of c.active ≤ 6)
  pub stopped : (c.disposed || c.suspended) ≡ true → is_active c.active ≡ false
  pub silent : (c.disposed || c.suspended) ≡ true → c.hinting ≡ false
  pub unpaused : is_active c.active ≡ true → c.paused ≡ false
  pub uncancelled : c.cancelling ≡ false
  pub delayed : all is_delay c.delays ≡ true

pub record HasValid (id : ℕ) (result : Controller × Reply) : Type 0 where
  pub valid : Valid id (core result.0)

module _ (id : ℕ) where
  abbrev pub IsValid : Controller → Type 0
  IsValid s = Valid id (core s)

  pub publish-IsValid :
      (c : Context) (status : Status) (code : Code) (s : Controller)
      → IsValid s
      → IsValid (publish c status code s)
  publish-IsValid c status code s v = rw (publish-core c status code s) v

  pub settle-IsValid :
      (r : Round) (outcome : Outcome) (s : Controller)
      → s.active ≡ some r
      → IsValid s
      → IsValid (settle r outcome s)
  unfolding settle
  settle-IsValid r outcome s a v = ground arith

  restore-IsValid : (c : Option Context) (s : Controller) → IsValid s → IsValid (restore c s)
  restore-IsValid c s v = rw (restore-core c s) v

  pub enter-IsValid :
      (phase : Phase) (r : Round) (s : Controller)
      → s.active ≡ some r
      → IsValid s
      → IsValid (enter phase r s)
  unfolding enter
  enter-IsValid phase r s a v = ground arith

  pub schedule_attempt-IsValid :
      (r : Round) (s : Controller)
      → s.active ≡ some r
      → r.attempt < 6
      → IsValid s
      → IsValid (schedule_attempt r s)
  unfolding schedule_attempt delay_from
  schedule_attempt-IsValid r s a lt v = ground arith

  pub schedule_hints-IsValid :
      (w : World) (s : Controller) → IsValid s → IsValid (schedule_hints w s)
  unfolding schedule_hints
  schedule_hints-IsValid w s v = ground arith

  -- The state after `cancel`, for an operation that has changed the state before it.
  dropped-Valid :
      (active : Option Round) (c : Core)
      → c.active ≡ active
      → Valid id c
      → Valid id (dropped active (record c { paused = true }))
  unfolding dropped
  dropped-Valid none c a v = ground arith
  dropped-Valid (some r) c a v = ground arith

  pub cancel-IsValid : (w : World) (s : Controller) → IsValid s → IsValid (cancel w s)
  cancel-IsValid w s v = rw (cancel-core w s) (dropped-Valid s.active (core s) refl v)

  -- A stop cancels the round and the hints, whatever flag it sets before.
  pub ended-Valid :
      (active : Option Round) (c : Core) (disposed suspended : Bool)
      → c.active ≡ active
      → Valid id c
      → Valid id
          (record (dropped active
            (record c { disposed = disposed; suspended = suspended; paused = true })) {
              hinting = false;
            })
  unfolding dropped
  ended-Valid none c disposed suspended a v = ground arith
  ended-Valid (some r) c disposed suspended a v = ground arith

  start_round-IsValid :
      (w : World) (c : Context) (s : Controller)
      → s.active ≡ none
      → s.paused ≡ false
      → (s.disposed || s.suspended) ≡ false
      → IsValid s
      → IsValid (start_round w c s).0
  unfolding start_round
  start_round-IsValid w c s a p d v = ground arith

  begin_validated-IsValid :
      (invalid : Option Code) (w : World) (c : Context) (manual : Bool) (s : Controller)
      → s.active ≡ none
      → s.paused ≡ false
      → (s.disposed || s.suspended) ≡ false
      → IsValid s
      → IsValid (begin_validated invalid w c manual s).0
  begin_validated-IsValid (some code) w c manual s a p d v =
      unfold begin_validated in
      publish-IsValid c (status_of code) code (block c s) (unfold block in v)
  begin_validated-IsValid none w c true s a p d v =
      unfold begin_validated in start_round-IsValid w c (record s { blocked = none }) a p d v
  begin_validated-IsValid none w c false s a p d v =
      unfold begin_validated in start_round-IsValid w c s a p d v

  pub if-IsValid :
      (test : Bool) (x y : Controller × Reply)
      → (test ≡ true → IsValid x.0)
      → (test ≡ false → IsValid y.0)
      → HasValid id (if test then x else y)
  if-IsValid test x y h k =
      if-P (HasValid id) test x y (λ e. record { valid = h e }) (λ e. record { valid = k e })

  begin_new-IsValid :
      (w : World) (c : Context) (manual : Bool) (s : Controller)
      → s.active ≡ none
      → s.paused ≡ false
      → (s.disposed || s.suspended) ≡ false
      → IsValid s
      → HasValid id (begin_new w c manual s)
  unfolding begin_new
  begin_new-IsValid w c true s a p d v =
      let next =
        begin_validated-IsValid (validate c) w c true (record s { inhibited = none }) a p d v in
      record { valid = next }
  begin_new-IsValid w c false s a p d v =
      let next = begin_validated-IsValid (validate c) w c false s a p d v in
      let begun = begin_validated (validate c) w c false s in
      let known : Controller × Reply = (s, settled (failed recovery_exhausted)) in
      if-IsValid (is_key s.inhibited (transport_key c)) (s, settled (failed remote_ready_timeout))
        (if is_key s.blocked (key c) then known else begun) (λ _. v)
        (λ _.
          HasValid.valid (if-IsValid (is_key s.blocked (key c)) known begun (λ _. v) (λ _. next)))

  unpause-Valid : (c : Core) → c.active ≡ none → Valid id c → Valid id (record c { paused = false })
  unpause-Valid c a v = ground arith

  -- The round before is cancelled, and nothing is paused.
  pub superseded-IsValid :
      (w : World) (s : Controller) → IsValid s → IsValid (record (cancel w s) { paused = false })
  superseded-IsValid w s v =
      unpause-Valid (core (cancel w s)) (cancel-active w s) (cancel-IsValid w s v)

  pub superseded-flags :
      (w : World) (s : Controller)
      → (s.disposed || s.suspended) ≡ false
      → ((cancel w s).disposed || (cancel w s).suspended) ≡ false
  superseded-flags w s d = rw ((cancel-flags w s).0, (cancel-flags w s).1) d

  pub begin-IsValid :
      (w : World) (c : Context) (manual : Bool) (s : Controller)
      → (s.disposed || s.suspended) ≡ false
      → IsValid s
      → HasValid id (begin w c manual s)
  unfolding begin
  begin-IsValid w c manual s d v =
      let seen : Controller = record s {
        observed = some (key c);
        observed_scope = some c.snapshot.scope;
      } in
      let next =
        begin_new-IsValid w c manual (record (cancel w seen) { paused = false })
          (cancel-active w seen) refl (superseded-flags w seen d) (superseded-IsValid w seen v) in
      if-IsValid (is_joined s.active c) (seen, pending (joined_id s.active))
        (begin_new w c manual (record (cancel w seen) { paused = false })) (λ _. v)
        (λ _. HasValid.valid next)
