-- ===== src/Connection/Recovery/Attempts.antt =====
-- The attempts of electron/recovery-controller.js keep its state valid.
use usshtc.Prelude.{
  ℕ, ◌≡◌, ap, ◌∙◌, inl, inr, Bool, true, false, ◌∷◌, Option, none, some, if◌then◌else◌, ◌==◌, arith,
  Bool-cases,
}
use usshtc.Connection.Codes.{
  Code, no_code, auth_required, wss_failed, remote_ready_timeout, code_eq,
}
use usshtc.Connection.Recovery.Context.{Context, World, transport_key}
use usshtc.Connection.Recovery.State.{
  Status, checking, reachable, offline, error_status, auth_status, Outcome, cancelled, recovered_ok,
  failed, Phase, waiting, published_checking, preflighting, probing, published_reachable,
  told_recovered, starting, published_refusal, published_failure, Round, Controller, publish,
  settle,
}
use usshtc.Connection.Recovery.Round.{
  Answer, elapsed, returned, crashed, preflighted, probed, started, Probed, answered, refused,
  unanswered, enter, end_blocked, is_current, block, after_probe, announce_failure, after_failure,
  after_recovery, after_start, advance, is_awaited, after_refusal, after_crash, attempt,
  resume_round, preflight_failure, status_of, start_failure,
}
use usshtc.Connection.Recovery.Core.{Core, publish-core}
use usshtc.Connection.Recovery.Valid.{IsValid, publish-IsValid, settle-IsValid, enter-IsValid}

pub publish-active :
    (c : Context) (status : Status) (code : Code) (s : Controller) {active : Option Round}
    → s.active ≡ active
    → (publish c status code s).active ≡ active
publish-active c status code s a = ap (λ (c : Core). c.active) (publish-core c status code s) ∙ a

module _ (id : ℕ) (r : Round) where
  enter_published-IsValid :
      (phase : Phase) (c : Context) (status : Status) (code : Code) (s : Controller)
      → s.active ≡ some r
      → IsValid id s
      → IsValid id (enter phase r (publish c status code s))
  enter_published-IsValid phase c status code s a v =
      enter-IsValid id phase r (publish c status code s) (publish-active c status code s a)
        (publish-IsValid id c status code s v)

  settle_published-IsValid :
      (outcome : Outcome) (c : Context) (status : Status) (code : Code) (s : Controller)
      → s.active ≡ some r
      → IsValid id s
      → IsValid id (settle r outcome (publish c status code s))
  settle_published-IsValid outcome c status code s a v =
      settle-IsValid id r outcome (publish c status code s) (publish-active c status code s a)
        (publish-IsValid id c status code s v)

  announce_failure-IsValid :
      (code : Code) (terminal : Bool) (s : Controller)
      → s.active ≡ some r
      → IsValid id s
      → IsValid id (announce_failure code terminal r s)
  unfolding announce_failure
  announce_failure-IsValid code terminal s a v =
      let inhibited =
        if code_eq code remote_ready_timeout then some (transport_key r.context) else s.inhibited in
      enter_published-IsValid (published_failure code terminal) r.context
        (if terminal then error_status else offline) code
        (record s { inhibited = inhibited; unhealthy = true }) a v

  end_blocked-IsValid :
      (status : Status) (code : Code) (s : Controller)
      → s.active ≡ some r
      → IsValid id s
      → IsValid id (end_blocked status code r s)
  unfolding end_blocked
  end_blocked-IsValid status code s a v =
      settle_published-IsValid (failed code) r.context status code (block r.context s) a v

  after_probe-IsValid :
      (result : Probed) (s : Controller)
      → s.active ≡ some r
      → IsValid id s
      → IsValid id (after_probe result r s)
  unfolding after_probe
  after_probe-IsValid answered s a v =
      enter_published-IsValid (published_reachable s.unhealthy) r.context reachable no_code
        (record s { unhealthy = false; blocked = none }) a v
  after_probe-IsValid refused s a v =
      enter_published-IsValid published_refusal r.context auth_status auth_required
        (block r.context (record s { unhealthy = true })) a v
  after_probe-IsValid (unanswered auth_required terminal) s a v =
      end_blocked-IsValid auth_status auth_required (record s { unhealthy = true }) a v
  after_probe-IsValid (unanswered code terminal) s a v =
      announce_failure-IsValid code terminal s a v

  after_failure-IsValid :
      (code : Code) (terminal : Bool) (s : Controller)
      → s.active ≡ some r
      → IsValid id s
      → IsValid id (after_failure code terminal r s)
  unfolding after_failure
  after_failure-IsValid code terminal s a v = ground arith

  after_recovery-IsValid :
      (w : World) (s : Controller)
      → s.active ≡ some r
      → IsValid id s
      → IsValid id (after_recovery w r s)
  unfolding after_recovery
  after_recovery-IsValid w s a v = ground arith

  after_start-IsValid :
      (result : Option Code) (s : Controller)
      → s.active ≡ some r
      → IsValid id s
      → IsValid id (after_start result r s)
  unfolding after_start
  after_start-IsValid none s a v = settle-IsValid id r recovered_ok s a v
  after_start-IsValid (some code) s a v =
      end_blocked-IsValid (status_of (start_failure code)) (start_failure code) s a v

  told-IsValid :
      (recovered : Bool) (s : Controller)
      → s.active ≡ some r
      → IsValid id s
      → IsValid id (
          advance
            (published_reachable recovered)
            returned
            (record { snapshot = r.context.snapshot; access = none; reconnect = false })
            r
            s)
  unfolding advance
  told-IsValid true s a v =
      enter-IsValid id told_recovered r
        (record s { recoveries = r.context.snapshot.scope ∷ s.recoveries }) a v
  told-IsValid false s a v = enter-IsValid id told_recovered r s a v

  advance-IsValid :
      (phase : Phase) (answer : Answer) (w : World) (s : Controller)
      → s.active ≡ some r
      → IsValid id s
      → IsValid id (advance phase answer w r s)
  unfolding advance
  advance-IsValid waiting elapsed w s a v =
      enter_published-IsValid published_checking r.context checking no_code s a v
  advance-IsValid published_checking returned w s a v = enter-IsValid id preflighting r s a v
  advance-IsValid preflighting (preflighted none) w s a v = enter-IsValid id probing r s a v
  advance-IsValid preflighting (preflighted (some code)) w s a v =
      after_probe-IsValid (preflight_failure code) s a v
  advance-IsValid probing (probed result) w s a v = after_probe-IsValid result s a v
  advance-IsValid (published_reachable recovered) returned w s a v = told-IsValid recovered s a v
  advance-IsValid told_recovered returned w s a v = after_recovery-IsValid w s a v
  advance-IsValid starting (started result) w s a v = after_start-IsValid result s a v
  advance-IsValid (published_failure code terminal) returned w s a v =
      after_failure-IsValid code terminal s a v
  advance-IsValid _ _ w s a v = v

  after_refusal-IsValid :
      (w : World) (s : Controller)
      → s.active ≡ some r
      → IsValid id s
      → IsValid id (after_refusal w r s)
  unfolding after_refusal
  after_refusal-IsValid w s a v = ground arith

  after_crash-IsValid :
      (w : World) (s : Controller)
      → s.active ≡ some r
      → IsValid id s
      → IsValid id (after_crash w r s)
  unfolding after_crash
  after_crash-IsValid w s a v = elim (Bool-cases (is_current w r s)) [
    | inl e ↦
        rw e (settle_published-IsValid (failed wss_failed) r.context error_status wss_failed s a v)
    | inr e ↦ rw e (settle-IsValid id r (failed wss_failed) s a v)
  ]

  current-IsValid :
      (phase : Phase) (answer : Answer) (w : World) (s : Controller)
      → s.active ≡ some r
      → IsValid id s
      → IsValid id (if is_current w r s then advance phase answer w r s else settle r cancelled s)
  current-IsValid phase answer w s a v = elim (Bool-cases (is_current w r s)) [
    | inl e ↦ rw e (advance-IsValid phase answer w s a v)
    | inr e ↦ rw e (settle-IsValid id r cancelled s a v)
  ]

  awaited-IsValid :
      (phase : Phase) (answer : Answer) (w : World) (s : Controller)
      → s.active ≡ some r
      → IsValid id s
      → IsValid id (
          if is_awaited phase answer
          then (if is_current w r s then advance phase answer w r s else settle r cancelled s)
          else s)
  awaited-IsValid phase answer w s a v = elim (Bool-cases (is_awaited phase answer)) [
    | inl e ↦ rw e (current-IsValid phase answer w s a v)
    | inr e ↦ rw e v
  ]

  attempt-IsValid :
      (phase : Phase) (answer : Answer) (w : World) (s : Controller)
      → s.active ≡ some r
      → IsValid id s
      → IsValid id (attempt phase answer w r s)
  unfolding attempt
  attempt-IsValid waiting crashed w s a v = v
  attempt-IsValid published_checking crashed w s a v = after_crash-IsValid w s a v
  attempt-IsValid phase crashed w s a v = after_crash-IsValid w s a v
  attempt-IsValid published_refusal returned w s a v = after_refusal-IsValid w s a v
  attempt-IsValid phase answer w s a v = awaited-IsValid phase answer w s a v

pub resume_round-IsValid :
    (id : ℕ) (active : Option Round) (n : ℕ) (answer : Answer) (w : World) (s : Controller)
    → s.active ≡ active
    → IsValid id s
    → IsValid id (resume_round active n answer w s)
unfolding resume_round
resume_round-IsValid id none n answer w s a v = v
resume_round-IsValid id (some r) n answer w s a v = elim (Bool-cases (r.id == n)) [
  | inl e ↦ rw e (attempt-IsValid id r r.phase answer w s a v)
  | inr e ↦ rw e v
]
