-- ===== src/Connection/Recovery/Round.antt =====
-- One round of electron/recovery-controller.js: its attempts, and how it begins. After each call of
-- an observer the code waits in a phase of its own, so that other events may come first.
use usshtc.Prelude.{
  ℕ, zero, suc, Bool, true, false, not, ◌&&◌, ◌||◌, List, [], ◌∷◌, Option, none, some,
  if◌then◌else◌, ◌==◌, length,
}
use usshtc.Connection.Codes.{
  Code, no_code, settings_locked, settings_invalid, auth_required, port_in_use, ssh_key_missing,
  ssh_key_invalid, ssh_key_fingerprint_mismatch, remote_ready_timeout, wss_failed,
  proxy_start_failed, portal_network, portal_timeout, portal_permission, portal_not_found,
  portal_unimplemented, portal_quota, portal_unknown, code_eq, key_eq,
}
use usshtc.Connection.Preflight.{operational_code}
use usshtc.Connection.Recovery.Context.{Context, World, context, key, transport_key}
use usshtc.Connection.Recovery.State.{
  Status, checking, reachable, offline, error_status, auth_status, cancelled, recovered_ok, failed,
  Phase, waiting, published_checking, preflighting, probing, published_reachable, told_recovered,
  starting, published_refusal, published_failure, Round, Controller, publish, settle,
}

abbrev pub retry_delays : List ℕ
retry_delays = 1000 ∷ 2000 ∷ 4000 ∷ 8000 ∷ 16000 ∷ 30000 ∷ []

-- `RETRY_DELAYS_MS[index]`.
unfoldable pub delay_from : List ℕ → ℕ → Option ℕ
delay_from [] index = none
delay_from (delay ∷ delays) zero = some delay
delay_from (delay ∷ delays) (suc index) = delay_from delays index

unfoldable pub still_holds : Option Context → Round → Bool
unfolding key key_eq
still_holds none r = false
still_holds (some c) r = key_eq (key c) (key r.context)

-- `current(round)`, for the round that is `active`.
unfoldable pub is_current : World → Round → Controller → Bool
unfolding still_holds
is_current w r s = not s.disposed && not s.suspended && still_holds (context w) r

unfoldable pub enter : Phase → Round → Controller → Controller
enter phase r s = record s { active = some (record r { phase = phase }) }

unfoldable pub schedule_attempt : Round → Controller → Controller
unfolding delay_from
schedule_attempt r s = record s {
  active = some (record r { attempt = suc r.attempt; phase = waiting });
  delays = delay_from retry_delays r.attempt ∷ s.delays;
}

-- What a probe, or the preflight in its place, found out.
pub data Probed : Type 0 where
  answered : Probed
  -- a response of status 401 or 403
  refused : Probed
  unanswered : Code → Bool → Probed

pub data Answer : Type 0 where
  -- the timer fired; an observer returned; the code failed in a way of its own
  elapsed returned crashed : Answer
  preflighted : Option Code → Answer
  probed : Probed → Answer
  started : Option Code → Answer

unfoldable pub preflight_failure : Code → Probed
unfolding operational_code
preflight_failure auth_required = unanswered auth_required true
preflight_failure code = unanswered (operational_code code) false

unfoldable pub start_failure : Code → Code
start_failure port_in_use = port_in_use
start_failure settings_invalid = settings_invalid
start_failure settings_locked = settings_locked
start_failure auth_required = auth_required
start_failure portal_network = portal_network
start_failure portal_timeout = portal_timeout
start_failure portal_permission = portal_permission
start_failure portal_not_found = portal_not_found
start_failure portal_unimplemented = portal_unimplemented
start_failure portal_quota = portal_quota
start_failure portal_unknown = portal_unknown
start_failure ssh_key_missing = ssh_key_missing
start_failure ssh_key_invalid = ssh_key_invalid
start_failure ssh_key_fingerprint_mismatch = ssh_key_fingerprint_mismatch
start_failure _ = proxy_start_failed

-- The status of an error code, where a missing login has one of its own.
unfoldable pub status_of : Code → Status
status_of auth_required = auth_status
status_of _ = error_status

unfoldable pub block : Context → Controller → Controller
block c s = record s { blocked = some (key c) }

-- The round ends with an error that only a change of its context can remove.
unfoldable pub end_blocked : Status → Code → Round → Controller → Controller
unfolding block publish settle
end_blocked status code r s =
    settle r (failed code) (publish r.context status code (block r.context s))

unfoldable pub announce_failure : Code → Bool → Round → Controller → Controller
unfolding publish enter code_eq
announce_failure code terminal r s =
    let inhibited =
      if code_eq code remote_ready_timeout then some (transport_key r.context) else s.inhibited in
    enter (published_failure code terminal) r (
      publish r.context (if terminal then error_status else offline) code
        (record s { inhibited = inhibited; unhealthy = true }))

unfoldable pub after_probe : Probed → Round → Controller → Controller
unfolding publish enter block end_blocked announce_failure
after_probe answered r s =
    enter (published_reachable s.unhealthy) r
      (publish r.context reachable no_code (record s { unhealthy = false; blocked = none }))
after_probe refused r s =
    enter published_refusal r (
      publish r.context auth_status auth_required (block r.context (record s { unhealthy = true })))
after_probe (unanswered auth_required terminal) r s =
    end_blocked auth_status auth_required r (record s { unhealthy = true })
after_probe (unanswered code terminal) r s = announce_failure code terminal r s

unfoldable pub after_failure : Code → Bool → Round → Controller → Controller
unfolding block settle schedule_attempt
after_failure code terminal r s =
    if terminal || r.attempt == length retry_delays
    then settle r (failed code) (block r.context s)
    else schedule_attempt r s

unfoldable pub after_recovery : World → Round → Controller → Controller
unfolding enter settle
after_recovery w r s =
    if w.snapshot.proxy_stopped && w.snapshot.desired_running
    then enter starting r (record s { starts = r.context.snapshot.scope ∷ s.starts })
    else settle r recovered_ok s

unfoldable pub after_start : Option Code → Round → Controller → Controller
unfolding settle end_blocked status_of start_failure
after_start none r s = settle r recovered_ok s
after_start (some code) r s = end_blocked (status_of (start_failure code)) (start_failure code) r s

-- The code after a point where the round is checked to be current.
unfoldable pub advance : Phase → Answer → World → Round → Controller → Controller
unfolding enter publish after_probe preflight_failure after_recovery after_start after_failure
advance waiting elapsed w r s = enter published_checking r (publish r.context checking no_code s)
advance published_checking returned w r s = enter preflighting r s
advance preflighting (preflighted none) w r s = enter probing r s
advance preflighting (preflighted (some code)) w r s = after_probe (preflight_failure code) r s
advance probing (probed result) w r s = after_probe result r s
advance (published_reachable recovered) returned w r s =
    enter told_recovered r
      (if recovered then record s { recoveries = r.context.snapshot.scope ∷ s.recoveries } else s)
advance told_recovered returned w r s = after_recovery w r s
advance starting (started result) w r s = after_start result r s
advance (published_failure code terminal) returned w r s = after_failure code terminal r s
advance _ _ w r s = s

-- Whether the code of a phase waits for such an answer.
unfoldable pub is_awaited : Phase → Answer → Bool
is_awaited waiting elapsed = true
is_awaited published_checking returned = true
is_awaited preflighting (preflighted _) = true
is_awaited probing (probed _) = true
is_awaited (published_reachable _) returned = true
is_awaited told_recovered returned = true
is_awaited starting (started _) = true
is_awaited published_refusal returned = true
is_awaited (published_failure _ _) returned = true
is_awaited _ _ = false

unfoldable pub after_refusal : World → Round → Controller → Controller
unfolding settle is_current
after_refusal w r s =
    settle r (failed auth_required) (
      if is_current w r s then record s { refusals = r.context.snapshot.scope ∷ s.refusals } else s)

-- `attempt(round).catch(…)`.
unfoldable pub after_crash : World → Round → Controller → Controller
unfolding settle publish is_current
after_crash w r s =
    settle r (failed wss_failed)
      (if is_current w r s then publish r.context error_status wss_failed s else s)

unfoldable pub attempt : Phase → Answer → World → Round → Controller → Controller
unfolding advance settle is_current after_refusal after_crash is_awaited
attempt waiting crashed w r s = s
attempt phase crashed w r s = after_crash w r s
attempt published_refusal returned w r s = after_refusal w r s
attempt phase answer w r s =
    if is_awaited phase answer
    then (if is_current w r s then advance phase answer w r s else settle r cancelled s)
    else s

-- The code of a round that is no longer active returns without an effect.
unfoldable pub resume_round : Option Round → ℕ → Answer → World → Controller → Controller
unfolding attempt
resume_round none id answer w s = s
resume_round (some r) id answer w s = if r.id == id then attempt r.phase answer w r s else s
