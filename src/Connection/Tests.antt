-- ===== src/Connection/Tests.antt =====
-- Tests of the models of electron/recovery-controller.js and electron/portal-preflight.js, and the
-- theorems at concrete inputs.
use usshtc.Prelude.{
  ◌+◌, ◌≤◌, ◌≡◌, refl, true, false, ◌||◌, List, [], ◌∷◌, Option, none, some, ok, if◌then◌else◌, ltb,
  All, all, ◌↔◌,
}
use usshtc.Prelude.Text.{codes}
use usshtc.Connection.Codes.{
  Code, no_code, timeout, wss_failed, network_unavailable, auth_required, portal_network,
  portal_quota, key_eq,
}
use usshtc.Connection.Preflight.{TokenStatus, valid, present, Call, run}
use usshtc.Connection.Recovery.Context.{
  Scope, Snapshot, Access, Context, World, context, key, validate,
}
use usshtc.Connection.Recovery.State.{Controller, initial, failed, recovered_ok, cancelled}
use usshtc.Connection.Recovery.Round.{
  elapsed, returned, preflighted, probed, started, answered, refused, unanswered,
}
use usshtc.Connection.Recovery.Controller as Recovery
use usshtc.Connection.Recovery.Controller.{
  Event, answer, retry_call, update_call, suspend, online, cancel_call, network_error, hint_fired,
}
use usshtc.Connection.Recovery.Valid.{occurrences, running, attempt_of, is_delay}
use usshtc.Connection.Recovery.Settled.{run-settles}
use usshtc.Connection.Recovery.Blocked.{stance, Quiet, run-blocked}
use usshtc.Connection.Recovery.Exhausted.{
  failing_all, Failing, in_probe, in_preflight, IsOperational,
}
use usshtc.Connection.Recovery.Retried.{retry-exhausted}
use usshtc.Connection.Recovery.Probe.{probe, open_event, message, close_event}
use usshtc.Connection.Recovery.Probe.Reached.{IsReached, probe_iff}

abbrev scope : Scope
scope = record { profile_id = codes "p"; epoch = 3 }

abbrev snapshot : Snapshot
snapshot = record {
  scope = scope;
  desired_running = true;
  storage_error = [];
  error_code = no_code;
  proxy_stopped = true;
  remote_checking = false;
  operating = false;
}

abbrev access : Access
access = record {
  fields = codes "h" ∷ [];
  cookie = codes "c";
  auth_generation = codes "1";
  settings_accepted = true;
  address_accepted = true;
  header_accepted = true;
}

abbrev world : World
world = record { snapshot = snapshot; access = some access; reconnect = true }

abbrev here : Context
here = record { snapshot = snapshot; access = access }

abbrev succeeding : List (World × Event)
succeeding =
    (world, retry_call scope)
    ∷ (world, answer 0 elapsed)
    ∷ (world, answer 0 returned)
    ∷ (world, answer 0 (preflighted none))
    ∷ (world, answer 0 (probed answered))
    ∷ (world, answer 0 returned)
    ∷ (world, answer 0 returned)
    ∷ (world, answer 0 (started none))
    ∷ []

recovered_starts_proxy : (Recovery.run succeeding (initial true)).resolved ≡ (0, recovered_ok) ∷ []
unfolding Recovery.run initial key_eq
recovered_starts_proxy = refl

proxy_started : (Recovery.run succeeding (initial true)).starts ≡ scope ∷ []
unfolding Recovery.run initial
proxy_started = refl

refused_login :
    (Recovery.run
      ((world, online)
        ∷ (world, answer 0 elapsed)
        ∷ (world, answer 0 returned)
        ∷ (world, answer 0 (preflighted none))
        ∷ (world, answer 0 (probed refused))
        ∷ (world, answer 0 returned)
        ∷ (world, online)
        ∷ [])
      (initial true)).resolved
    ≡ (0, failed auth_required) ∷ []
unfolding Recovery.run initial
refused_login = refl

suspended_round :
    (Recovery.run
      ((world, online) ∷ (world, suspend) ∷ (world, online) ∷ [])
      (initial true)).resolved
    ≡ (0, cancelled) ∷ []
unfolding Recovery.run initial
suspended_round = refl

run-settles_example :
    let s = Recovery.run succeeding (initial true) in
    (occurrences 0 s.resolved + running 0 s.active ≡ (if ltb 0 s.rounds then 1 else 0))
    × (attempt_of s.active ≤ 6)
    × ((s.disposed || s.suspended) ≡ true → (s.active ≡ none) × (s.hinting ≡ false))
    × (all is_delay s.delays ≡ true)
run-settles_example = run-settles true succeeding 0

abbrev failures : List Failing
failures =
    in_probe timeout
    ∷ in_preflight portal_network
    ∷ in_probe timeout
    ∷ in_preflight portal_quota
    ∷ in_preflight no_code
    ∷ in_probe network_unavailable
    ∷ []

failures_of_network : All IsOperational failures
failures_of_network = (λ e. cc, (λ e. cc, (λ e. cc, (λ e. cc, (λ e. cc, (λ e. cc, tt))))))

readable : context world ≡ some here
unfolding context
readable = refl

here_valid : validate here ≡ none
unfolding validate
here_valid = refl

retry-exhausted_example :
    let t =
      Recovery.run
        ((world, retry_call scope) ∷ failing_all world here readable 0 failures)
        (initial true) in
    (t.delays ≡ some 30000 ∷ some 16000 ∷ some 8000 ∷ some 4000 ∷ some 2000 ∷ some 1000 ∷ [])
    × (t.resolved ≡ (0, failed network_unavailable) ∷ [])
    × Quiet (key here) 1 (stance t)
unfolding initial
retry-exhausted_example =
    retry-exhausted world here readable (initial true) (in_probe timeout)
      (in_preflight portal_network) (in_probe timeout) (in_preflight portal_quota)
      (in_preflight no_code) (in_probe network_unavailable)
      (record { idle = refl; running = refl; awake = refl }) here_valid failures_of_network

abbrev blocked : Controller
blocked = record (initial true) { blocked = some (key here); observed = some (key here) }

abbrev by_itself : List (World × Event)
by_itself =
    (world, update_call)
    ∷ (world, online)
    ∷ (world, network_error none)
    ∷ (world, hint_fired (some false))
    ∷ (record world { access = none }, update_call)
    ∷ (world, answer 0 elapsed)
    ∷ []

run-blocked_example : Quiet (key here) 0 (stance (Recovery.run by_itself blocked))
unfolding initial context
run-blocked_example =
    run-blocked (key here) by_itself blocked
      (record { idle = refl; is_blocked = refl; seen = refl; begun = refl })
      ((refl, tt), ((refl, tt), ((refl, tt), ((refl, tt), ((tt, tt), ((refl, tt), tt))))))

abbrev accepted : Call TokenStatus
accepted = record { fresh_before = ok tt; answer = ok valid; fresh_after = ok tt }

abbrev no_quota : Call (Option Code)
no_quota = record { fresh_before = ok tt; answer = ok (some portal_quota); fresh_after = ok tt }

quota_is_network : run present accepted no_quota ≡ some portal_network
unfolding run
quota_is_network = refl

closed_too_soon :
    probe (message true ∷ open_event ∷ message false ∷ close_event ∷ message true ∷ [])
    ≡ some (unanswered wss_failed false)
unfolding probe
closed_too_soon = refl

probe_iff_example :
    (probe (message true ∷ open_event ∷ message false ∷ message true ∷ []) ≡ some answered)
    ↔ IsReached (message true ∷ open_event ∷ message false ∷ message true ∷ [])
probe_iff_example = probe_iff (message true ∷ open_event ∷ message false ∷ message true ∷ [])
