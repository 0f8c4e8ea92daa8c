-- ===== src/Connection/Health/Tests.antt =====
-- Tests of the model of electron/health-probe-service.js, and the theorem at a concrete input.
use usshtc.Prelude.{◌+◌, ◌≤◌, ◌≡◌, refl, true, false, ◌&&◌, ◌||◌, List, [], ◌∷◌, Option, some, map}
use usshtc.Prelude.Text.{codes}
use usshtc.Connection.Codes.{no_code, ssh_key_missing}
use usshtc.Connection.Recovery.State.{unknown, checking, reachable, error_status, Publication}
use usshtc.Connection.Health.{
  Context, initial, is_set, is_active, is_stopped, ready, missing, returned, identity, succeeded,
  keys, Event, update_call, timer_fired, cancel_call, answer, run,
}
use usshtc.Connection.Health.Counts.{told_by, in_progress}
use usshtc.Connection.Health.Probes.{run-probes}

abbrev here : Context
here = record {
  scope = record { profile_id = codes "p"; epoch = 1 };
  config = [];
  running_config = [];
  cookie = codes "c";
  enabled = true;
  desired_running = true;
  proxy_status = codes "started";
  operation = [];
  storage_error = [];
  error_code = no_code;
  remote_status = unknown;
}

abbrev seen : Context
seen = record here { remote_status = checking }

abbrev probe : List (Option Context × Event)
probe =
    (some here, update_call)
    ∷ (some here, timer_fired)
    ∷ (some seen, answer 0 returned)
    ∷ (some seen, answer 0 (keys ready ready))
    ∷ (some seen, answer 0 identity)
    ∷ (some seen, answer 0 succeeded)
    ∷ []

abbrev told : List (Option Context × Event) → List Publication
told events = map (λ t. t.publication) (run events initial).published

probe_reaches :
    told probe
    ≡ record { scope = here.scope; status = reachable; error_code = no_code }
      ∷ record { scope = here.scope; status = checking; error_code = no_code }
      ∷ []
unfolding run
probe_reaches = refl

probe_again : is_set (run probe initial).timer ≡ true
unfolding run
probe_again = refl

-- A probe that is cancelled gives the status back.
cancelled_probe :
    told (
      (some here, update_call)
      ∷ (some here, timer_fired)
      ∷ (some seen, answer 0 returned)
      ∷ (some seen, cancel_call)
      ∷ [])
    ≡ record { scope = here.scope; status = unknown; error_code = no_code }
      ∷ record { scope = here.scope; status = checking; error_code = no_code }
      ∷ []
unfolding run
cancelled_probe = refl

missing_key :
    told (
      (some here, update_call)
      ∷ (some here, timer_fired)
      ∷ (some seen, answer 0 returned)
      ∷ (some seen, answer 0 (keys ready (missing no_code)))
      ∷ [])
    ≡ record { scope = here.scope; status = error_status; error_code = ssh_key_missing }
      ∷ record { scope = here.scope; status = checking; error_code = no_code }
      ∷ []
unfolding run
missing_key = refl

run-probes_example :
    let s = run probe initial in
    ((is_set s.timer && is_active s.active) ≡ false)
    × (is_stopped s ≡ true → (is_set s.timer || is_active s.active) ≡ false)
    × (told_by 0 s.published + in_progress 0 s.active ≤ 2)
run-probes_example = run-probes probe 0
