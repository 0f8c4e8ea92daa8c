-- ===== src/Connection/Validation/Tests.antt =====
-- Tests of the model of electron/token-validation-service.js, and the theorems at concrete inputs.
use usshtc.Prelude.{◌≡◌, refl, true, false, ◌&&◌, ◌||◌, List, [], ◌∷◌, Option, none, some, length}
use usshtc.Prelude.Text.{codes}
use usshtc.Connection.Preflight.{invalid, valid}
use usshtc.Connection.Validation.{
  Context, Service, initial, is_set, is_active, is_current, answered, Event, update_call,
  timer_fired, suspend, resume, answer, run, key, eligible, is_some_key, interval_ms,
}
use usshtc.Connection.Validation.Inhibited.{run-exclusive, run-inhibited}

abbrev here : Context
here = record {
  profile_id = codes "p";
  epoch = 1;
  cookie = codes "c";
  auth_generation = codes "2";
  enabled = true;
  cookie_valid = true;
  storage_error = false;
  operating = false;
}

abbrev later : Context
later = record here { epoch = 2 }

abbrev refused : List (Option Context × Event)
refused =
    (some here, update_call)
    ∷ (some here, timer_fired)
    ∷ (some here, answer 0 (some (answered invalid)))
    ∷ (some here, answer 0 none)
    ∷ (some later, update_call)
    ∷ (some later, timer_fired)
    ∷ []

refused_once : length (run refused initial).reports ≡ 1
unfolding run is_some_key key eligible
refused_once = refl

valid_again :
    is_set
      (run
        ((some here, update_call)
          ∷ (some here, timer_fired)
          ∷ (some here, answer 0 (some (answered valid)))
          ∷ (some here, answer 0 none)
          ∷ [])
        initial).timer
    ≡ true
unfolding run is_some_key key eligible
valid_again = refl

shortest_interval : interval_ms (some 1000) ≡ 300000
unfolding interval_ms
shortest_interval = refl

run-exclusive_example :
    let s = run refused initial in
    ((is_set s.timer && is_active s.active) ≡ false)
    × ((s.disposed || s.suspended) ≡ true → (is_set s.timer || is_active s.active) ≡ false)
run-exclusive_example = run-exclusive refused

abbrev calling : Service
calling = record initial {
  active = some (record { id = 0; context = here; told = false });
  rounds = 1;
}

run-inhibited_example :
    let t =
      run
        ((some here, answer 0 (some (answered invalid)))
          ∷ (some here, answer 0 none)
          ∷ (some later, update_call)
          ∷ (none, suspend)
          ∷ (some later, resume)
          ∷ [])
        calling in
    (t.timer ≡ none) × (t.active ≡ none) × (t.rounds ≡ 1)
unfolding is_current key eligible
run-inhibited_example =
    run-inhibited (record { id = 0; context = here; told = false }) here calling
      ((some later, update_call) ∷ (none, suspend) ∷ (some later, resume) ∷ []) refl refl
      (record { exclusive = refl; stopped = λ h. cc }) refl (refl, (tt, (refl, tt)))
