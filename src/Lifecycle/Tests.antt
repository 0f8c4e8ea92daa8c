-- ===== src/Lifecycle/Tests.antt =====
-- The theorems about electron/shutdown-coordinator.js and electron/auth-state.js at concrete inputs.
use usshtc.Prelude.{◌≤◌, ◌≡◌, ◌≢◌, true, false, [], ◌∷◌, ◌++◌, max, length, ok, none, Bool, List}
use usshtc.Prelude.Text.{codes}
use usshtc.Prelude.Dynamic.{integer, pos, null, Value}
use usshtc.Lifecycle.Shutdown.{initial, rejected, clean, request, settle, fire, step, run}
use usshtc.Lifecycle.Shutdown.Exits.{
  run-exits, request-exits, exit_code_exact, requests, requested_code, cleanup_code, prepared_code,
}
use usshtc.Lifecycle.Auth.{
  AuthState, success, failure, expire_cookie, IsRevoked, expire_cookie-IsRevoked,
}

run-exits_example :
    let c = run (request null true ∷ fire ∷ settle clean ∷ []) initial in
    (length c.exits ≤ 1) × (c.prepared ≤ 1) × (c.settled ≡ true → length c.exits ≡ 1)
run-exits_example = run-exits (request null true ∷ fire ∷ settle clean ∷ [])

request-exits_example :
    let c = step (request (integer (pos 3)) false) (run (fire ∷ []) initial) in
    (length (step (settle rejected) c).exits ≡ 1) × (length (step fire c).exits ≡ 1)
request-exits_example = request-exits (fire ∷ []) (integer (pos 3)) false rejected

abbrev later : List (Value × Bool)
later = (integer (pos 3), true) ∷ []

exit_code_exact_example :
    ((run (requests ((null, true) ∷ later) ++ settle clean ∷ []) initial).exits
      ≡ cleanup_code clean (requested_code (prepared_code true) ((null, true) ∷ later)) ∷ [])
    × ((run (requests ((null, true) ∷ later) ++ fire ∷ settle clean ∷ []) initial).exits
        ≡ max (requested_code (prepared_code true) ((null, true) ∷ later)) 1 ∷ [])
exit_code_exact_example = exit_code_exact null true later clean

abbrev logged_in : AuthState
logged_in = record {
  login_status = success;
  login_stage = none;
  cookie_valid = true;
  cookie_count = 2;
  captured_cookie = codes "a=b";
  queries_invalidated = 0;
  published = [];
  stored_cookie = true;
}

expire_cookie-IsRevoked_example :
    (t : AuthState) × (expire_cookie true logged_in ≡ ok (t, false))
    × IsRevoked t
    × (t.queries_invalidated ≡ 1)
    × (true ≡ false → t.stored_cookie ≡ false)
    × (true ≡ true → t.stored_cookie ≡ logged_in.stored_cookie)
    × (logged_in.login_status ≡ success → t.login_status ≡ failure)
    × (logged_in.login_status ≢ success → t.login_status ≡ logged_in.login_status)
expire_cookie-IsRevoked_example = expire_cookie-IsRevoked true logged_in (λ e. cc)
