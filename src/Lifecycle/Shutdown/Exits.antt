-- ===== src/Lifecycle/Shutdown/Exits.antt =====
-- How often, when and with which code electron/shutdown-coordinator.js exits.
use usshtc.Prelude.{
  ℕ, ◌≤◌, ◌≡◌, refl, ◌⊎◌, Bool, true, false, List, [], ◌∷◌, ◌++◌, max, arith, length, ap, ◌∙◌,
}
use usshtc.Prelude.Dynamic.{Value}
use usshtc.Lifecycle.Shutdown.{
  Coordinator, initial, Stopped, clean, not_ok, rejected, Event, request, settle, fire, step, run,
  normalized,
}

-- `exit` was called exactly when it was requested, at most once, with a code not above the one that
-- is reported; the preparation ran exactly once after a start.
pub record IsValid (c : Coordinator) : Type 0 where
  pub once :
      (c.exit_requested ≡ true → length c.exits ≡ 1) × (c.exit_requested ≡ false → c.exits ≡ [])
  pub prepared_once : (c.started ≡ true → c.prepared ≡ 1) × (c.started ≡ false → c.prepared ≡ 0)
  pub started_first : c.promised ≡ true → c.started ≡ true
  pub promised_first : (c.armed ≡ true → c.promised ≡ true) × (c.settled ≡ true → c.promised ≡ true)
  pub exited : c.settled ≡ true → c.exit_requested ≡ true
  pub pending : c.promised ≡ true → (c.armed ≡ true) ⊎ (c.exit_requested ≡ true)

step-IsValid : (e : Event) (c : Coordinator) → IsValid c → IsValid (step e c)
unfolding step
step-IsValid (request code throws) c v = ground arith
step-IsValid (settle outcome) c v = ground arith
step-IsValid fire c v = ground arith

run-IsValid : (events : List Event) (c : Coordinator) → IsValid c → IsValid (run events c)
unfolding run
run-IsValid [] c v = v
run-IsValid (e ∷ events) c v = run-IsValid events (step e c) (step-IsValid e c v)

initial-IsValid : IsValid initial
initial-IsValid = ground arith

-- Whatever is requested, however `stop` ends and whenever the timer fires, the program exits at most
-- once and is prepared for the exit at most once, and it exits exactly once if `stop` has settled.
pub run-exits :
    (events : List Event)
    → let c = run events initial in
      (length c.exits ≤ 1) × (c.prepared ≤ 1) × (c.settled ≡ true → length c.exits ≡ 1)
run-exits events = bounded (run events initial) (run-IsValid events initial initial-IsValid)
  where
    bounded :
        (c : Coordinator)
        → IsValid c
        → (length c.exits ≤ 1) × (c.prepared ≤ 1) × (c.settled ≡ true → length c.exits ≡ 1)
    bounded c v = (ground arith, ground arith, λ h. v.once.0 (v.exited h))

request-settle-exits :
    (c : Coordinator) (code : Value) (throws : Bool) (outcome : Stopped)
    → IsValid c
    → length (step (settle outcome) (step (request code throws) c)).exits ≡ 1
unfolding step
request-settle-exits c code throws outcome v = ground arith

request-fire-exits :
    (c : Coordinator) (code : Value) (throws : Bool)
    → IsValid c
    → length (step fire (step (request code throws) c)).exits ≡ 1
unfolding step
request-fire-exits c code throws v = ground arith

-- After any history, a request leads to an exit: as soon as `stop` settles in any way, or as soon as
-- the force timer fires, `exit` has been called exactly once.
pub request-exits :
    (events : List Event) (code : Value) (throws : Bool) (outcome : Stopped)
    → let c = step (request code throws) (run events initial) in
      (length (step (settle outcome) c).exits ≡ 1) × (length (step fire c).exits ≡ 1)
request-exits events code throws outcome =
    let v = run-IsValid events initial initial-IsValid in
    (
      request-settle-exits (run events initial) code throws outcome v,
      request-fire-exits (run events initial) code throws v,
    )

-- The code that a list of requests asks for: the largest one that is a positive integer, else `code`.
abbrev pub requested_code : ℕ → List (Value × Bool) → ℕ
requested_code code [] = code
requested_code code ((v, _) ∷ values) = requested_code (max code (normalized v)) values

-- Each request has a code, and says whether `onPrepare` would throw.
abbrev pub requests : List (Value × Bool) → List Event
requests [] = []
requests ((v, throws) ∷ values) = request v throws ∷ requests values

-- A failed preparation raises the code to 1 at least.
abbrev pub prepared_code : Bool → ℕ
prepared_code false = 0
prepared_code true = 1

-- A failed cleanup raises the code to 1 at least.
abbrev pub cleanup_code : Stopped → ℕ → ℕ
cleanup_code clean code = code
cleanup_code not_ok code = max code 1
cleanup_code rejected code = max code 1

run-requests :
    (values : List (Value × Bool)) (c : Coordinator)
    → c.started ≡ true
    → c.promised ≡ true
    → run (requests values) c ≡ record c { exit_code = requested_code c.exit_code values }
unfolding run
run-requests [] c s p = refl
run-requests ((v, throws) ∷ values) c s p =
    let one : step (request v throws) c ≡ record c { exit_code = max c.exit_code (normalized v) } =
      unfold step in ground arith in
    ap (run (requests values)) one
    ∙ run-requests values (record c { exit_code = max c.exit_code (normalized v) }) s p

run-append : (xs ys : List Event) (c : Coordinator) → run (xs ++ ys) c ≡ run ys (run xs c)
unfolding run
run-append [] ys c = refl
run-append (x ∷ xs) ys c = run-append xs ys (step x c)

after_first : ℕ → Coordinator
after_first code = record {
  started = true;
  promised = true;
  exit_code = code;
  exit_requested = false;
  armed = true;
  settled = false;
  prepared = 1;
  exits = [];
}

first_step :
    (v : Value) (throws : Bool)
    → step (request v throws) initial ≡ after_first (max (prepared_code throws) (normalized v))
unfolding step after_first
first_step v true = ground arith
first_step v false = ground arith

run-after_first :
    (values : List (Value × Bool)) (code : ℕ)
    → run (requests values) (after_first code) ≡ after_first (requested_code code values)
run-after_first values code =
    run-requests values (after_first code) (unfold after_first in refl) (unfold after_first in refl)
    ∙ same values code
  where
    same :
        (values : List (Value × Bool)) (code : ℕ)
        → ◌≡◌ {A = Coordinator}
            (record (after_first code) {
              exit_code = requested_code (after_first code).exit_code values;
            })
            (after_first (requested_code code values))
    same values code = unfold after_first in refl

run_first :
    (v : Value) (throws : Bool) (values : List (Value × Bool)) (rest : List Event)
    → run (requests ((v, throws) ∷ values) ++ rest) initial
      ≡ run rest (after_first (requested_code (prepared_code throws) ((v, throws) ∷ values)))
run_first v throws values rest =
    run-append (requests ((v, throws) ∷ values)) rest initial
    ∙ ap (run rest) (whole v throws values)
  where
    whole :
        (v : Value) (throws : Bool) (values : List (Value × Bool))
        → run (requests ((v, throws) ∷ values)) initial
          ≡ after_first (requested_code (prepared_code throws) ((v, throws) ∷ values))
    whole v throws values =
        unfold run in
        ap (run (requests values)) (first_step v throws)
        ∙ run-after_first values (max (prepared_code throws) (normalized v))

settle_exits :
    (outcome : Stopped) (code : ℕ)
    → (run (settle outcome ∷ []) (after_first code)).exits ≡ cleanup_code outcome code ∷ []
unfolding run step after_first
settle_exits clean code = refl
settle_exits not_ok code = refl
settle_exits rejected code = refl

fire_exits :
    (outcome : Stopped) (code : ℕ)
    → (run (fire ∷ settle outcome ∷ []) (after_first code)).exits ≡ max code 1 ∷ []
unfolding run step after_first
fire_exits clean code = refl
fire_exits not_ok code = refl
fire_exits rejected code = refl

-- The code of the exit is the largest that was requested before `stop` settled, or 1 if that is 0 and the
-- preparation, which the first request alone runs, threw; it is raised to 1 if the cleanup failed. If the
-- timer fires first, it is that code raised to 1.
pub exit_code_exact :
    (v : Value) (throws : Bool) (values : List (Value × Bool)) (outcome : Stopped)
    → let code = requested_code (prepared_code throws) ((v, throws) ∷ values) in
      ((run (requests ((v, throws) ∷ values) ++ settle outcome ∷ []) initial).exits
        ≡ cleanup_code outcome code ∷ [])
      × ((run (requests ((v, throws) ∷ values) ++ fire ∷ settle outcome ∷ []) initial).exits
          ≡ max code 1 ∷ [])
exit_code_exact v throws values outcome =
    let code = requested_code (prepared_code throws) ((v, throws) ∷ values) in
    (rw run_first (settle_exits outcome code), rw run_first (fire_exits outcome code))
