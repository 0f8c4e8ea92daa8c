-- ===== src/Connection/Validation.antt =====
-- electron/token-validation-service.js: the timer and the calls that validate the portal's token. The
-- environment is read at each event; `none` is a context that cannot be read.
pub mod Inhibited
pub mod Tests
use usshtc.Prelude.{
  ℕ, suc, Bool, true, false, not, ◌&&◌, ◌||◌, List, [], ◌∷◌, Option, none, some, if◌then◌else◌,
  ◌==◌, max,
}
use usshtc.Prelude.Text.{Text, is_empty}
use usshtc.Connection.Codes.{Code, no_code, auth_required, Key, key_eq}
use usshtc.Connection.Preflight.{
  operational_code, TokenStatus, valid, invalid, network_error, other,
}

abbrev pub min_token_validation_interval_ms : ℕ
min_token_validation_interval_ms = 300000

-- `Math.max(MIN, deps.intervalMs)`, where `none` is an interval that is no finite number.
unfoldable pub interval_ms : Option ℕ → ℕ
interval_ms none = min_token_validation_interval_ms
interval_ms (some n) = max min_token_validation_interval_ms n

-- What the callbacks of the service return.
pub record Context : Type 0 where
  pub profile_id : Text
  pub epoch : ℕ
  pub cookie : Text
  pub auth_generation : Text
  -- `validateTokenPeriodically === true`, `cookieValid !== false`, and whether there is a storage error
  -- or an operation
  pub enabled : Bool
  pub cookie_valid : Bool
  pub storage_error : Bool
  pub operating : Bool

unfoldable pub credential_key : Context → Key
credential_key c = c.profile_id ∷ c.auth_generation ∷ c.cookie ∷ []

unfoldable pub eligible : Context → Bool
eligible c =
    c.enabled && not (is_empty c.cookie) && c.cookie_valid && not c.storage_error && not c.operating

abbrev flag : Bool → Text
flag true = 1 ∷ []
flag false = 0 ∷ []

unfoldable pub key : Context → Key
unfolding credential_key eligible
key c = (c.epoch ∷ []) ∷ flag (eligible c) ∷ credential_key c

-- A call in progress; it is `told` while the observer of its result has not returned.
pub record Round : Type 0 where
  pub id : ℕ
  pub context : Context
  pub told : Bool

-- What `onResult` is called with.
pub record Report : Type 0 where
  pub profile_id : Text
  pub epoch : ℕ
  pub auth_generation : Text
  pub status : TokenStatus
  pub error_code : Code

pub record Service : Type 0 where
  -- the key of the context that set the timer
  pub timer : Option Key
  pub active : Option Round
  pub observed : Option Key
  pub inhibited : Option Key
  pub suspended : Bool
  pub disposed : Bool
  -- how many calls have begun, and the results that were told, the last one first
  pub rounds : ℕ
  pub reports : List Report

abbrev pub initial : Service
initial = record {
  timer = none;
  active = none;
  observed = none;
  inhibited = none;
  suspended = false;
  disposed = false;
  rounds = 0;
  reports = [];
}

unfoldable pub is_some_key : Option Key → Key → Bool
unfolding key_eq
is_some_key none k = false
is_some_key (some k') k = key_eq k' k

abbrev pub is_set : Option Key → Bool
is_set none = false
is_set (some _) = true

abbrev pub is_active : Option Round → Bool
is_active none = false
is_active (some _) = true

unfoldable pub cancel : Service → Service
cancel s = record s { timer = none; active = none }

unfoldable pub current_key : Option Context → Key → Bool
unfolding key key_eq
current_key none k = false
current_key (some c) k = key_eq (key c) k

-- `current(round)`, for the round that is `active`.
unfoldable pub is_current : Option Context → Round → Service → Bool
unfolding current_key
is_current now r s = not s.disposed && not s.suspended && current_key now (key r.context)

unfoldable pub schedule : Context → Service → Service
unfolding is_some_key
schedule c s =
    if s.disposed
      || s.suspended
      || is_set s.timer
      || is_active s.active
      || not (eligible c)
      || is_some_key s.inhibited (credential_key c)
    then s
    else record s { timer = some (key c) }

unfoldable pub update_in : Option Context → Service → Service
unfolding cancel schedule is_some_key
update_in none s = record (cancel s) { observed = none }
update_in (some c) s =
    let stops = not (is_some_key s.observed (key c)) || not (eligible c) in
    let s' = if stops then cancel s else s in
    schedule c (record s' {
      observed = some (key c);
      inhibited = if is_some_key s'.inhibited (credential_key c) then s'.inhibited else none;
    })

unfoldable pub update : Option Context → Service → Service
unfolding update_in
update now s = if s.disposed || s.suspended then s else update_in now s

unfoldable pub begin : Context → Service → Service
begin c s = record s {
  active = some (record { id = s.rounds; context = c; told = false });
  rounds = suc s.rounds;
}

unfoldable pub fired_in : Option Context → Key → Service → Service
unfolding update begin key_eq
fired_in none k s = s
fired_in (some c) k s = if key_eq (key c) k then begin c s else update (some c) s

unfoldable pub fired : Option Key → Option Context → Service → Service
unfolding fired_in
fired none now s = s
fired (some k) now s = fired_in now k (record s { timer = none })

-- What the portal answered, or the code of an error that the preflight threw.
pub data Answer : Type 0 where
  answered : TokenStatus → Answer
  thrown : Code → Answer

unfoldable pub status_of : Answer → TokenStatus
unfolding operational_code
status_of (answered valid) = valid
status_of (answered invalid) = invalid
status_of (answered (network_error code)) = network_error (operational_code code)
status_of (answered (other code)) = network_error (operational_code code)
status_of (thrown code) = network_error (operational_code code)

unfoldable pub code_of : TokenStatus → Code
code_of valid = no_code
code_of invalid = auth_required
code_of (network_error code) = code
code_of (other code) = code

unfoldable pub inhibit : TokenStatus → Round → Option Key → Option Key
inhibit invalid r inhibited = some (credential_key r.context)
inhibit status r inhibited = inhibited

unfoldable pub tell : Answer → Round → Service → Service
unfolding status_of code_of inhibit
tell a r s = record s {
  active = some (record r { told = true });
  inhibited = inhibit (status_of a) r s.inhibited;
  reports =
      record {
        profile_id = r.context.profile_id;
        epoch = r.context.epoch;
        auth_generation = r.context.auth_generation;
        status = status_of a;
        error_code = code_of (status_of a);
      }
      ∷ s.reports;
}

-- `finally`, for the round that is `active`.
unfoldable pub finish : Option Context → Service → Service
unfolding update
finish now s = update now (record s { active = none })

unfoldable pub validated : Bool → Answer → Option Context → Round → Service → Service
unfolding is_current tell finish
validated true a now r s = s
validated false a now r s = if is_current now r s then tell a r s else finish now s

unfoldable pub returned : Bool → Option Context → Service → Service
unfolding finish
returned true now s = finish now s
returned false now s = s

unfoldable pub resume_round : Option Round → ℕ → Option Answer → Option Context → Service → Service
unfolding validated returned
resume_round none id a now s = s
resume_round (some r) id none now s = if r.id == id then returned r.told now s else s
resume_round (some r) id (some a) now s = if r.id == id then validated r.told a now r s else s

-- `answer id (some a)` is the answer of a call, `answer id none` the return of its observer.
pub data Event : Type 0 where
  update_call cancel_call suspend resume dispose timer_fired : Event
  answer : ℕ → Option Answer → Event

unfoldable pub step : Option Context → Event → Service → Service
unfolding update cancel fired resume_round
step now update_call s = update now s
step now cancel_call s = cancel s
step now suspend s = cancel (record s { suspended = true })
step now resume s = if s.disposed then s else update now (record s { suspended = false })
step now dispose s = cancel (record s { disposed = true })
step now timer_fired s = fired s.timer now s
step now (answer id a) s = resume_round s.active id a now s

unfoldable pub run : List (Option Context × Event) → Service → Service
unfolding step
run [] s = s
run ((now, e) ∷ events) s = run events (step now e s)
