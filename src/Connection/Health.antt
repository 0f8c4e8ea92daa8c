-- ===== src/Connection/Health.antt =====
-- electron/health-probe-service.js: the timer between two probes, and one probe. The stores, the key
-- and identity providers and the remote command are the environment; the context is read at each event,
-- and `none` is one that cannot be read.
pub mod Counts
pub mod Kept
pub mod Probes
pub mod Tests
use usshtc.Prelude.{
  ℕ, suc, Bool, true, false, not, ◌&&◌, ◌||◌, List, [], ◌∷◌, ◌++◌, Option, none, some,
  if◌then◌else◌, ◌==◌,
}
use usshtc.Prelude.Text.{Text, codes, text_eq, is_empty}
use usshtc.Connection.Codes.{
  Code, no_code, ssh_key_missing, ssh_key_invalid, ssh_key_fingerprint_mismatch, timeout,
  remote_ready_timeout, remote_command_failed, code_eq, Key, key_eq,
}
use usshtc.Connection.Recovery.Context.{Scope}
use usshtc.Connection.Recovery.State.{
  Status, checking, reachable, error_status, auth_status, status_eq, Publication,
}

-- What the callbacks of the service return; texts that are absent are empty.
pub record Context : Type 0 where
  pub scope : Scope
  pub config : List Text
  pub running_config : List Text
  pub cookie : Text
  pub enabled : Bool
  pub desired_running : Bool
  pub proxy_status : Text
  pub operation : Text
  pub storage_error : Text
  pub error_code : Code
  pub remote_status : Status

unfoldable pub remote_not_ready : Context → Bool
unfolding code_eq
remote_not_ready c = code_eq c.error_code remote_ready_timeout

unfoldable pub login_required : Context → Bool
unfolding status_eq
login_required c = status_eq c.remote_status auth_status

unfoldable pub eligible : Context → Bool
unfolding remote_not_ready login_required
eligible c =
    c.enabled
    && c.desired_running
    && text_eq c.proxy_status (codes "started")
    && is_empty c.operation
    && is_empty c.storage_error
    && not (remote_not_ready c)
    && not (login_required c)
    && not (is_empty c.cookie)

abbrev flag : Bool → Text
flag true = 1 ∷ []
flag false = 0 ∷ []

unfoldable pub authority_key : Context → Key
authority_key c =
    c.scope.profile_id ∷ (c.scope.epoch ∷ []) ∷ c.cookie ∷ (c.config ++ c.running_config)

unfoldable pub key : Context → Key
unfolding authority_key remote_not_ready login_required
key c =
    flag c.enabled
    ∷ flag c.desired_running
    ∷ c.proxy_status
    ∷ c.operation
    ∷ c.storage_error
    ∷ flag (remote_not_ready c)
    ∷ flag (login_required c)
    ∷ authority_key c

-- What the code of a probe waits for; `stalled` is a probe that has returned and waits for its timer.
pub data Phase : Type 0 where
  published reading_keys reading_identity probing stalled : Phase

pub record Round : Type 0 where
  pub id : ℕ
  pub context : Context
  pub phase : Phase

-- A call of `onRemoteState`, and the probe that it is made for.
pub record Told : Type 0 where
  pub probe : ℕ
  pub publication : Publication

pub record Service : Type 0 where
  -- the key of the context that set the timer
  pub timer : Option Key
  pub active : Option Round
  pub observed : Option Key
  pub suspended : Bool
  pub disposed : Bool
  pub paused : Bool
  -- how many probes have begun, and the calls of `onRemoteState`, the last one first
  pub rounds : ℕ
  pub published : List Told

abbrev pub initial : Service
initial = record {
  timer = none;
  active = none;
  observed = none;
  suspended = false;
  disposed = false;
  paused = false;
  rounds = 0;
  published = [];
}

abbrev pub is_set : Option Key → Bool
is_set none = false
is_set (some _) = true

abbrev pub is_active : Option Round → Bool
is_active none = false
is_active (some _) = true

abbrev pub is_stopped : Service → Bool
is_stopped s = s.disposed || s.suspended || s.paused

unfoldable pub same_eligible : Option Context → Key → Bool
unfolding eligible key key_eq
same_eligible none k = false
same_eligible (some c) k = eligible c && key_eq (key c) k

-- `current(round)`, for the round that is `active`.
unfoldable pub is_current : Option Context → Round → Service → Bool
unfolding same_eligible
is_current now r s = not (is_stopped s) && same_eligible now (key r.context)

unfoldable pub publish : ℕ → Context → Status → Code → Service → Service
publish id c status error_code s = if s.disposed then s else record s {
  published =
      record {
        probe = id;
        publication = record { scope = c.scope; status = status; error_code = error_code };
      }
      ∷ s.published;
}

-- A probe that is cancelled gives back the status that it found, if it still shows.
unfoldable pub restore : Option Context → Round → Service → Service
unfolding publish remote_not_ready authority_key status_eq key_eq
restore none r s = s
restore (some c) r s =
    if not (remote_not_ready c)
      && key_eq (authority_key c) (authority_key r.context)
      && status_eq c.remote_status checking
    then publish r.id c r.context.remote_status r.context.error_code s
    else s

unfoldable pub cancel_active : Option Round → Option Context → Bool → Service → Service
unfolding restore
cancel_active none now restores s = s
cancel_active (some r) now restores s =
    if not restores || s.disposed
    then record s { active = none }
    else restore now r (record s { active = none })

unfoldable pub cancel : Option Context → Bool → Service → Service
unfolding cancel_active
cancel now restores s = cancel_active s.active now restores (record s { timer = none })

unfoldable pub schedule_in : Option Context → Service → Service
unfolding eligible key
schedule_in none s = s
schedule_in (some c) s = if eligible c then record s { timer = some (key c) } else s

unfoldable pub schedule : Option Context → Service → Service
unfolding schedule_in
schedule now s =
    if is_set s.timer || is_active s.active || is_stopped s then s else schedule_in now s

unfoldable pub is_observed : Option Key → Key → Bool
unfolding key_eq
is_observed none k = false
is_observed (some k') k = key_eq k' k

-- The context has been compared with the one before.
unfoldable pub observe : Context → Service → Service
unfolding cancel is_observed
observe c s =
    let seen = record s { observed = some (key c) } in
    if is_observed s.observed (key c)
    then seen
    else cancel (some c) true (record seen { paused = false })

unfoldable pub continue : Context → Service → Service
unfolding cancel schedule
continue c s =
    if not (eligible c) || s.suspended || s.paused
    then cancel (some c) true s
    else schedule (some c) s

unfoldable pub update_in : Option Context → Service → Service
unfolding observe continue cancel
update_in none s = cancel none false s
update_in (some c) s = continue c (observe c s)

unfoldable pub update : Option Context → Service → Service
unfolding update_in
update now s = if s.disposed then s else update_in now s

-- `finish(round, errorCode)` for the round that is `active`; `none` is a probe that succeeded.
unfoldable pub finish : Option Code → Option Context → Round → Service → Service
unfolding is_current publish update
finish none now r s =
    let ended = record s { active = none } in
    update now
      (if is_current now r s then publish r.id r.context reachable no_code ended else ended)
finish (some code) now r s =
    let ended = record s { active = none } in
    update now
      (if is_current now r s then publish r.id r.context error_status code ended else ended)

unfoldable pub begin : Context → Service → Service
unfolding publish
begin c s =
    if is_active s.active || is_stopped s
    then s
    else publish s.rounds c checking no_code (record s {
      active = some (record { id = s.rounds; context = c; phase = published });
      rounds = suc s.rounds;
    })

unfoldable pub fired_in : Option Context → Key → Service → Service
unfolding update begin same_eligible
fired_in none k s = s
fired_in (some c) k s = if same_eligible (some c) k then begin c s else update (some c) s

unfoldable pub fired : Option Key → Option Context → Service → Service
unfolding fired_in
fired none now s = s
fired (some k) now s = fired_in now k (record s { timer = none })

-- `keys[role]`: it is ready, or its state and error code are those of a key that is not.
pub data KeyState : Type 0 where
  ready : KeyState
  missing : Code → KeyState
  broken : Code → KeyState

unfoldable pub key_code : Code → Code → Code
key_code ssh_key_missing other = ssh_key_missing
key_code ssh_key_invalid other = ssh_key_invalid
key_code ssh_key_fingerprint_mismatch other = ssh_key_fingerprint_mismatch
key_code _ other = other

-- The first of the keys of the client and the host that is not ready.
unfoldable pub keys_failure : KeyState → KeyState → Option Code
unfolding key_code
keys_failure ready ready = none
keys_failure ready (missing code) = some (key_code code ssh_key_missing)
keys_failure ready (broken code) = some (key_code code ssh_key_invalid)
keys_failure (missing code) host = some (key_code code ssh_key_missing)
keys_failure (broken code) host = some (key_code code ssh_key_invalid)

unfoldable pub rejection : Code → Code
unfolding key_code
rejection timeout = timeout
rejection code = key_code code remote_command_failed

pub data Answer : Type 0 where
  -- the observer of `checking` returned; the identity is there; the command succeeded; the timer of
  -- the probe fired; an error was thrown
  returned identity succeeded timed_out : Answer
  keys : KeyState → KeyState → Answer
  thrown : Code → Answer

unfoldable pub enter : Phase → Round → Service → Service
enter phase r s = record s { active = some (record r { phase = phase }) }

unfoldable pub after_keys : Option Code → Option Context → Round → Service → Service
unfolding enter finish
after_keys none now r s = enter reading_identity r s
after_keys (some code) now r s = finish (some code) now r s

-- The code of `execute` after a point where the round is checked to be current.
unfoldable pub advance : Phase → Answer → Option Context → Round → Service → Service
unfolding enter after_keys keys_failure finish rejection
advance published returned now r s = enter reading_keys r s
advance reading_keys (keys client host) now r s = after_keys (keys_failure client host) now r s
advance reading_identity identity now r s = enter probing r s
advance reading_keys (thrown code) now r s = finish (some (rejection code)) now r s
advance reading_identity (thrown code) now r s = finish (some (rejection code)) now r s
advance probing (thrown code) now r s = finish (some (rejection code)) now r s
advance _ _ now r s = s

unfoldable pub is_awaited : Phase → Answer → Bool
is_awaited published returned = true
is_awaited reading_keys (keys _ _) = true
is_awaited reading_identity identity = true
is_awaited reading_keys (thrown _) = true
is_awaited reading_identity (thrown _) = true
is_awaited probing (thrown _) = true
is_awaited _ _ = false

unfoldable pub execute : Phase → Answer → Option Context → Round → Service → Service
unfolding is_awaited is_current advance enter finish
execute phase timed_out now r s = finish (some timeout) now r s
execute probing succeeded now r s = finish none now r s
execute phase a now r s =
    if is_awaited phase a
    then (if is_current now r s then advance phase a now r s else enter stalled r s)
    else s

unfoldable pub resume_round : Option Round → ℕ → Answer → Option Context → Service → Service
unfolding execute
resume_round none id a now s = s
resume_round (some r) id a now s = if r.id == id then execute r.phase a now r s else s

pub data Event : Type 0 where
  update_call cancel_call suspend resume dispose timer_fired : Event
  answer : ℕ → Answer → Event

unfoldable pub step : Option Context → Event → Service → Service
unfolding update cancel fired resume_round
step now update_call s = update now s
step now cancel_call s = cancel now true (record s { paused = true })
step now suspend s = cancel now true (record s { suspended = true })
step now resume s =
    if s.disposed then s else update now (record s { suspended = false; paused = false })
step now dispose s = cancel now false (record s { disposed = true })
step now timer_fired s = fired s.timer now s
step now (answer id a) s = resume_round s.active id a now s

unfoldable pub run : List (Option Context × Event) → Service → Service
unfolding step
run [] s = s
run ((now, e) ∷ events) s = run events (step now e s)
