-- ===== src/Connection/Recovery/State.antt =====
-- The state of electron/recovery-controller.js, and the operations that only change it: publishing,
-- settling a round, cancelling it, and the timer of the online hints.
use usshtc.Prelude.{
  ℕ, Bool, true, false, not, ◌&&◌, ◌||◌, List, [], ◌∷◌, Option, none, some, if◌then◌else◌, ◌==◌,
}
use usshtc.Connection.Codes.{Code, no_code, code_eq, Key, key_eq}
use usshtc.Connection.Recovery.Context.{Scope, same_scope, Context, World, context, key}

pub data Status : Type 0 where
  unknown checking reachable offline error_status auth_status : Status

abbrev status_position : Status → ℕ
status_position unknown = 0
status_position checking = 1
status_position reachable = 2
status_position offline = 3
status_position error_status = 4
status_position auth_status = 5

unfoldable pub status_eq : Status → Status → Bool
status_eq left right = status_position left == status_position right

-- What `onRemoteState` is called with.
pub record Publication : Type 0 where
  pub scope : Scope
  pub status : Status
  pub error_code : Code

-- Profile ids hold no colon, so the joined text tells its parts.
unfoldable pub same_publication : Publication → Publication → Bool
unfolding same_scope status_eq code_eq
same_publication left right =
    same_scope left.scope right.scope
    && status_eq left.status right.status
    && code_eq left.error_code right.error_code

-- How the promise of a round is resolved.
pub data Outcome : Type 0 where
  cancelled recovered_ok : Outcome
  failed : Code → Outcome

-- Where the code of an attempt waits: for its timer, for an answer, or for an observer to return.
pub data Phase : Type 0 where
  waiting : Phase
  published_checking : Phase
  preflighting : Phase
  probing : Phase
  published_reachable : Bool → Phase
  told_recovered : Phase
  starting : Phase
  published_refusal : Phase
  published_failure : Code → Bool → Phase

-- A round that is not `active` has been aborted or settled: its code only returns.
pub record Round : Type 0 where
  pub id : ℕ
  pub context : Context
  pub attempt : ℕ
  pub phase : Phase

pub record Stable : Type 0 where
  pub context_key : Key
  pub status : Status
  pub error_code : Code

pub record Controller : Type 0 where
  pub active : Option Round
  pub hinting : Bool
  pub disposed : Bool
  pub suspended : Bool
  pub enabled : Bool
  pub observed : Option Key
  pub observed_scope : Option Scope
  pub blocked : Option Key
  pub inhibited : Option Key
  pub last_online : Option Bool
  pub unhealthy : Bool
  pub remote_state : Option Publication
  pub stable_remote_state : Option Stable
  pub cancelling : Bool
  pub paused : Bool
  pub rearm_when_idle : Bool
  -- how many rounds have begun: the id of the next one
  pub rounds : ℕ
  -- the calls of `onRemoteState`, of `setTimeout` for an attempt, of `requestStart`, of the
  -- observers of a recovery and of a refusal, and of `resolve`, the last one first
  pub published : List Publication
  pub delays : List (Option ℕ)
  pub starts : List Scope
  pub recoveries : List Scope
  pub refusals : List Scope
  pub resolved : List (ℕ × Outcome)

unfoldable pub initial : Bool → Controller
initial reconnect = record {
  active = none;
  hinting = false;
  disposed = false;
  suspended = false;
  enabled = reconnect;
  observed = none;
  observed_scope = none;
  blocked = none;
  inhibited = none;
  last_online = none;
  unhealthy = false;
  remote_state = none;
  stable_remote_state = none;
  cancelling = false;
  paused = false;
  rearm_when_idle = false;
  rounds = 0;
  published = [];
  delays = [];
  starts = [];
  recoveries = [];
  refusals = [];
  resolved = [];
}

unfoldable pub is_key : Option Key → Key → Bool
unfolding key_eq
is_key none k = false
is_key (some k') k = key_eq k' k

unfoldable pub is_published : Option Publication → Publication → Bool
unfolding same_publication
is_published none p = false
is_published (some p') p = same_publication p' p

unfoldable pub stable_after : Context → Status → Code → Option Stable → Option Stable
stable_after c checking error_code stable = stable
stable_after c status error_code stable =
    some (record { context_key = key c; status = status; error_code = error_code })

unfoldable pub publish : Context → Status → Code → Controller → Controller
unfolding is_published stable_after
publish c status error_code s =
    let p : Publication = record {
      scope = c.snapshot.scope;
      status = status;
      error_code = error_code;
    } in
    let stable = stable_after c status error_code s.stable_remote_state in
    if s.disposed
    then s
    else if is_published s.remote_state p
    then record s { stable_remote_state = stable }
    else record s {
      stable_remote_state = stable;
      remote_state = some p;
      published = p ∷ s.published;
    }

-- `settle(round, result)` of the active round.
unfoldable pub settle : Round → Outcome → Controller → Controller
settle r outcome s = record s { active = none; resolved = (r.id, outcome) ∷ s.resolved }

unfoldable pub stable_for : Option Stable → Key → Status × Code
unfolding key_eq
stable_for none k = (unknown, no_code)
stable_for (some stable) k =
    if key_eq stable.context_key k then (stable.status, stable.error_code) else (unknown, no_code)

-- After a cancellation the last status but `checking` is published again.
unfoldable pub restore : Option Context → Controller → Controller
unfolding stable_for publish
restore none s = s
restore (some c) s =
    if c.snapshot.remote_checking
    then (let stable = stable_for s.stable_remote_state (key c) in publish c stable.0 stable.1 s)
    else s

unfoldable pub cancel_active : Option Round → World → Controller → Controller
unfolding settle restore
cancel_active none w s = s
cancel_active (some r) w s =
    let s' = restore (context w) (settle r cancelled (record s { cancelling = true })) in
    record s' { cancelling = false }

-- The observers of `publish` do not call back while `cancelling`: main.js queues its update.
unfoldable pub cancel : World → Controller → Controller
unfolding cancel_active
cancel w s = cancel_active s.active w (record s { paused = true })

unfoldable pub stop_hints : Controller → Controller
stop_hints s = record s { hinting = false }

unfoldable pub schedule_hints : World → Controller → Controller
schedule_hints w s =
    if s.hinting
      || s.disposed
      || s.suspended
      || not s.enabled
      || s.paused
      || not w.snapshot.desired_running
    then s
    else record s { hinting = true }
