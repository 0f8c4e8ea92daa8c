-- ===== src/Proxy/State.antt =====
-- The state of electron/proxy-controller.js, what it calls outside, and `notify`.
use usshtc.Prelude.{ℕ, Bool, false, not, ◌&&◌, List, [], ◌∷◌, Option, none, some, if◌then◌else◌}
use usshtc.Prelude.Text.{Text, codes, text_eq}
use usshtc.Connection.Recovery.Context.{Scope}

-- A configuration: its port, and the other settings.
pub record Config : Type 0 where
  pub port : ℕ
  pub others : List Text

-- `other` is every reason that the code does not compare with.
pub data Reason : Type 0 where
  app_exit fatal auth_error proxy_stop replace cancelled_start failed_start user_stop : Reason
  network_error other : Reason

-- `service_error` is an error that a provider throws.
pub data Failure : Type 0 where
  shutting_down invalid_argument key_transaction_failed proxy_start_failed : Failure
  proxy_stop_failed service_error : Failure

-- The key of a session in the history, `${record.id}:${session.id}`.
pub record SessionKey : Type 0 where
  pub instance_id : ℕ
  pub session : Text

-- A value of `record.sessions`, with its key in that map.
pub record Entry : Type 0 where
  pub id : Text
  pub session_key : SessionKey
  pub bytes_sent : ℕ
  pub bytes_received : ℕ

-- `record`: the server that was created last, until it has been released.
pub record Instance : Type 0 where
  pub id : ℕ
  pub config : Config
  pub scope : Scope
  pub history_profile : Text
  pub candidate : Bool
  pub transaction : Text
  pub cancelled : Bool
  pub started : Bool
  pub stop_requested : Bool
  pub history_closed : Bool
  pub stop_reason : Reason
  pub sessions : List Entry

pub data Patch : Type 0 where
  starting stopping stopped : Patch
  running : Config → Patch
  failed : Failure → Patch
  connections : ℕ → Patch

pub record Final : Type 0 where
  pub ended_at : ℕ
  pub bytes_sent : ℕ
  pub bytes_received : ℕ
  pub exit_code : Option ℕ
  pub reason : Reason

pub data Reply : Type 0 where
  done cancelled already_running : Reply
  rejected : Failure → Reply

-- The calls of the server, the history and the observers. The number is that of the instance.
pub data Effect : Type 0 where
  created removed stop_called cookie_updated : ℕ → Effect
  accepting : ℕ → Bool → Effect
  registered : SessionKey → ℕ → ℕ → Effect
  sampled : SessionKey → ℕ → ℕ → Effect
  finalized : SessionKey → Final → Effect
  changed : Scope → Option ℕ → Patch → Effect
  stats_sent session_opened session_closed : ℕ → Effect
  new_session : Scope → Effect
  login_required network_failed : Scope → ℕ → Effect
  remote_not_ready : Scope → Text → ℕ → Config → Effect
  replied : Reply → Effect

pub record Start : Type 0 where
  pub config : Config
  pub scope : Scope
  pub candidate : Bool
  pub transaction : Text
  pub generation : ℕ

pub data Task : Type 0 where
  starts : Start → Task
  stops : Reason → Task

-- What the task in progress waits for: the stop of the server before, the keys, `server.start`, or the
-- stop that ends the task with a reply.
pub data Phase : Type 0 where
  replacing preparing listening : Start → Phase
  ending : Reason → Reply → Phase

-- A call of `activateCandidate` that waits for its transaction.
pub record Activation : Type 0 where
  pub instance_id : ℕ
  pub generation : ℕ
  pub scope : Scope

pub record Controller : Type 0 where
  pub scope : Scope
  pub current : Option Instance
  pub tasks : List Task
  pub phase : Option Phase
  pub activations : List Activation
  pub disposed : Bool
  pub sequence : ℕ
  pub sample_timer : Bool
  pub traffic_timer : Bool
  pub start_generation : ℕ
  -- `none` is -Infinity
  pub last_stats_at : Option ℕ
  -- how many instances were created, and the calls, the last one first
  pub instances : ℕ
  pub effects : List Effect

abbrev pub initial : Controller
initial = record {
  scope = record { profile_id = codes "default"; epoch = 0 };
  current = none;
  tasks = [];
  phase = none;
  activations = [];
  disposed = false;
  sequence = 0;
  sample_timer = false;
  traffic_timer = false;
  start_generation = 0;
  last_stats_at = none;
  instances = 0;
  effects = [];
}

-- The clocks, and what `server.getSessions` returns, at an event; bytes that are absent are 0.
pub record Stat : Type 0 where
  pub id : Text
  pub bytes_sent : ℕ
  pub bytes_received : ℕ

pub record World : Type 0 where
  pub now : ℕ
  pub wall : ℕ
  pub sessions : List Stat

unfoldable pub emit : Effect → Controller → Controller
emit effect s = record s { effects = effect ∷ s.effects }

unfoldable pub set_current : Instance → Controller → Controller
set_current r s = record s { current = some r }

unfoldable pub on_option :
    Option Instance → (Instance → Controller → Controller) → Controller → Controller
on_option none f s = s
on_option (some r) f s = f r s

-- What the code does with the `record` that it owns.
unfoldable pub on_current : (Instance → Controller → Controller) → Controller → Controller
unfolding on_option
on_current f s = on_option s.current f s

unfoldable pub is_visible : Instance → Controller → Bool
is_visible r s = not s.disposed && not r.candidate && text_eq r.history_profile s.scope.profile_id

unfoldable pub notify_in : Patch → Instance → Controller → Controller
unfolding is_visible emit
notify_in patch r s = if is_visible r s then emit (changed r.scope (some r.id) patch) s else s

unfoldable pub notify : Patch → Controller → Controller
unfolding on_current notify_in
notify patch s = on_current (notify_in patch) s

unfoldable pub clear_timers : Controller → Controller
clear_timers s = record s { sample_timer = false; traffic_timer = false }
