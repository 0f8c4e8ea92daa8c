-- ===== src/Proxy/Controller.antt =====
-- electron/proxy-controller.js: the methods, and `step` over events.
use usshtc.Prelude.{
  ℕ, suc, Bool, true, false, not, ◌&&◌, ◌||◌, List, [], ◌∷◌, ◌++◌, Option, none, some,
  if◌then◌else◌, ◌==◌, zero,
}
use usshtc.Prelude.Text.{Text, text_eq, is_empty}
use usshtc.Connection.Recovery.Context.{Scope, same_scope}
use usshtc.Proxy.State.{
  Config, Reason, app_exit, invalid_argument, key_transaction_failed, Instance, running, done,
  rejected, accepting, replied, Task, starts, stops, Activation, Controller, World, emit,
  set_current, on_current, notify, clear_timers, service_error,
}
use usshtc.Proxy.Sessions.{sample, send_stats, start_timers}
use usshtc.Proxy.Stopping.{cancel_listen}
use usshtc.Proxy.Tasks.{Outcome, next_task, resume}
use usshtc.Proxy.Reports.{Report, on_report}

unfoldable pub enqueue : Task → Controller → Controller
enqueue t s = record s { tasks = s.tasks ++ t ∷ [] }

unfoldable pub begin : Config → Scope → Bool → Text → Controller → Controller
unfolding enqueue
begin config scope candidate transaction s =
    enqueue
      (starts (record {
        config = config;
        scope = scope;
        candidate = candidate;
        transaction = transaction;
        generation = s.start_generation;
      }))
      s

-- The transaction is empty when it is no text that is not empty.
unfoldable pub start_candidate : Config → Scope → Text → Bool → Controller → Controller
unfolding begin emit
start_candidate config scope transaction has_material s =
    if is_empty transaction || not has_material
    then emit (replied (rejected invalid_argument)) s
    else begin config scope true transaction s

unfoldable pub activate_in : Text → Option Instance → Controller → Controller
unfolding emit
activate_in transaction none s = emit (replied (rejected invalid_argument)) s
activate_in transaction (some r) s =
    if not r.candidate
      || not (text_eq r.transaction transaction)
      || not r.started
      || r.cancelled
      || s.disposed
    then emit (replied (rejected invalid_argument)) s
    else record s {
      activations =
          s.activations
          ++ record { instance_id = r.id; generation = s.start_generation; scope = s.scope } ∷ [];
    }

unfoldable pub activated : World → Instance → Controller → Controller
unfolding emit set_current notify start_timers send_stats
activated w r s =
    let s' = emit (accepting r.id true) (set_current (record r { candidate = false }) s) in
    emit (replied done) (send_stats w (start_timers (notify (running r.config) s')))

unfoldable pub is_activatable : Activation → Instance → Controller → Bool
unfolding same_scope
is_activatable a r s =
    a.instance_id == r.id
    && not r.cancelled
    && not s.disposed
    && a.generation == s.start_generation
    && same_scope a.scope s.scope

unfoldable pub committed_in : World → Activation → Option Instance → Controller → Controller
unfolding is_activatable activated emit
committed_in w a none s = emit (replied (rejected key_transaction_failed)) s
committed_in w a (some r) s =
    if is_activatable a r s
    then activated w r s
    else emit (replied (rejected key_transaction_failed)) s

-- `none` is an `isTransactionCommitted` that rejects.
unfoldable pub commit : World → Option Bool → Activation → Controller → Controller
unfolding committed_in emit
commit w none a s = emit (replied (rejected service_error)) s
commit w (some false) a s = emit (replied (rejected key_transaction_failed)) s
commit w (some true) a s = committed_in w a s.current s

-- The answer of `isTransactionCommitted` for one of the calls that wait for it.
unfoldable pub committed :
    World → Option Bool → ℕ → List Activation → List Activation → Controller → Controller
unfolding commit
committed w answer n before [] s = s
committed w answer zero before (a ∷ after) s =
    commit w answer a (record s { activations = before ++ after })
committed w answer (suc n) before (a ∷ after) s = committed w answer n (before ++ a ∷ []) after s

abbrev pub request_stop : Instance → Controller → Controller
request_stop r s = emit (accepting r.id false) (set_current (record r { stop_requested = true }) s)

unfoldable pub stop : Reason → Controller → Controller
unfolding on_current emit set_current cancel_listen enqueue
stop reason s = enqueue (stops reason) (
    cancel_listen
      (on_current request_stop (record s { start_generation = suc s.start_generation })))

unfoldable pub dispose : Controller → Controller
unfolding clear_timers cancel_listen enqueue
dispose s = enqueue (stops app_exit) (
    cancel_listen
      (clear_timers (record s { disposed = true; start_generation = suc s.start_generation })))

abbrev pub rescope : Scope → Instance → Controller → Controller
rescope scope r s = set_current (record r { scope = scope }) s

unfoldable pub set_scope : Scope → Controller → Controller
unfolding on_current set_current
set_scope scope s = record (on_current (rescope scope) (record s { scope = scope })) {
  last_stats_at = none;
}

pub data Event : Type 0 where
  start : Config → Scope → Event
  start_candidate_call : Config → Scope → Text → Bool → Event
  activate_candidate : Text → Event
  transaction_committed : ℕ → Option Bool → Event
  stop_call : Reason → Event
  scope_set : Scope → Event
  -- the timers, and the turn of the next task
  cancel_pending_start get_stats disposes sample_tick traffic_tick turn : Event
  resumes : Outcome → Event
  reports : Report → Event

unfoldable pub step : World → Event → Controller → Controller
unfolding begin start_candidate activate_in committed cancel_listen stop set_scope sample dispose
    send_stats next_task resume on_report on_current
step w (start config scope) s = begin config scope false [] s
step w (start_candidate_call config scope transaction has_material) s =
    start_candidate config scope transaction has_material s
step w (activate_candidate transaction) s = activate_in transaction s.current s
step w (transaction_committed n answer) s = committed w answer n [] s.activations s
step w (stop_call reason) s = stop reason s
step w (scope_set scope) s = set_scope scope s
step w cancel_pending_start s =
    cancel_listen (record s { start_generation = suc s.start_generation })
step w get_stats s = sample w s
step w disposes s = dispose s
step w sample_tick s = if s.sample_timer then send_stats w s else s
step w traffic_tick s =
    if s.traffic_timer then send_stats w (record s { traffic_timer = false }) else s
step w turn s = next_task w s.phase s
step w (resumes o) s = resume w s.phase o s
step w (reports r) s = on_current (on_report w r) s

unfoldable pub run : List (World × Event) → Controller → Controller
unfolding step
run [] s = s
run ((w, e) ∷ events) s = run events (step w e s)
