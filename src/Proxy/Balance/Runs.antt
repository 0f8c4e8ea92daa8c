-- ===== src/Proxy/Balance/Runs.antt =====
-- The accounts of electron/proxy-controller.js over every run.
use usshtc.Prelude.{
  ℕ, zero, suc, ◌+◌, ◌≤◌, ◌≡◌, refl, ap, ◌∙◌, Bool, true, false, not, ◌||◌, List, [], ◌∷◌, ◌++◌,
  Option, none, some, arith, if-P,
}
use usshtc.Prelude.Text.{Text, text_eq, is_empty}
use usshtc.Connection.Recovery.Context.{Scope}
use usshtc.Proxy.State.{
  Reason, SessionKey, Instance, Config, running, Activation, Controller, initial, World, emit,
  set_current, on_current, notify, clear_timers, accepting,
}
use usshtc.Proxy.Sessions.{sample, start_timers}
use usshtc.Proxy.Reports.{on_report}
use usshtc.Proxy.Controller.{
  enqueue, begin, start_candidate, activate_in, activated, is_activatable, committed_in, commit,
  committed, request_stop, stop, dispose, rescope, set_scope, Event, start, start_candidate_call,
  activate_candidate, transaction_committed, stop_call, scope_set, cancel_pending_start, get_stats,
  disposes, sample_tick, traffic_tick, turn, resumes, reports, step, run,
}
use usshtc.Proxy.Balance.{
  created_count, removed_count, registered_count, finalized_count, open_in, open_sessions, count,
  IsBalanced, on_current-P, set_current-IsBalanced, notify-IsBalanced, IsDistinct,
}
use usshtc.Proxy.Balance.Sessions.{sample_history-IsBalanced, send_stats-IsBalanced}
use usshtc.Proxy.Balance.Tasks.{cancel_listen-IsBalanced, next_task-IsBalanced}
use usshtc.Proxy.Balance.Resumed.{resume-IsBalanced}
use usshtc.Proxy.Balance.Reports.{on_report-IsBalanced}
use usshtc.Proxy.Released.{is_stop_success, step-released}

start_candidate-IsBalanced :
    (config : Config) (scope : Scope) (transaction : Text) (has_material : Bool) (s : Controller)
    → IsBalanced s
    → IsBalanced (start_candidate config scope transaction has_material s)
unfolding start_candidate emit begin enqueue
start_candidate-IsBalanced config scope transaction has_material s v =
    if-P IsBalanced (is_empty transaction || not has_material) _ _ (λ h. v) (λ h. v)

activate_in-IsBalanced :
    (transaction : Text) (o : Option Instance) (s : Controller)
    → IsBalanced s
    → IsBalanced (activate_in transaction o s)
unfolding activate_in emit
activate_in-IsBalanced transaction none s v = v
activate_in-IsBalanced transaction (some r) s v =
    if-P IsBalanced
      (not r.candidate
        || not (text_eq r.transaction transaction)
        || not r.started
        || r.cancelled
        || s.disposed)
      _ _ (λ h. v) (λ h. v)

activated-IsBalanced :
    (w : World) (r : Instance) (s : Controller)
    → s.current ≡ some r
    → IsBalanced s
    → IsBalanced (activated w r s)
unfolding activated emit start_timers clear_timers
activated-IsBalanced w r s e v =
    let s' = emit (accepting r.id true) (set_current (record r { candidate = false }) s) in
    send_stats-IsBalanced w (start_timers (notify (running r.config) s')) (
      notify-IsBalanced (running r.config) s'
        (set_current-IsBalanced r (record r { candidate = false }) s e (λ k. refl) (λ h. h) v))

committed_in-IsBalanced :
    (w : World) (a : Activation) (o : Option Instance) (s : Controller)
    → s.current ≡ o
    → IsBalanced s
    → IsBalanced (committed_in w a o s)
unfolding committed_in emit
committed_in-IsBalanced w a none s e v = v
committed_in-IsBalanced w a (some r) s e v =
    if-P IsBalanced (is_activatable a r s) _ _ (λ h. activated-IsBalanced w r s e v) (λ h. v)

commit-IsBalanced :
    (w : World) (answer : Option Bool) (a : Activation) (s : Controller)
    → IsBalanced s
    → IsBalanced (commit w answer a s)
unfolding commit emit
commit-IsBalanced w none a s v = v
commit-IsBalanced w (some false) a s v = v
commit-IsBalanced w (some true) a s v = committed_in-IsBalanced w a s.current s refl v

committed-IsBalanced :
    (w : World) (answer : Option Bool) (n : ℕ) (before after : List Activation) (s : Controller)
    → IsBalanced s
    → IsBalanced (committed w answer n before after s)
unfolding committed
committed-IsBalanced w answer n before [] s v = v
committed-IsBalanced w answer zero before (a ∷ after) s v =
    commit-IsBalanced w answer a (record s { activations = before ++ after }) v
committed-IsBalanced w answer (suc n) before (a ∷ after) s v =
    committed-IsBalanced w answer n (before ++ a ∷ []) after s v

stop-IsBalanced : (reason : Reason) (s : Controller) → IsBalanced s → IsBalanced (stop reason s)
unfolding stop enqueue emit
stop-IsBalanced reason s v =
    let s' : Controller = record s { start_generation = suc s.start_generation } in
    cancel_listen-IsBalanced (on_current request_stop s') (
      on_current-P IsBalanced request_stop s'
        (λ r e.
          set_current-IsBalanced r (record r { stop_requested = true }) s' e (λ k. refl) (λ h. h) v)
        v)

dispose-IsBalanced : (s : Controller) → IsBalanced s → IsBalanced (dispose s)
unfolding dispose enqueue clear_timers
dispose-IsBalanced s v =
    cancel_listen-IsBalanced
      (clear_timers (record s { disposed = true; start_generation = suc s.start_generation })) v

set_scope-IsBalanced :
    (scope : Scope) (s : Controller) → IsBalanced s → IsBalanced (set_scope scope s)
unfolding set_scope
set_scope-IsBalanced scope s v =
    let s' : Controller = record s { scope = scope } in
    on_current-P IsBalanced (rescope scope) s'
      (λ r e. set_current-IsBalanced r (record r { scope = scope }) s' e (λ k. refl) (λ h. h) v) v

step-IsBalanced : (w : World) (e : Event) (s : Controller) → IsBalanced s → IsBalanced (step w e s)
unfolding step begin enqueue sample
step-IsBalanced w (start config scope) s v = v
step-IsBalanced w (start_candidate_call config scope transaction has_material) s v =
    start_candidate-IsBalanced config scope transaction has_material s v
step-IsBalanced w (activate_candidate transaction) s v =
    activate_in-IsBalanced transaction s.current s v
step-IsBalanced w (transaction_committed n answer) s v =
    committed-IsBalanced w answer n [] s.activations s v
step-IsBalanced w (stop_call reason) s v = stop-IsBalanced reason s v
step-IsBalanced w (scope_set scope) s v = set_scope-IsBalanced scope s v
step-IsBalanced w cancel_pending_start s v =
    cancel_listen-IsBalanced (record s { start_generation = suc s.start_generation }) v
step-IsBalanced w get_stats s v = sample_history-IsBalanced w s v
step-IsBalanced w disposes s v = dispose-IsBalanced s v
step-IsBalanced w sample_tick s v =
    if-P IsBalanced s.sample_timer _ _ (λ h. send_stats-IsBalanced w s v) (λ h. v)
step-IsBalanced w traffic_tick s v =
    if-P IsBalanced s.traffic_timer _ _
      (λ h. send_stats-IsBalanced w (record s { traffic_timer = false }) v) (λ h. v)
step-IsBalanced w turn s v = next_task-IsBalanced w s.phase s v
step-IsBalanced w (resumes o) s v = resume-IsBalanced w s.phase o s refl v
step-IsBalanced w (reports r) s v =
    on_current-P IsBalanced (on_report w r) s (λ r' e. on_report-IsBalanced w r r' s e v) v

run-IsBalanced :
    (events : List (World × Event)) (s : Controller) → IsBalanced s → IsBalanced (run events s)
unfolding run
run-IsBalanced [] s v = v
run-IsBalanced ((w, e) ∷ events) s v = run-IsBalanced events (step w e s) (step-IsBalanced w e s v)

initial-IsBalanced : IsBalanced initial
initial-IsBalanced = (refl, λ k. refl, omega arith, tt)

open_once : (o : Option Instance) (k : SessionKey) → IsDistinct o → open_in k (open_sessions o) ≤ 1
open_once none k d = omega arith
open_once (some r) k (keyed, once) = once k

-- Whatever happens, the servers that were created are those that were released and the current one, if
-- there is one; there is one at most; and no event releases a server but that a stop has succeeded.
pub run-single :
    (events : List (World × Event))
    → let s = run events initial in
      (created_count s.effects ≡ removed_count s.effects + count s.current)
      × (count s.current ≤ 1)
      × ((w : World) (e : Event)
          → is_stop_success e ≡ false
          → removed_count (step w e s).effects ≡ removed_count s.effects)
run-single events =
    let (single, settled, waiting, distinct) = run-IsBalanced events initial initial-IsBalanced in
    (single, omega arith, λ w e h. step-released w e (run events initial) h)

-- Whatever happens, a session has been registered in the history as often as it has been finalized, and
-- once more exactly if it is open in the current server, where it is open once at most; so none is left
-- open when there is no server.
pub run-settled :
    (events : List (World × Event)) (k : SessionKey)
    → let s = run events initial in
      (registered_count k s.effects
        ≡ finalized_count k s.effects + open_in k (open_sessions s.current))
      × (open_in k (open_sessions s.current) ≤ 1)
      × (s.current ≡ none → registered_count k s.effects ≡ finalized_count k s.effects)
run-settled events k =
    let s = run events initial in
    let (single, settled, waiting, distinct) = run-IsBalanced events initial initial-IsBalanced in
    (
      settled k,
      open_once s.current k distinct,
      λ e.
          settled k
          ∙ ap (λ o. finalized_count k s.effects + open_in k (open_sessions o)) e
          ∙ omega arith,
    )
