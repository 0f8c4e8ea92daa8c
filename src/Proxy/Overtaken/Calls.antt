-- ===== src/Proxy/Overtaken/Calls.antt =====
-- A stop in electron/proxy-controller.js overtakes every start before it: the calls.
use usshtc.Prelude.{
  ℕ, zero, suc, ◌≤◌, ◌≡◌, refl, Bool, true, false, not, ◌||◌, List, [], ◌∷◌, ◌++◌, Option, none,
  some, if◌then◌else◌, arith, if-P,
}
use usshtc.Prelude.Text.{Text, text_eq, is_empty}
use usshtc.Connection.Recovery.Context.{Scope}
use usshtc.Proxy.State.{
  Reason, Config, Instance, running, Task, starts, stops, Phase, replacing, preparing, listening,
  ending, Activation, Controller, World, emit, set_current, on_current, notify, clear_timers,
  accepting,
}
use usshtc.Proxy.Sessions.{start_timers}
use usshtc.Proxy.Stopping.{cancel_listen}
use usshtc.Proxy.Controller.{
  enqueue, begin, start_candidate, activate_in, activated, is_activatable, committed_in, commit,
  committed, request_stop, stop, dispose, rescope, set_scope, Event, start, start_candidate_call,
}
use usshtc.Proxy.Balance.{on_current-P}
use usshtc.Proxy.Frame.{View, view, Has, notify-Has, send_stats-Has, cancel_listen-Has}
use usshtc.Proxy.Overtaken.{IsBelow, AllBelow, PhaseBelow, limit, IsPast, moved-IsPast}

abbrev pub starts_server : Event → Bool
starts_server (start _ _) = true
starts_server (start_candidate_call _ _ _ _) = true
starts_server _ = false

abbrev pub NoStarts : List (World × Event) → Type 0
NoStarts [] = Unit
NoStarts ((w, e) ∷ events) = (starts_server e ≡ false) × NoStarts events

IsBelow-later : (m g : ℕ) (t : Task) → m ≤ g → IsBelow m t → IsBelow g t
IsBelow-later m g (starts t) h b = omega arith
IsBelow-later m g (stops reason) h b = tt

pub AllBelow-later : (m g : ℕ) (tasks : List Task) → m ≤ g → AllBelow m tasks → AllBelow g tasks
AllBelow-later m g [] h b = tt
AllBelow-later m g (t ∷ tasks) h (b, rest) =
    (IsBelow-later m g t h b, AllBelow-later m g tasks h rest)

AllBelow-append :
    (g : ℕ) (tasks : List Task) (t : Task)
    → AllBelow g tasks
    → IsBelow g t
    → AllBelow g (tasks ++ t ∷ [])
AllBelow-append g [] t b h = (h, tt)
AllBelow-append g (x ∷ tasks) t (b, rest) h = (b, AllBelow-append g tasks t rest h)

pub PhaseBelow-later :
    (m g : ℕ) (phase : Option Phase) → m ≤ g → PhaseBelow m phase → PhaseBelow g phase
PhaseBelow-later m g none h b = tt
PhaseBelow-later m g (some (replacing t)) h b = omega arith
PhaseBelow-later m g (some (preparing t)) h b = omega arith
PhaseBelow-later m g (some (listening t)) h b = tt
PhaseBelow-later m g (some (ending reason r)) h b = tt

limit_later : (after : Bool) (g : ℕ) → limit after g ≤ limit after (suc g)
limit_later true g = omega arith
limit_later false g = omega arith

enqueue-IsPast :
    (after : Bool) (n : ℕ) (t : Task) (s : Controller)
    → IsBelow (limit after s.start_generation) t
    → IsPast after n s
    → IsPast after n (enqueue t s)
unfolding enqueue
enqueue-IsPast after n t s b (tasks, phase, made) =
    (AllBelow-append (limit after s.start_generation) s.tasks t tasks b, phase, made)

pub later-IsPast :
    (after : Bool) (n : ℕ) (s : Controller)
    → IsPast after n s
    → IsPast after n (record s { start_generation = suc s.start_generation })
later-IsPast after n s (tasks, phase, made) =
    let more = limit_later after s.start_generation in
    (AllBelow-later _ _ s.tasks more tasks, PhaseBelow-later _ _ s.phase more phase, made)

pub cancel_listen-IsPast :
    (after : Bool) (n : ℕ) (s : Controller) → IsPast after n s → IsPast after n (cancel_listen s)
cancel_listen-IsPast after n s p =
    moved-IsPast after n s (cancel_listen s) (cancel_listen-Has (view s) s refl) p

pub bumped-IsPast :
    (after : Bool) (n : ℕ) (reason : Reason) (s : Controller)
    → IsPast after n (record s { start_generation = suc s.start_generation })
    → IsPast after n (stop reason s)
unfolding stop set_current emit
bumped-IsPast after n reason s p =
    let later : Controller = record s { start_generation = suc s.start_generation } in
    let asked = on_current-P (IsPast after n) request_stop later (λ r e. p) p in
    enqueue-IsPast after n (stops reason) (cancel_listen (on_current request_stop later)) tt
      (cancel_listen-IsPast after n (on_current request_stop later) asked)

pub dispose-IsPast :
    (after : Bool) (n : ℕ) (s : Controller) → IsPast after n s → IsPast after n (dispose s)
unfolding dispose clear_timers
dispose-IsPast after n s p =
    let later : Controller = record s {
      disposed = true;
      start_generation = suc s.start_generation;
    } in
    enqueue-IsPast after n _ (cancel_listen (clear_timers later)) tt
      (cancel_listen-IsPast after n (clear_timers later) (later-IsPast after n s p))

pub begin-IsPast :
    (n : ℕ) (config : Config) (scope : Scope) (candidate : Bool) (transaction : Text)
    (s : Controller)
    → IsPast false n s
    → IsPast false n (begin config scope candidate transaction s)
unfolding begin
begin-IsPast n config scope candidate transaction s p = enqueue-IsPast false n _ s (omega arith) p

pub start_candidate-IsPast :
    (n : ℕ) (config : Config) (scope : Scope) (transaction : Text) (has_material : Bool)
    (s : Controller)
    → IsPast false n s
    → IsPast false n (start_candidate config scope transaction has_material s)
unfolding start_candidate emit
start_candidate-IsPast n config scope transaction has_material s p =
    if-P (IsPast false n) (is_empty transaction || not has_material) _ _ (λ h. p)
      (λ h. begin-IsPast n config scope true transaction s p)

pub activate_in-Has :
    (v : View) (transaction : Text) (o : Option Instance) (s : Controller)
    → Has v s
    → Has v (activate_in transaction o s)
unfolding activate_in emit
activate_in-Has v transaction none s h = h
activate_in-Has v transaction (some r) s h =
    if-P (Has v)
      (not r.candidate
        || not (text_eq r.transaction transaction)
        || not r.started
        || r.cancelled
        || s.disposed)
      _ _ (λ t. h) (λ t. h)

commit-Has :
    (v : View) (w : World) (answer : Bool) (a : Activation) (o : Option Instance) (s : Controller)
    → Has v s
    → Has v (if answer then committed_in w a o s else s)
unfolding committed_in activated emit start_timers clear_timers set_current
commit-Has v w false a o s h = h
commit-Has v w true a none s h = h
commit-Has v w true a (some r) s h =
    let s' = emit (accepting r.id true) (set_current (record r { candidate = false }) s) in
    if-P (Has v) (is_activatable a r s) _ _
      (λ t.
        send_stats-Has v w (start_timers (notify (running r.config) s'))
          (notify-Has v (running r.config) s' h))
      (λ t. h)

pub committed-Has :
    (v : View) (w : World) (answer : Option Bool) (n : ℕ) (before after : List Activation)
    (s : Controller)
    → Has v s
    → Has v (committed w answer n before after s)
unfolding committed commit emit
committed-Has v w answer n before [] s h = h
committed-Has v w none zero before (a ∷ after) s h = h
committed-Has v w (some false) zero before (a ∷ after) s h = h
committed-Has v w (some true) zero before (a ∷ after) s h =
    commit-Has v w true a s.current (record s { activations = before ++ after }) h
committed-Has v w answer (suc n) before (a ∷ after) s h =
    committed-Has v w answer n (before ++ a ∷ []) after s h

pub set_scope-Has :
    (v : View) (scope : Scope) (s : Controller) → Has v s → Has v (set_scope scope s)
unfolding set_scope set_current
set_scope-Has v scope s h =
    on_current-P (Has v) (rescope scope) (record s { scope = scope }) (λ r e. h) h

pub stop-IsPast :
    (after : Bool) (n : ℕ) (reason : Reason) (s : Controller)
    → IsPast after n s
    → IsPast after n (stop reason s)
stop-IsPast after n reason s p = bumped-IsPast after n reason s (later-IsPast after n s p)
