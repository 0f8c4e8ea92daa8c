-- ===== src/Proxy/Frame.antt =====
-- What most of electron/proxy-controller.js leaves alone: the queue of tasks, their generation and the
-- numbers of servers that were created and released.
pub mod Reported
use usshtc.Prelude.{
  ℕ, ◌≡◌, refl, sym, ap, ◌∙◌, Bool, true, false, not, ◌&&◌, ◌||◌, List, [], ◌∷◌, Option, none, some,
  if◌then◌else◌, if-P,
}
use usshtc.Prelude.Text.{Text}
use usshtc.Proxy.State.{
  Reason, Entry, Instance, stopping, stopped, running, failed, proxy_stop_failed, Patch, Task,
  Start, Phase, Controller, Stat, World, emit, set_current, on_current, is_visible, notify_in,
  notify, clear_timers,
}
use usshtc.Proxy.Sessions.{
  find_entry, sample_entry, sample_session, sample_all, sample_history_in, sample_history, Close,
  finalize_entry, finalize_session, terminal, finalize_keys, terminal_reason, close_history,
  finalize_in, finalize_remaining, sample, is_recent, send_stats_in, send_stats, start_timers,
}
use usshtc.Proxy.Stopping.{
  refuse, set_reason, stop_record, release_in, release, stop_succeeded, stop_failed,
  cancel_listen_in, cancel_listen,
}
use usshtc.Proxy.Tasks.{announce, open_for}
use usshtc.Proxy.Balance.{created_count, on_current-P, removed_count}

abbrev pub View : Type 0
View = List Task × Option Phase × ℕ × ℕ × ℕ

abbrev pub view : Controller → View
view s = (s.tasks, s.phase, s.start_generation, created_count s.effects, removed_count s.effects)

abbrev pub Has : View → Controller → Type 0
Has v s = view s ≡ v

pub notify-Has : (v : View) (patch : Patch) (s : Controller) → Has v s → Has v (notify patch s)
unfolding notify notify_in emit
notify-Has v patch s h =
    on_current-P (Has v) (notify_in patch) s
      (λ r e. if-P (Has v) (is_visible r s) _ _ (λ t. h) (λ t. h)) h

sample_entry-Has :
    (v : View) (o : Option Entry) (stat : Stat) (r : Instance) (s : Controller)
    → Has v s
    → Has v (sample_entry o stat r s)
unfolding sample_entry emit set_current
sample_entry-Has v none stat r s h = h
sample_entry-Has v (some x) stat r s h = h

sample_all-Has :
    (v : View) (stats : List Stat) (s : Controller) → Has v s → Has v (sample_all stats s)
unfolding sample_all sample_session
sample_all-Has v [] s h = h
sample_all-Has v (stat ∷ stats) s h = sample_all-Has v stats (on_current (sample_session stat) s) (
    on_current-P (Has v) (sample_session stat) s
      (λ r e. sample_entry-Has v (find_entry stat.id r.sessions) stat r s h) h)

pub sample_history-Has :
    (v : View) (w : World) (s : Controller) → Has v s → Has v (sample_history w s)
unfolding sample_history sample_history_in
sample_history-Has v w s h =
    on_current-P (Has v) (sample_history_in w) s
      (λ r e. if-P (Has v) r.candidate _ _ (λ t. h) (λ t. sample_all-Has v w.sessions s h)) h

finalize_entry-Has :
    (v : View) (w : World) (id : Text) (o : Option Entry) (c : Close) (r : Instance)
    (s : Controller)
    → Has v s
    → Has v (finalize_entry w id o c r s)
unfolding finalize_entry emit set_current
finalize_entry-Has v w id none c r s h = h
finalize_entry-Has v w id (some x) c r s h = h

pub finalize_session-Has :
    (v : View) (w : World) (id : Text) (c : Close) (r : Instance) (s : Controller)
    → Has v s
    → Has v (finalize_session w id c r s)
unfolding finalize_session
finalize_session-Has v w id c r s h = finalize_entry-Has v w id (find_entry id r.sessions) c r s h

finalize_keys-Has :
    (v : View) (w : World) (reason : Reason) (entries : List Entry) (s : Controller)
    → Has v s
    → Has v (finalize_keys w reason entries s)
unfolding finalize_keys
finalize_keys-Has v w reason [] s h = h
finalize_keys-Has v w reason (x ∷ entries) s h =
    finalize_keys-Has v w reason entries (on_current (finalize_session w x.id (terminal reason)) s)
      (on_current-P (Has v) (finalize_session w x.id (terminal reason)) s
        (λ r e. finalize_session-Has v w x.id (terminal reason) r s h) h)

pub finalize_remaining-Has :
    (v : View) (w : World) (reason : Reason) (s : Controller)
    → Has v s
    → Has v (finalize_remaining w reason s)
unfolding finalize_remaining finalize_in set_current
finalize_remaining-Has v w reason s h =
    let k = sample_history-Has v w s h in
    on_current-P (Has v) (finalize_in w reason) (sample_history w s)
      (λ r e.
        let closed =
          finalize_keys-Has v w (terminal_reason reason) r.sessions (sample_history w s) k in
        on_current-P (Has v) close_history
          (finalize_keys w (terminal_reason reason) r.sessions (sample_history w s))
          (λ r' e'. closed) closed)
      k

pub send_stats-Has : (v : View) (w : World) (s : Controller) → Has v s → Has v (send_stats w s)
unfolding send_stats send_stats_in sample emit
send_stats-Has v w s h =
    on_current-P (Has v) (send_stats_in w) s
      (λ r e.
        if-P (Has v) (not (is_visible r s) || is_recent w s.last_stats_at) _ _ (λ t. h)
          (λ t. sample_history-Has v w (record s { last_stats_at = some w.now }) h))
      h

pub stop_record-Has :
    (v : View) (w : World) (reason : Reason) (s : Controller)
    → Has v s
    → Has v (stop_record w reason s)
unfolding stop_record clear_timers set_current emit
stop_record-Has v w reason s h =
    let refused = on_current-P (Has v) refuse s (λ r e. h) h in
    let cleared = clear_timers (notify stopping (on_current refuse s)) in
    let k = sample_history-Has v w cleared (notify-Has v stopping (on_current refuse s) refused) in
    on_current-P (Has v) (set_reason reason) (sample_history w cleared) (λ r e. k) k

abbrev pub but_removed : View → View
but_removed (tasks, phase, g, made, _) = (tasks, phase, g, made, 0)

-- All but the number of servers that were released.
abbrev pub Keeps : View → Controller → Type 0
Keeps v s = but_removed (view s) ≡ but_removed v

pub stop_succeeded-Keeps :
    (v : View) (w : World) (reason : Reason) (s : Controller)
    → Has v s
    → Keeps v (stop_succeeded w reason s)
unfolding stop_succeeded release release_in clear_timers emit
stop_succeeded-Keeps v w reason s h =
    let k = ap but_removed (
      notify-Has v stopped (finalize_remaining w reason s)
        (finalize_remaining-Has v w reason s h)) in
    on_current-P (Keeps v) release_in (notify stopped (finalize_remaining w reason s)) (λ r e. k) k

pub stop_failed-Has : (v : View) (s : Controller) → Has v s → Has v (stop_failed s)
unfolding stop_failed
stop_failed-Has v s h = notify-Has v (failed proxy_stop_failed) s h

pub cancel_listen-Has : (v : View) (s : Controller) → Has v s → Has v (cancel_listen s)
unfolding cancel_listen cancel_listen_in emit set_current
cancel_listen-Has v s h =
    on_current-P (Has v) cancel_listen_in s
      (λ r e. if-P (Has v) (r.started && not r.candidate) _ _ (λ t. h) (λ t. h)) h

pub open-Has :
    (v : View) (w : World) (t : Start) (r : Instance) (s : Controller)
    → Has v s
    → Has v (open_for w t (announce r s))
unfolding open_for announce start_timers clear_timers set_current
open-Has v w t r s h =
    let r' : Instance = record r { started = true } in
    let k =
      if-P (Has v) r.started s (notify (running r.config) (set_current r' s)) (λ e. h)
        (λ e. notify-Has v (running r.config) (set_current r' s) h) in
    if-P (Has v) t.candidate _ _ (λ e. k) (λ e. send_stats-Has v w (start_timers (announce r s)) k)
