-- ===== src/Proxy/Frame/Reported.antt =====
-- What a server reports to electron/proxy-controller.js leaves its tasks alone.
use usshtc.Prelude.{true, not, ◌&&◌, ◌||◌, Option, none, some, if◌then◌else◌, ◌==◌, if-P}
use usshtc.Prelude.Text.{Text}
use usshtc.Proxy.State.{
  proxy_start_failed, proxy_stop_failed, Entry, Instance, stopped, running, failed, connections,
  Controller, Stat, World, emit, set_current, on_current, is_visible, clear_timers,
}
use usshtc.Proxy.Sessions.{find_entry, Close, finalize_session, finalize_remaining}
use usshtc.Proxy.Reports.{
  Report, reports_started, reports_connections, reports_auth_error, reports_stopped, reports_error,
  reports_traffic, reports_not_ready, reports_open, reports_close, on_started, mark_stopped,
  on_stopped, on_auth_error, has_entry, on_not_ready, register, announce_open, on_open, is_network,
  announce_close, on_close, on_traffic, on_report,
}
use usshtc.Proxy.Balance.{on_current-P}
use usshtc.Proxy.Frame.{View, Has, notify-Has, finalize_session-Has, finalize_remaining-Has}

register-Has :
    (v : View) (o : Option Entry) (stat : Stat) (r : Instance) (s : Controller)
    → Has v s
    → Has v (register o stat r s)
unfolding register set_current emit
register-Has v (some x) stat r s h = h
register-Has v none stat r s h = h

on_open-Has :
    (v : View) (stat : Stat) (r : Instance) (s : Controller) → Has v s → Has v (on_open stat r s)
unfolding on_open announce_open emit
on_open-Has v stat r s h =
    let s' = register (find_entry stat.id r.sessions) stat r s in
    let k = register-Has v (find_entry stat.id r.sessions) stat r s h in
    if-P (Has v) (r.candidate || r.cancelled || r.history_closed) _ _ (λ t. h)
      (λ t.
        on_current-P (Has v) announce_open s'
          (λ r' e. if-P (Has v) (is_visible r' s') _ _ (λ t. k) (λ t. k)) k)

on_close-Has :
    (v : View) (w : World) (id : Text) (c : Close) (r : Instance) (s : Controller)
    → Has v s
    → Has v (on_close w id c r s)
unfolding on_close announce_close emit
on_close-Has v w id c r s h =
    let s' = finalize_session w id c r s in
    let k = finalize_session-Has v w id c r s h in
    on_current-P (Has v) (announce_close c.reason) s'
      (λ r' e.
        if-P (Has v) (is_visible r' s') _ _
          (λ t.
            if-P (Has v)
              (not r'.cancelled
                && not r'.stop_requested
                && not r'.history_closed
                && is_network c.reason)
              _ _ (λ t'. k) (λ t'. k))
          (λ t. k))
      k

pub on_report-Has :
    (v : View) (w : World) (report : Report) (r : Instance) (s : Controller)
    → Has v s
    → Has v (on_report w report r s)
unfolding on_report on_started on_stopped mark_stopped clear_timers set_current on_auth_error
    on_not_ready on_traffic emit
on_report-Has v w (reports_started port) r s h =
    let r' : Instance = record r {
      started = true;
      config = record { port = port; others = r.config.others };
    } in
    if-P (Has v) r.cancelled _ _ (λ t. h)
      (λ t. notify-Has v (running r'.config) (set_current r' s) h)
on_report-Has v w (reports_connections n) r s h = notify-Has v (connections n) s h
on_report-Has v w (reports_auth_error status) r s h =
    if-P (Has v) (is_visible r s && (status == 401 || status == 403)) _ _ (λ t. h) (λ t. h)
on_report-Has v w reports_stopped r s h =
    let s' = finalize_remaining w r.stop_reason (clear_timers s) in
    let k = finalize_remaining-Has v w r.stop_reason (clear_timers s) h in
    notify-Has v stopped (on_current mark_stopped s')
      (on_current-P (Has v) mark_stopped s' (λ r' e. k) k)
on_report-Has v w reports_error r s h =
    notify-Has v (failed (if r.cancelled then proxy_stop_failed else proxy_start_failed)) s h
on_report-Has v w reports_traffic r s h =
    if-P (Has v) (is_visible r s) (record s { traffic_timer = true }) s (λ t. h) (λ t. h)
on_report-Has v w (reports_not_ready is_timeout id same_cookie) r s h =
    if-P (Has v)
      (is_visible r s
        && not r.cancelled
        && not r.stop_requested
        && not r.history_closed
        && is_timeout
        && has_entry (find_entry id r.sessions)
        && same_cookie)
      _ _ (λ t. h) (λ t. h)
on_report-Has v w (reports_open stat) r s h = on_open-Has v stat r s h
on_report-Has v w (reports_close id c) r s h = on_close-Has v w id c r s h
