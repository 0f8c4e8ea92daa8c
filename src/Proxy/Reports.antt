-- ===== src/Proxy/Reports.antt =====
-- electron/proxy-controller.js: what the server reports (`attach`).
use usshtc.Prelude.{
  ℕ, suc, Bool, true, false, not, ◌&&◌, ◌||◌, [], ◌∷◌, ◌++◌, Option, none, some, if◌then◌else◌,
  ◌==◌,
}
use usshtc.Prelude.Text.{Text}
use usshtc.Proxy.State.{
  Reason, network_error, proxy_start_failed, proxy_stop_failed, SessionKey, Entry, Instance,
  running, stopped, failed, connections, registered, session_opened, session_closed, new_session,
  login_required, network_failed, remote_not_ready, Controller, Stat, World, emit, set_current,
  on_current, is_visible, notify, clear_timers,
}
use usshtc.Proxy.Sessions.{find_entry, Close, finalize_session, finalize_remaining}

-- What the current server reports. A server that has been released has no listener.
pub data Report : Type 0 where
  reports_started reports_connections reports_auth_error : ℕ → Report
  reports_stopped reports_error reports_traffic : Report
  -- whether the code is REMOTE_READY_TIMEOUT and the generation that of the server's cookie
  reports_not_ready : Bool → Text → Bool → Report
  reports_open : Stat → Report
  reports_close : Text → Close → Report

unfoldable pub on_started : ℕ → Instance → Controller → Controller
unfolding set_current notify
on_started port r s =
    let r' = record r {
      started = true;
      config = record { port = port; others = r.config.others };
    } in
    if r.cancelled then set_current r' s else notify (running r'.config) (set_current r' s)

unfoldable pub mark_stopped : Instance → Controller → Controller
unfolding set_current
mark_stopped r s = set_current (record r { started = false }) s

unfoldable pub on_stopped : World → Instance → Controller → Controller
unfolding notify on_current mark_stopped finalize_remaining clear_timers
on_stopped w r s =
    notify stopped (on_current mark_stopped (finalize_remaining w r.stop_reason (clear_timers s)))

unfoldable pub on_auth_error : ℕ → Instance → Controller → Controller
unfolding is_visible emit
on_auth_error status r s =
    if is_visible r s && (status == 401 || status == 403)
    then emit (login_required r.scope r.id) s
    else s

abbrev pub has_entry : Option Entry → Bool
has_entry none = false
has_entry (some _) = true

unfoldable pub on_not_ready : Bool → Text → Bool → Instance → Controller → Controller
unfolding is_visible find_entry emit
on_not_ready is_timeout id same_cookie r s =
    if is_visible r s
      && not r.cancelled
      && not r.stop_requested
      && not r.history_closed
      && is_timeout
      && has_entry (find_entry id r.sessions)
      && same_cookie
    then emit (remote_not_ready r.scope id r.id r.config) s
    else s

unfoldable pub register : Option Entry → Stat → Instance → Controller → Controller
unfolding set_current emit
register (some _) stat r s = s
register none stat r s =
    let name : SessionKey = record { instance_id = r.id; session = stat.id } in
    let entry : Entry = record {
      id = stat.id;
      session_key = name;
      bytes_sent = stat.bytes_sent;
      bytes_received = stat.bytes_received;
    } in
    emit (registered name stat.bytes_sent stat.bytes_received)
      (set_current (record r { sessions = r.sessions ++ entry ∷ [] }) s)

unfoldable pub announce_open : Instance → Controller → Controller
unfolding is_visible emit
announce_open r s =
    if is_visible r s
    then (let s' =
          emit (session_opened (suc s.sequence)) (record s { sequence = suc s.sequence }) in
        emit (new_session r.scope) s')
    else s

unfoldable pub on_open : Stat → Instance → Controller → Controller
unfolding register announce_open find_entry on_current
on_open stat r s =
    if r.candidate || r.cancelled || r.history_closed
    then s
    else on_current announce_open (register (find_entry stat.id r.sessions) stat r s)

abbrev pub is_network : Reason → Bool
is_network network_error = true
is_network _ = false

unfoldable pub announce_close : Reason → Instance → Controller → Controller
unfolding is_visible emit
announce_close reason r s =
    if is_visible r s
    then (let s' =
          emit (session_closed (suc s.sequence)) (record s { sequence = suc s.sequence }) in
        if not r.cancelled && not r.stop_requested && not r.history_closed && is_network reason
        then emit (network_failed r.scope r.id) s'
        else s')
    else s

unfoldable pub on_close : World → Text → Close → Instance → Controller → Controller
unfolding finalize_session announce_close on_current
on_close w id c r s = on_current (announce_close c.reason) (finalize_session w id c r s)

unfoldable pub on_traffic : Instance → Controller → Controller
unfolding is_visible
on_traffic r s = if is_visible r s then record s { traffic_timer = true } else s

unfoldable pub on_report : World → Report → Instance → Controller → Controller
unfolding on_started notify on_stopped on_auth_error on_not_ready on_open on_close on_traffic
on_report w (reports_started port) r s = on_started port r s
on_report w (reports_connections n) r s = notify (connections n) s
on_report w (reports_auth_error status) r s = on_auth_error status r s
on_report w reports_stopped r s = on_stopped w r s
on_report w reports_error r s =
    notify (failed (if r.cancelled then proxy_stop_failed else proxy_start_failed)) s
on_report w reports_traffic r s = on_traffic r s
on_report w (reports_not_ready is_timeout id same_cookie) r s =
    on_not_ready is_timeout id same_cookie r s
on_report w (reports_open stat) r s = on_open stat r s
on_report w (reports_close id c) r s = on_close w id c r s
