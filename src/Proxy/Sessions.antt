-- ===== src/Proxy/Sessions.antt =====
-- electron/proxy-controller.js: the sessions of a server in the history, and the statistics.
use usshtc.Prelude.{
  ℕ, suc, ◌-◌, Bool, true, false, not, ◌||◌, List, [], ◌∷◌, Option, none, some, if◌then◌else◌, max,
  ltb,
}
use usshtc.Prelude.Text.{Text, text_eq}
use usshtc.Proxy.State.{
  Reason, app_exit, fatal, auth_error, proxy_stop, Entry, Instance, Final, sampled, finalized,
  stats_sent, Controller, Stat, World, emit, set_current, on_current, is_visible, clear_timers,
}

unfoldable pub terminal_reason : Reason → Reason
terminal_reason app_exit = app_exit
terminal_reason fatal = app_exit
terminal_reason auth_error = auth_error
terminal_reason _ = proxy_stop

unfoldable pub find_entry : Text → List Entry → Option Entry
find_entry id [] = none
find_entry id (e ∷ entries) = if text_eq e.id id then some e else find_entry id entries

unfoldable pub delete_entry : Text → List Entry → List Entry
delete_entry id [] = []
delete_entry id (e ∷ entries) = if text_eq e.id id then entries else e ∷ delete_entry id entries

unfoldable pub set_bytes : Text → ℕ → ℕ → List Entry → List Entry
set_bytes id sent received [] = []
set_bytes id sent received (e ∷ entries) =
    if text_eq e.id id
    then record e { bytes_sent = sent; bytes_received = received } ∷ entries
    else e ∷ set_bytes id sent received entries

unfoldable pub sample_entry : Option Entry → Stat → Instance → Controller → Controller
unfolding set_bytes emit set_current
sample_entry none stat r s = s
sample_entry (some e) stat r s =
    let sent = max e.bytes_sent stat.bytes_sent in
    let received = max e.bytes_received stat.bytes_received in
    emit (sampled e.session_key sent received)
      (set_current (record r { sessions = set_bytes stat.id sent received r.sessions }) s)

unfoldable pub sample_session : Stat → Instance → Controller → Controller
unfolding find_entry sample_entry
sample_session stat r s = sample_entry (find_entry stat.id r.sessions) stat r s

unfoldable pub sample_all : List Stat → Controller → Controller
unfolding on_current sample_session
sample_all [] s = s
sample_all (stat ∷ stats) s = sample_all stats (on_current (sample_session stat) s)

unfoldable pub sample_history_in : World → Instance → Controller → Controller
unfolding sample_all
sample_history_in w r s = if r.candidate then s else sample_all w.sessions s

unfoldable pub sample_history : World → Controller → Controller
unfolding on_current sample_history_in
sample_history w s = on_current (sample_history_in w) s

-- The argument of `finalizeSession`, less the id of the session.
pub record Close : Type 0 where
  pub ended_at : Option ℕ
  pub bytes_sent : Option ℕ
  pub bytes_received : Option ℕ
  pub exit_code : Option ℕ
  pub reason : Reason

abbrev or_else : Option ℕ → ℕ → ℕ
or_else none n = n
or_else (some m) n = m

unfoldable pub final : World → Close → Entry → Final
final w c e = record {
  ended_at = or_else c.ended_at w.wall;
  bytes_sent = or_else c.bytes_sent e.bytes_sent;
  bytes_received = or_else c.bytes_received e.bytes_received;
  exit_code = c.exit_code;
  reason = c.reason;
}

unfoldable pub finalize_entry :
    World → Text → Option Entry → Close → Instance → Controller → Controller
unfolding delete_entry final emit set_current
finalize_entry w id none c r s = s
finalize_entry w id (some e) c r s =
    emit (finalized e.session_key (final w c e))
      (set_current (record r { sessions = delete_entry id r.sessions }) s)

unfoldable pub finalize_session : World → Text → Close → Instance → Controller → Controller
unfolding find_entry finalize_entry
finalize_session w id c r s = finalize_entry w id (find_entry id r.sessions) c r s

abbrev pub terminal : Reason → Close
terminal reason = record {
  ended_at = none;
  bytes_sent = none;
  bytes_received = none;
  exit_code = none;
  reason = reason;
}

-- The loop over `record.sessions.keys()`, whose entries it deletes.
unfoldable pub finalize_keys : World → Reason → List Entry → Controller → Controller
unfolding on_current finalize_session
finalize_keys w reason [] s = s
finalize_keys w reason (e ∷ entries) s =
    finalize_keys w reason entries (on_current (finalize_session w e.id (terminal reason)) s)

abbrev pub close_history : Instance → Controller → Controller
close_history r s = set_current (record r { history_closed = true }) s

unfoldable pub finalize_in : World → Reason → Instance → Controller → Controller
unfolding finalize_keys on_current set_current terminal_reason
finalize_in w reason r s =
    on_current close_history (finalize_keys w (terminal_reason reason) r.sessions s)

unfoldable pub finalize_remaining : World → Reason → Controller → Controller
unfolding finalize_in sample_history on_current
finalize_remaining w reason s = on_current (finalize_in w reason) (sample_history w s)

-- `sample()`: the statistics have the next number.
unfoldable pub sample : World → Controller → Controller
unfolding sample_history
sample w s = let s' = sample_history w s in record s' { sequence = suc s'.sequence }

unfoldable pub is_recent : World → Option ℕ → Bool
is_recent w none = false
is_recent w (some last) = ltb (w.now - last) 500

unfoldable pub send_stats_in : World → Instance → Controller → Controller
unfolding is_visible is_recent sample emit
send_stats_in w r s =
    if not (is_visible r s) || is_recent w s.last_stats_at
    then s
    else let s' = sample w (record s { last_stats_at = some w.now }) in
      emit (stats_sent s'.sequence) s'

unfoldable pub send_stats : World → Controller → Controller
unfolding send_stats_in on_current
send_stats w s = on_current (send_stats_in w) s

unfoldable pub start_timers : Controller → Controller
unfolding clear_timers
start_timers s = record (clear_timers s) { sample_timer = true }
