-- ===== src/Connection/Recovery/Controller.antt =====
-- The methods of electron/recovery-controller.js, and the controller as a step function over events.
use usshtc.Prelude.{
  ℕ, suc, Bool, true, false, not, ◌&&◌, ◌||◌, List, [], ◌∷◌, Option, none, some, if◌then◌else◌,
}
use usshtc.Connection.Codes.{
  Code, remote_ready_timeout, recovery_exhausted, profile_changed, shutting_down,
  network_unavailable, Key, key_eq, code_eq,
}
use usshtc.Connection.Recovery.Context.{
  Scope, same_scope, Context, World, context, key, transport_key, validate,
}
use usshtc.Connection.Recovery.State.{
  offline, error_status, Outcome, cancelled, failed, Round, waiting, Controller, is_key, publish,
  cancel, stop_hints, schedule_hints,
}
use usshtc.Connection.Recovery.Round.{Answer, status_of, block, schedule_attempt, resume_round}

-- What a caller gets: the promise of a round, a promise that is settled, or an exception.
pub data Reply : Type 0 where
  pending : ℕ → Reply
  settled : Outcome → Reply
  rejected : Code → Reply
  thrown : Reply

unfoldable pub start_round : World → Context → Controller → Controller × Reply
unfolding schedule_attempt schedule_hints
start_round w c s =
    let r : Round = record { id = s.rounds; context = c; attempt = 0; phase = waiting } in
    (schedule_hints w (schedule_attempt r (record s { rounds = suc s.rounds })), pending s.rounds)

unfoldable pub begin_validated :
    Option Code → World → Context → Bool → Controller → Controller × Reply
unfolding start_round block publish status_of
begin_validated (some code) w c manual s =
    (publish c (status_of code) code (block c s), settled (failed code))
begin_validated none w c manual s =
    start_round w c (if manual then record s { blocked = none } else s)

unfoldable pub begin_new : World → Context → Bool → Controller → Controller × Reply
unfolding begin_validated is_key validate
begin_new w c manual s =
    if not manual && is_key s.inhibited (transport_key c)
    then (s, settled (failed remote_ready_timeout))
    else if not manual && is_key s.blocked (key c)
    then (s, settled (failed recovery_exhausted))
    else begin_validated (validate c) w c manual
        (if manual then record s { inhibited = none } else s)

unfoldable pub is_joined : Option Round → Context → Bool
unfolding key_eq
is_joined none c = false
is_joined (some r) c = key_eq (key r.context) (key c)

unfoldable pub joined_id : Option Round → ℕ
joined_id none = 0
joined_id (some r) = r.id

unfoldable pub begin : World → Context → Bool → Controller → Controller × Reply
unfolding begin_new cancel is_joined joined_id
begin w c manual s =
    let seen = record s { observed = some (key c); observed_scope = some c.snapshot.scope } in
    if is_joined s.active c
    then (seen, pending (joined_id s.active))
    else begin_new w c manual (record (cancel w seen) { paused = false })

unfoldable pub automatic_in : Option Context → World → Controller → Controller
unfolding begin
automatic_in none w s = s
automatic_in (some c) w s = if c.snapshot.desired_running then (begin w c false s).0 else s

unfoldable pub automatic : World → Controller → Controller
unfolding automatic_in context
automatic w s =
    if s.disposed || s.suspended || not s.enabled || s.paused
    then s
    else automatic_in (context w) w s

unfoldable pub retry_in : Option Context → Scope → World → Controller → Controller × Reply
unfolding begin same_scope
retry_in none scope w s = (s, thrown)
retry_in (some c) scope w s =
    if not (same_scope scope c.snapshot.scope)
    then (s, rejected profile_changed)
    else if s.suspended
    then (s, settled cancelled)
    else begin w c true s

unfoldable pub retry : Scope → World → Controller → Controller × Reply
unfolding retry_in context
retry scope w s = if s.disposed then (s, rejected shutting_down) else retry_in (context w) scope w s

unfoldable pub is_scope : Option Scope → Scope → Bool
unfolding same_scope
is_scope none scope = false
is_scope (some scope') scope = same_scope scope scope'

unfoldable pub has_observed : Option Key → Bool
has_observed none = false
has_observed (some _) = true

-- The end of `update`: whether an automatic round may begin again.
unfoldable pub rearm : World → Context → Bool → Controller → Controller
unfolding automatic stop_hints schedule_hints
rearm w c anew s =
    let rearmed = s.rearm_when_idle && not c.snapshot.operating in
    if not s.enabled || s.suspended || not c.snapshot.desired_running
    then stop_hints s
    else if anew || rearmed
    then schedule_hints w (
        automatic w
          (record s { rearm_when_idle = s.rearm_when_idle && not rearmed; paused = false }))
    else schedule_hints w s

-- What is forgotten when the scope or the context has changed.
unfoldable pub forget : Context → Bool → Bool → Controller → Controller
unfolding is_key
forget c changed scope_changed s = record s {
  unhealthy = s.unhealthy && not scope_changed;
  remote_state = if scope_changed then none else s.remote_state;
  blocked = if changed then none else s.blocked;
  inhibited = if is_key s.inhibited (transport_key c) then s.inhibited else none;
}

unfoldable pub update_in : Option Context → World → Controller → Controller
unfolding cancel stop_hints is_key is_scope has_observed rearm forget
update_in none w s = stop_hints (cancel w s)
update_in (some c) w s =
    let changed = not (is_key s.observed (key c)) in
    let scope_changed =
      has_observed s.observed && not (is_scope s.observed_scope c.snapshot.scope) in
    let seen = record s {
      observed = some (key c);
      observed_scope = some c.snapshot.scope;
      enabled = w.reconnect;
    } in
    rearm w c (changed || (not s.enabled && w.reconnect)) (
      forget c changed scope_changed
        (if changed || (s.enabled && not w.reconnect) then cancel w seen else seen))

unfoldable pub update : World → Controller → Controller
unfolding update_in context
update w s = if s.disposed || s.cancelling then s else update_in (context w) w s

unfoldable pub remote_not_ready_in : Option Context → Scope → Code → World → Controller → Controller
unfolding same_scope code_eq cancel stop_hints publish
remote_not_ready_in none scope code w s = s
remote_not_ready_in (some c) scope code w s =
    if same_scope scope c.snapshot.scope && code_eq code remote_ready_timeout
    then publish c error_status remote_ready_timeout (
        stop_hints (
          cancel w (record s {
            inhibited = some (transport_key c);
            blocked = some (key c);
            unhealthy = true;
          })))
    else s

unfoldable pub names_other : Option Scope → Scope → Bool
unfolding same_scope
names_other none scope = false
names_other (some event) scope = not (same_scope event scope)

unfoldable pub network_error_in : Option Context → Option Scope → World → Controller → Controller
unfolding names_other is_key publish automatic
network_error_in none event w s = s
network_error_in (some c) event w s =
    if names_other event c.snapshot.scope
      || is_key s.inhibited (transport_key c)
      || is_key s.blocked (key c)
    then s
    else automatic w (publish c offline network_unavailable (record s { unhealthy = true }))

-- `typeof onlineHint === 'boolean' && onlineHint !== lastOnline`.
unfoldable pub is_news : Option Bool → Option Bool → Bool
is_news none last = false
is_news (some hint) none = true
is_news (some true) (some last) = not last
is_news (some false) (some last) = last

-- `!onlineHint || previous === false`.
unfoldable pub is_turn : Option Bool → Option Bool → Bool
is_turn (some false) previous = true
is_turn hint (some false) = true
is_turn hint previous = false

unfoldable pub after_hint : Option Bool → World → Controller → Controller
unfolding is_news is_turn automatic
after_hint hint w s =
    if is_news hint s.last_online
    then (let told = record s { last_online = hint } in
        if is_turn hint s.last_online then automatic w told else told)
    else s

pub data Event : Type 0 where
  answer : ℕ → Answer → Event
  retry_call : Scope → Event
  remote_not_ready : Scope → Code → Event
  cancel_call : Bool → Event
  update_call resume suspend online dispose : Event
  network_error : Option Scope → Event
  hint_fired : Option Bool → Event

unfoldable pub step : World → Event → Controller → Controller
unfolding resume_round retry remote_not_ready_in cancel stop_hints update schedule_hints automatic
    network_error_in after_hint context
step w (answer id a) s = resume_round s.active id a w s
step w (retry_call scope) s = (retry scope w s).0
step w (remote_not_ready scope code) s =
    if s.disposed then s else remote_not_ready_in (context w) scope code w s
step w (cancel_call user_stop) s = stop_hints (cancel w (record s { rearm_when_idle = user_stop }))
step w update_call s = update w s
step w resume s =
    if s.disposed
    then s
    else automatic w (schedule_hints w (record s { suspended = false; paused = false }))
step w suspend s = stop_hints (cancel w (record s { suspended = true }))
step w online s =
    if not s.disposed && s.enabled && not s.suspended
    then automatic w (record s { last_online = some true })
    else s
step w dispose s = stop_hints (cancel w (record s { disposed = true }))
step w (network_error event) s =
    if s.disposed || s.suspended || not s.enabled || s.paused
    then s
    else network_error_in (context w) event w s
step w (hint_fired hint) s =
    if s.hinting then schedule_hints w (after_hint hint w (record s { hinting = false })) else s

-- Each event comes with the environment of its moment.
unfoldable pub run : List (World × Event) → Controller → Controller
unfolding step
run [] s = s
run ((w, e) ∷ events) s = run events (step w e s)
