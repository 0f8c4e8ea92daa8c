-- ===== src/History/Calls.antt =====
-- electron/session-history-store.js, the calls of `SessionHistoryStore` while sessions run: `register`,
-- `sample`, `finalize`, `get` and `clear`.
pub mod Objects
pub mod Valid
pub mod Ending
use usshtc.Prelude.{
  ℕ, zero, suc, ◌+◌, ◌-◌, ◌*◌, ◌≡◌, refl, Bool, true, false, not, ◌&&◌, ◌||◌, List, [], ◌∷◌, ◌++◌,
  map, Option, none, some, leb, ltb, ◌==◌, if◌then◌else◌, length, select, any, max, Result, ok, err,
  guard, ◌>>=◌, ◌>>◌, arith,
}
use usshtc.Prelude.Text.{Text, codes, text_eq}
use usshtc.Prelude.Dynamic.{Value, undefined, null, string, integer, pos}
use usshtc.History.Records.{
  Session, Checked, Rejected, rejected, Parsed, document_for, validate_document, has_id, as_token,
  as_kind, as_counter, as_exit_code, as_reason, one_of,
}
use usshtc.History.Size.{serialized_bytes}
use usshtc.History.Prune.{is_open, when, prune, max_history_bytes}
use mathlib.Core.List.{reverse}
use usshtc.History.Store.{
  Store, changed, set_failed, schedule, pruned, flush, Written, warn_corrupt, is_live,
}

-- The default value of the counters of `register`.
abbrev or_zero : Value → Value
or_zero undefined = integer (pos 0)
or_zero v = v

-- The record that `register` makes of its arguments, if it accepts them.
candidate : Value → Value → Value → Value → Value → Value → Checked Session
candidate session_key profile_id kind started_at bytes_sent bytes_received = do
  key ← as_token 1024 session_key
  profile ← as_token 256 profile_id
  kind' ← as_kind kind
  started ← as_counter started_at
  sent ← as_counter (or_zero bytes_sent)
  received ← as_counter (or_zero bytes_received)
  ok (record {
    id = key;
    profile_id = profile;
    kind = kind';
    started_at = started;
    ended_at = none;
    bytes_sent = sent;
    bytes_received = received;
    exit_code = none;
    reason = none;
  })

-- `register` from the push on.
admit : ℕ → Session → Store → Bool × Store
unfolding pruned schedule changed
admit now r s =
    let (s', fits) = pruned now (record s { sessions = s.sessions ++ r ∷ [] }) in
    if fits
    then (true, changed (schedule (record s' { registered = s'.registered ++ r.id ∷ [] })))
    else (false, record s' { sessions = select (λ entry. not (text_eq entry.id r.id)) s'.sessions })

register_checked : ℕ → Checked Session → Store → Bool × Store
unfolding admit
register_checked now (err _) s = (false, s)
register_checked now (ok r) s =
    if s.disposed || has_id r.id s.sessions then (false, s) else admit now r s

pub register : ℕ → Value → Value → Value → Value → Value → Value → Store → Bool × Store
unfolding candidate register_checked
register now session_key profile_id kind started_at bytes_sent bytes_received s =
    register_checked now
      (candidate session_key profile_id kind started_at bytes_sent bytes_received) s

-- `registered.get(key)`.
unfoldable pub find_live : Text → List Session → Option Session
unfolding is_live
find_live key [] = none
find_live key (r ∷ rest) = if is_live key r then some r else find_live key rest

abbrev pub registered_object : Text → Store → Option Session
registered_object key s =
    if any (λ k. text_eq k key) s.registered then find_live key s.sessions else none

-- A write to the registered object.
unfoldable pub write_live : Text → (Session → Session) → List Session → List Session
unfolding is_live
write_live key change sessions = map (λ r. if is_live key r then change r else r) sessions

abbrev pub set_counters : ℕ → ℕ → Session → Session
set_counters sent received r = record r { bytes_sent = sent; bytes_received = received }

-- `sample` with counters that are accepted.
sample_object : Text → ℕ → ℕ → Session → Store → Bool × Store
unfolding schedule changed write_live
sample_object key sent received r s =
    if s.disposed || ltb sent r.bytes_sent || ltb received r.bytes_received
    then (false, s)
    else if r.bytes_sent == sent && r.bytes_received == received
    then (true, s)
    else (
      true,
      changed (
          schedule
            (record s { sessions = write_live key (set_counters sent received) s.sessions })),
    )

sample_checked : Text → Option Session → Checked ℕ → Checked ℕ → Store → Bool × Store
unfolding sample_object
sample_checked key (some r) (ok sent) (ok received) s = sample_object key sent received r s
sample_checked key _ _ _ s = (false, s)

pub sample : Text → Value → Value → Store → Bool × Store
unfolding sample_checked
sample key bytes_sent bytes_received s =
    sample_checked key (registered_object key s) (as_counter bytes_sent) (as_counter bytes_received)
      s

-- The default values of the parameters of `finalize`.
abbrev or_now : ℕ → Value → Value
or_now now undefined = integer (pos now)
or_now now v = v

abbrev or_null : Value → Value
or_null undefined = null
or_null v = v

as_optional_counter : Value → Checked (Option ℕ)
as_optional_counter undefined = ok none
as_optional_counter v = as_counter v >>= λ n. ok (some n)

abbrev or_old : ℕ → Option ℕ → ℕ
or_old old none = old
or_old old (some n) = n

-- What `finalize` writes to the object, from the values that it accepts.
pub record Final : Type 0 where
  pub at : ℕ
  pub sent : Option ℕ
  pub received : Option ℕ
  pub code : Option ℕ
  pub cause : Text

final : Value → Value → Value → Value → Value → Checked Final
unfolding as_optional_counter
final ended_at bytes_sent bytes_received exit_code reason = do
  ended ← as_counter ended_at
  exit ← as_exit_code exit_code
  cause ← as_reason reason
  sent ← as_optional_counter bytes_sent
  received ← as_optional_counter bytes_received
  ok (record { at = ended; sent = sent; received = received; code = exit; cause = cause })

abbrev pub set_final : Final → Session → Session
set_final f r = record r {
  ended_at = some (max r.started_at f.at);
  bytes_sent = max r.bytes_sent (or_old r.bytes_sent f.sent);
  bytes_received = max r.bytes_received (or_old r.bytes_received f.received);
  exit_code = f.code;
  reason = some f.cause;
}

unfoldable pub without_key : Text → List Text → List Text
without_key key keys = select (λ k. not (text_eq k key)) keys

-- `finalize` on an object that it accepts, to the flush.
finalize_object : Text → Final → Store → Store
unfolding write_live without_key changed
finalize_object key f s = changed (record s {
  sessions = write_live key (set_final f) s.sessions;
  registered = without_key key s.registered;
  dirty = true;
})

finalize_checked : ℕ → Written → Text → Option Session → Checked Final → Store → Bool × Store
unfolding finalize_object
finalize_checked now outcome key (some r) (ok f) s =
    if s.disposed then (false, s) else (true, flush now outcome (finalize_object key f s))
finalize_checked now outcome key _ _ s = (false, s)

pub finalize : ℕ → Written → Text → Value → Value → Value → Value → Value → Store → Bool × Store
unfolding final finalize_checked
finalize now outcome key ended_at bytes_sent bytes_received exit_code reason s =
    finalize_checked now outcome key (registered_object key s)
      (final (or_now now ended_at) bytes_sent bytes_received (or_null exit_code) reason) s

-- `get`: the records of the profile that ended, or started, in the last 7 or 30 days, the latest first.
abbrev window_ms : ℕ → ℕ
window_ms days = (if days == 7 then 7 else 30) * 24 * 60 * 60 * 1000

unfoldable pub is_shown : ℕ → Text → ℕ → Session → Bool
unfolding when
is_shown now profile days r = text_eq r.profile_id profile && leb now (when r + window_ms days)

pub get : ℕ → Text → ℕ → Store → List Session × Store
unfolding pruned is_shown
get now profile days s =
    let s' = (pruned now s).0 in (reverse (select (is_shown now profile days) s'.sessions), s')

-- The object of the key has another profile.
outside : Text → List Session → Text → Bool
outside profile sessions key = elim (find_live key sessions) [
  | none ↦ true
  | some r ↦ not (text_eq r.profile_id profile)
]

abbrev keys_outside : Text → Store → List Text
keys_outside profile s = select (outside profile s.sessions) s.registered

-- `clear`, to the flush.
cleared : Text → Store → Store
unfolding changed
cleared profile s = changed (record s {
  cleared_profiles = profile ∷ s.cleared_profiles;
  registered = keys_outside profile s;
  sessions = select (λ r. not (text_eq r.profile_id profile)) s.sessions;
  dirty = true;
})

pub clear : ℕ → Written → Text → Store → Store
unfolding cleared
clear now outcome profile s = flush now outcome (cleared profile s)
