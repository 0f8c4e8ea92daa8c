-- ===== src/History/Loading.antt =====
-- electron/session-history-store.js, `_load`, `retry` and `dispose` of `SessionHistoryStore`, and the
-- sequences of calls.
pub mod Readable
pub mod Runs
use usshtc.Prelude.{
  ℕ, zero, suc, ◌+◌, ◌-◌, ◌*◌, ◌≡◌, refl, Bool, true, false, not, ◌&&◌, ◌||◌, List, [], ◌∷◌, ◌++◌,
  map, Option, none, some, leb, ltb, ◌==◌, if◌then◌else◌, length, select, any, max, Result, ok, err,
  guard, ◌>>=◌, ◌>>◌, arith,
}
use usshtc.Prelude.Text.{Text, codes, text_eq}
use usshtc.Prelude.Dynamic.{Value, undefined, null, string, integer, pos}
use usshtc.History.Records.{
  Session, Checked, Rejected, rejected, Parsed, document_for, validate_document, has_id, as_token,
  as_kind, as_counter, as_exit_code, as_reason, one_of,
}
use usshtc.History.Size.{serialized_bytes}
use usshtc.History.Prune.{is_open, when, prune, max_history_bytes}
use mathlib.Core.List.{reverse}
use usshtc.History.Store.{
  Store, changed, set_failed, schedule, pruned, flush, Written, warn_corrupt, fresh,
}
use usshtc.History.Calls.{register, sample, finalize, get, clear}

-- What `_load` finds: no file, an unreadable one, bytes that are no UTF-8 text, or a text, which
-- `JSON.parse` may refuse.
pub data Source : Type 0 where
  missing unreadable no_text : Source
  parsed : Option Parsed → Source

-- `_backupCorrupt`: `saved` says whether the copy was written.
unfoldable pub backup_corrupt : Bool → Store → Store
unfolding set_failed
backup_corrupt saved s =
    if saved then record s { signals = warn_corrupt ∷ s.signals } else set_failed true s

-- A loaded record without an end was interrupted.
interrupted : ℕ → Session → Session
interrupted now r =
    if is_open r
    then record r {
      ended_at = some (max r.started_at now);
      reason = some (codes "interrupted");
      exit_code = none;
    }
    else r

abbrev is_cleared : Text → List Text → Bool
is_cleared profile profiles = any (λ p. text_eq p profile) profiles

-- The loop over the loaded records; `existing` are the sessions before it.
merge : ℕ → List Session → List Session → Store → Store
unfolding interrupted
merge now existing [] s = s
merge now existing (r ∷ loaded) s =
    if is_cleared r.profile_id s.cleared_profiles
    then merge now existing loaded (record s { dirty = true })
    else if has_id r.id existing
    then merge now existing loaded s
    else merge now existing loaded
        (record s { sessions = s.sessions ++ interrupted now r ∷ []; dirty = s.dirty || is_open r })

-- `_load` with the records of a valid document.
load_records : ℕ → Written → List Session → Store → Store
unfolding pruned merge
load_records now outcome loaded s =
    let s' = (pruned now (merge now s.sessions loaded (record s { needs_read = false }))).0 in
    if s'.dirty then flush now outcome s' else s'

-- `_load` with a text that is no valid document.
load_corrupt : ℕ → Written → Bool → Store → Store
unfolding backup_corrupt
load_corrupt now outcome saved s =
    let s' = backup_corrupt saved (record s { needs_read = false }) in
    if saved
    then flush now outcome (record s' { dirty = true })
    else record s' { pending_corrupt = true }

-- `_load` with bytes that are no text.
load_bytes : ℕ → Written → Bool → Store → Store
unfolding backup_corrupt
load_bytes now outcome saved s =
    let s' = backup_corrupt saved (record s { needs_read = false }) in
    flush now outcome
      (record s' { pending_corrupt = s'.pending_corrupt || not saved; dirty = true })

load_checked : ℕ → Written → Bool → Checked (List Session) → Store → Store
unfolding load_records load_corrupt
load_checked now outcome saved (err _) s = load_corrupt now outcome saved s
load_checked now outcome saved (ok loaded) s = load_records now outcome loaded s

pub load : ℕ → Written → Bool → Source → Store → Store
unfolding load_checked load_corrupt load_bytes set_failed
load now outcome saved missing s = record s { needs_read = false }
load now outcome saved unreadable s = set_failed true (record s { needs_read = true })
load now outcome saved no_text s = load_bytes now outcome saved s
load now outcome saved (parsed none) s = load_corrupt now outcome saved s
load now outcome saved (parsed (some text)) s =
    load_checked now outcome saved (validate_document text) s

-- `retry` after the load.
retry_backup : Bool → Store → Store
unfolding backup_corrupt
retry_backup saved s =
    if s.pending_corrupt
    then (let s' = backup_corrupt saved s in
        if saved then record s' { pending_corrupt = false; dirty = true } else s')
    else s

pub retry : ℕ → Written → Bool → Bool → Source → Store → Store
unfolding retry_backup
retry now outcome saved saved_again source s =
    let s' = if s.needs_read then load now outcome saved source s else s in
    flush now outcome (retry_backup saved_again s')

pub dispose : ℕ → Written → Store → Store
dispose now outcome s = record (flush now outcome s) { disposed = true }

-- A call of the store, with the time and the outcomes of its file operations.
pub data Call : Type 0 where
  call_register :
      (now : ℕ) → (session_key profile_id kind started_at bytes_sent bytes_received : Value) → Call
  call_sample : (key : Text) → (bytes_sent bytes_received : Value) → Call
  call_finalize :
      (now : ℕ)
      → Written
      → (key : Text) → (ended_at bytes_sent bytes_received exit_code reason : Value) → Call
  call_get : (now : ℕ) → (profile : Text) → (days : ℕ) → Call
  call_clear : (now : ℕ) → Written → (profile : Text) → Call
  call_flush call_dispose : (now : ℕ) → Written → Call
  call_retry : (now : ℕ) → Written → (saved saved_again : Bool) → Source → Call

pub step : Call → Store → Store
step (call_register now key profile kind started sent received) s =
    (register now key profile kind started sent received s).1
step (call_sample key sent received) s = (sample key sent received s).1
step (call_finalize now outcome key ended sent received exit reason) s =
    (finalize now outcome key ended sent received exit reason s).1
step (call_get now profile days) s = (get now profile days s).1
step (call_clear now outcome profile) s = clear now outcome profile s
step (call_flush now outcome) s = flush now outcome s
step (call_dispose now outcome) s = dispose now outcome s
step (call_retry now outcome saved saved_again source) s =
    retry now outcome saved saved_again source s

pub run : List Call → Store → Store
unfolding step
run [] s = s
run (c ∷ calls) s = run calls (step c s)

-- The constructor, and calls after it.
pub session : ℕ → Written → Bool → Source → List Call → Store
session now outcome saved source calls = run calls (load now outcome saved source fresh)
