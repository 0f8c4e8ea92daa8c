-- ===== src/History/Store.antt =====
-- electron/session-history-store.js, `SessionHistoryStore`. The clock is read at the start of an
-- operation; the file, the backup and the timer are the environment, whose outcomes are arguments. A
-- session object that `registered` shares with `sessions` is the open record with its key as id.
pub mod IsValid
use usshtc.Prelude.{
  ℕ, zero, suc, ◌+◌, ◌-◌, ◌*◌, ◌≡◌, refl, Bool, true, false, not, ◌&&◌, ◌||◌, List, [], ◌∷◌, ◌++◌,
  map, Option, none, some, leb, ltb, ◌==◌, if◌then◌else◌, length, select, any, max, Result, ok, err,
  guard, ◌>>=◌, ◌>>◌, arith,
}
use usshtc.Prelude.Text.{Text, codes, text_eq}
use usshtc.Prelude.Dynamic.{Value, undefined, null, string, integer, pos}
use usshtc.History.Records.{
  Session, Checked, Rejected, rejected, Parsed, document_for, validate_document, has_id, as_token,
  as_kind, as_counter, as_exit_code, as_reason, one_of,
}
use usshtc.History.Size.{serialized_bytes}
use usshtc.History.Prune.{is_open, when, prune, max_history_bytes}
use mathlib.Core.List.{reverse}

-- What `onState` and `onWarning` are called with.
pub data Signal : Type 0 where
  state_changed : (failed : Bool) → Signal
  warn_storage warn_corrupt : Signal

pub record Store : Type 0 where
  pub sessions : List Session
  -- the keys of the map
  pub registered : List Text
  pub cleared_profiles : List Text
  -- `errorCode !== null`: there is one code
  pub failed : Bool
  pub dirty : Bool
  pub timer : Bool
  pub disposed : Bool
  pub needs_read : Bool
  -- `pendingCorrupt !== null`
  pub pending_corrupt : Bool
  -- what the file holds, if the store has written it
  pub file : Option Parsed
  -- the latest signal first
  pub signals : List Signal

-- The fields that the constructor sets before `_load`.
abbrev pub fresh : Store
fresh = record {
  sessions = [];
  registered = [];
  cleared_profiles = [];
  failed = false;
  dirty = false;
  timer = false;
  disposed = false;
  needs_read = false;
  pending_corrupt = false;
  file = none;
  signals = [];
}

-- `_changed`.
unfoldable pub changed : Store → Store
changed s = record s { signals = state_changed s.failed ∷ s.signals }

-- `_state`, where a warning follows an error.
unfoldable pub set_failed : Bool → Store → Store
set_failed true s =
    if s.failed
    then s
    else record s { failed = true; signals = warn_storage ∷ state_changed true ∷ s.signals }
set_failed false s =
    if s.failed then record s { failed = false; signals = state_changed false ∷ s.signals } else s

-- `_schedule`.
unfoldable pub schedule : Store → Store
schedule s =
    if s.timer || s.disposed
    then record s { dirty = true }
    else record s { dirty = true; timer = true }

-- `_prune` on the state, and its answer.
unfoldable pub pruned : ℕ → Store → Store × Bool
pruned now s =
    let (left, fits) = prune now s.sessions in
    (record s { sessions = left; dirty = s.dirty || not (length left == length s.sessions) }, fits)

-- How `atomicWriteJson` ends: it may throw before or after the file is replaced.
pub data Written : Type 0 where
  stored not_replaced not_durable : Written

unfoldable pub write_failed : Store → Store
unfolding set_failed
write_failed s = set_failed true (record s { dirty = true })

-- `atomicWriteJson`, which refuses a document over the limit.
unfoldable pub write_file : Written → Store → Store
unfolding set_failed write_failed
write_file outcome s =
    let replaced = record s { file = some (document_for s.sessions) } in
    if leb (serialized_bytes s.sessions) max_history_bytes
    then elim outcome [
      | stored ↦ set_failed false (record replaced { dirty = false; cleared_profiles = [] })
      | not_replaced ↦ write_failed s
      | not_durable ↦ write_failed replaced
    ]
    else write_failed s

pub flush : ℕ → Written → Store → Store
unfolding pruned write_file
flush now outcome s =
    let s' = (pruned now (record s { timer = false })).0 in
    if s'.needs_read || s'.pending_corrupt
    then s'
    else if s'.dirty || s'.failed
    then write_file outcome s'
    else s'

-- The object that the map holds for the key.
unfoldable pub is_live : Text → Session → Bool
is_live key r = text_eq r.id key && is_open r
