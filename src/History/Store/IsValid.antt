-- ===== src/History/Store/IsValid.antt =====
-- The invariant of electron/session-history-store.js, and that `flush` keeps it.
use usshtc.Prelude.{
  ℕ, ◌≡◌, Bool, true, false, List, [], ◌∷◌, Option, none, some, arith, any, All, if◌then◌else◌, leb,
  ok, ◌||◌,
}
use usshtc.Prelude.Text.{Text}
use usshtc.History.Records.{Session, Parsed, document_for, validate_document}
use usshtc.History.Records.RoundTrip.{IsSession, Distinct, validate_document-document_for}
use usshtc.History.Size.{serialized_bytes}
use usshtc.History.Prune.{is_open, prune, max_history_bytes}
use usshtc.History.Prune.Keeps.{Keeps, prune-Keeps}
use usshtc.History.Store.{
  Store, changed, set_failed, schedule, pruned, flush, Written, stored, not_replaced, not_durable,
  write_file, write_failed, is_live,
}

-- What the store has written is a document that `validateDocument` accepts.
abbrev pub IsReadable : Option Parsed → Type 0
IsReadable none = Unit
IsReadable (some text) = (sessions : List Session) × (validate_document text ≡ ok sessions)

abbrev pub HasLive : List Session → Text → Type 0
HasLive sessions key = any (is_live key) sessions ≡ true

-- The records are valid and their ids distinct, every registered key has an open record, and the file
-- can be read.
pub record Valid (sessions : List Session) (registered : List Text) (file : Option Parsed)
    : Type 0 where
  pub each : All IsSession sessions
  pub distinct : Distinct sessions
  pub live : All (HasLive sessions) registered
  pub readable : IsReadable file

abbrev pub IsValid : Store → Type 0
IsValid s = Valid s.sessions s.registered s.file

pub if-IsValid : (b : Bool) (s t : Store) → IsValid s → IsValid t → IsValid (if b then s else t)
if-IsValid true s t v w = v
if-IsValid false s t v w = w

pub changed-IsValid : (s : Store) → IsValid s → IsValid (changed s)
unfolding changed
changed-IsValid s v = v

pub schedule-IsValid : (s : Store) → IsValid s → IsValid (schedule s)
unfolding schedule
schedule-IsValid s v = if-IsValid (s.timer || s.disposed) _ _ v v

pub set_failed-IsValid : (b : Bool) (s : Store) → IsValid s → IsValid (set_failed b s)
unfolding set_failed
set_failed-IsValid true s v = if-IsValid s.failed _ _ v v
set_failed-IsValid false s v = if-IsValid s.failed _ _ v v

pub is_live-open : (key : Text) (r : Session) → is_live key r ≡ true → is_open r ≡ true
unfolding is_live
is_live-open key r h = ground arith

pub Keeps-live :
    (xs ys : List Session) (keys : List Text)
    → Keeps xs ys
    → All (HasLive xs) keys
    → All (HasLive ys) keys
Keeps-live xs ys [] k h = tt
Keeps-live xs ys (key ∷ keys) k h =
    (k.open_stays (is_live key) (is_live-open key) h.0, Keeps-live xs ys keys k h.1)

pub Keeps-Valid :
    {file : Option Parsed} (xs ys : List Session) (keys : List Text)
    → Keeps xs ys
    → Valid xs keys file
    → Valid ys keys file
Keeps-Valid xs ys keys k v = record {
  each = k.all IsSession v.each;
  distinct = k.distinct v.distinct;
  live = Keeps-live xs ys keys k v.live;
  readable = v.readable;
}

pub pruned-IsValid : (now : ℕ) (s : Store) → IsValid s → IsValid (pruned now s).0
unfolding pruned
pruned-IsValid now s v =
    Keeps-Valid s.sessions (prune now s.sessions).0 s.registered (prune-Keeps now s.sessions) v

write_failed-IsValid : (s : Store) → IsValid s → IsValid (write_failed s)
unfolding write_failed
write_failed-IsValid s v = set_failed-IsValid true _ v

abbrev replaced : Store → Store
replaced s = record s { file = some (document_for s.sessions) }

replaced-IsValid : (s : Store) → IsValid s → IsValid (replaced s)
replaced-IsValid s v = record {
  each = v.each;
  distinct = v.distinct;
  live = v.live;
  readable = (s.sessions, validate_document-document_for s.sessions v.each v.distinct);
}

write_file-IsValid : (outcome : Written) (s : Store) → IsValid s → IsValid (write_file outcome s)
unfolding write_file
write_file-IsValid stored s v =
    if-IsValid (leb (serialized_bytes s.sessions) max_history_bytes)
      (set_failed false (record (replaced s) { dirty = false; cleared_profiles = [] }))
      (write_failed s) (set_failed-IsValid false _ (replaced-IsValid s v))
      (write_failed-IsValid s v)
write_file-IsValid not_replaced s v =
    if-IsValid (leb (serialized_bytes s.sessions) max_history_bytes) (write_failed s)
      (write_failed s) (write_failed-IsValid s v) (write_failed-IsValid s v)
write_file-IsValid not_durable s v =
    if-IsValid (leb (serialized_bytes s.sessions) max_history_bytes) (write_failed (replaced s))
      (write_failed s) (write_failed-IsValid (replaced s) (replaced-IsValid s v))
      (write_failed-IsValid s v)

pub flush-IsValid :
    (now : ℕ) (outcome : Written) (s : Store) → IsValid s → IsValid (flush now outcome s)
unfolding flush
flush-IsValid now outcome s v =
    let s' = (pruned now (record s { timer = false })).0 in
    let w = pruned-IsValid now (record s { timer = false }) v in
    if-IsValid (s'.needs_read || s'.pending_corrupt) s'
      (if s'.dirty || s'.failed then write_file outcome s' else s') w
      (if-IsValid (s'.dirty || s'.failed) (write_file outcome s') s'
        (write_file-IsValid outcome s' w) w)
