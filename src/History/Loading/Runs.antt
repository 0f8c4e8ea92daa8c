-- ===== src/History/Loading/Runs.antt =====
-- The store of electron/session-history-store.js after any sequence of calls.
use usshtc.Prelude.{ℕ, Bool, true, false, List, [], ◌∷◌, All, if◌then◌else◌}
use usshtc.History.Records.RoundTrip.{IsSession, Distinct}
use usshtc.History.Records.Sound.{IsCounter}
use usshtc.History.Store.{Store, fresh, Written}
use usshtc.History.Store.IsValid.{IsValid, HasLive, IsReadable, if-IsValid, flush-IsValid}
use usshtc.History.Calls.Valid.{register-IsValid, sample-IsValid}
use usshtc.History.Calls.Ending.{finalize-IsValid, get-IsValid, clear-IsValid}
use usshtc.History.Loading.{
  Call, call_register, call_sample, call_finalize, call_get, call_clear, call_flush, call_dispose,
  call_retry, Source, load, retry_backup, retry, dispose, step, run, session, backup_corrupt,
}
use usshtc.History.Loading.Readable.{load-IsValid, backup_corrupt-IsValid}

-- The clock of a load is in the range of the times of the records.
abbrev pub IsTimely : Call → Type 0
IsTimely (call_retry now outcome saved saved_again source) = IsCounter now
IsTimely _ = Unit

retry_backup-IsValid : (saved : Bool) (s : Store) → IsValid s → IsValid (retry_backup saved s)
unfolding retry_backup
retry_backup-IsValid saved s v =
    let s' = backup_corrupt saved s in
    let w = backup_corrupt-IsValid saved s v in
    if-IsValid s.pending_corrupt
      (if saved then record s' { pending_corrupt = false; dirty = true } else s') s
      (if-IsValid saved (record s' { pending_corrupt = false; dirty = true }) s' w w) v

retry-IsValid :
    (now : ℕ) (outcome : Written) (saved saved_again : Bool) (source : Source) (s : Store)
    → IsCounter now
    → IsValid s
    → IsValid (retry now outcome saved saved_again source s)
unfolding retry
retry-IsValid now outcome saved saved_again source s n v =
    let s' = if s.needs_read then load now outcome saved source s else s in
    flush-IsValid now outcome (retry_backup saved_again s') (
      retry_backup-IsValid saved_again s' (
        if-IsValid s.needs_read (load now outcome saved source s) s
          (load-IsValid now outcome saved source s n v) v))

step-IsValid : (c : Call) (s : Store) → IsTimely c → IsValid s → IsValid (step c s)
unfolding step dispose
step-IsValid (call_register now key profile kind started sent received) s t v =
    register-IsValid now key profile kind started sent received s v
step-IsValid (call_sample key sent received) s t v = sample-IsValid key sent received s v
step-IsValid (call_finalize now outcome key ended sent received exit reason) s t v =
    finalize-IsValid now outcome key ended sent received exit reason s v
step-IsValid (call_get now profile days) s t v = get-IsValid now profile days s v
step-IsValid (call_clear now outcome profile) s t v = clear-IsValid now outcome profile s v
step-IsValid (call_flush now outcome) s t v = flush-IsValid now outcome s v
step-IsValid (call_dispose now outcome) s t v = flush-IsValid now outcome s v
step-IsValid (call_retry now outcome saved saved_again source) s t v =
    retry-IsValid now outcome saved saved_again source s t v

run-IsValid :
    (calls : List Call) (s : Store) → All IsTimely calls → IsValid s → IsValid (run calls s)
unfolding run
run-IsValid [] s t v = v
run-IsValid (c ∷ calls) s t v = run-IsValid calls (step c s) t.1 (step-IsValid c s t.0 v)

fresh-IsValid : IsValid fresh
fresh-IsValid = record { each = tt; distinct = tt; live = tt; readable = tt }

-- From whatever file the store is made, and after any sequence of calls with any values, file errors
-- included, where the clock of the loads is at most 2^53 - 1: the records are valid and have distinct
-- ids, each registered key has an open record, and if the store has written its file, then
-- `validateDocument` accepts what it wrote last.
pub session-IsValid :
    (now : ℕ) (outcome : Written) (saved : Bool) (source : Source) (calls : List Call)
    → IsCounter now
    → All IsTimely calls
    → let s = session now outcome saved source calls in
      All IsSession s.sessions
      × Distinct s.sessions
      × All (HasLive s.sessions) s.registered
      × IsReadable s.file
unfolding session
session-IsValid now outcome saved source calls n t =
    let v = run-IsValid calls _ t (load-IsValid now outcome saved source fresh n fresh-IsValid) in
    (v.each, v.distinct, v.live, v.readable)
