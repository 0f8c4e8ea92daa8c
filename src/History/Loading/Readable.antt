-- ===== src/History/Loading/Readable.antt =====
-- `_load` of electron/session-history-store.js keeps the invariant.
use usshtc.Prelude.{
  ℕ, ◌≡◌, refl, Bool, true, false, not, ◌||◌, List, [], ◌∷◌, ◌++◌, none, some, arith, All,
  Bool-cases, inl, inr, any-append, ok, err, max,
}
use usshtc.Prelude.Text.{text_eq, text_eq_sym, codes}
use usshtc.History.Records.{Session, has_id, validate_document, Checked}
use usshtc.History.Records.RoundTrip.{IsSession}
use usshtc.History.Records.Sound.{
  Sound, AreSessions, validate_document-Sound, EndsWell-ended, IsCounter,
}
use usshtc.History.Prune.{is_open}
use usshtc.History.Store.{Store, pruned, flush, Written}
use usshtc.History.Store.IsValid.{
  IsValid, if-IsValid, pruned-IsValid, flush-IsValid, set_failed-IsValid,
}
use usshtc.History.Calls.Valid.{pushed-Valid}
use usshtc.History.Loading.{
  Source, missing, unreadable, no_text, parsed, backup_corrupt, interrupted, is_cleared, merge,
  load_records, load_corrupt, load_bytes, load, load_checked,
}

max-IsCounter : (a b : ℕ) → IsCounter a → IsCounter b → IsCounter (max a b)
max-IsCounter a b h k = ground arith

interrupted-IsSession :
    (now : ℕ) (r : Session) → IsCounter now → IsSession r → IsSession (interrupted now r)
unfolding interrupted
interrupted-IsSession now r n v = elim (Bool-cases (is_open r)) [
  | inr e ↦ rw e v
  | inl e ↦ rw e (record {
    id_token = v.id_token;
    profile_token = v.profile_token;
    known_kind = v.known_kind;
    started = v.started;
    sent = v.sent;
    received = v.received;
    ends_well =
        EndsWell-ended r.started_at (max r.started_at now) none (codes "interrupted")
          (max-IsCounter r.started_at now v.started n) tt refl (omega arith);
  })
]

interrupted-id : (now : ℕ) (r : Session) → (interrupted now r).id ≡ r.id
unfolding interrupted
interrupted-id now r = ground arith

-- The ids to come are among the sessions only as far as they were before.
abbrev Agrees : List Session → List Session → List Session → Type 0
Agrees existing sessions loaded =
    All (λ r. has_id r.id existing ≡ false → has_id r.id sessions ≡ false) loaded

Agrees-pushed :
    (existing sessions loaded : List Session) (x : Session)
    → has_id x.id loaded ≡ false
    → Agrees existing sessions loaded
    → Agrees existing (sessions ++ x ∷ []) loaded
Agrees-pushed existing sessions [] x h a = tt
Agrees-pushed existing sessions (r ∷ loaded) x h a = (
  λ e.
      rw (any-append (λ y. text_eq y.id r.id) sessions (x ∷ []), a.0 e)
        (ground (arith, text_eq_sym x.id r.id)),
  Agrees-pushed existing sessions loaded x (ground arith) a.1,
)

merge-IsValid :
    (now : ℕ) (existing loaded : List Session) (s : Store)
    → IsCounter now
    → AreSessions loaded
    → Agrees existing s.sessions loaded
    → IsValid s
    → IsValid (merge now existing loaded s)
unfolding merge
merge-IsValid now existing [] s n w a v = v
merge-IsValid now existing (r ∷ loaded) s n w a v =
    elim (Bool-cases (is_cleared r.profile_id s.cleared_profiles)) [
      | inl e ↦
          rw e
            (merge-IsValid now existing loaded (record s { dirty = true }) n (w.0.1, w.1.1) a.1 v)
      | inr e ↦ elim (Bool-cases (has_id r.id existing)) [
        | inl f ↦ rw (e, f) (merge-IsValid now existing loaded s n (w.0.1, w.1.1) a.1 v)
        | inr f ↦
            let x = interrupted now r in
            let same = interrupted-id now r in
            rw (e, f)
              (merge-IsValid now existing loaded
                (record s { sessions = s.sessions ++ x ∷ []; dirty = s.dirty || is_open r }) n
                (w.0.1, w.1.1) (Agrees-pushed existing s.sessions loaded x (rw same w.1.0) a.1)
                (pushed-Valid s.sessions s.registered s.file x v
                  (interrupted-IsSession now r n w.0.0) (rw same (a.0 f))))
      ]
    ]

Agrees-start : (existing loaded : List Session) → Agrees existing existing loaded
Agrees-start existing [] = tt
Agrees-start existing (r ∷ loaded) = (λ e. e, Agrees-start existing loaded)

pub backup_corrupt-IsValid :
    (saved : Bool) (s : Store) → IsValid s → IsValid (backup_corrupt saved s)
unfolding backup_corrupt
backup_corrupt-IsValid true s v = v
backup_corrupt-IsValid false s v = set_failed-IsValid true s v

load_corrupt-IsValid :
    (now : ℕ) (outcome : Written) (saved : Bool) (s : Store)
    → IsValid s
    → IsValid (load_corrupt now outcome saved s)
unfolding load_corrupt
load_corrupt-IsValid now outcome true s v =
    let w = backup_corrupt-IsValid true (record s { needs_read = false }) v in
    flush-IsValid now outcome _ w
load_corrupt-IsValid now outcome false s v =
    backup_corrupt-IsValid false (record s { needs_read = false }) v

load_bytes-IsValid :
    (now : ℕ) (outcome : Written) (saved : Bool) (s : Store)
    → IsValid s
    → IsValid (load_bytes now outcome saved s)
unfolding load_bytes
load_bytes-IsValid now outcome saved s v =
    let s' = backup_corrupt saved (record s { needs_read = false }) in
    let w = backup_corrupt-IsValid saved (record s { needs_read = false }) v in
    flush-IsValid now outcome
      (record s' { pending_corrupt = s'.pending_corrupt || not saved; dirty = true }) w

load_checked-IsValid :
    (now : ℕ) (outcome : Written) (saved : Bool) (c : Checked (List Session)) (s : Store)
    → IsCounter now
    → Sound AreSessions c
    → IsValid s
    → IsValid (load_checked now outcome saved c s)
unfolding load_checked load_records
load_checked-IsValid now outcome saved (err _) s n w v = load_corrupt-IsValid now outcome saved s v
load_checked-IsValid now outcome saved (ok loaded) s n w v =
    let start = record s { needs_read = false } in
    let merged = merge now s.sessions loaded start in
    let left = (pruned now merged).0 in
    let u =
      pruned-IsValid now merged
        (merge-IsValid now s.sessions loaded start n w (Agrees-start s.sessions loaded) v) in
    if-IsValid left.dirty (flush now outcome left) left (flush-IsValid now outcome left u) u

pub load-IsValid :
    (now : ℕ) (outcome : Written) (saved : Bool) (source : Source) (s : Store)
    → IsCounter now
    → IsValid s
    → IsValid (load now outcome saved source s)
unfolding load
load-IsValid now outcome saved missing s n v = v
load-IsValid now outcome saved unreadable s n v =
    set_failed-IsValid true (record s { needs_read = true }) v
load-IsValid now outcome saved no_text s n v = load_bytes-IsValid now outcome saved s v
load-IsValid now outcome saved (parsed none) s n v = load_corrupt-IsValid now outcome saved s v
load-IsValid now outcome saved (parsed (some text)) s n v =
    load_checked-IsValid now outcome saved (validate_document text) s n
      (validate_document-Sound text) v
