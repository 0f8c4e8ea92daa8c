-- ===== src/History/Calls/Ending.antt =====
-- `finalize`, `clear` and `get` of electron/session-history-store.js keep the invariant.
use usshtc.Prelude.{
  ℕ, ◌≡◌, refl, sym, Bool, true, false, not, List, [], ◌∷◌, Option, none, some, arith, any,
  All-select, Bool-cases, Option-cases, if◌then◌else◌, select, inl, inr, ok, err, max, ◌>>=◌,
  All-select-with,
}
use usshtc.Prelude.Text.{Text, text_eq}
use usshtc.Prelude.Dynamic.{Value, undefined}
use usshtc.History.Records.{Session, as_counter, as_exit_code, as_reason, history_reasons, Checked}
use usshtc.History.Records.RoundTrip.{IsSession}
use usshtc.History.Store.{Store, is_live, flush, Written}
use usshtc.History.Store.IsValid.{HasLive, IsValid, changed-IsValid, pruned-IsValid, flush-IsValid}
use usshtc.History.Calls.Objects.{
  select-Distinct, write_live-All, write_live-Distinct, write_live-live,
}
use usshtc.History.Calls.{
  find_live, write_live, registered_object, Final, final, set_final, without_key, finalize_object,
  finalize, or_now, or_null, as_optional_counter, or_old, keys_outside, cleared, clear, get,
  finalize_checked, outside,
}
use usshtc.History.Records.Sound.{
  Sound, Sound-chain, IsOneOf, IsCounter, IsCode, as_counter-Sound, as_reason-Sound,
  as_exit_code-Sound, EndsWell-ended,
}
use usshtc.History.Calls.Valid.{if-second}
use mathlib.Core.Path.{subst}

abbrev IsOptional : Option ℕ → Type 0
IsOptional none = Unit
IsOptional (some n) = IsCounter n

present-Sound :
    (v : Value) (r : Checked ℕ) → Sound IsCounter r → Sound IsOptional (r >>= λ n. ok (some n))
present-Sound v (err _) h = tt
present-Sound v (ok n) h = h

as_optional_counter-Sound : (v : Value) → Sound IsOptional (as_optional_counter v)
unfolding as_optional_counter
as_optional_counter-Sound undefined = tt
as_optional_counter-Sound v = present-Sound v (as_counter v) (as_counter-Sound v)

abbrev IsFinal : Final → Type 0
IsFinal f =
    IsCounter f.at
    × IsOptional f.sent
    × IsOptional f.received
    × IsCode f.code
    × IsOneOf history_reasons f.cause

final-Sound :
    (ended_at bytes_sent bytes_received exit_code reason : Value)
    → Sound IsFinal (final ended_at bytes_sent bytes_received exit_code reason)
unfolding final
final-Sound ended_at bytes_sent bytes_received exit_code reason =
    let P = IsFinal in
    Sound-chain P IsCounter (as_counter ended_at) _ (as_counter-Sound ended_at) (λ ended a.
      Sound-chain P IsCode (as_exit_code exit_code) _ (as_exit_code-Sound exit_code) (λ exit b.
        Sound-chain P (IsOneOf history_reasons) (as_reason reason) _ (as_reason-Sound reason)
          (λ cause c.
            Sound-chain P IsOptional (as_optional_counter bytes_sent) _
              (as_optional_counter-Sound bytes_sent)
              (λ sent d.
                Sound-chain P IsOptional (as_optional_counter bytes_received) _
                  (as_optional_counter-Sound bytes_received) (λ received e. (a, d, e, b, c))))))

max-IsCounter :
    (old : ℕ) (o : Option ℕ) → IsCounter old → IsOptional o → IsCounter (max old (or_old old o))
max-IsCounter old none h k = ground arith
max-IsCounter old (some n) h k = ground arith

set_final-IsSession :
    (f : Final) (r : Session) → IsFinal f → IsSession r → IsSession (set_final f r)
set_final-IsSession f r (at, sent, received, code, cause) v = record {
  id_token = v.id_token;
  profile_token = v.profile_token;
  known_kind = v.known_kind;
  started = v.started;
  sent = max-IsCounter r.bytes_sent f.sent v.sent sent;
  received = max-IsCounter r.bytes_received f.received v.received received;
  ends_well =
      EndsWell-ended r.started_at (max r.started_at f.at) f.code f.cause
        (max-IsCounter r.started_at (some f.at) v.started at) code cause (omega arith);
}

finalize_object-IsValid :
    (key : Text) (f : Final) (s : Store) → IsFinal f → IsValid s → IsValid (finalize_object key f s)
unfolding finalize_object without_key
finalize_object-IsValid key f s w v =
    let change = set_final f in
    let done = record s {
      sessions = write_live key change s.sessions;
      registered = without_key key s.registered;
      dirty = true;
    } in
    changed-IsValid done (record {
      each =
          write_live-All key change (λ _. refl) (λ r u _. set_final-IsSession f r w u) s.sessions
            v.each;
      distinct = write_live-Distinct key change (λ _. refl) s.sessions v.distinct;
      live =
          All-select-with {P = HasLive s.sessions} (HasLive (write_live key change s.sessions))
            (λ k. not (text_eq k key))
            (λ k e h. write_live-live key change (λ _. refl) k s.sessions (ground arith) h)
            s.registered v.live;
      readable = v.readable;
    })

finalize_checked-IsValid :
    (now : ℕ) (outcome : Written) (key : Text) (o : Option Session) (c : Checked Final) (s : Store)
    → Sound IsFinal c
    → IsValid s
    → IsValid (finalize_checked now outcome key o c s).1
unfolding finalize_checked
finalize_checked-IsValid now outcome key (some r) (ok f) s w v =
    if-second s.disposed (false, s) (true, flush now outcome (finalize_object key f s)) v
      (flush-IsValid now outcome (finalize_object key f s) (finalize_object-IsValid key f s w v))
finalize_checked-IsValid now outcome key _ _ s w v = v

pub finalize-IsValid :
    (now : ℕ) (outcome : Written) (key : Text)
    (ended_at bytes_sent bytes_received exit_code reason : Value) (s : Store)
    → IsValid s
    → IsValid (finalize now outcome key ended_at bytes_sent bytes_received exit_code reason s).1
unfolding finalize
finalize-IsValid now outcome key ended_at bytes_sent bytes_received exit_code reason s v =
    finalize_checked-IsValid now outcome key (registered_object key s)
      (final (or_now now ended_at) bytes_sent bytes_received (or_null exit_code) reason) s
      (final-Sound (or_now now ended_at) bytes_sent bytes_received (or_null exit_code) reason) v

find_live-none :
    (key : Text) (xs : List Session) → find_live key xs ≡ none → any (is_live key) xs ≡ false
unfolding find_live
find_live-none key [] h = refl
find_live-none key (x ∷ xs) h = elim (Bool-cases (is_live key x)) [
  | inl e ↦ cc (rw e at h)
  | inr e ↦ rw e (find_live-none key xs (rw e at h))
]

find_live-select :
    (key : Text) (q : Session → Bool) (xs : List Session) (r : Session)
    → find_live key xs ≡ some r
    → q r ≡ true
    → any (is_live key) (select q xs) ≡ true
unfolding find_live
find_live-select key q [] r h e = cc
find_live-select key q (x ∷ xs) r h e = elim (Bool-cases (is_live key x)) [
  | inl t ↦ let same : x ≡ r = cc (rw t at h) in rw (subst (λ y. q y ≡ true) (sym same) e, t) refl
  | inr f ↦ skip (q x) (find_live-select key q xs r (rw f at h) e)
]
  where
    skip :
        (b : Bool)
        → any (is_live key) (select q xs) ≡ true
        → any (is_live key) (if b then x ∷ select q xs else select q xs) ≡ true
    skip b k = ground arith

outside-live :
    (profile : Text) (xs : List Session) (key : Text)
    → outside profile xs key ≡ true
    → HasLive xs key
    → HasLive (select (λ r. not (text_eq r.profile_id profile)) xs) key
unfolding outside
outside-live profile xs key e h = elim (Option-cases (find_live key xs)) [
  | inl n ↦ cc (find_live-none key xs n, h)
  | inr (r, f) ↦
      find_live-select key (λ x. not (text_eq x.profile_id profile)) xs r f (rw (f, outside) at e)
]

cleared-IsValid : (profile : Text) (s : Store) → IsValid s → IsValid (cleared profile s)
unfolding cleared
cleared-IsValid profile s v =
    let others = λ (r : Session). not (text_eq r.profile_id profile) in
    let rest = record s {
      cleared_profiles = profile ∷ s.cleared_profiles;
      registered = keys_outside profile s;
      sessions = select others s.sessions;
      dirty = true;
    } in
    changed-IsValid rest (record {
      each = All-select IsSession others s.sessions v.each;
      distinct = select-Distinct others s.sessions v.distinct;
      live =
          All-select-with {P = HasLive s.sessions} (HasLive (select others s.sessions))
            (outside profile s.sessions) (outside-live profile s.sessions) s.registered v.live;
      readable = v.readable;
    })

pub clear-IsValid :
    (now : ℕ) (outcome : Written) (profile : Text) (s : Store)
    → IsValid s
    → IsValid (clear now outcome profile s)
unfolding clear
clear-IsValid now outcome profile s v =
    flush-IsValid now outcome (cleared profile s) (cleared-IsValid profile s v)

pub get-IsValid :
    (now : ℕ) (profile : Text) (days : ℕ) (s : Store)
    → IsValid s
    → IsValid (get now profile days s).1
unfolding get
get-IsValid now profile days s v = pruned-IsValid now s v
