-- ===== src/History/Calls/Valid.antt =====
-- The calls of the store of electron/session-history-store.js keep its invariant.
use usshtc.Prelude.{
  ℕ, ◌≤◌, ◌≡◌, refl, Bool, true, false, not, ◌&&◌, ◌||◌, List, [], ◌∷◌, ◌++◌, Option, some, arith,
  any, All, All-snoc, All-select, All-map, Bool-cases, if◌then◌else◌, select, inl, inr, any-append,
  any-select, ok, err, ◌==◌, ltb, ◌∙◌,
}
use usshtc.Prelude.Text.{Text, text_eq, text_eq_iff}
use usshtc.Prelude.Dynamic.{Value, max_safe_integer}
use usshtc.History.Records.{Session, has_id, as_token, as_counter, as_kind, kinds, Checked, Parsed}
use usshtc.History.Records.RoundTrip.{IsSession}
use usshtc.History.Prune.{is_open, prune}
use usshtc.History.Prune.Keeps.{prune-Keeps}
use usshtc.History.Store.{Store, is_live, changed, schedule, pruned}
use usshtc.History.Store.IsValid.{
  HasLive, Valid, IsValid, changed-IsValid, schedule-IsValid, Keeps-Valid, is_live-open,
}
use usshtc.History.Calls.Objects.{
  select-Distinct, Distinct-snoc, write_live-All, write_live-Distinct, write_live-same,
}
use usshtc.History.Calls.{
  candidate, or_zero, admit, register, write_live, registered_object, set_counters, sample_object,
  sample, register_checked, sample_checked,
}
use usshtc.History.Records.Sound.{
  Sound, Sound-chain, IsToken, IsOneOf, IsCounter, as_token-Sound, as_kind-Sound, as_counter-Sound,
}

abbrev IsCandidate : Session → Type 0
IsCandidate r = IsSession r × (is_open r ≡ true)

candidate-Sound :
    (session_key profile_id kind started_at bytes_sent bytes_received : Value)
    → Sound IsCandidate (candidate session_key profile_id kind started_at bytes_sent bytes_received)
unfolding candidate
candidate-Sound session_key profile_id kind started_at bytes_sent bytes_received =
    let P = IsCandidate in
    Sound-chain P (IsToken 1024) (as_token 1024 session_key) _ (as_token-Sound 1024 session_key)
      (λ id a.
        Sound-chain P (IsToken 256) (as_token 256 profile_id) _ (as_token-Sound 256 profile_id)
          (λ profile b. Sound-chain P (IsOneOf kinds) (as_kind kind) _ (as_kind-Sound kind) (λ k c.
            Sound-chain P IsCounter (as_counter started_at) _ (as_counter-Sound started_at)
              (λ started d.
                Sound-chain P IsCounter (as_counter (or_zero bytes_sent)) _
                  (as_counter-Sound (or_zero bytes_sent))
                  (λ sent e.
                    Sound-chain P IsCounter (as_counter (or_zero bytes_received)) _
                      (as_counter-Sound (or_zero bytes_received))
                      (λ received f. (
                        record {
                          id_token = a;
                          profile_token = b;
                          known_kind = c;
                          started = d;
                          sent = e;
                          received = f;
                          ends_well = tt;
                        },
                        refl,
                      )))))))

-- A pushed record.
pub pushed-Valid :
    (xs : List Session) (keys : List Text) (file : Option Parsed) (r : Session)
    → Valid xs keys file
    → IsSession r
    → has_id r.id xs ≡ false
    → Valid (xs ++ r ∷ []) keys file
pushed-Valid xs keys file r v w fresh = record {
  each = All-snoc IsSession xs r v.each w;
  distinct = Distinct-snoc xs r v.distinct fresh;
  live =
      All-map {P = HasLive xs} {Q = HasLive (xs ++ r ∷ [])}
        (λ key h. rw (any-append (is_live key) xs (r ∷ [])) (rw h refl)) keys v.live;
  readable = v.readable;
}

live-has_id : (key : Text) (xs : List Session) → HasLive xs key → has_id key xs ≡ true
unfolding is_live
live-has_id key [] h = h
live-has_id key (x ∷ xs) h = ground (arith, live-has_id key xs)

-- A registered key is the id of a session that is there.
not_registered :
    (key id : Text) (xs : List Session)
    → has_id id xs ≡ false
    → HasLive xs key
    → text_eq key id ≡ false
not_registered key id xs fresh live = elim (Bool-cases (text_eq key id)) [
  | inr e ↦ e
  | inl e ↦ cc (live-has_id key xs live, fresh, (text_eq_iff key id).0 e)
]

live_new : (r : Session) → is_open r ≡ true → is_live r.id r ≡ true
unfolding is_live
live_new r h = rw (h, (text_eq_iff r.id r.id).1 refl) refl

live_other :
    (key id : Text)
    → text_eq key id ≡ false
    → (x : Session) → is_live key x ≡ true
    → not (text_eq x.id id) ≡ true
unfolding is_live
live_other key id ne x h = elim (Bool-cases (text_eq x.id key)) [
  | inr e ↦ cc (rw e at h)
  | inl e ↦ rw ((text_eq_iff x.id key).0 e, ne) refl
]

-- The sessions without one whose id is not registered.
removed-Valid :
    (id : Text) (xs : List Session) (keys : List Text) (file : Option Parsed)
    → All (λ key. text_eq key id ≡ false) keys
    → Valid xs keys file
    → Valid (select (λ x. not (text_eq x.id id)) xs) keys file
removed-Valid id xs keys file other v = record {
  each = All-select IsSession (λ x. not (text_eq x.id id)) xs v.each;
  distinct = select-Distinct (λ x. not (text_eq x.id id)) xs v.distinct;
  live = lives keys other v.live;
  readable = v.readable;
}
  where
    lives :
        (ks : List Text)
        → All (λ key. text_eq key id ≡ false) ks
        → All (HasLive xs) ks
        → All (HasLive (select (λ x. not (text_eq x.id id)) xs)) ks
    lives [] o h = tt
    lives (k ∷ ks) o h = (
      any-select (is_live k) (λ x. not (text_eq x.id id)) (live_other k id o.0) xs h.0,
      lives ks o.1 h.1,
    )

pub if-second :
    (b : Bool) (s t : Bool × Store) → IsValid s.1 → IsValid t.1 → IsValid (if b then s else t).1
if-second true s t v w = v
if-second false s t v w = w

or_true : (b : Bool) → (b || true) ≡ true
or_true b = ground arith

live_pushed :
    (r : Session) (xs : List Session) → is_open r ≡ true → any (is_live r.id) (xs ++ r ∷ []) ≡ true
live_pushed r xs h = rw (any-append (is_live r.id) xs (r ∷ []), live_new r h) (or_true _)

admit-IsValid :
    (now : ℕ) (r : Session) (s : Store)
    → IsCandidate r
    → has_id r.id s.sessions ≡ false
    → IsValid s
    → IsValid (admit now r s).1
unfolding admit pruned
admit-IsValid now r s c fresh v =
    let xs = s.sessions ++ r ∷ [] in
    let left = (prune now xs).0 in
    let keeps = prune-Keeps now xs in
    let w =
      Keeps-Valid xs left s.registered keeps
        (pushed-Valid s.sessions s.registered s.file r v c.0 fresh) in
    let p = pruned now (record s { sessions = xs }) in
    let s' = p.0 in
    let kept = record s' { registered = s.registered ++ r.id ∷ [] } in
    let there =
      keeps.open_stays (is_live r.id) (is_live-open r.id) (live_pushed r s.sessions c.1) in
    if-second p.1 (true, changed (schedule kept))
      (false, record s' { sessions = select (λ x. not (text_eq x.id r.id)) left })
      (changed-IsValid (schedule kept) (
        schedule-IsValid kept (record {
          each = w.each;
          distinct = w.distinct;
          live = All-snoc (HasLive left) s.registered r.id w.live there;
          readable = v.readable;
        })))
      (removed-Valid r.id left s.registered s.file
        (All-map {P = HasLive s.sessions} {Q = λ key. text_eq key r.id ≡ false}
          (λ key h. not_registered key r.id s.sessions fresh h) s.registered v.live)
        w)

register_checked-IsValid :
    (now : ℕ) (c : Checked Session) (s : Store)
    → Sound IsCandidate c
    → IsValid s
    → IsValid (register_checked now c s).1
unfolding register_checked
register_checked-IsValid now (err _) s c v = v
register_checked-IsValid now (ok r) s c v =
    elim (Bool-cases (s.disposed || has_id r.id s.sessions)) [
      | inl e ↦ rw e v
      | inr e ↦ rw e (admit-IsValid now r s c (ground arith) v)
    ]

pub register-IsValid :
    (now : ℕ) (session_key profile_id kind started_at bytes_sent bytes_received : Value) (s : Store)
    → IsValid s
    → IsValid (register now session_key profile_id kind started_at bytes_sent bytes_received s).1
unfolding register
register-IsValid now session_key profile_id kind started_at bytes_sent bytes_received s v =
    register_checked-IsValid now
      (candidate session_key profile_id kind started_at bytes_sent bytes_received) s
      (candidate-Sound session_key profile_id kind started_at bytes_sent bytes_received) v

set_counters-IsSession :
    (sent received : ℕ) (r : Session)
    → sent ≤ max_safe_integer
    → received ≤ max_safe_integer
    → IsSession r
    → IsSession (set_counters sent received r)
set_counters-IsSession sent received r a b v = record {
  id_token = v.id_token;
  profile_token = v.profile_token;
  known_kind = v.known_kind;
  started = v.started;
  sent = a;
  received = b;
  ends_well = v.ends_well;
}

sampled-Valid :
    (key : Text) (sent received : ℕ) (s : Store)
    → sent ≤ max_safe_integer
    → received ≤ max_safe_integer
    → IsValid s
    → Valid (write_live key (set_counters sent received) s.sessions) s.registered s.file
sampled-Valid key sent received s a b v =
    let change = set_counters sent received in
    record {
      each =
          write_live-All key change (λ _. refl)
            (λ r w _. set_counters-IsSession sent received r a b w) s.sessions v.each;
      distinct = write_live-Distinct key change (λ _. refl) s.sessions v.distinct;
      live =
          All-map {P = HasLive s.sessions} {Q = HasLive (write_live key change s.sessions)}
            (λ k h. write_live-same key change (λ _. refl) (λ _. refl) k s.sessions ∙ h)
            s.registered v.live;
      readable = v.readable;
    }

sample_checked-IsValid :
    (key : Text) (o : Option Session) (sent received : Checked ℕ) (s : Store)
    → Sound IsCounter sent
    → Sound IsCounter received
    → IsValid s
    → IsValid (sample_checked key o sent received s).1
unfolding sample_checked sample_object
sample_checked-IsValid key (some r) (ok sent) (ok received) s a b v =
    let s' = record s { sessions = write_live key (set_counters sent received) s.sessions } in
    if-second (s.disposed || ltb sent r.bytes_sent || ltb received r.bytes_received) (false, s) _ v
      (if-second (r.bytes_sent == sent && r.bytes_received == received) (true, s)
        (true, changed (schedule s')) v
        (changed-IsValid (schedule s')
          (schedule-IsValid s' (sampled-Valid key sent received s a b v))))
sample_checked-IsValid key _ _ _ s a b v = v

pub sample-IsValid :
    (key : Text) (bytes_sent bytes_received : Value) (s : Store)
    → IsValid s
    → IsValid (sample key bytes_sent bytes_received s).1
unfolding sample
sample-IsValid key bytes_sent bytes_received s v =
    sample_checked-IsValid key (registered_object key s) (as_counter bytes_sent)
      (as_counter bytes_received) s (as_counter-Sound bytes_sent) (as_counter-Sound bytes_received)
      v
