-- ===== src/History/Calls/Objects.antt =====
-- What a change of one session object leaves of the sessions of electron/session-history-store.js.
use usshtc.Prelude.{
  ◌≡◌, refl, Bool, true, false, ◌||◌, List, [], ◌∷◌, ◌++◌, some, arith, any, All, Bool-cases,
  if◌then◌else◌, select, inl, inr, any-select-none, any-append,
}
use usshtc.Prelude.Text.{Text, text_eq, text_eq_sym, text_eq_iff}
use usshtc.History.Records.{Session, has_id}
use usshtc.History.Records.RoundTrip.{IsSession, Distinct}
use usshtc.History.Prune.{is_open}
use usshtc.History.Store.{is_live}
use usshtc.History.Store.IsValid.{HasLive}
use usshtc.History.Calls.{find_live, write_live}

pub select-Distinct :
    (q : Session → Bool) (xs : List Session) → Distinct xs → Distinct (select q xs)
select-Distinct q [] h = tt
select-Distinct q (r ∷ xs) h = elim (Bool-cases (q r)) [
  | inl e ↦ rw e (any-select-none (λ x. text_eq x.id r.id) q xs h.0, select-Distinct q xs h.1)
  | inr e ↦ rw e (select-Distinct q xs h.1)
]

pub Distinct-snoc :
    (xs : List Session) (r : Session)
    → Distinct xs
    → has_id r.id xs ≡ false
    → Distinct (xs ++ r ∷ [])
Distinct-snoc [] r d h = (refl, tt)
Distinct-snoc (x ∷ xs) r d h = (
  rw (any-append (λ y. text_eq y.id x.id) xs (r ∷ [])) (ground (arith, text_eq_sym r.id x.id, d.0)),
  Distinct-snoc xs r d.1 (ground arith),
)

-- The object that the map holds, found.
pub find_live-is_live :
    (key : Text) (xs : List Session) (r : Session)
    → find_live key xs ≡ some r
    → is_live key r ≡ true
unfolding find_live
find_live-is_live key [] r h = cc
find_live-is_live key (x ∷ xs) r h = elim (Bool-cases (is_live key x)) [
  | inl e ↦ cc (rw e at h, e)
  | inr e ↦ find_live-is_live key xs r (rw e at h)
]

module _ (key : Text) (change : Session → Session)
    (keeps_id : (r : Session) → (change r).id ≡ r.id) where
  change_id : (b : Bool) (r : Session) → (if b then change r else r).id ≡ r.id
  change_id true r = keeps_id r
  change_id false r = refl

  write_live-has_id :
      (k : Text) (xs : List Session) → has_id k (write_live key change xs) ≡ has_id k xs
  unfolding write_live
  write_live-has_id k [] = refl
  write_live-has_id k (x ∷ xs) = rw (change_id (is_live key x) x, write_live-has_id k xs) refl

  pub write_live-Distinct : (xs : List Session) → Distinct xs → Distinct (write_live key change xs)
  unfolding write_live
  write_live-Distinct [] h = tt
  write_live-Distinct (x ∷ xs) h =
      (rw (change_id (is_live key x) x, write_live-has_id x.id xs) h.0, write_live-Distinct xs h.1)

  pub write_live-All :
      ((r : Session) → IsSession r → is_live key r ≡ true → IsSession (change r))
      → (xs : List Session) → All IsSession xs
      → All IsSession (write_live key change xs)
  unfolding write_live
  write_live-All f [] h = tt
  write_live-All f (x ∷ xs) h = elim (Bool-cases (is_live key x)) [
    | inl e ↦ rw e (f x h.0 e, write_live-All f xs h.1)
    | inr e ↦ rw e (h.0, write_live-All f xs h.1)
  ]

  -- Another key's object is another object.
  other_key :
      (k : Text) (x : Session) → text_eq k key ≡ false → is_live key x ≡ true → is_live k x ≡ false
  unfolding is_live
  other_key k x n e = elim (Bool-cases (text_eq x.id key)) [
    | inr f ↦ cc (rw f at e)
    | inl t ↦ rw ((text_eq_iff x.id key).0 t, text_eq_sym key k, n) refl
  ]

  pub write_live-live :
      (k : Text) (xs : List Session)
      → text_eq k key ≡ false
      → HasLive xs k
      → HasLive (write_live key change xs) k
  unfolding write_live
  write_live-live k [] n h = h
  write_live-live k (x ∷ xs) n h = elim (Bool-cases (is_live key x)) [
    | inl e ↦
        let gone = other_key k x n e in
        rw e (either (is_live k (change x)) _ (write_live-live k xs n (rw gone at h)))
    | inr e ↦ rw e (inherit (is_live k x) (any (is_live k) xs) _ (write_live-live k xs n) h)
  ]
    where
      either : (a b : Bool) → b ≡ true → (a || b) ≡ true
      either a b h = ground arith

      inherit : (a b c : Bool) → (b ≡ true → c ≡ true) → (a || b) ≡ true → (a || c) ≡ true
      inherit a b c f h = ground arith

  same_live :
      ((r : Session) → is_open (change r) ≡ is_open r)
      → (k : Text) (x : Session) (b : Bool) → is_live k (if b then change x else x) ≡ is_live k x
  unfolding is_live
  same_live keeps_open k x true = rw (keeps_id x, keeps_open x) refl
  same_live keeps_open k x false = refl

  pub write_live-same :
      ((r : Session) → is_open (change r) ≡ is_open r)
      → (k : Text) (xs : List Session)
      → any (is_live k) (write_live key change xs) ≡ any (is_live k) xs
  unfolding write_live
  write_live-same keeps_open k [] = refl
  write_live-same keeps_open k (x ∷ xs) =
      rw (same_live keeps_open k x (is_live key x), write_live-same keeps_open k xs) refl
