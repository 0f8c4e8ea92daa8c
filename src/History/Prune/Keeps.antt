-- ===== src/History/Prune/Keeps.antt =====
-- Which sessions `_prune` of electron/session-history-store.js leaves.
use usshtc.Prelude.{
  ℕ, ◌≡◌, sym, inl, inr, Bool, true, false, List, [], ◌∷◌, some, arith, any, All, Bool-cases,
  select, length,
}
use mathlib.Core.Path.{subst}
use usshtc.Prelude.Text.{text_eq, text_eq_sym}
use usshtc.History.Records.{Session}
use usshtc.History.Records.RoundTrip.{Distinct}
use usshtc.History.Prune.{is_open, is_kept, not_after, insert, sort, take_ended, prune}
use usshtc.History.Prune.Exact.{shrink-keeps, take_ended-step}
use usshtc.History.Size.{serialized_bytes}

-- `left` has sessions of `sessions` only, each at most as often, and every open one of them.
pub record Keeps (sessions left : List Session) : Type 1 where
  pub all : (P : Session → Type 0) → All P sessions → All P left
  pub absent : (p : Session → Bool) → any p sessions ≡ false → any p left ≡ false
  pub distinct : Distinct sessions → Distinct left
  pub open_stays :
      (p : Session → Bool)
      → ((r : Session) → p r ≡ true → is_open r ≡ true)
      → any p sessions ≡ true
      → any p left ≡ true

pub Keeps-refl : (xs : List Session) → Keeps xs xs
Keeps-refl xs = record {
  all = λ P h. h;
  absent = λ p h. h;
  distinct = λ h. h;
  open_stays = λ p o h. h;
}

pub Keeps-trans : (xs ys zs : List Session) → Keeps xs ys → Keeps ys zs → Keeps xs zs
Keeps-trans xs ys zs k l = record {
  all = λ P h. l.all P (k.all P h);
  absent = λ p h. l.absent p (k.absent p h);
  distinct = λ h. l.distinct (k.distinct h);
  open_stays = λ p o h. l.open_stays p o (k.open_stays p o h);
}

any-cons :
    (p : Session → Bool) (r : Session) (xs ys : List Session)
    → (any p xs ≡ true → any p ys ≡ true)
    → any p (r ∷ xs) ≡ true
    → any p (r ∷ ys) ≡ true
any-cons p r xs ys h e = ground arith

none-head :
    (p : Session → Bool) (r : Session) (xs : List Session)
    → any p (r ∷ xs) ≡ false
    → (p r ≡ false) × (any p xs ≡ false)
none-head p r xs h = ground arith

none-cons :
    (p : Session → Bool) (r : Session) (xs : List Session)
    → p r ≡ false
    → any p xs ≡ false
    → any p (r ∷ xs) ≡ false
none-cons p r xs h k = ground arith

Keeps-cons : (r : Session) (xs ys : List Session) → Keeps xs ys → Keeps (r ∷ xs) (r ∷ ys)
Keeps-cons r xs ys k = record {
  all = λ P h. (h.0, k.all P h.1);
  absent = λ p h. let (a, b) = none-head p r xs h in none-cons p r ys a (k.absent p b);
  distinct = λ h. (k.absent (λ x. text_eq x.id r.id) h.0, k.distinct h.1);
  open_stays = λ p o h. any-cons p r xs ys (k.open_stays p o) h;
}

swap_any :
    (p : Session → Bool) (a b : Session) (xs : List Session)
    → any p (a ∷ b ∷ xs) ≡ any p (b ∷ a ∷ xs)
swap_any p a b xs = ground arith

swap-Distinct : (a b : Session) (xs : List Session) → Distinct (a ∷ b ∷ xs) → Distinct (b ∷ a ∷ xs)
swap-Distinct a b xs h =
    let (n, m) = none-head (λ x. text_eq x.id a.id) b xs h.0 in
    (none-cons (λ x. text_eq x.id b.id) a xs (rw (text_eq_sym a.id b.id) n) h.1.0, (m, h.1.1))

Keeps-swap : (a b : Session) (xs : List Session) → Keeps (a ∷ b ∷ xs) (b ∷ a ∷ xs)
Keeps-swap a b xs = record {
  all = λ P h. (h.1.0, (h.0, h.1.1));
  absent = λ p h. rw (swap_any p b a xs) h;
  distinct = swap-Distinct a b xs;
  open_stays = λ p o h. rw (swap_any p b a xs) h;
}

closed_any :
    (p : Session → Bool) (r : Session) (xs : List Session)
    → ((s : Session) → p s ≡ true → is_open s ≡ true)
    → is_open r ≡ false
    → any p (r ∷ xs) ≡ true
    → any p xs ≡ true
closed_any p r xs o e h = elim (Bool-cases (p r)) [ inl t ↦ cc (o r t, e) | inr f ↦ (rw f at h) ]

Keeps-tail : (r : Session) (xs : List Session) → is_open r ≡ false → Keeps (r ∷ xs) xs
Keeps-tail r xs e = record {
  all = λ P h. h.1;
  absent = λ p h. (none-head p r xs h).1;
  distinct = λ h. h.1;
  open_stays = λ p o h. closed_any p r xs o e h;
}

-- A filter that lets every open session pass.
pub Keeps-select :
    (q : Session → Bool)
    → ((r : Session) → is_open r ≡ true → q r ≡ true)
    → (xs : List Session) → Keeps xs (select q xs)
Keeps-select q o [] = Keeps-refl []
Keeps-select q o (r ∷ xs) = elim (Bool-cases (q r)) [
  | inl e ↦ rw e (Keeps-cons r xs (select q xs) (Keeps-select q o xs))
  | inr e ↦ rw e (
      Keeps-trans (r ∷ xs) xs (select q xs) (Keeps-tail r xs (must_be_closed r e))
        (Keeps-select q o xs))
]
  where
    must_be_closed : (r : Session) → q r ≡ false → is_open r ≡ false
    must_be_closed r e = elim (Bool-cases (is_open r)) [ inl t ↦ cc (o r t, e) | inr f ↦ f ]

Keeps-insert : (r : Session) (xs : List Session) → Keeps (r ∷ xs) (insert r xs)
unfolding insert
Keeps-insert r [] = Keeps-refl (r ∷ [])
Keeps-insert r (s ∷ xs) = elim (Bool-cases (not_after r s)) [
  | inl e ↦ rw e (Keeps-refl (r ∷ s ∷ xs))
  | inr e ↦ rw e (
      Keeps-trans (r ∷ s ∷ xs) (s ∷ r ∷ xs) (s ∷ insert r xs) (Keeps-swap r s xs)
        (Keeps-cons s (r ∷ xs) (insert r xs) (Keeps-insert r xs)))
]

Keeps-sort : (xs : List Session) → Keeps xs (sort xs)
unfolding sort
Keeps-sort [] = Keeps-refl []
Keeps-sort (r ∷ xs) =
    Keeps-trans (r ∷ xs) (r ∷ sort xs) (insert r (sort xs))
      (Keeps-cons r xs (sort xs) (Keeps-sort xs)) (Keeps-insert r (sort xs))

Keeps-take_ended :
    (kept : List Session) (r : Session) (rest : List Session)
    → take_ended kept ≡ some (r, rest)
    → Keeps kept rest
unfolding take_ended
Keeps-take_ended [] r rest h = cc
Keeps-take_ended (x ∷ kept) r rest h = elim (take_ended-step x kept r rest h) [
  | inl (closed, _, f) ↦ subst (Keeps (x ∷ kept)) f (Keeps-tail x kept closed)
  | inr (_, (others, found, e)) ↦
      subst (Keeps (x ∷ kept)) (sym e)
        (Keeps-cons x kept others (Keeps-take_ended kept r others found))
]

is_kept-open : (now : ℕ) (r : Session) → is_open r ≡ true → is_kept now r ≡ true
unfolding is_kept
is_kept-open now r h = ground arith

-- `_prune` invents no session, doubles none and never drops one that is open.
pub prune-Keeps : (now : ℕ) (sessions : List Session) → Keeps sessions (prune now sessions).0
unfolding prune
prune-Keeps now sessions =
    let recent = select (is_kept now) sessions in
    let kept = sort recent in
    shrink-keeps (λ left _. Keeps sessions left)
      (λ before bytes r rest found k.
        Keeps-trans sessions before rest k (Keeps-take_ended before r rest found))
      (length kept) kept (serialized_bytes kept)
      (Keeps-trans sessions recent kept (Keeps-select (is_kept now) (is_kept-open now) sessions)
        (Keeps-sort recent))
