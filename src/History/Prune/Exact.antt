-- ===== src/History/Prune/Exact.antt =====
-- The limits that `_prune` of electron/session-history-store.js leaves, and its count of bytes.
use usshtc.Prelude.{
  ℕ, zero, suc, ◌+◌, ◌-◌, ◌≤◌, ◌≡◌, refl, ◌⊎◌, inl, inr, true, false, not, List, [], ◌∷◌, none,
  some, length, arith, if◌then◌else◌, Bool-cases, Option-cases, ltb, ap, sym, all, select, ◌*◌, ◌∙◌,
  ◌++◌, ◌<◌, ◌||◌,
}
use usshtc.History.Records.{Session}
use usshtc.History.Size.{
  serialized_bytes, with_separator, all_with_separators, serialized_bytes-items,
}
use usshtc.History.Prune.{
  is_open, take_ended, exceeds, bytes_without, shrink, prune, sort, is_kept, shrink-none,
  shrink-stays, shrink-turns,
}
use mathlib.Core.Path.{subst}

-- `rest` is `kept` without the ended record `r`.
pub record Taken (kept : List Session) (r : Session) (rest : List Session) : Type 0 where
  pub one_less : length kept ≡ suc (length rest)
  pub bytes_less : all_with_separators kept ≡ with_separator r + all_with_separators rest

single-Taken : (r : Session) (rest : List Session) → Taken (r ∷ rest) r rest
unfolding all_with_separators
single-Taken r rest = record { one_less = refl; bytes_less = refl }

later-Taken :
    (x r : Session) (kept rest : List Session) → Taken kept r rest → Taken (x ∷ kept) r (x ∷ rest)
unfolding all_with_separators
later-Taken x r kept rest t = record {
  one_less = ap suc t.one_less;
  bytes_less = omega (arith, t.bytes_less);
}

some-fst : {p q : Session × List Session} → some p ≡ some q → p.0 ≡ q.0
some-fst h = cc

some-snd : {p q : Session × List Session} → some p ≡ some q → p.1 ≡ q.1
some-snd h = cc

-- What `take_ended` finds is the first item or stands in the rest.
pub take_ended-step :
    (x : Session) (kept : List Session) (r : Session) (rest : List Session)
    → take_ended (x ∷ kept) ≡ some (r, rest)
    → ((is_open x ≡ false) × (x ≡ r) × (kept ≡ rest))
      ⊎ ((is_open x ≡ true)
          × ((others : List Session) × (take_ended kept ≡ some (r, others)) × (rest ≡ x ∷ others)))
unfolding take_ended
take_ended-step x kept r rest h = elim (Bool-cases (is_open x)) [
  | inr e ↦ let found = (rw e at h) in inl (e, some-fst found, some-snd found)
  | inl e ↦ elim (Option-cases (take_ended kept)) [
    | inl n ↦ cc (rw (e, n) at h)
    | inr ((y, others), s) ↦
        let found = (rw (e, s) at h) in
        inr (e, (others, cc (s, some-fst found), sym (some-snd found)))
  ]
]

take_ended-Taken :
    (kept : List Session) (r : Session) (rest : List Session)
    → take_ended kept ≡ some (r, rest)
    → Taken kept r rest
unfolding take_ended
take_ended-Taken [] r rest h = cc
take_ended-Taken (x ∷ kept) r rest h = elim (take_ended-step x kept r rest h) [
  | inl (_, e, f) ↦
      subst (λ y. Taken (x ∷ kept) y rest) e
        (subst (λ ys. Taken (x ∷ kept) x ys) f (single-Taken x kept))
  | inr (_, (others, found, e)) ↦
      subst (λ ys. Taken (x ∷ kept) r ys) (sym e)
        (later-Taken x r kept others (take_ended-Taken kept r others found))
]

two_longer : (n : ℕ) → ◌≡◌ {A = ℕ} (if ltb 1 (suc (suc n)) then 2 else 0) 2
two_longer n = ground arith

serialized-single :
    (r : Session) → serialized_bytes (r ∷ []) ≡ serialized_bytes [] + 2 + with_separator r
unfolding all_with_separators
serialized-single r = omega (arith, serialized_bytes-items r [])

without_many : (e s a : ℕ) → e + 2 + (s + a) - (e + 2 + s - e - 2) ≡ e + 2 + a
without_many e s a = omega arith

without_last : (e s : ℕ) → e + 2 + (s + 0) - (e + 2 + s - e - 0) ≡ e
without_last e s = omega arith

bytes_without-exact :
    (r : Session) (kept rest : List Session)
    → Taken kept r rest
    → bytes_without (serialized_bytes kept) r kept ≡ serialized_bytes rest
unfolding bytes_without all_with_separators
bytes_without-exact r [] rest t = ground (arith, t.one_less)
bytes_without-exact r (x ∷ kept) [] t =
    rw (serialized-single r, serialized_bytes-items x kept, t.bytes_less, t.one_less)
      (without_last (serialized_bytes []) (with_separator r))
bytes_without-exact r (x ∷ kept) (y ∷ rest) t =
    rw
      (
        serialized-single r,
        serialized_bytes-items x kept,
        t.bytes_less,
        t.one_less,
        serialized_bytes-items y rest,
        two_longer (length rest),
      )
      (without_many (serialized_bytes []) (with_separator r) (all_with_separators (y ∷ rest)))

-- What holds at first and after each turn holds of the result.
pub shrink-keeps {ℓ} :
    (P : List Session → ℕ → Type ℓ)
    → ((kept : List Session) (bytes : ℕ) (r : Session) (rest : List Session)
        → take_ended kept ≡ some (r, rest)
        → P kept bytes
        → P rest (bytes_without bytes r kept))
    → (fuel : ℕ) (kept : List Session) (bytes : ℕ) → P kept bytes
    → P (shrink fuel kept bytes).0 (shrink fuel kept bytes).1
unfolding shrink
shrink-keeps P turn zero kept bytes h = h
shrink-keeps P turn (suc fuel) kept bytes h = elim (Option-cases (take_ended kept)) [
  | inl n ↦ subst (λ left. P left.0 left.1) (sym (shrink-none fuel kept bytes n)) h
  | inr (found, e) ↦ elim (Bool-cases (exceeds (length kept) bytes)) [
    | inr f ↦ subst (λ left. P left.0 left.1) (sym (shrink-stays fuel kept bytes f)) h
    | inl f ↦
        subst (λ left. P left.0 left.1) (sym (shrink-turns fuel kept bytes found e f))
          (shrink-keeps P turn fuel found.1 (bytes_without bytes found.0 kept)
            (turn kept bytes found.0 found.1 e h))
  ]
]

-- The limits of the records and of the text of the document that is written with them.
abbrev pub IsOver : List Session → Type 0
IsOver kept = (1000 < length kept) ⊎ (1024 * 1024 < serialized_bytes kept)

-- Records are dropped one by one: each is the first that has ended, and each is dropped only while the
-- records that are left, or their text, are over a limit.
pub data Drops : List Session → List Session → Type 0 where
  none_dropped : {kept : List Session} → Drops kept kept
  dropped :
      (before : List Session) (r : Session) (after left : List Session)
      → all is_open before ≡ true
      → is_open r ≡ false
      → IsOver (before ++ r ∷ after)
      → Drops (before ++ after) left
      → Drops (before ++ r ∷ after) left

-- The first record that has ended, and those around it.
record IsFirst (kept : List Session) (r : Session) (rest : List Session) : Type 0 where
  before : List Session
  after : List Session
  whole : kept ≡ before ++ r ∷ after
  others : rest ≡ before ++ after
  open_before : all is_open before ≡ true
  ended : is_open r ≡ false

take_ended-IsFirst :
    (kept : List Session) (r : Session) (rest : List Session)
    → take_ended kept ≡ some (r, rest)
    → IsFirst kept r rest
unfolding take_ended
take_ended-IsFirst [] r rest h = cc
take_ended-IsFirst (x ∷ kept) r rest h = elim (take_ended-step x kept r rest h) [
  | inl (e, same, tail) ↦ record {
    before = [];
    after = kept;
    whole = ap (λ y. y ∷ kept) same;
    others = sym tail;
    open_before = refl;
    ended = subst (λ y. is_open y ≡ false) same e;
  }
  | inr (e, (others, found, tail)) ↦
      let first = take_ended-IsFirst kept r others found in
      record {
        before = x ∷ first.before;
        after = first.after;
        whole = ap (λ ys. x ∷ ys) first.whole;
        others = tail ∙ ap (λ ys. x ∷ ys) first.others;
        open_before = rw (e, first.open_before) refl;
        ended = first.ended;
      }
]

exceeds-IsOver :
    (kept : List Session) → exceeds (length kept) (serialized_bytes kept) ≡ true → IsOver kept
unfolding exceeds
exceeds-IsOver kept h = over (length kept) (serialized_bytes kept) h
  where
    over : (n m : ℕ) → (ltb 1000 n || ltb (1024 * 1024) m) ≡ true → (1000 < n) ⊎ (1024 * 1024 < m)
    over n m h = ground arith

first-Drops :
    (kept : List Session) (r : Session) (rest left : List Session)
    → IsFirst kept r rest
    → IsOver kept
    → Drops rest left
    → Drops kept left
first-Drops kept r rest left first over d =
    subst (λ ys. Drops ys left) (sym first.whole)
      (dropped first.before r first.after left first.open_before first.ended
        (subst IsOver first.whole over) (subst (λ ys. Drops ys left) first.others d))

-- The count of bytes is that of the text, and the records were dropped one by one.
abbrev IsExact : List Session → List Session × ℕ → Type 0
IsExact kept left = (left.1 ≡ serialized_bytes left.0) × Drops kept left.0

shrink-IsExact :
    (fuel : ℕ) (kept : List Session) (bytes : ℕ)
    → bytes ≡ serialized_bytes kept
    → IsExact kept (shrink fuel kept bytes)
shrink-IsExact zero kept bytes h = unfold shrink in (h, none_dropped)
shrink-IsExact (suc fuel) kept bytes h = elim (Option-cases (take_ended kept)) [
  | inl n ↦ subst (IsExact kept) (sym (shrink-none fuel kept bytes n)) (h, none_dropped)
  | inr ((r, rest), e) ↦ elim (Bool-cases (exceeds (length kept) bytes)) [
    | inr f ↦ subst (IsExact kept) (sym (shrink-stays fuel kept bytes f)) (h, none_dropped)
    | inl f ↦
        let exact : bytes_without bytes r kept ≡ serialized_bytes rest =
          ap (λ n. bytes_without n r kept) h
          ∙ bytes_without-exact r kept rest (take_ended-Taken kept r rest e) in
        let (count, drops) = shrink-IsExact fuel rest (bytes_without bytes r kept) exact in
        let over = exceeds-IsOver kept (subst (λ n. exceeds (length kept) n ≡ true) h f) in
        subst (IsExact kept) (sym (shrink-turns fuel kept bytes (r, rest) e f)) (
          count,
          first-Drops kept r rest (shrink fuel rest (bytes_without bytes r kept)).0
              (take_ended-IsFirst kept r rest e) over drops,
        )
  ]
]

abbrev Ended : List Session × ℕ → Type 0
Ended left = (exceeds (length left.0) left.1 ≡ false) ⊎ (take_ended left.0 ≡ none)

-- The loop ends within the limits or with open records only, on fuel for one turn a record.
shrink-Ended :
    (fuel : ℕ) (kept : List Session) (bytes : ℕ)
    → length kept ≤ fuel
    → Ended (shrink fuel kept bytes)
shrink-Ended zero [] bytes h = unfold shrink take_ended in inr refl
shrink-Ended zero (x ∷ kept) bytes h = absurd (omega (arith, h))
shrink-Ended (suc fuel) kept bytes h = elim (Option-cases (take_ended kept)) [
  | inl n ↦ rw (shrink-none fuel kept bytes n) (inr n)
  | inr (found, e) ↦ elim (Bool-cases (exceeds (length kept) bytes)) [
    | inr f ↦ rw (shrink-stays fuel kept bytes f) (inl f)
    | inl f ↦ rw (shrink-turns fuel kept bytes found e f) (
        shrink-Ended fuel found.1 (bytes_without bytes found.0 kept)
          (omega (arith, h, (take_ended-Taken kept found.0 found.1 e).one_less)))
  ]
]

-- No ended record is left where none is found.
take_ended-none : (kept : List Session) → take_ended kept ≡ none → all is_open kept ≡ true
unfolding take_ended
take_ended-none [] h = refl
take_ended-none (x ∷ kept) h = elim (Bool-cases (is_open x)) [
  | inr e ↦ cc (rw e at h)
  | inl e ↦ elim (Option-cases (take_ended kept)) [
    | inl n ↦ rw (e, take_ended-none kept n) refl
    | inr (found, f) ↦ cc (rw (e, f) at h)
  ]
]

within-limits :
    (left : List Session) (bytes : ℕ)
    → not (exceeds (length left) bytes) ≡ true
    → bytes ≡ serialized_bytes left
    → (length left ≤ 1000) × (serialized_bytes left ≤ 1024 * 1024)
unfolding exceeds
within-limits left bytes h e = ground arith

over-limits :
    (left : List Session × ℕ)
    → Ended left
    → not (exceeds (length left.0) left.1) ≡ false
    → all is_open left.0 ≡ true
over-limits left ended h = elim ended [ inl e ↦ cc (rw e at h) | inr e ↦ take_ended-none left.0 e ]

still-IsOver :
    (left : List Session) (bytes : ℕ)
    → not (exceeds (length left) bytes) ≡ false
    → bytes ≡ serialized_bytes left
    → IsOver left
still-IsOver left bytes h e =
    exceeds-IsOver left (subst (λ n. exceeds (length left) n ≡ true) e (ground (arith, h)))

-- `_prune` drops no more than it has to: after the records that are too old are gone, it drops the first
-- record that has ended, one at a time, and each only while more than 1000 records are left or the
-- document serialized with them has more than 1 MiB. Where it reports success, the result is within both
-- limits, and where it reports failure, it is over one of them and every record that is left is open.
pub prune-exact :
    (now : ℕ) (sessions : List Session)
    → let (left, fits) = prune now sessions in
      Drops (sort (select (is_kept now) sessions)) left
      × (fits ≡ true → (length left ≤ 1000) × (serialized_bytes left ≤ 1024 * 1024))
      × (fits ≡ false → IsOver left × (all is_open left ≡ true))
unfolding prune
prune-exact now sessions =
    let kept = sort (select (is_kept now) sessions) in
    let left = shrink (length kept) kept (serialized_bytes kept) in
    let (count, drops) = shrink-IsExact (length kept) kept (serialized_bytes kept) refl in
    (
      drops,
      λ h. within-limits left.0 left.1 h count,
      λ h. (
        still-IsOver left.0 left.1 h count,
        over-limits left (shrink-Ended (length kept) kept (serialized_bytes kept) (omega arith)) h,
      ),
    )
