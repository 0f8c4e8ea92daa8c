-- ===== src/Connection/Health/Counts.antt =====
-- How often the probes of electron/health-probe-service.js publish.
use usshtc.Prelude.{
  ℕ, suc, ◌+◌, ◌≤◌, ◌≡◌, List, [], ◌∷◌, Option, none, some, if◌then◌else◌, ◌==◌, arith, ◌<◌, sym,
  Bool-cases, inl, inr, ==_iff, ==_refl,
}
use usshtc.Connection.Health.{Context, published, Round, Service, Told}
use mathlib.Core.Path.{subst}

-- How often a probe has published, and whether it is in progress.
abbrev pub told_by : ℕ → List Told → ℕ
told_by id [] = 0
told_by id (t ∷ tells) = (if t.probe == id then 1 else 0) + told_by id tells

abbrev pub in_progress : ℕ → Option Round → ℕ
in_progress id none = 0
in_progress id (some r) = if r.id == id then 1 else 0

abbrev pub IsBelow : ℕ → Option Round → Type 0
IsBelow n none = Unit
IsBelow n (some r) = r.id < n

-- Every probe publishes twice at most, and once at most while it is in progress; the next one has not yet
-- published.
pub record IsTold (tells : List Told) (active : Option Round) (rounds : ℕ) : Type 0 where
  pub twice : (id : ℕ) → told_by id tells + in_progress id active ≤ 2
  pub fresh : (id : ℕ) → rounds ≤ id → told_by id tells ≡ 0
  pub below : IsBelow rounds active

abbrev pub Bounded : Service → Type 0
Bounded s = IsTold s.published s.active s.rounds

pub ended-IsTold :
    (tells : List Told) (active : Option Round) (n : ℕ)
    → IsTold tells active n
    → IsTold tells none n
ended-IsTold tells active n v = record {
  twice = λ id. (let most = v.twice id in omega arith);
  fresh = v.fresh;
  below = tt;
}

-- One more publication of a probe that has begun.
pub more-IsTold :
    (t : Told) (tells : List Told) (active : Option Round) (n : ℕ)
    → t.probe < n
    → told_by t.probe tells + in_progress t.probe active ≤ 1
    → IsTold tells active n
    → IsTold (t ∷ tells) active n
more-IsTold t tells active n h once v = record {
  twice = λ id. two id;
  fresh = λ id later. none_of id later;
  below = v.below;
}
  where
    two : (id : ℕ) → told_by id (t ∷ tells) + in_progress id active ≤ 2
    two id = elim (Bool-cases (t.probe == id)) [
      | inl e ↦
          let same : t.probe ≡ id = (==_iff t.probe id).0 e in
          let most : told_by id tells + in_progress id active ≤ 1 =
            subst (λ x. told_by x tells + in_progress x active ≤ 1) same once in
          rw e (omega arith)
      | inr e ↦ rw e (let most = v.twice id in omega arith)
    ]

    none_of : (id : ℕ) → n ≤ id → told_by id (t ∷ tells) ≡ 0
    none_of id later = elim (Bool-cases (t.probe == id)) [
      | inl e ↦ let same : t.probe ≡ id = (==_iff t.probe id).0 e in absurd (omega arith)
      | inr e ↦ rw e (let none_told = v.fresh id later in omega arith)
    ]

-- A probe in progress has published once at most.
pub once_told :
    (tells : List Told) (r : Round) (n : ℕ) → IsTold tells (some r) n → told_by r.id tells + 0 ≤ 1
once_told tells r n v =
    let most : told_by r.id tells + 1 ≤ 2 =
      subst (λ test. told_by r.id tells + (if test then 1 else 0) ≤ 2) (==_refl r.id)
        (v.twice r.id) in
    omega arith

pub last-IsTold :
    (t : Told) (tells : List Told) (r : Round) (n : ℕ)
    → t.probe ≡ r.id
    → IsTold tells (some r) n
    → IsTold (t ∷ tells) none n
last-IsTold t tells r n e v =
    more-IsTold t tells none n (subst (λ x. x < n) (sym e) v.below)
      (subst (λ x. told_by x tells + 0 ≤ 1) (sym e) (once_told tells r n v))
      (ended-IsTold tells (some r) n v)

-- The next probe begins.
pub first-IsTold :
    (tells : List Told) (c : Context) (n : ℕ)
    → IsTold tells none n
    → IsTold tells (some (record { id = n; context = c; phase = published })) (suc n)
first-IsTold tells c n v = record {
  twice = λ id. two id;
  fresh = λ id later. v.fresh id (omega arith);
  below = omega arith;
}
  where
    two : (id : ℕ) → told_by id tells + (if n == id then 1 else 0) ≤ 2
    two id = elim (Bool-cases (n == id)) [
      | inl e ↦
          let same : n ≡ id = (==_iff n id).0 e in
          let new = v.fresh id (omega arith) in rw e (omega arith)
      | inr e ↦ rw e (v.twice id)
    ]
