-- ===== src/Window/Traffic/Points.antt =====
-- The points of src/lib/traffic.js are those of the last minute, one for a second, in order.
use usshtc.Prelude.{
  ℕ, suc, ◌+◌, ◌-◌, ◌≤◌, ◌<◌, ◌≡◌, refl, sym, ap, true, false, List, [], ◌∷◌, ◌++◌, Option, none,
  some, inl, inr, length, drop, select, arith, if-P, Bool-cases, max, ◌/◌,
}
use mathlib.Core.Path.{subst}
use usshtc.Window.Traffic.{
  Sample, Point, Rates, is_recent, last_60, point_of, append_rate_point, Traffic, no_traffic,
  is_stale, diff_rates, accept_stats, accept_all,
}

-- The seconds rise, from `low` on and below `high`.
abbrev pub Rising : ℕ → ℕ → List Point → Type 0
Rising low high [] = low ≤ high
Rising low high (p ∷ points) = (low ≤ p.second) × Rising (suc p.second) high points

Rising-length :
    (low high : ℕ) (points : List Point) → Rising low high points → low + length points ≤ high
Rising-length low high [] h = omega arith
Rising-length low high (p ∷ points) (l, h) =
    let k = Rising-length (suc p.second) high points h in omega arith

Rising-append :
    (low : ℕ) (points : List Point) (p : Point)
    → Rising low p.second points
    → Rising low (suc p.second) (points ++ p ∷ [])
Rising-append low [] p h = (h, omega arith)
Rising-append low (x ∷ points) p (l, h) = (l, Rising-append (suc x.second) points p h)

recent_iff :
    (second : ℕ) (p : Point)
    → is_recent second p ≡ true
    → (second ≤ p.second + 59) × (p.second < second)
unfolding is_recent
recent_iff second p h = ground arith

Rising-select :
    (low high second a : ℕ) (points : List Point)
    → Rising low high points
    → a ≤ second
    → a ≤ max low (second - 59)
    → Rising a second (select (is_recent second) points)
Rising-select low high second a [] h k l = k
Rising-select low high second a (p ∷ points) (i, h) k l = elim (Bool-cases (is_recent second p)) [
  | inl e ↦
      let (after, before) = recent_iff second p e in
      rw e (
        omega arith,
        Rising-select (suc p.second) high second (suc p.second) points h (omega arith)
            (omega arith),
      )
  | inr e ↦ rw e (Rising-select (suc p.second) high second a points h k (omega arith))
]

last_60-short : (points : List Point) → length points ≤ 60 → last_60 points ≡ points
unfolding last_60
last_60-short points h =
    let none_over : length points - 60 ≡ 0 = omega arith in ap (λ n. drop n points) none_over

-- Points in order stay so, and the limit of their number cuts none.
append-Rising :
    (ticks high : ℕ) (points : List Point) (sample : Sample) (rates : Rates)
    → Rising 0 high points
    → let point = point_of ticks sample rates in
      (append_rate_point ticks points sample rates
        ≡ select (is_recent point.second) points ++ point ∷ [])
      × Rising (point.second - 59) (suc point.second) (append_rate_point ticks points sample rates)
unfolding append_rate_point
append-Rising ticks high points sample rates h =
    let point = point_of ticks sample rates in
    let second = point.second in
    let recent = select (is_recent second) points in
    let rises =
      Rising-append (second - 59) recent point
        (Rising-select 0 high second (second - 59) points h (omega arith) (omega arith)) in
    let short = Rising-length (second - 59) (suc second) (recent ++ point ∷ []) rises in
    let whole = last_60-short (recent ++ point ∷ []) (omega arith) in
    (whole, subst (Rising (second - 59) (suc second)) (sym whole) rises)

-- The points lie in the minute that ends with the last sample.
abbrev pub IsMinute : ℕ → Option Sample → List Point → Type 0
IsMinute ticks none points = points ≡ []
IsMinute ticks (some sample) points =
    let second = sample.sampled_at / ticks in Rising (second - 59) (suc second) points

Rising-lower : (low high : ℕ) (points : List Point) → Rising low high points → Rising 0 high points
Rising-lower low high [] h = omega arith
Rising-lower low high (p ∷ points) (l, h) = (omega arith, h)

IsMinute-Rising :
    (ticks : ℕ) (latest : Option Sample) (points : List Point)
    → IsMinute ticks latest points
    → (high : ℕ) × Rising 0 high points
IsMinute-Rising ticks none points h = (0, subst (Rising 0 0) (sym h) (omega arith))
IsMinute-Rising ticks (some sample) points h =
    let second = sample.sampled_at / ticks in
    (suc second, Rising-lower (second - 59) (suc second) points h)

accept_stats-IsMinute :
    (ticks : ℕ) (sample : Sample) (t : Traffic)
    → IsMinute ticks t.latest t.points
    → let t' = accept_stats ticks sample t in IsMinute ticks t'.latest t'.points
unfolding accept_stats point_of
accept_stats-IsMinute ticks sample t h =
    let (high, rises) = IsMinute-Rising ticks t.latest t.points h in
    let rates = diff_rates t.latest sample in
    let (whole, minute) = append-Rising ticks high t.points sample rates rises in
    if-P (λ t'. IsMinute ticks t'.latest t'.points) (is_stale t.latest sample) t _ (λ e. h)
      (λ e. minute)

accept_all-IsMinute :
    (ticks : ℕ) (samples : List Sample) (t : Traffic)
    → IsMinute ticks t.latest t.points
    → let t' = accept_all ticks samples t in IsMinute ticks t'.latest t'.points
unfolding accept_all
accept_all-IsMinute ticks [] t h = h
accept_all-IsMinute ticks (sample ∷ samples) t h =
    accept_all-IsMinute ticks samples (accept_stats ticks sample t)
      (accept_stats-IsMinute ticks sample t h)

-- Whatever samples have come, in whatever order and at whatever times, the points rise by their second
-- and lie in the 60 seconds that end with the last sample that was taken in; and the next sample that is
-- not stale adds its point behind those that are recent, none of which the limit of 60 cuts.
pub points-IsMinute :
    (ticks : ℕ) (samples : List Sample) (next : Sample)
    → let t = accept_all ticks samples no_traffic in
      IsMinute ticks t.latest t.points
      × (is_stale t.latest next ≡ false
          → let point = point_of ticks next (diff_rates t.latest next) in
            (accept_stats ticks next t).points
            ≡ select (is_recent point.second) t.points ++ point ∷ [])
unfolding accept_stats
points-IsMinute ticks samples next =
    let t = accept_all ticks samples no_traffic in
    let minute = accept_all-IsMinute ticks samples no_traffic refl in
    let (high, rises) = IsMinute-Rising ticks t.latest t.points minute in
    let (whole, _) = append-Rising ticks high t.points next (diff_rates t.latest next) rises in
    (minute, λ e. rw e whole)
