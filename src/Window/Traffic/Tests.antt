-- ===== src/Window/Traffic/Tests.antt =====
-- Tests of the model of src/lib/traffic.js, and the theorem at a concrete input.
use usshtc.Prelude.{ℕ, ◌≡◌, refl, false, List, [], ◌∷◌, ◌++◌, some, map, select}
use usshtc.Prelude.Text.{codes}
use usshtc.Window.Traffic.{
  Sample, zero_rates, diff_rates, is_recent, point_of, is_stale, no_traffic, accept_stats,
  accept_all,
}
use usshtc.Window.Traffic.Points.{IsMinute, points-IsMinute}

abbrev at : ℕ → ℕ → ℕ → Sample
at sequence time bytes = record {
  profile_id = codes "p";
  epoch = 1;
  sequence = sequence;
  sampled_at = time;
  total_bytes_sent = bytes;
  total_bytes_received = 0;
}

two_seconds :
    diff_rates (some (at 1 1000 10)) (at 2 3000 40)
    ≡ record { sent = 30; received = 0; over = 2000 }
unfolding diff_rates
two_seconds = refl

restarted : diff_rates (some (at 1 1000 10)) (at 2 3000 5) ≡ zero_rates
unfolding diff_rates
restarted = refl

abbrev samples : List Sample
samples = at 1 1000 0 ∷ at 2 1500 10 ∷ at 3 30000 20 ∷ at 4 61500 30 ∷ at 3 62000 40 ∷ []

-- The second sample replaces the first, the last one is stale, and the first second has gone.
kept : map (λ p. p.second) (accept_all 1000 samples no_traffic).points ≡ 30 ∷ 61 ∷ []
unfolding accept_all
kept = refl

points-IsMinute_example :
    let t = accept_all 1000 samples no_traffic in
    let next = at 5 62500 50 in
    IsMinute 1000 t.latest t.points
    × (is_stale t.latest next ≡ false
        → let point = point_of 1000 next (diff_rates t.latest next) in
          (accept_stats 1000 next t).points
          ≡ select (is_recent point.second) t.points ++ point ∷ [])
points-IsMinute_example = points-IsMinute 1000 samples (at 5 62500 50)
