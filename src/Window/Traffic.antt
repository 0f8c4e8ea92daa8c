-- ===== src/Window/Traffic.antt =====
-- src/lib/traffic.js: the rates between two samples and the points of the last minute, and how
-- src/contexts/RuntimeContext.jsx takes a sample in. Times are counted in ticks, so small that every
-- time is a whole number of them; `ticks` of them are a second.
pub mod Points
pub mod Tests
use usshtc.Prelude.{
  ℕ, ◌+◌, ◌-◌, ◌*◌, ◌/◌, Bool, true, false, not, ◌&&◌, ◌||◌, List, [], ◌∷◌, ◌++◌, Option, none,
  some, if◌then◌else◌, ◌==◌, ltb, leb, length, drop, select,
}
use usshtc.Prelude.Text.{Text, text_eq}

-- What a sample has that these functions read; its numbers are finite and not negative.
pub record Sample : Type 0 where
  pub profile_id : Text
  pub epoch : ℕ
  pub sequence : ℕ
  pub sampled_at : ℕ
  pub total_bytes_sent : ℕ
  pub total_bytes_received : ℕ

-- The bytes that went in a time, `over` ticks; their quotient is what the code computes.
pub record Rates : Type 0 where
  pub sent : ℕ
  pub received : ℕ
  pub over : ℕ

abbrev pub zero_rates : Rates
zero_rates = record { sent = 0; received = 0; over = 1 }

unfoldable pub rates_between : Sample → Sample → Rates
rates_between previous sample =
    if not (text_eq previous.profile_id sample.profile_id)
      || not (previous.epoch == sample.epoch)
      || leb sample.sequence previous.sequence
      || leb sample.sampled_at previous.sampled_at
      || ltb sample.total_bytes_sent previous.total_bytes_sent
      || ltb sample.total_bytes_received previous.total_bytes_received
    then zero_rates
    else record {
      sent = sample.total_bytes_sent - previous.total_bytes_sent;
      received = sample.total_bytes_received - previous.total_bytes_received;
      over = sample.sampled_at - previous.sampled_at;
    }

unfoldable pub diff_rates : Option Sample → Sample → Rates
unfolding rates_between
diff_rates none sample = zero_rates
diff_rates (some previous) sample = rates_between previous sample

pub record Point : Type 0 where
  pub second : ℕ
  pub sampled_at : ℕ
  pub rates : Rates

-- `value.second > second - 60 && value.second < second`
unfoldable pub is_recent : ℕ → Point → Bool
is_recent second p = ltb second (p.second + 60) && ltb p.second second

-- `slice(-60)`
unfoldable pub last_60 : List Point → List Point
last_60 points = drop (length points - 60) points

unfoldable pub point_of : ℕ → Sample → Rates → Point
point_of ticks sample rates = record {
  second = sample.sampled_at / ticks;
  sampled_at = sample.sampled_at;
  rates = rates;
}

unfoldable pub append_rate_point : ℕ → List Point → Sample → Rates → List Point
unfolding point_of is_recent last_60
append_rate_point ticks points sample rates =
    let point = point_of ticks sample rates in
    last_60 (select (is_recent point.second) points ++ point ∷ [])

-- The sample that was taken in last, and the points.
pub record Traffic : Type 0 where
  pub latest : Option Sample
  pub points : List Point

abbrev pub no_traffic : Traffic
no_traffic = record { latest = none; points = [] }

unfoldable pub is_stale : Option Sample → Sample → Bool
is_stale none sample = false
is_stale (some latest) sample = leb sample.sequence latest.sequence

-- `acceptStats` for a sample of the current scope whose fields are of the right kinds.
unfoldable pub accept_stats : ℕ → Sample → Traffic → Traffic
unfolding is_stale diff_rates append_rate_point
accept_stats ticks sample t = if is_stale t.latest sample then t else record {
  latest = some sample;
  points = append_rate_point ticks t.points sample (diff_rates t.latest sample);
}

unfoldable pub accept_all : ℕ → List Sample → Traffic → Traffic
unfolding accept_stats
accept_all ticks [] t = t
accept_all ticks (sample ∷ samples) t = accept_all ticks samples (accept_stats ticks sample t)
