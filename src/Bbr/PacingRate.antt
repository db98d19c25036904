-- ===== src/Bbr/PacingRate.antt =====
-- `calculatePacingRate` and `PacingRate`. `rtt` is what `rttStats.MinRTT()` answers.
use qperf_go.Prelude.{
  ℕ, max, Bool, false, not, ◌&&◌, ◌||◌, Option, some, if◌then◌else◌, ◌>>=◌, ℤ, pos, ltb, ◌==◌,
  ltb_ℤ, eqb_ℤ, ◌*i◌, ◌+i◌,
}
use qperf_go.Prelude.Float.{Float64}
use qperf_go.Bandwidth.{bandwidth_from_delta}
use qperf_go.Bbr.{Sender, nat_zero, bandwidth_estimate}
use qperf_go.Bbr.Target.{get_min_rtt}

module _ (f : Float64) where
  -- `Bandwidth(gain * float64(n))`
  abbrev pub scaled_bandwidth : f.F → ℕ → ℕ
  scaled_bandwidth gain n = f.to_u64 (f.mul gain (f.of_u64 n))

  unfoldable pub overshoots : Sender f.F → ℕ → Bool
  overshoots b target =
      ltb target b.pacing_rate
      && ltb_ℤ (pos 0) b.bytes_lost_while_detecting_overshooting
      && (b.has_no_app_limited_sample
          || ltb_ℤ b.initial_congestion_window (
              b.bytes_lost_while_detecting_overshooting
              *i pos b.bytes_lost_multiplier_while_detecting_overshooting))

  -- With `detectOvershooting` set.
  unfoldable pub slow_down : Sender f.F → ℤ → ℕ → ℤ → Option (Sender f.F)
  slow_down b rtt target bytes_lost =
      let c : Sender f.F = record b {
        bytes_lost_while_detecting_overshooting =
            b.bytes_lost_while_detecting_overshooting +i bytes_lost;
      } in
      if overshoots c target
      then (do
        least ← bandwidth_from_delta b.cwnd_to_calculate_min_pacing_rate rtt
        some (record c {
          pacing_rate = max target least;
          bytes_lost_while_detecting_overshooting = pos 0;
          detect_overshooting = false;
        }))
      else some c

  -- The rate of a sender that has not reached the full bandwidth.
  unfoldable pub startup_rate : Sender f.F → ℤ → ℕ → ℤ → Option (Sender f.F)
  startup_rate b rtt target bytes_lost =
      if (b.pacing_rate == 0) && not (eqb_ℤ rtt (pos 0))
      then (do
        rate ← bandwidth_from_delta b.initial_congestion_window rtt
        some (record b { pacing_rate = rate }))
      else do
        c ← if b.detect_overshooting then slow_down b rtt target bytes_lost else some b
        some (record c { pacing_rate = max c.pacing_rate target })

  unfoldable pub calculate_pacing_rate : Sender f.F → ℤ → ℤ → Option (Sender f.F)
  calculate_pacing_rate b rtt bytes_lost =
      let target = scaled_bandwidth b.pacing_gain (bandwidth_estimate b) in
      if bandwidth_estimate b == 0
      then some b
      else if b.is_at_full_bandwidth
      then some (record b { pacing_rate = target })
      else startup_rate b rtt target bytes_lost

  unfoldable pub get_pacing_rate : Sender f.F → ℤ → Option ℕ
  get_pacing_rate b rtt =
      if b.pacing_rate == 0
      then (do
        rate ← bandwidth_from_delta b.initial_congestion_window (get_min_rtt b rtt)
        some (scaled_bandwidth b.high_gain rate))
      else some b.pacing_rate
