-- ===== src/Bbr/Cycle.antt =====
-- The gain cycle of PROBE_BW. `rand` is what `rand.Int31n` answers, not negative.
use qperf_go.Prelude.{
  ℕ, zero, suc, ◌+◌, ◌-◌, ◌%◌, Bool, true, false, not, ◌&&◌, if◌then◌else◌, ℤ, ltb, leb, ltb_ℤ,
  leb_ℤ,
}
use qperf_go.Prelude.Float.{Float64}
use qperf_go.Prelude.Time.{add_time}
use qperf_go.Bbr.{probe_bw, Sender, nat_zero, gain_cycle_length}
use qperf_go.Bbr.Target.{get_min_rtt, get_target_congestion_window}

unfoldable pub start_offset : ℕ → ℕ
start_offset rand =
    let offset = rand % (gain_cycle_length - 1) in if leb 1 offset then offset + 1 else offset

module _ (f : Float64) where
  -- `pacingGain`, an array of eight; no offset is past its end (`ModeLaws`).
  unfoldable pub cycle_gain : ℕ → f.F
  cycle_gain zero = f.lit 5 4
  cycle_gain (suc zero) = f.lit 3 4
  cycle_gain (suc (suc _)) = f.lit 1 1

  abbrev pub one : f.F
  one = f.lit 1 1

  unfoldable pub enter_probe_bandwidth_mode : Sender f.F → ℕ → ℕ → Sender f.F
  enter_probe_bandwidth_mode b rand now = record b {
    mode = probe_bw;
    congestion_window_gain = b.congestion_window_gain_constant;
    cycle_current_offset = start_offset rand;
    last_cycle_start = now;
    pacing_gain = cycle_gain (start_offset rand);
  }

  unfoldable pub should_advance_gain_cycling : Sender f.F → ℤ → ℕ → ℤ → Bool → Bool
  should_advance_gain_cycling b rtt now prior_in_flight has_losses =
      let passed = ltb (add_time b.last_cycle_start (get_min_rtt b rtt)) now in
      let probing =
        f.less one b.pacing_gain
        && not has_losses
        && ltb_ℤ prior_in_flight (get_target_congestion_window f b rtt b.pacing_gain) in
      if f.less b.pacing_gain one
        && leb_ℤ b.bytes_in_flight (get_target_congestion_window f b rtt one)
      then true
      else if probing
      then false
      else passed

  -- Whether the low gain stays although the cycle advances to `offset`.
  unfoldable pub stays_low : Sender f.F → ℤ → ℕ → Bool
  stays_low b rtt offset =
      b.drain_to_target
      && f.less b.pacing_gain one
      && f.same (cycle_gain offset) one
      && ltb_ℤ (get_target_congestion_window f b rtt one) b.bytes_in_flight

  unfoldable pub update_gain_cycle_phase : Sender f.F → ℤ → ℕ → ℤ → Bool → Sender f.F
  update_gain_cycle_phase b rtt now prior_in_flight has_losses =
      let offset = (b.cycle_current_offset + 1) % gain_cycle_length in
      if should_advance_gain_cycling b rtt now prior_in_flight has_losses
      then record b {
        cycle_current_offset = offset;
        last_cycle_start = now;
        pacing_gain = if stays_low b rtt offset then b.pacing_gain else cycle_gain offset;
      }
      else b
