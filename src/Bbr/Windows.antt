-- ===== src/Bbr/Windows.antt =====
-- `calculateCongestionWindow` and `calculateRecoveryWindow`.
use qperf_go.Prelude.{
  not, ◌||◌, if◌then◌else◌, ℤ, pos, ltb_ℤ, leb_ℤ, eqb_ℤ, ◌+i◌, ◌-i◌, min_ℤ, max_ℤ,
}
use qperf_go.Prelude.Float.{Float64}
use qperf_go.Sampler.{max_ack_height}
use qperf_go.Bbr.{growth, Sender, nat_zero, in_recovery, is_probe_rtt}
use qperf_go.Bbr.Target.{get_target_congestion_window}

module _ (f : Float64) where
  unfoldable pub aggregated_target : Sender f.F → ℤ → ℤ → ℤ
  aggregated_target b rtt excess_acked =
      let target = get_target_congestion_window f b rtt b.congestion_window_gain in
      if b.is_at_full_bandwidth
      then target +i max_ack_height b.sampler
      else if b.enable_ack_aggregation_during_startup
      then target +i excess_acked
      else target

  -- The window before its limits are enforced.
  unfoldable pub grown_window : Sender f.F → ℤ → ℤ → ℤ
  grown_window b target bytes_acked =
      if b.is_at_full_bandwidth
      then min_ℤ target (b.congestion_window +i bytes_acked)
      else if ltb_ℤ b.congestion_window target
          || ltb_ℤ b.sampler.total_bytes_acked b.initial_congestion_window
      then b.congestion_window +i bytes_acked
      else b.congestion_window

  unfoldable pub calculate_congestion_window : Sender f.F → ℤ → ℤ → ℤ → Sender f.F
  calculate_congestion_window b rtt bytes_acked excess_acked =
      if is_probe_rtt b.mode then b else record b {
        congestion_window =
            min_ℤ
              (max_ℤ (grown_window b (aggregated_target b rtt excess_acked) bytes_acked)
                b.min_congestion_window)
              b.max_congestion_window;
      }

module _ {F : Type 0} where
  -- The recovery window less the losses, with what is released in GROWTH.
  unfoldable pub shrunk_window : Sender F → ℤ → ℤ → ℤ
  shrunk_window b bytes_acked bytes_lost =
      let window =
        if leb_ℤ bytes_lost b.recovery_window
        then b.recovery_window -i bytes_lost
        else b.max_datagram_size in
      elim b.recovery_state [ growth ↦ window +i bytes_acked | _ ↦ window ]

  unfoldable pub calculate_recovery_window : Sender F → ℤ → ℤ → Sender F
  calculate_recovery_window b bytes_acked bytes_lost =
      let sendable = b.bytes_in_flight +i bytes_acked in
      if not (in_recovery b)
      then b
      else if eqb_ℤ b.recovery_window (pos 0)
      then record b { recovery_window = max_ℤ b.min_congestion_window sendable }
      else record b {
        recovery_window =
            max_ℤ b.min_congestion_window (max_ℤ (shrunk_window b bytes_acked bytes_lost) sendable);
      }
