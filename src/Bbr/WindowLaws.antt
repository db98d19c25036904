-- ===== src/Bbr/WindowLaws.antt =====
-- The windows and the pacing rate under an event: what they keep, and the limits that they enforce.
use qperf_go.Prelude.{
  ◌≤ℤ◌, ◌≡◌, true, ℤ, ◌+i◌, max_ℤ, min_ℤ, max_ℤ_bounds, min_ℤ_bounds, min_ℤ_cases, arith,
}
use qperf_go.Prelude.Float.{Float64}
use qperf_go.Bbr.{Sender, in_recovery, get_congestion_window, probe_rtt_congestion_window}
use qperf_go.Bbr.Windows.{
  calculate_congestion_window, calculate_recovery_window, grown_window, aggregated_target,
  shrunk_window,
}
use qperf_go.Bbr.ModeLaws.{StateInv}

clamp : (w lo hi : ℤ) → lo ≤ℤ hi → (lo ≤ℤ min_ℤ (max_ℤ w lo) hi) × (min_ℤ (max_ℤ w lo) hi ≤ℤ hi)
clamp w lo hi h =
    ground (arith, max_ℤ_bounds w lo, min_ℤ_bounds (max_ℤ w lo) hi, min_ℤ_cases (max_ℤ w lo) hi)

module _ (f : Float64) where
  pub window-StateInv :
      (b : Sender f.F) (rtt acked excess : ℤ)
      → StateInv b
      → StateInv (calculate_congestion_window f b rtt acked excess)
  unfolding calculate_congestion_window
  window-StateInv b rtt acked excess h =
      let c =
        clamp (grown_window f b (aggregated_target f b rtt excess) acked) b.min_congestion_window
          b.max_congestion_window (omega (arith, h.limits.0, h.limits.1)) in
      record {
        in_mode = ground (arith, h.in_mode);
        offset = ground (arith, h.offset);
        limits = ground (arith, h.limits, c);
        ready = ground (arith, h.ready);
      }

module _ {F : Type 0} where
  -- In recovery, the recovery window is no smaller than the least congestion window.
  abbrev pub Recovering : Sender F → Type 0
  Recovering b = in_recovery b ≡ true → b.min_congestion_window ≤ℤ b.recovery_window

  pub recovery-StateInv :
      (b : Sender F) (acked lost : ℤ)
      → StateInv b
      → StateInv (calculate_recovery_window b acked lost)
  unfolding calculate_recovery_window
  recovery-StateInv b acked lost h = record {
    in_mode = ground (arith, h.in_mode);
    offset = ground (arith, h.offset);
    limits = ground (arith, h.limits);
    ready = ground (arith, h.ready);
  }

  pub recovery-Recovering :
      (b : Sender F) (acked lost : ℤ) → Recovering (calculate_recovery_window b acked lost)
  unfolding calculate_recovery_window in_recovery
  recovery-Recovering b acked lost =
      let sendable = b.bytes_in_flight +i acked in
      ground (
        arith,
        max_ℤ_bounds b.min_congestion_window sendable,
        max_ℤ_bounds b.min_congestion_window (max_ℤ (shrunk_window b acked lost) sendable),
      )

  -- The window in force is within the limits.
  pub window_in_limits :
      (b : Sender F)
      → StateInv b
      → Recovering b
      → (b.min_congestion_window ≤ℤ get_congestion_window b)
        × (get_congestion_window b ≤ℤ b.max_congestion_window)
  unfolding get_congestion_window probe_rtt_congestion_window
  window_in_limits b h r = ground (
    arith,
    h.limits,
    r,
    min_ℤ_bounds b.congestion_window b.recovery_window,
    min_ℤ_cases b.congestion_window b.recovery_window,
  )
