-- ===== src/Bbr/Target.antt =====
-- The estimates that the sender aims at: its minimum RTT, its target window, the pacer's bandwidth.
-- `rtt` is what `rttStats.MinRTT()` answers.
use qperf_go.Prelude.{
  ℕ, ◌+◌, ◌*◌, Bool, not, ◌&&◌, ◌||◌, if◌then◌else◌, ℤ, pos, ltb, ltb_ℤ, eqb_ℤ, max_ℤ,
}
use qperf_go.Prelude.Float.{Float64}
use qperf_go.Prelude.Time.{millisecond}
use qperf_go.Bandwidth.{bytes_per_second, bdp_from_rtt_and_bandwidth}
use qperf_go.Bbr.{Sender, nat_zero, min_bps, min_rtt_expiry, bandwidth_estimate}

module _ {F : Type 0} where
  unfoldable pub get_min_rtt : Sender F → ℤ → ℤ
  get_min_rtt b rtt =
      if not (eqb_ℤ b.min_rtt (pos 0))
      then b.min_rtt
      else if eqb_ℤ rtt (pos 0)
      then pos (100 * millisecond)
      else rtt

  -- Whether the estimate had expired, and the sender.
  unfoldable pub maybe_update_min_rtt : Sender F → ℕ → ℤ → Bool × Sender F
  maybe_update_min_rtt b now sample =
      let expired =
        not (eqb_ℤ b.min_rtt (pos 0)) && ltb (b.min_rtt_timestamp + min_rtt_expiry) now in
      (
        expired,
        if expired || ltb_ℤ sample b.min_rtt || eqb_ℤ b.min_rtt (pos 0)
            then record b { min_rtt = sample; min_rtt_timestamp = now }
            else b,
      )

module _ (f : Float64) where
  -- `congestion.ByteCount(gain * float64(n))`
  abbrev pub scaled : f.F → ℤ → ℤ
  scaled gain n = f.to_int (f.mul gain (f.of_int n))

  unfoldable pub get_target_congestion_window : Sender f.F → ℤ → f.F → ℤ
  get_target_congestion_window b rtt gain =
      let window =
        scaled gain (bdp_from_rtt_and_bandwidth (get_min_rtt b rtt) (bandwidth_estimate b)) in
      max_ℤ (if eqb_ℤ window (pos 0) then scaled gain b.initial_congestion_window else window)
        b.min_congestion_window

  unfoldable pub bandwidth_for_pacer : Sender f.F → ℤ
  bandwidth_for_pacer b =
      let bps = f.to_int (
        f.div (f.mul (f.of_u64 (bandwidth_estimate b)) b.congestion_window_gain)
          (f.of_u64 bytes_per_second)) in
      if ltb_ℤ bps min_bps then min_bps else bps
