-- ===== src/Bbr/LimitLaws.antt =====
-- No step of an event changes the least and the largest window.
use qperf_go.Prelude.{
  ℕ, ◌≡◌, refl, ◌∙◌, Bool, not, ◌&&◌, if◌then◌else◌, ℤ, arith, inl, inr, Bool-cases,
}
use qperf_go.Prelude.Float.{Float64}
use qperf_go.Sampler.{SendTimeState, on_app_limited}
use qperf_go.Bbr.{Sender, Constants, is_probe_bw, is_probe_rtt, enter_startup_mode}
use qperf_go.Bbr.Cycle.{enter_probe_bandwidth_mode, update_gain_cycle_phase}
use qperf_go.Bbr.Modes.{
  note_growth, note_no_growth, check_if_full_bandwidth_reached, exit_startup, exit_drain,
  maybe_exit_startup_or_drain, enter_probe_rtt, leave_probe_rtt, await_exit, in_probe_rtt,
  maybe_enter_or_exit_probe_rtt,
}
use qperf_go.Bbr.Windows.{calculate_congestion_window, calculate_recovery_window}
use qperf_go.Bbr.Event.{Event, change_mode, any_lost}

abbrev pub limits : {F : Type 0} → Sender F → ℤ × ℤ
limits b = (b.min_congestion_window, b.max_congestion_window)

module _ (f : Float64) where
  limits-cycle :
      (b : Sender f.F) (rtt : ℤ) (now : ℕ) (prior : ℤ) (lost : Bool)
      → limits (update_gain_cycle_phase f b rtt now prior lost) ≡ limits b
  unfolding update_gain_cycle_phase
  limits-cycle b rtt now prior lost = ground arith

  limits-check :
      (b : Sender f.F) (s : SendTimeState)
      → limits (check_if_full_bandwidth_reached f b s) ≡ limits b
  unfolding check_if_full_bandwidth_reached note_growth note_no_growth
  limits-check b s = ground arith

  limits-exit_startup : (b : Sender f.F) → limits (exit_startup f b) ≡ limits b
  unfolding exit_startup
  limits-exit_startup b = ground arith

  limits-exit_drain :
      (b : Sender f.F) (rtt : ℤ) (rand now : ℕ) → limits (exit_drain f b rtt rand now) ≡ limits b
  unfolding exit_drain enter_probe_bandwidth_mode
  limits-exit_drain b rtt rand now = ground arith

  limits-enter : (b : Sender f.F) (expired : Bool) → limits (enter_probe_rtt f b expired) ≡ limits b
  unfolding enter_probe_rtt
  limits-enter b expired = ground arith

  limits-probe :
      (b : Sender f.F) (buffer : ℤ) (rand now : ℕ) (start : Bool)
      → limits (in_probe_rtt f b buffer rand now start) ≡ limits b
  unfolding in_probe_rtt await_exit leave_probe_rtt enter_probe_bandwidth_mode enter_startup_mode
  limits-probe b buffer rand now start = ground arith

  limits-maybe_probe :
      (b : Sender f.F) (buffer : ℤ) (rand now : ℕ) (start expired : Bool)
      → limits (maybe_enter_or_exit_probe_rtt f b buffer rand now start expired) ≡ limits b
  unfolding maybe_enter_or_exit_probe_rtt
  limits-maybe_probe b buffer rand now start expired =
      let c = enter_probe_rtt f b expired in
      let d : Sender f.F = record c { sampler = on_app_limited c.sampler } in
      elim (Bool-cases (is_probe_rtt c.mode)) [
        | inl t ↦ rw t (limits-probe d buffer rand now start ∙ limits-enter b expired)
        | inr t ↦ rw t (limits-enter b expired)
      ]

  pub limits-window :
      (b : Sender f.F) (rtt acked excess : ℤ)
      → limits (calculate_congestion_window f b rtt acked excess) ≡ limits b
  unfolding calculate_congestion_window
  limits-window b rtt acked excess = ground arith

  pub limits-recovery :
      (b : Sender f.F) (acked lost : ℤ) → limits (calculate_recovery_window b acked lost) ≡ limits b
  unfolding calculate_recovery_window
  limits-recovery b acked lost = ground arith

module _ (f : Float64) (k : Constants) where
  pub limits-change_mode :
      (b : Sender f.F) (e : Event) (start expired : Bool) (s : SendTimeState)
      → limits (change_mode f k b e start expired s) ≡ limits b
  unfolding change_mode maybe_exit_startup_or_drain
  limits-change_mode b e start expired s =
      let c =
        if is_probe_bw b.mode
        then update_gain_cycle_phase f b e.rtt e.event_time e.prior_in_flight (any_lost e.lost)
        else b in
      let to_c : limits c ≡ limits b = elim (Bool-cases (is_probe_bw b.mode)) [
        | inl t ↦ rw t (limits-cycle f b e.rtt e.event_time e.prior_in_flight (any_lost e.lost))
        | inr t ↦ rw t refl
      ] in
      let d =
        if start && not c.is_at_full_bandwidth then check_if_full_bandwidth_reached f c s else c in
      let to_d : limits d ≡ limits b = elim (Bool-cases (start && not c.is_at_full_bandwidth)) [
        | inl t ↦ rw t (limits-check f c s ∙ to_c)
        | inr t ↦ rw t to_c
      ] in
      limits-maybe_probe f (exit_drain f (exit_startup f d) e.rtt e.rand e.event_time)
        k.max_packet_buffer_size e.rand e.event_time start expired
      ∙ (limits-exit_drain f (exit_startup f d) e.rtt e.rand e.event_time
          ∙ (limits-exit_startup f d ∙ to_d))
