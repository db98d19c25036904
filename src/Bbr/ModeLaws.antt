-- ===== src/Bbr/ModeLaws.antt =====
-- Which modes go with `isAtFullBandwidth`, and the offset in the gain cycle.
use qperf_go.Prelude.{
  ℕ, ◌<◌, ◌≤ℤ◌, ◌≡◌, Bool, true, false, not, ◌&&◌, if◌then◌else◌, ℤ, arith, inl, inr, Bool-cases,
}
use qperf_go.Prelude.Float.{Float64}
use qperf_go.Sampler.{SendTimeState, on_app_limited, reset_max_ack_height_tracker}
use qperf_go.Sampler.Safety.{IsReady}
use qperf_go.Bbr.{
  Mode, startup, drain, probe_bw, probe_rtt, Sender, Constants, is_probe_bw, enter_startup_mode,
}
use qperf_go.Bbr.Cycle.{start_offset, enter_probe_bandwidth_mode, update_gain_cycle_phase}
use qperf_go.Bbr.Modes.{
  note_growth, note_no_growth, check_if_full_bandwidth_reached, exit_startup, exit_drain,
  maybe_exit_startup_or_drain, enter_probe_rtt, leave_probe_rtt, await_exit, in_probe_rtt,
  maybe_enter_or_exit_probe_rtt,
}
use qperf_go.Bbr.Event.{Event, change_mode, any_lost}

-- DRAIN and PROBE_BW need the full bandwidth, and under STARTUP it is not reached.
abbrev pub InMode : Mode → Bool → Type 0
InMode startup full = full ≡ false
InMode drain full = full ≡ true
InMode probe_bw full = full ≡ true
InMode probe_rtt full = full ≡ full

-- The same before STARTUP is left.
abbrev Loose : Mode → Bool → Type 0
Loose startup full = full ≡ full
Loose m full = InMode m full

module _ {F : Type 0} where
  abbrev pub InLimits : Sender F → Type 0
  InLimits b =
      (b.min_congestion_window ≤ℤ b.congestion_window)
      × (b.congestion_window ≤ℤ b.max_congestion_window)

  -- What an event needs so as not to panic.
  abbrev pub Ready : Sender F → Type 0
  Ready b = (b.detect_overshooting ≡ false) × IsReady b.sampler

  pub record StateInv (b : Sender F) : Type 0 where
    pub in_mode : InMode b.mode b.is_at_full_bandwidth
    pub offset : b.cycle_current_offset < 8
    pub limits : InLimits b
    pub ready : Ready b

  record LooseInv (b : Sender F) : Type 0 where
    in_mode : Loose b.mode b.is_at_full_bandwidth
    offset : b.cycle_current_offset < 8
    limits : InLimits b
    ready : Ready b

  loosen : (b : Sender F) → StateInv b → LooseInv b
  loosen b h = record {
    in_mode = ground (arith, h.in_mode);
    offset = h.offset;
    limits = h.limits;
    ready = h.ready;
  }

start_offset-le : (rand : ℕ) → start_offset rand < 8
unfolding start_offset
start_offset-le rand = ground arith

module _ (f : Float64) where
  cycle-StateInv :
      (b : Sender f.F) (rtt : ℤ) (now : ℕ) (prior : ℤ) (losses : Bool)
      → StateInv b
      → StateInv (update_gain_cycle_phase f b rtt now prior losses)
  unfolding update_gain_cycle_phase
  cycle-StateInv b rtt now prior losses h = record {
    in_mode = ground (arith, h.in_mode);
    offset = ground (arith, h.offset);
    limits = ground (arith, h.limits);
    ready = ground (arith, h.ready);
  }

  check-LooseInv :
      (b : Sender f.F) (s : SendTimeState)
      → StateInv b
      → LooseInv (check_if_full_bandwidth_reached f b s)
  unfolding check_if_full_bandwidth_reached note_growth note_no_growth reset_max_ack_height_tracker
  check-LooseInv b s h = record {
    in_mode = ground (arith, h.in_mode);
    offset = ground (arith, h.offset);
    limits = ground (arith, h.limits);
    ready = ground (arith, h.ready);
  }

  exit_startup-StateInv : (b : Sender f.F) → LooseInv b → StateInv (exit_startup f b)
  unfolding exit_startup
  exit_startup-StateInv b h = record {
    in_mode = ground (arith, h.in_mode);
    offset = ground (arith, h.offset);
    limits = ground (arith, h.limits);
    ready = ground (arith, h.ready);
  }

  exit_drain-StateInv :
      (b : Sender f.F) (rtt : ℤ) (rand now : ℕ)
      → StateInv b
      → StateInv (exit_drain f b rtt rand now)
  unfolding exit_drain enter_probe_bandwidth_mode
  exit_drain-StateInv b rtt rand now h = record {
    in_mode = ground (arith, h.in_mode);
    offset = ground (arith, h.offset, start_offset-le rand);
    limits = ground (arith, h.limits, start_offset-le rand);
    ready = ground (arith, h.ready, start_offset-le rand);
  }

  leave-StateInv :
      (b : Sender f.F) (rand now : ℕ) → StateInv b → StateInv (leave_probe_rtt f b rand now)
  unfolding leave_probe_rtt enter_probe_bandwidth_mode enter_startup_mode
  leave-StateInv b rand now h = record {
    in_mode = ground (arith, h.in_mode);
    offset = ground (arith, h.offset, start_offset-le rand);
    limits = ground (arith, h.limits, start_offset-le rand);
    ready = ground (arith, h.ready, start_offset-le rand);
  }

  await-StateInv :
      (b : Sender f.F) (rand now : ℕ) (start : Bool)
      → StateInv b
      → StateInv (await_exit f b rand now start)
  unfolding await_exit
  await-StateInv b rand now start h =
      let c : Sender f.F = record b {
        probe_rtt_round_passed = if start then true else b.probe_rtt_round_passed;
      } in
      let g : StateInv c = record {
        in_mode = h.in_mode;
        offset = h.offset;
        limits = h.limits;
        ready = h.ready;
      } in
      ground (arith, g, leave-StateInv c rand now g)

  probe-StateInv :
      (b : Sender f.F) (buffer : ℤ) (rand now : ℕ) (start : Bool)
      → StateInv b
      → StateInv (in_probe_rtt f b buffer rand now start)
  unfolding in_probe_rtt
  probe-StateInv b buffer rand now start h = record {
    in_mode = ground (arith, h.in_mode, await-StateInv b rand now start h);
    offset = ground (arith, h.offset, await-StateInv b rand now start h);
    limits = ground (arith, h.limits, await-StateInv b rand now start h);
    ready = ground (arith, h.ready, await-StateInv b rand now start h);
  }

  enter-StateInv :
      (b : Sender f.F) (expired : Bool) → StateInv b → StateInv (enter_probe_rtt f b expired)
  unfolding enter_probe_rtt
  enter-StateInv b expired h = record {
    in_mode = ground (arith, h.in_mode);
    offset = ground (arith, h.offset);
    limits = ground (arith, h.limits);
    ready = ground (arith, h.ready);
  }

  maybe_probe-StateInv :
      (b : Sender f.F) (buffer : ℤ) (rand now : ℕ) (start expired : Bool)
      → StateInv b
      → StateInv (maybe_enter_or_exit_probe_rtt f b buffer rand now start expired)
  unfolding maybe_enter_or_exit_probe_rtt on_app_limited
  maybe_probe-StateInv b buffer rand now start expired h =
      let c = enter_probe_rtt f b expired in
      let g = enter-StateInv b expired h in
      let d : Sender f.F = record c { sampler = on_app_limited c.sampler } in
      let i =
        probe-StateInv d buffer rand now start
          (record { in_mode = g.in_mode; offset = g.offset; limits = g.limits; ready = g.ready }) in
      record {
        in_mode = ground (arith, g.in_mode, i.in_mode);
        offset = ground (arith, g.offset, i.offset);
        limits = ground (arith, g.limits, i.limits);
        ready = ground (arith, g.ready, i.ready);
      }

module _ (f : Float64) (k : Constants) where
  pub change_mode-StateInv :
      (b : Sender f.F) (e : Event) (start expired : Bool) (s : SendTimeState)
      → StateInv b
      → StateInv (change_mode f k b e start expired s)
  unfolding change_mode maybe_exit_startup_or_drain
  change_mode-StateInv b e start expired s h =
      let c =
        if is_probe_bw b.mode
        then update_gain_cycle_phase f b e.rtt e.event_time e.prior_in_flight (any_lost e.lost)
        else b in
      let g : StateInv c = elim (Bool-cases (is_probe_bw b.mode)) [
        | inl t ↦ rw t (cycle-StateInv f b e.rtt e.event_time e.prior_in_flight (any_lost e.lost) h)
        | inr t ↦ rw t h
      ] in
      let d =
        if start && not c.is_at_full_bandwidth then check_if_full_bandwidth_reached f c s else c in
      let l : LooseInv d = elim (Bool-cases (start && not c.is_at_full_bandwidth)) [
        | inl t ↦ rw t (check-LooseInv f c s g)
        | inr t ↦ rw t (loosen c g)
      ] in
      maybe_probe-StateInv f (exit_drain f (exit_startup f d) e.rtt e.rand e.event_time)
        k.max_packet_buffer_size e.rand e.event_time start expired
        (exit_drain-StateInv f (exit_startup f d) e.rtt e.rand e.event_time
          (exit_startup-StateInv f d l))
