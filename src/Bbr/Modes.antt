-- ===== src/Bbr/Modes.antt =====
-- The modes STARTUP, DRAIN, PROBE_BW and PROBE_RTT, and what moves between them.
use qperf_go.Prelude.{
  ℕ, ◌+◌, Bool, true, false, not, ◌&&◌, ◌||◌, if◌then◌else◌, ℤ, pos, ltb, leb, ltb_ℤ, leb_ℤ, eqb_ℤ,
  ◌*i◌, ◌+i◌, ◌-i◌, div_i, u64,
}
use qperf_go.Prelude.Float.{Float64}
use qperf_go.Prelude.Time.{is_zero_time, sub_time}
use qperf_go.PacketQueue.{invalid_packet_number}
use qperf_go.Sampler.{SendTimeState, reset_max_ack_height_tracker, on_app_limited}
use qperf_go.Bbr.{
  drain, probe_rtt, Sender, nat_zero, is_startup, is_drain, is_probe_rtt, probe_rtt_time,
  max_bbr_burst_packets, default_startup_full_loss_count, get_congestion_window,
  probe_rtt_congestion_window, bandwidth_estimate, enter_startup_mode,
}
use qperf_go.Bbr.Target.{get_target_congestion_window}
use qperf_go.Bbr.Cycle.{one, enter_probe_bandwidth_mode}

module _ {F : Type 0} where
  unfoldable pub maybe_applimited : Sender F → ℤ → Sender F
  maybe_applimited b bytes_in_flight =
      let window = get_congestion_window b in
      let drain_limited = is_drain b.mode && ltb_ℤ (div_i window 2) bytes_in_flight in
      if leb_ℤ window bytes_in_flight
      then b
      else if not drain_limited
          || ltb_ℤ (max_bbr_burst_packets *i b.max_datagram_size) (window -i bytes_in_flight)
      then record b { sampler = on_app_limited b.sampler }
      else b

  -- Whether the counter has advanced, and the sender.
  unfoldable pub update_round_trip_counter : Sender F → ℤ → Bool × Sender F
  update_round_trip_counter b last_acked_packet =
      if eqb_ℤ b.current_round_trip_end invalid_packet_number
        || ltb_ℤ b.current_round_trip_end last_acked_packet
      then (
        true,
        record b {
          round_trip_count = u64 (b.round_trip_count + 1);
          current_round_trip_end = b.last_sent_packet;
        },
      )
      else (false, b)

module _ (f : Float64) where
  unfoldable pub should_exit_startup_due_to_loss : Sender f.F → SendTimeState → Bool
  should_exit_startup_due_to_loss b s =
      if ltb b.num_loss_events_in_round default_startup_full_loss_count || not s.is_valid
      then false
      else if ltb_ℤ (pos 0) s.bytes_in_flight && ltb_ℤ (pos 0) b.bytes_lost_in_round
      then ltb_ℤ (f.to_int (f.mul (f.of_int s.bytes_in_flight) (f.lit 2 100))) b.bytes_lost_in_round
      else false

  unfoldable pub note_growth : Sender f.F → Sender f.F
  note_growth b = record b {
    bandwidth_at_last_round = bandwidth_estimate b;
    rounds_without_bandwidth_gain = pos 0;
    sampler =
        if b.expire_ack_aggregation_in_startup
        then reset_max_ack_height_tracker b.sampler (pos 0) b.round_trip_count
        else b.sampler;
  }

  unfoldable pub note_no_growth : Sender f.F → SendTimeState → Sender f.F
  note_no_growth b s =
      let rounds = b.rounds_without_bandwidth_gain +i pos 1 in
      record b {
        rounds_without_bandwidth_gain = rounds;
        is_at_full_bandwidth =
            if leb_ℤ b.num_startup_rtts rounds || should_exit_startup_due_to_loss b s
            then true
            else b.is_at_full_bandwidth;
      }

  unfoldable pub check_if_full_bandwidth_reached : Sender f.F → SendTimeState → Sender f.F
  check_if_full_bandwidth_reached b s =
      let target = f.to_u64 (f.mul (f.of_u64 b.bandwidth_at_last_round) (f.lit 5 4)) in
      if b.last_sample_is_app_limited
      then b
      else if leb target (bandwidth_estimate b)
      then note_growth b
      else note_no_growth b s

  unfoldable pub exit_startup : Sender f.F → Sender f.F
  exit_startup b =
      if is_startup b.mode && b.is_at_full_bandwidth
      then record b {
        mode = drain;
        pacing_gain = b.drain_gain;
        congestion_window_gain = b.high_cwnd_gain;
      }
      else b

  unfoldable pub exit_drain : Sender f.F → ℤ → ℕ → ℕ → Sender f.F
  exit_drain b rtt rand now =
      if is_drain b.mode && leb_ℤ b.bytes_in_flight (get_target_congestion_window f b rtt (one f))
      then enter_probe_bandwidth_mode f b rand now
      else b

  unfoldable pub maybe_exit_startup_or_drain : Sender f.F → ℤ → ℕ → ℕ → Sender f.F
  maybe_exit_startup_or_drain b rtt rand now = exit_drain (exit_startup b) rtt rand now

  unfoldable pub enter_probe_rtt : Sender f.F → Bool → Sender f.F
  enter_probe_rtt b min_rtt_expired =
      if min_rtt_expired && not b.exiting_quiescence && not (is_probe_rtt b.mode)
      then record b { mode = probe_rtt; pacing_gain = f.lit 1 1; exit_probe_rtt_at = 0 }
      else b

  unfoldable pub leave_probe_rtt : Sender f.F → ℕ → ℕ → Sender f.F
  leave_probe_rtt b rand now =
      let c : Sender f.F = record b { min_rtt_timestamp = now } in
      if b.is_at_full_bandwidth
      then enter_probe_bandwidth_mode f c rand now
      else enter_startup_mode c

  -- In PROBE_RTT with the time to leave it set.
  unfoldable pub await_exit : Sender f.F → ℕ → ℕ → Bool → Sender f.F
  await_exit b rand now is_round_start =
      let passed = if is_round_start then true else b.probe_rtt_round_passed in
      let c : Sender f.F = record b { probe_rtt_round_passed = passed } in
      if leb_ℤ (pos 0) (sub_time now b.exit_probe_rtt_at) && passed
      then leave_probe_rtt c rand now
      else c

  unfoldable pub in_probe_rtt : Sender f.F → ℤ → ℕ → ℕ → Bool → Sender f.F
  in_probe_rtt b packet_buffer rand now is_round_start =
      if is_zero_time b.exit_probe_rtt_at
      then (if ltb_ℤ b.bytes_in_flight (probe_rtt_congestion_window b +i packet_buffer)
          then record b { exit_probe_rtt_at = now + probe_rtt_time; probe_rtt_round_passed = false }
          else b)
      else await_exit b rand now is_round_start

  -- `packet_buffer` is `congestion.MaxPacketBufferSize`.
  unfoldable pub maybe_enter_or_exit_probe_rtt : Sender f.F → ℤ → ℕ → ℕ → Bool → Bool → Sender f.F
  maybe_enter_or_exit_probe_rtt b packet_buffer rand now is_round_start min_rtt_expired =
      let c = enter_probe_rtt b min_rtt_expired in
      record (if is_probe_rtt c.mode
        then in_probe_rtt (record c { sampler = on_app_limited c.sampler }) packet_buffer rand now
            is_round_start
        else c) { exiting_quiescence = false }
