-- ===== src/CubicSender/Events.antt =====
-- internal/congestion/cubic/cubic_sender.go: what acknowledgements, losses, timeouts and a migration
-- do to the sender.
use qperf_go.Prelude.{
  ℕ, suc, Bool, false, Option, none, some, not, if◌then◌else◌, leb, ℤ, ltb_ℤ, leb_ℤ, eqb_ℤ, min_ℤ,
  max_ℤ, ◌+i◌, div_i, u64, to_u64, quotient, ◌>>=◌,
}
use qperf_go.Prelude.Float.{Float64, Float32}
use qperf_go.Cubic.{
  Cubic, reset_cubic, cubic_application_limited, congestion_window_after_packet_loss,
  congestion_window_after_ack,
}
use qperf_go.CubicSender.{
  Undeclared, Sender, slow_start, congestion_avoidance, recovery, application_limited,
  max_congestion_window, min_congestion_window, maybe_trace_state_change, in_slow_start,
  in_recovery, is_cwnd_limited,
}

module _ (u : Undeclared) where
  -- The Reno part of `maybeIncreaseCwnd`: one more datagram for a whole window of packets.
  unfoldable pub count_reno : Sender u → ℤ → Sender u
  count_reno c packets =
      let acked = u64 (suc c.num_acked_packets) in
      if leb (to_u64 packets) acked
      then record c {
        congestion_window = c.congestion_window +i c.max_datagram_size;
        num_acked_packets = 0;
      }
      else record c { num_acked_packets = acked }

  unfoldable pub ack_slow_start : Sender u → ℤ → Sender u
  ack_slow_start c packet_number =
      if in_slow_start u c
      then record c { hybrid_slow_start = u.packet_acked c.hybrid_slow_start packet_number }
      else c

  module _ (cbrt : ℤ → ℕ) (f : Float64) (g : Float32) where
    unfoldable pub grow_cubic : Sender u → ℤ → ℤ → ℕ → Sender u
    grow_cubic c acked_bytes min_rtt event_time =
        let grown =
          congestion_window_after_ack g cbrt c.cubic acked_bytes c.congestion_window min_rtt
            event_time in
        record c { congestion_window = min_ℤ (max_congestion_window u c) grown.0; cubic = grown.1 }

    unfoldable pub avoid_congestion : Sender u → ℤ → ℤ → ℕ → Option (Sender u)
    avoid_congestion c acked_bytes min_rtt event_time =
        if c.reno
        then (do
          packets ← quotient c.congestion_window c.max_datagram_size
          some (count_reno c packets))
        else some (grow_cubic c acked_bytes min_rtt event_time)

    unfoldable pub maybe_increase_cwnd : Sender u → ℤ → ℤ → ℤ → ℕ → Option (Sender u)
    maybe_increase_cwnd c acked_bytes prior_in_flight min_rtt event_time =
        if not (is_cwnd_limited u c prior_in_flight)
        then some (
            maybe_trace_state_change u (record c { cubic = cubic_application_limited c.cubic })
              application_limited)
        else if leb_ℤ (max_congestion_window u c) c.congestion_window
        then some c
        else if in_slow_start u c
        then some (
            maybe_trace_state_change u
              (record c { congestion_window = c.congestion_window +i c.max_datagram_size })
              slow_start)
        else avoid_congestion (maybe_trace_state_change u c congestion_avoidance) acked_bytes
            min_rtt event_time

    unfoldable pub on_packet_acked : Sender u → ℤ → ℤ → ℤ → ℤ → ℕ → Option (Sender u)
    on_packet_acked c packet_number acked_bytes prior_in_flight min_rtt event_time =
        let acked = record c {
          largest_acked_packet_number = max_ℤ packet_number c.largest_acked_packet_number;
        } in
        if in_recovery u acked then some acked else (do
          grown ← maybe_increase_cwnd acked acked_bytes prior_in_flight min_rtt event_time
          some (ack_slow_start grown packet_number))

    unfoldable pub reduced_window : Sender u → ℤ × Cubic
    reduced_window c =
        if c.reno
        then (f.to_int (f.mul (f.of_int c.congestion_window) (f.lit 7 10)), c.cubic)
        else congestion_window_after_packet_loss g c.cubic c.congestion_window

    unfoldable pub cut_back : Sender u → Sender u
    cut_back c =
        let reduced = reduced_window c in
        let window = max_ℤ reduced.0 (min_congestion_window u c) in
        record c {
          cubic = reduced.1;
          congestion_window = window;
          slow_start_threshold = window;
          largest_sent_at_last_cutback = c.largest_sent_packet_number;
          num_acked_packets = 0;
        }

    unfoldable pub on_congestion_event : Sender u → ℤ → Sender u
    on_congestion_event c packet_number =
        if leb_ℤ packet_number c.largest_sent_at_last_cutback
        then c
        else cut_back (
            maybe_trace_state_change u
              (record c { last_cutback_exited_slowstart = in_slow_start u c }) recovery)

  unfoldable pub on_retransmission_timeout : Sender u → Bool → Sender u
  on_retransmission_timeout c packets_retransmitted =
      let forgotten = record c { largest_sent_at_last_cutback = u.invalid_packet_number } in
      if not packets_retransmitted then forgotten else record forgotten {
        hybrid_slow_start = u.restart c.hybrid_slow_start;
        cubic = reset_cubic c.cubic;
        slow_start_threshold = div_i c.congestion_window 2;
        congestion_window = min_congestion_window u c;
      }

  unfoldable pub on_connection_migration : Sender u → Sender u
  on_connection_migration c = record c {
    hybrid_slow_start = u.restart c.hybrid_slow_start;
    largest_sent_packet_number = u.invalid_packet_number;
    largest_acked_packet_number = u.invalid_packet_number;
    largest_sent_at_last_cutback = u.invalid_packet_number;
    last_cutback_exited_slowstart = false;
    cubic = reset_cubic c.cubic;
    num_acked_packets = 0;
    congestion_window = c.initial_congestion_window;
    slow_start_threshold = c.initial_max_congestion_window;
  }

  unfoldable pub set_max_datagram_size : Sender u → ℤ → Option (Sender u)
  set_max_datagram_size c size =
      let at_least = eqb_ℤ c.congestion_window (min_congestion_window u c) in
      let sized = record c { max_datagram_size = size; pacer = u.set_datagram_size c.pacer size } in
      if ltb_ℤ size c.max_datagram_size
      then none
      else if at_least
      then some (record sized { congestion_window = min_congestion_window u sized })
      else some sized
