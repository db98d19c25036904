-- ===== src/Sampler/Ack.antt =====
-- `onPacketAcknowledged`: the sample of one acknowledged packet.
use qperf_go.Prelude.{
  ℕ, min, Bool, false, ◌||◌, Option, none, some, ltb, if◌then◌else◌, ◌>>=◌, ℤ, pos, ltb_ℤ, leb_ℤ,
  eqb_ℤ, ◌+i◌, ◌-i◌,
}
use qperf_go.Prelude.Time.{is_zero_time, sub_time}
use qperf_go.RingBuffer.{RingBuffer}
use qperf_go.PacketQueue.{get_entry, invalid_packet_number}
use qperf_go.Bandwidth.{inf_bandwidth, bandwidth_from_delta}
use qperf_go.AckPoints.{AckPoint, update_points, choose_a0_point}
use qperf_go.Sampler.{
  Sampler, SentPacket, sent_packet_zero, BandwidthSample, new_bandwidth_sample, send_time_state_of,
}

module _ {F : Type 0} where
  -- Whether an acknowledgement of `packet_number` ends the app-limited phase.
  unfoldable pub still_app_limited : Sampler F → ℤ → Bool
  still_app_limited b packet_number =
      if eqb_ℤ b.end_of_app_limited_phase invalid_packet_number
        || ltb_ℤ b.end_of_app_limited_phase packet_number
      then false
      else b.is_app_limited

  -- `OnPacketAcknowledgedInner` and the end of the app-limited phase.
  unfoldable pub count_acked : Sampler F → ℕ → ℤ → SentPacket → Sampler F
  count_acked b ack_time packet_number p =
      let total = b.total_bytes_acked +i p.size in
      record b {
        total_bytes_acked = total;
        total_bytes_sent_at_last_acked_packet = p.send_time_state.total_bytes_sent;
        last_acked_packet_sent_time = p.sent_time;
        last_acked_packet_ack_time = ack_time;
        recent_ack_points =
            if b.overestimate_avoidance
            then update_points b.recent_ack_points ack_time total
            else b.recent_ack_points;
        is_app_limited = still_app_limited b packet_number;
      }

-- Infinite where the packet was not sent after the last acknowledged one.
unfoldable pub send_rate_of : SentPacket → Option ℕ
send_rate_of p =
    if ltb p.last_acked_packet_sent_time p.sent_time
    then bandwidth_from_delta
        (p.send_time_state.total_bytes_sent -i p.total_bytes_sent_at_last_acked_packet)
        (sub_time p.sent_time p.last_acked_packet_sent_time)
    else some inf_bandwidth

abbrev pub own_a0 : SentPacket → AckPoint
own_a0 p = record {
  ack_time = p.last_acked_packet_ack_time;
  total_bytes_acked = p.send_time_state.total_bytes_acked;
}

abbrev pub or_own : SentPacket → Option AckPoint → AckPoint
or_own p none = own_a0 p
or_own p (some a0) = a0

module _ {F : Type 0} where
  unfoldable pub choose_point : Sampler F → SentPacket → Option (RingBuffer AckPoint × AckPoint)
  choose_point b p =
      if b.overestimate_avoidance
      then (do
        c ← choose_a0_point b.a0_candidates p.send_time_state.total_bytes_acked
        some (c.0, or_own p c.1))
      else some (b.a0_candidates, own_a0 p)

  -- The sample of the slope from `a0` to the acknowledgement.
  unfoldable pub slope_sample : Sampler F → ℕ → SentPacket → ℕ → AckPoint → Option BandwidthSample
  slope_sample b ack_time p send_rate a0 =
      if leb_ℤ (sub_time ack_time a0.ack_time) (pos 0) then some new_bandwidth_sample else do
        ack_rate ←
            bandwidth_from_delta (b.total_bytes_acked -i a0.total_bytes_acked)
              (sub_time ack_time a0.ack_time)
        some (record {
          bandwidth = min send_rate ack_rate;
          rtt = sub_time ack_time p.sent_time;
          send_rate = send_rate;
          state_at_send = send_time_state_of (some p);
        })

  -- The sample of a counted packet.
  unfoldable pub sample_of : Sampler F → ℕ → SentPacket → Option (Sampler F × BandwidthSample)
  sample_of b ack_time p =
      if is_zero_time p.last_acked_packet_sent_time then some (b, new_bandwidth_sample) else do
        send_rate ← send_rate_of p
        c ← choose_point b p
        s ← slope_sample b ack_time p send_rate c.1
        some (record b { a0_candidates = c.0 }, s)

  abbrev pub acknowledge_found :
      Sampler F → ℕ → ℤ → Option SentPacket → Option (Sampler F × BandwidthSample)
  acknowledge_found b ack_time packet_number none = some (b, new_bandwidth_sample)
  acknowledge_found b ack_time packet_number (some p) =
      sample_of (count_acked b ack_time packet_number p) ack_time p

  unfoldable pub on_packet_acknowledged : Sampler F → ℕ → ℤ → Option (Sampler F × BandwidthSample)
  on_packet_acknowledged b ack_time packet_number = do
    p ← get_entry b.connection_state_map packet_number
    acknowledge_found (record b { last_acked_packet = packet_number }) ack_time packet_number p
