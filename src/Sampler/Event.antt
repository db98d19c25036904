-- ===== src/Sampler/Event.antt =====
-- `OnCongestionEvent`: the samples of all packets that one event acknowledges or declares lost.
use qperf_go.Prelude.{
  ℕ, min, max, Bool, true, false, not, ◌&&◌, Option, none, some, List, [], ◌∷◌, ltb, ◌==◌,
  if◌then◌else◌, ◌>>=◌, ℤ, pos, ltb_ℤ, eqb_ℤ, ◌-i◌, min_ℤ,
}
use qperf_go.Prelude.Float.{Float64}
use qperf_go.RingBuffer.{init, push_back}
use qperf_go.PacketQueue.{new_queue, invalid_packet_number}
use qperf_go.Bandwidth.{inf_bandwidth}
use qperf_go.AckPoints.{point_zero, no_points, less_recent_point}
use qperf_go.AckHeight.{
  set_ack_aggregation_bandwidth_threshold, AckEvent, new_tracker, update_tracker,
}
use qperf_go.Sampler.{
  Sampler, sent_packet_zero, SendTimeState, no_state, BandwidthSample, CongestionEventSample,
  new_congestion_event_sample, AckedPacket, LostPacket, on_packet_lost,
}
use qperf_go.Sampler.Ack.{on_packet_acknowledged}

-- What the loop over the acknowledged packets has collected.
pub record Collected : Type 0 where
  pub event : CongestionEventSample
  pub last_state : SendTimeState
  pub max_send_rate : ℕ

-- One valid sample. `total` is `b.totalBytesAcked`.
unfoldable pub collect : Collected → BandwidthSample → ℤ → Collected
collect c s total =
    let e = c.event in
    let inflight = total -i s.state_at_send.total_bytes_acked in
    let higher = ltb e.sample_max_bandwidth s.bandwidth in
    record {
      event = record e {
        sample_rtt = if eqb_ℤ s.rtt (pos 0) then e.sample_rtt else min_ℤ e.sample_rtt s.rtt;
        sample_max_bandwidth = if higher then s.bandwidth else e.sample_max_bandwidth;
        sample_is_app_limited =
            if higher then s.state_at_send.is_app_limited else e.sample_is_app_limited;
        sample_max_inflight =
            if ltb_ℤ e.sample_max_inflight inflight then inflight else e.sample_max_inflight;
      };
      last_state = s.state_at_send;
      max_send_rate =
          if s.send_rate == inf_bandwidth then c.max_send_rate else max c.max_send_rate s.send_rate;
    }

module _ {F : Type 0} where
  -- The loop over `lostPackets`, with the last valid send state.
  unfoldable pub lose :
      Sampler F → SendTimeState → List LostPacket → Option (Sampler F × SendTimeState)
  lose b s [] = some (b, s)
  lose b s (p ∷ ps) = do
    r ← on_packet_lost b p.packet_number p.bytes_lost
    lose r.0 (if r.1.is_valid then r.1 else s) ps

  -- The loop over `ackedPackets`.
  unfoldable pub acknowledge :
      Sampler F → ℕ → Collected → List AckedPacket → Option (Sampler F × Collected)
  acknowledge b ack_time c [] = some (b, c)
  acknowledge b ack_time c (p ∷ ps) = do
    r ← on_packet_acknowledged b ack_time p.packet_number
    acknowledge r.0 ack_time
        (if r.1.state_at_send.is_valid then collect c r.1 r.0.total_bytes_acked else c) ps

-- The number of the last packet of a list, which the source reads at `len-1`: of the acknowledged
-- packets where there are some, the first one and the others; of no lost packets the read panics.
unfoldable pub last_acked : AckedPacket → List AckedPacket → ℤ
last_acked p [] = p.packet_number
last_acked p (q ∷ ps) = last_acked q ps

unfoldable pub last_lost : List LostPacket → Option ℤ
last_lost [] = none
last_lost (p ∷ []) = some p.packet_number
last_lost (p ∷ q ∷ ps) = last_lost (q ∷ ps)

-- The send state of the event's last packet.
unfoldable pub last_state_of :
    AckedPacket
    → List AckedPacket
    → List LostPacket
    → SendTimeState
    → SendTimeState
    → Option SendTimeState
last_state_of p ps lost lost_state acked_state =
    if not lost_state.is_valid
    then some acked_state
    else if not acked_state.is_valid
    then some lost_state
    else do n ← last_lost lost; some (if ltb_ℤ (last_acked p ps) n then lost_state else acked_state)

abbrev pub nothing_collected : Collected
nothing_collected = record {
  event = new_congestion_event_sample;
  last_state = no_state;
  max_send_rate = 0;
}

module _ (f : Float64) where
  unfoldable pub new_bandwidth_sampler : ℕ → Sampler f.F
  new_bandwidth_sampler window_length = record {
    total_bytes_sent = pos 0;
    total_bytes_acked = pos 0;
    total_bytes_lost = pos 0;
    total_bytes_neutered = pos 0;
    total_bytes_sent_at_last_acked_packet = pos 0;
    last_acked_packet_sent_time = 0;
    last_acked_packet_ack_time = 0;
    last_sent_packet = invalid_packet_number;
    last_acked_packet = invalid_packet_number;
    is_app_limited = false;
    end_of_app_limited_phase = invalid_packet_number;
    connection_state_map = new_queue 256;
    recent_ack_points = no_points;
    a0_candidates = init 256;
    max_ack_height_tracker = new_tracker f window_length;
    total_bytes_acked_after_last_ack_event = pos 0;
    overestimate_avoidance = false;
    limit_max_ack_height_tracker_by_send_rate = false;
  }

  unfoldable pub enable_overestimate_avoidance : Sampler f.F → Sampler f.F
  enable_overestimate_avoidance b = if b.overestimate_avoidance then b else record b {
    overestimate_avoidance = true;
    max_ack_height_tracker =
        set_ack_aggregation_bandwidth_threshold b.max_ack_height_tracker (f.lit 2 1);
  }

  -- What `onAckEventEnd` tells the tracker.
  abbrev pub ack_event : Sampler f.F → ℕ → Bool → ℕ → ℤ → AckEvent
  ack_event b bandwidth_estimate is_new round_trip_count newly_acked = record {
    bandwidth_estimate = bandwidth_estimate;
    is_new_max_bandwidth = is_new;
    round_trip_count = round_trip_count;
    last_sent_packet_number = b.last_sent_packet;
    last_acked_packet_number = b.last_acked_packet;
    ack_time = b.last_acked_packet_ack_time;
    bytes_acked = newly_acked;
  }

  unfoldable pub on_ack_event_end : Sampler f.F → ℕ → Bool → ℕ → Sampler f.F × ℤ
  on_ack_event_end b bandwidth_estimate is_new round_trip_count =
      let newly_acked = b.total_bytes_acked -i b.total_bytes_acked_after_last_ack_event in
      let r =
        update_tracker f b.max_ack_height_tracker
          (ack_event b bandwidth_estimate is_new round_trip_count newly_acked) in
      if eqb_ℤ newly_acked (pos 0) then (b, pos 0) else (
        record b {
          total_bytes_acked_after_last_ack_event = b.total_bytes_acked;
          max_ack_height_tracker = r.0;
          a0_candidates =
              if b.overestimate_avoidance && eqb_ℤ r.1 (pos 0)
              then push_back b.a0_candidates (less_recent_point b.recent_ack_points)
              else b.a0_candidates;
        },
        r.1,
      )

  -- The end of `OnCongestionEvent`, after both loops.
  unfoldable pub finish_event :
      Sampler f.F → Collected → SendTimeState → ℕ → ℕ → ℕ → Sampler f.F × CongestionEventSample
  finish_event b c state max_bandwidth upper_bound round_trip_count =
      let best = max max_bandwidth c.event.sample_max_bandwidth in
      let limited =
        if b.limit_max_ack_height_tracker_by_send_rate then max best c.max_send_rate else best in
      let r =
        on_ack_event_end b (min upper_bound limited)
          (ltb max_bandwidth c.event.sample_max_bandwidth) round_trip_count in
      (r.0, record (c.event) { last_packet_send_state = state; extra_acked = r.1 })

  -- Under a loss-only event only the send state is set.
  unfoldable pub on_congestion_event :
      Sampler f.F
      → ℕ
      → List AckedPacket
      → List LostPacket
      → ℕ
      → ℕ
      → ℕ
      → Option (Sampler f.F × CongestionEventSample)
  on_congestion_event b ack_time [] lost max_bandwidth upper_bound round_trip_count = do
    l ← lose b no_state lost
    some (l.0, record new_congestion_event_sample { last_packet_send_state = l.1 })
  on_congestion_event b ack_time (p ∷ ps) lost max_bandwidth upper_bound round_trip_count = do
    l ← lose b no_state lost
    r ← acknowledge l.0 ack_time nothing_collected (p ∷ ps)
    state ← last_state_of p ps lost l.1 r.1.last_state
    some (finish_event r.0 r.1 state max_bandwidth upper_bound round_trip_count)
