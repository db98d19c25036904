-- ===== src/Sampler.antt =====
-- internal/congestion/bbr/bandwidth_sampler.go: `bandwidthSampler`, which makes a bandwidth sample
-- for each acknowledged packet.
-- A method that changes `*b` returns the new sampler; a panic is `none`. Packets, and the counts of
-- bytes, are `int64`.
pub mod Ack
pub mod Event
pub mod Accounting
pub mod Sent
pub mod AppLimited
pub mod Safety
mod Tests
use qperf_go.Prelude.{
  ◌>>=◌, ℕ, ◌+◌, ◌-◌, ◌^◌, min, max, Bool, true, false, ◌&&◌, ◌||◌, not, Option, none, some, List,
  [], ◌∷◌, ◌==◌, ltb, if◌then◌else◌, ◌>>=◌, ℤ, pos, ltb_ℤ, leb_ℤ, eqb_ℤ, ◌+i◌, ◌-i◌, min_ℤ,
}
use qperf_go.Prelude.Float.{Float64}
use qperf_go.Prelude.Time.{is_zero_time, sub_time}
use qperf_go.RingBuffer.{RingBuffer, Zero, init, push_back, clear}
use qperf_go.PacketQueue.{
  Queue, new_queue, emplace, get_entry, remove, remove_up_to, invalid_packet_number,
}
use qperf_go.Bandwidth.{inf_bandwidth, bandwidth_from_delta}
use qperf_go.AckPoints.{
  AckPoint, point_zero, RecentAckPoints, no_points, update_points, most_recent_point,
  less_recent_point, choose_a0_point,
}
use qperf_go.AckHeight
use qperf_go.AckHeight.{
  Tracker, AckEvent, new_tracker, update_tracker, get_height, reset_height,
  set_filter_window_length,
}

pub record SendTimeState : Type 0 where
  pub is_valid : Bool
  pub is_app_limited : Bool
  pub total_bytes_sent : ℤ
  pub total_bytes_acked : ℤ
  pub total_bytes_lost : ℤ
  pub bytes_in_flight : ℤ

abbrev pub no_state : SendTimeState
no_state = record {
  is_valid = false;
  is_app_limited = false;
  total_bytes_sent = pos 0;
  total_bytes_acked = pos 0;
  total_bytes_lost = pos 0;
  bytes_in_flight = pos 0;
}

pub record BandwidthSample : Type 0 where
  pub bandwidth : ℕ
  pub rtt : ℤ
  pub send_rate : ℕ
  pub state_at_send : SendTimeState

abbrev pub new_bandwidth_sample : BandwidthSample
new_bandwidth_sample = record {
  bandwidth = 0;
  rtt = pos 0;
  send_rate = inf_bandwidth;
  state_at_send = no_state;
}

-- `connectionStateOnSentPacket`
pub record SentPacket : Type 0 where
  pub sent_time : ℕ
  pub size : ℤ
  pub total_bytes_sent_at_last_acked_packet : ℤ
  pub last_acked_packet_sent_time : ℕ
  pub last_acked_packet_ack_time : ℕ
  pub send_time_state : SendTimeState

instance abbrev pub sent_packet_zero : Zero SentPacket
sent_packet_zero = record {
  zero_value = record {
    sent_time = 0;
    size = pos 0;
    total_bytes_sent_at_last_acked_packet = pos 0;
    last_acked_packet_sent_time = 0;
    last_acked_packet_ack_time = 0;
    send_time_state = no_state;
  };
}

abbrev pub inf_rtt : ℤ
inf_rtt = pos (2 ^ 63 - 1)

pub record CongestionEventSample : Type 0 where
  pub sample_max_bandwidth : ℕ
  pub sample_is_app_limited : Bool
  pub sample_rtt : ℤ
  pub sample_max_inflight : ℤ
  pub last_packet_send_state : SendTimeState
  pub extra_acked : ℤ

abbrev pub new_congestion_event_sample : CongestionEventSample
new_congestion_event_sample = record {
  sample_max_bandwidth = 0;
  sample_is_app_limited = false;
  sample_rtt = inf_rtt;
  sample_max_inflight = pos 0;
  last_packet_send_state = no_state;
  extra_acked = pos 0;
}

pub record Sampler (F : Type 0) : Type 0 where
  pub total_bytes_sent : ℤ
  pub total_bytes_acked : ℤ
  pub total_bytes_lost : ℤ
  pub total_bytes_neutered : ℤ
  pub total_bytes_sent_at_last_acked_packet : ℤ
  pub last_acked_packet_sent_time : ℕ
  pub last_acked_packet_ack_time : ℕ
  pub last_sent_packet : ℤ
  pub last_acked_packet : ℤ
  pub is_app_limited : Bool
  pub end_of_app_limited_phase : ℤ
  pub connection_state_map : Queue SentPacket
  pub recent_ack_points : RecentAckPoints
  pub a0_candidates : RingBuffer AckPoint
  pub max_ack_height_tracker : Tracker F
  pub total_bytes_acked_after_last_ack_event : ℤ
  pub overestimate_avoidance : Bool
  pub limit_max_ack_height_tracker_by_send_rate : Bool

-- `congestion.AckedPacketInfo` and `congestion.LostPacketInfo`, as far as they are read.
pub record AckedPacket : Type 0 where
  pub packet_number : ℤ
  pub bytes_acked : ℤ

pub record LostPacket : Type 0 where
  pub packet_number : ℤ
  pub bytes_lost : ℤ

-- `sentPacketToSendTimeState`, on the pointer that `GetEntry` returned.
abbrev pub send_time_state_of : Option SentPacket → SendTimeState
send_time_state_of none = no_state
send_time_state_of (some p) = record (p.send_time_state) { is_valid = true }

-- The callback of `OnPacketNeutered` runs on the removed entry.
abbrev pub neutered_bytes : ℤ → Option SentPacket → ℤ
neutered_bytes n none = n
neutered_bytes n (some p) = n +i p.size

module _ {F : Type 0} where
  unfoldable pub max_ack_height : Sampler F → ℤ
  max_ack_height b = get_height b.max_ack_height_tracker

  unfoldable pub reset_max_ack_height_tracker : Sampler F → ℤ → ℕ → Sampler F
  reset_max_ack_height_tracker b new_height new_time = record b {
    max_ack_height_tracker = reset_height b.max_ack_height_tracker new_height new_time;
  }

  unfoldable pub set_max_ack_height_tracker_window_length : Sampler F → ℕ → Sampler F
  set_max_ack_height_tracker_window_length b length = record b {
    max_ack_height_tracker = AckHeight.set_filter_window_length b.max_ack_height_tracker length;
  }

  unfoldable pub set_start_new_aggregation_epoch_after_full_round : Sampler F → Bool → Sampler F
  set_start_new_aggregation_epoch_after_full_round b value = record b {
    max_ack_height_tracker =
        AckHeight.set_start_new_aggregation_epoch_after_full_round b.max_ack_height_tracker value;
  }

  unfoldable pub set_limit_max_ack_height_tracker_by_send_rate : Sampler F → Bool → Sampler F
  set_limit_max_ack_height_tracker_by_send_rate b value = record b {
    limit_max_ack_height_tracker_by_send_rate = value;
  }

  unfoldable pub set_reduce_extra_acked_on_bandwidth_increase : Sampler F → Bool → Sampler F
  set_reduce_extra_acked_on_bandwidth_increase b value = record b {
    max_ack_height_tracker =
        AckHeight.set_reduce_extra_acked_on_bandwidth_increase b.max_ack_height_tracker value;
  }

  -- The snapshot `newConnectionStateOnSentPacket`.
  unfoldable pub new_sent_packet : Sampler F → ℕ → ℤ → ℤ → SentPacket
  new_sent_packet b sent_time size bytes_in_flight = record {
    sent_time = sent_time;
    size = size;
    total_bytes_sent_at_last_acked_packet = b.total_bytes_sent_at_last_acked_packet;
    last_acked_packet_sent_time = b.last_acked_packet_sent_time;
    last_acked_packet_ack_time = b.last_acked_packet_ack_time;
    send_time_state = record {
      is_valid = true;
      is_app_limited = b.is_app_limited;
      total_bytes_sent = b.total_bytes_sent;
      total_bytes_acked = b.total_bytes_acked;
      total_bytes_lost = b.total_bytes_lost;
      bytes_in_flight = bytes_in_flight;
    };
  }

  -- The ack points of a sender that was quiet start again at `sent_time`.
  unfoldable pub restart_points : Sampler F → ℕ → Sampler F
  restart_points b sent_time =
      let points = update_points no_points sent_time b.total_bytes_acked in
      if b.overestimate_avoidance
      then record b {
        recent_ack_points = points;
        a0_candidates = push_back (clear b.a0_candidates) (most_recent_point points);
      }
      else b

  unfoldable pub leave_quiescence : Sampler F → ℕ → Sampler F
  leave_quiescence b sent_time = record (restart_points b sent_time) {
    last_acked_packet_ack_time = sent_time;
    total_bytes_sent_at_last_acked_packet = b.total_bytes_sent;
    last_acked_packet_sent_time = sent_time;
  }

  -- The recording of a retransmittable packet.
  unfoldable pub record_sent : Sampler F → ℕ → ℤ → ℤ → ℤ → Sampler F
  record_sent b sent_time packet_number bytes bytes_in_flight =
      let q =
        emplace b.connection_state_map packet_number
          (some (new_sent_packet b sent_time bytes (bytes_in_flight +i bytes))) in
      record b { connection_state_map = q.0 }

  unfoldable pub on_packet_sent : Sampler F → ℕ → ℤ → ℤ → ℤ → Bool → Sampler F
  on_packet_sent b sent_time packet_number bytes bytes_in_flight is_retransmittable =
      let sent : Sampler F = record b { last_sent_packet = packet_number } in
      let added : Sampler F = record sent { total_bytes_sent = b.total_bytes_sent +i bytes } in
      if is_retransmittable
      then record_sent
          (if eqb_ℤ bytes_in_flight (pos 0) then leave_quiescence added sent_time else added)
          sent_time packet_number bytes bytes_in_flight
      else sent

  -- A panic of the lookup is `none`.
  unfoldable pub on_packet_lost : Sampler F → ℤ → ℤ → Option (Sampler F × SendTimeState)
  on_packet_lost b packet_number bytes_lost = do
    p ← get_entry b.connection_state_map packet_number
    some (record b { total_bytes_lost = b.total_bytes_lost +i bytes_lost }, send_time_state_of p)

  unfoldable pub on_packet_neutered : Sampler F → ℤ → Option (Sampler F)
  on_packet_neutered b packet_number = do
    r ← remove b.connection_state_map packet_number
    some (record b {
      connection_state_map = r.0;
      total_bytes_neutered = neutered_bytes b.total_bytes_neutered r.1;
    })

  unfoldable pub on_app_limited : Sampler F → Sampler F
  on_app_limited b = record b {
    is_app_limited = true;
    end_of_app_limited_phase = b.last_sent_packet;
  }

  unfoldable pub remove_obsolete_packets : Sampler F → ℤ → Sampler F
  remove_obsolete_packets b least_unacked = record b {
    connection_state_map = remove_up_to b.connection_state_map least_unacked;
  }
