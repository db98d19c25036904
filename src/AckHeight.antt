-- ===== src/AckHeight.antt =====
-- internal/congestion/bbr/bandwidth_sampler.go: `maxAckHeightTracker`, which tracks how much more
-- than the estimated bandwidth is acknowledged at once.
-- The threshold is a `float64` (`Prelude.Float`).
use qperf_go.Prelude.{
  ℕ, ◌+◌, Bool, false, not, ◌&&◌, ◌||◌, ℤ, pos, negsuc, ltb_ℤ, leb_ℤ, eqb_ℤ, ◌+i◌, ◌-i◌, u64,
  if◌then◌else◌,
}
use qperf_go.Prelude.Float.{Float64}
use qperf_go.Prelude.Time.{is_zero_time, sub_time}
use qperf_go.RingBuffer.{Zero}
use qperf_go.PacketQueue.{invalid_packet_number}
use qperf_go.Bandwidth.{bytes_from_bandwidth_and_time_delta}
use qperf_go.WindowedFilter as Filter
use qperf_go.WindowedFilter.{WindowedFilter, new_filter, get_best, get_second_best, get_third_best}

pub record ExtraAckedEvent : Type 0 where
  pub extra_acked : ℤ
  pub bytes_acked : ℤ
  pub time_delta : ℤ
  pub round : ℕ

abbrev pub no_event : ExtraAckedEvent
no_event = record { extra_acked = pos 0; bytes_acked = pos 0; time_delta = pos 0; round = 0 }

instance abbrev pub event_zero : Zero ExtraAckedEvent
event_zero = record { zero_value = no_event }

unfoldable pub max_extra_acked_event_func : ExtraAckedEvent → ExtraAckedEvent → ℤ
max_extra_acked_event_func a b =
    if ltb_ℤ b.extra_acked a.extra_acked
    then pos 1
    else if ltb_ℤ a.extra_acked b.extra_acked
    then negsuc 0
    else pos 0

pub record Tracker (F : Type 0) : Type 0 where
  pub max_ack_height_filter : WindowedFilter ExtraAckedEvent
  pub aggregation_epoch_start_time : ℕ
  pub aggregation_epoch_bytes : ℤ
  pub last_sent_packet_number_before_epoch : ℤ
  pub num_ack_aggregation_epochs : ℕ
  pub ack_aggregation_bandwidth_threshold : F
  pub start_new_aggregation_epoch_after_full_round : Bool
  pub reduce_extra_acked_on_bandwidth_increase : Bool

-- What `Update` is told of an ack event.
pub record AckEvent : Type 0 where
  pub bandwidth_estimate : ℕ
  pub is_new_max_bandwidth : Bool
  pub round_trip_count : ℕ
  pub last_sent_packet_number : ℤ
  pub last_acked_packet_number : ℤ
  pub ack_time : ℕ
  pub bytes_acked : ℤ

-- An old event goes back into the filter if it is still above the new bandwidth.
unfoldable pub reinsert :
    ℕ → WindowedFilter ExtraAckedEvent → ExtraAckedEvent → WindowedFilter ExtraAckedEvent
reinsert bandwidth f e =
    let expected = bytes_from_bandwidth_and_time_delta bandwidth e.time_delta in
    if ltb_ℤ expected e.bytes_acked
    then Filter.update f (record e { extra_acked = e.bytes_acked -i expected }) e.round
    else f

unfoldable pub recalculate : ℕ → WindowedFilter ExtraAckedEvent → WindowedFilter ExtraAckedEvent
recalculate bandwidth f =
    let g = reinsert bandwidth (Filter.clear f) (get_best f) in
    reinsert bandwidth (reinsert bandwidth g (get_second_best f)) (get_third_best f)

module _ {F : Type 0} where
  unfoldable pub get_height : Tracker F → ℤ
  get_height m = let e = get_best m.max_ack_height_filter in e.extra_acked

  unfoldable pub start_epoch : Tracker F → AckEvent → Tracker F
  start_epoch m e = record m {
    aggregation_epoch_bytes = e.bytes_acked;
    aggregation_epoch_start_time = e.ack_time;
    last_sent_packet_number_before_epoch = e.last_sent_packet_number;
    num_ack_aggregation_epochs = u64 (m.num_ack_aggregation_epochs + 1);
  }

  unfoldable pub force_new_epoch : Tracker F → AckEvent → Bool
  force_new_epoch m e =
      m.start_new_aggregation_epoch_after_full_round
      && not (eqb_ℤ m.last_sent_packet_number_before_epoch invalid_packet_number)
      && not (eqb_ℤ e.last_acked_packet_number invalid_packet_number)
      && ltb_ℤ m.last_sent_packet_number_before_epoch e.last_acked_packet_number

  -- The epoch goes on: its bytes and the bytes beyond the expected ones.
  unfoldable pub extend_epoch : Tracker F → AckEvent → ℤ → ℤ → Tracker F × ℤ
  extend_epoch m e delta expected =
      let bytes = m.aggregation_epoch_bytes +i e.bytes_acked in
      let event : ExtraAckedEvent = record {
        extra_acked = expected;
        bytes_acked = bytes;
        time_delta = delta;
        round = 0;
      } in
      (
        record m {
          aggregation_epoch_bytes = bytes;
          max_ack_height_filter = Filter.update m.max_ack_height_filter event e.round_trip_count;
        },
        bytes -i expected,
      )

  unfoldable pub set_filter_window_length : Tracker F → ℕ → Tracker F
  set_filter_window_length m length = record m {
    max_ack_height_filter = Filter.set_window_length m.max_ack_height_filter length;
  }

  unfoldable pub set_ack_aggregation_bandwidth_threshold : Tracker F → F → Tracker F
  set_ack_aggregation_bandwidth_threshold m threshold = record m {
    ack_aggregation_bandwidth_threshold = threshold;
  }

  unfoldable pub set_start_new_aggregation_epoch_after_full_round : Tracker F → Bool → Tracker F
  set_start_new_aggregation_epoch_after_full_round m value = record m {
    start_new_aggregation_epoch_after_full_round = value;
  }

  unfoldable pub set_reduce_extra_acked_on_bandwidth_increase : Tracker F → Bool → Tracker F
  set_reduce_extra_acked_on_bandwidth_increase m value = record m {
    reduce_extra_acked_on_bandwidth_increase = value;
  }

  unfoldable pub reset_height : Tracker F → ℤ → ℕ → Tracker F
  reset_height m new_height new_time = record m {
    max_ack_height_filter =
        Filter.reset m.max_ack_height_filter
          (record no_event { extra_acked = new_height; round = new_time }) new_time;
  }

module _ (f : Float64) where
  unfoldable pub new_tracker : ℕ → Tracker f.F
  new_tracker window_length = record {
    max_ack_height_filter = new_filter window_length max_extra_acked_event_func;
    aggregation_epoch_start_time = 0;
    aggregation_epoch_bytes = pos 0;
    last_sent_packet_number_before_epoch = invalid_packet_number;
    num_ack_aggregation_epochs = 0;
    ack_aggregation_bandwidth_threshold = f.lit 1 1;
    start_new_aggregation_epoch_after_full_round = false;
    reduce_extra_acked_on_bandwidth_increase = false;
  }

  -- `Update` after the filter was recalculated.
  unfoldable pub update_epoch : Tracker f.F → AckEvent → Tracker f.F × ℤ
  update_epoch m e =
      let delta = sub_time e.ack_time m.aggregation_epoch_start_time in
      let expected = bytes_from_bandwidth_and_time_delta e.bandwidth_estimate delta in
      if is_zero_time m.aggregation_epoch_start_time || force_new_epoch m e
      then (start_epoch m e, pos 0)
      else if leb_ℤ m.aggregation_epoch_bytes
          (f.to_int (f.mul m.ack_aggregation_bandwidth_threshold (f.of_int expected)))
      then (start_epoch m e, pos 0)
      else extend_epoch m e delta expected

  unfoldable pub update_tracker : Tracker f.F → AckEvent → Tracker f.F × ℤ
  update_tracker m e =
      update_epoch
        (if m.reduce_extra_acked_on_bandwidth_increase && e.is_new_max_bandwidth
          then record m {
            max_ack_height_filter = recalculate e.bandwidth_estimate m.max_ack_height_filter;
          }
          else m)
        e
