-- ===== src/Bbr.antt =====
-- internal/congestion/bbr/bbr_sender.go: the BBR sender `bbrSender`.
-- A method that changes `*b` returns the new sender; a panic is `none`. The constants of quic-go's
-- `congestion` package and what `rttStats`, `clock` and `rand` answer are parameters; gains are
-- `float64`s (`Prelude.Float`). The fields that the source marks as not used are left out.
pub mod Target
pub mod Modes
pub mod Cycle
pub mod Recovery
pub mod Windows
pub mod PacingRate
pub mod Event
pub mod WindowLaws
pub mod ProbeLaws
pub mod LimitLaws
mod Frame
pub mod EventLaws
pub mod Reach
pub mod RecoveryLaws
pub mod ModeLaws
mod Tests
use qperf_go.Prelude.{
  ℕ, ◌+◌, ◌-◌, ◌*◌, Bool, true, false, not, Option, none, some, if◌then◌else◌, ℤ, pos, ltb_ℤ, leb_ℤ,
  eqb_ℤ, ◌*i◌, ◌/◌, min_ℤ,
}
use qperf_go.Prelude.Float.{Float64}
use qperf_go.Prelude.Time.{second, millisecond}
use qperf_go.RingBuffer.{Zero}
use qperf_go.PacketQueue.{invalid_packet_number}
use qperf_go.WindowedFilter.{WindowedFilter, new_filter, max_filter, get_best}
use qperf_go.Pacer as Pacing
use qperf_go.Pacer.{Pacer, new_pacer}
use qperf_go.Bandwidth.{bytes_per_second}
use qperf_go.Sampler.{Sampler}
use qperf_go.Sampler.Event.{new_bandwidth_sampler}

pub data Mode : Type 0 where
  startup : Mode
  drain : Mode
  probe_bw : Mode
  probe_rtt : Mode

pub data RecoveryState : Type 0 where
  not_in_recovery : RecoveryState
  conservation : RecoveryState
  growth : RecoveryState

instance abbrev pub nat_zero : Zero ℕ
nat_zero = record { zero_value = 0 }

-- The constants of quic-go's `congestion` package that the sender uses.
pub record Constants : Type 0 where
  pub initial_packet_size_ipv4 : ℤ
  pub max_congestion_window_packets : ℤ
  pub max_packet_buffer_size : ℤ
  pub min_pacing_delay : ℤ

abbrev pub min_bps : ℤ
min_bps = pos 65536

abbrev pub initial_congestion_window_packets : ℤ
initial_congestion_window_packets = pos 32

abbrev pub default_minimum_congestion_window : Constants → ℤ
default_minimum_congestion_window k = pos 4 *i k.initial_packet_size_ipv4

abbrev pub gain_cycle_length : ℕ
gain_cycle_length = 8

abbrev pub bandwidth_window_size : ℕ
bandwidth_window_size = gain_cycle_length + 2

abbrev pub min_rtt_expiry : ℕ
min_rtt_expiry = 10 * second

abbrev pub probe_rtt_time : ℕ
probe_rtt_time = 200 * millisecond

abbrev pub rounds_without_growth_before_exiting_startup : ℤ
rounds_without_growth_before_exiting_startup = pos 3

abbrev pub default_startup_full_loss_count : ℕ
default_startup_full_loss_count = 8

abbrev pub max_bbr_burst_packets : ℤ
max_bbr_burst_packets = pos 3

pub record Sender (F : Type 0) : Type 0 where
  pub pacer : Pacer
  pub mode : Mode
  pub sampler : Sampler F
  pub round_trip_count : ℕ
  pub last_sent_packet : ℤ
  pub current_round_trip_end : ℤ
  pub num_loss_events_in_round : ℕ
  pub bytes_lost_in_round : ℤ
  pub max_bandwidth : WindowedFilter ℕ
  pub min_rtt : ℤ
  pub min_rtt_timestamp : ℕ
  pub congestion_window : ℤ
  pub initial_congestion_window : ℤ
  pub max_congestion_window : ℤ
  pub min_congestion_window : ℤ
  pub high_gain : F
  pub high_cwnd_gain : F
  pub drain_gain : F
  pub pacing_rate : ℕ
  pub pacing_gain : F
  pub congestion_window_gain : F
  pub congestion_window_gain_constant : F
  pub num_startup_rtts : ℤ
  pub cycle_current_offset : ℕ
  pub last_cycle_start : ℕ
  pub is_at_full_bandwidth : Bool
  pub rounds_without_bandwidth_gain : ℤ
  pub bandwidth_at_last_round : ℕ
  pub exiting_quiescence : Bool
  pub exit_probe_rtt_at : ℕ
  pub probe_rtt_round_passed : Bool
  pub last_sample_is_app_limited : Bool
  pub has_no_app_limited_sample : Bool
  pub recovery_state : RecoveryState
  pub end_recovery_at : ℤ
  pub recovery_window : ℤ
  pub enable_ack_aggregation_during_startup : Bool
  pub expire_ack_aggregation_in_startup : Bool
  pub drain_to_target : Bool
  pub detect_overshooting : Bool
  pub bytes_lost_while_detecting_overshooting : ℤ
  pub bytes_lost_multiplier_while_detecting_overshooting : ℕ
  pub cwnd_to_calculate_min_pacing_rate : ℤ
  pub max_datagram_size : ℤ
  pub bytes_in_flight : ℤ

abbrev pub is_startup : Mode → Bool
is_startup startup = true
is_startup _ = false

abbrev pub is_drain : Mode → Bool
is_drain drain = true
is_drain _ = false

abbrev pub is_probe_bw : Mode → Bool
is_probe_bw probe_bw = true
is_probe_bw _ = false

abbrev pub is_probe_rtt : Mode → Bool
is_probe_rtt probe_rtt = true
is_probe_rtt _ = false

module _ {F : Type 0} where
  unfoldable pub in_slow_start : Sender F → Bool
  in_slow_start b = is_startup b.mode

  -- `b.recoveryState != bbrRecoveryStateNotInRecovery`
  unfoldable pub in_recovery : Sender F → Bool
  in_recovery b = elim b.recovery_state [ not_in_recovery ↦ false | _ ↦ true ]

  unfoldable pub probe_rtt_congestion_window : Sender F → ℤ
  probe_rtt_congestion_window b = b.min_congestion_window

  unfoldable pub get_congestion_window : Sender F → ℤ
  get_congestion_window b =
      if is_probe_rtt b.mode
      then probe_rtt_congestion_window b
      else if in_recovery b
      then min_ℤ b.congestion_window b.recovery_window
      else b.congestion_window

  unfoldable pub can_send : Sender F → ℤ → Bool
  can_send b bytes_in_flight = ltb_ℤ bytes_in_flight (get_congestion_window b)

  unfoldable pub bandwidth_estimate : Sender F → ℕ
  bandwidth_estimate b = get_best b.max_bandwidth

  unfoldable pub set_high_gain : Sender F → F → Sender F
  set_high_gain b gain = record b {
    high_gain = gain;
    pacing_gain = if is_startup b.mode then gain else b.pacing_gain;
  }

  unfoldable pub set_high_cwnd_gain : Sender F → F → Sender F
  set_high_cwnd_gain b gain = record b {
    high_cwnd_gain = gain;
    congestion_window_gain = if is_startup b.mode then gain else b.congestion_window_gain;
  }

  unfoldable pub set_drain_gain : Sender F → F → Sender F
  set_drain_gain b gain = record b { drain_gain = gain }

  -- The `if cwndIsMinCwnd` sets the window to the value that it has.
  unfoldable pub set_max_datagram_size : Sender F → ℤ → Option (Sender F)
  set_max_datagram_size b s =
      let min_cwnd = eqb_ℤ b.congestion_window b.min_congestion_window in
      if ltb_ℤ s b.max_datagram_size
      then none
      else some (record b {
        max_datagram_size = s;
        congestion_window = if min_cwnd then b.min_congestion_window else b.congestion_window;
        pacer = Pacing.set_max_datagram_size b.pacer s;
      })

  unfoldable pub enter_startup_mode : Sender F → Sender F
  enter_startup_mode b = record b {
    mode = startup;
    pacing_gain = b.high_gain;
    congestion_window_gain = b.high_cwnd_gain;
  }

module _ (f : Float64) (k : Constants) where
  -- Before `enterStartupMode`.
  unfoldable pub fresh_sender : ℤ → ℤ → ℤ → Sender f.F
  fresh_sender datagram initial_window max_window = record {
    pacer = new_pacer k.initial_packet_size_ipv4;
    mode = startup;
    sampler = new_bandwidth_sampler f bandwidth_window_size;
    round_trip_count = 0;
    last_sent_packet = invalid_packet_number;
    current_round_trip_end = invalid_packet_number;
    num_loss_events_in_round = 0;
    bytes_lost_in_round = pos 0;
    max_bandwidth = new_filter bandwidth_window_size max_filter;
    min_rtt = pos 0;
    min_rtt_timestamp = 0;
    congestion_window = initial_window;
    initial_congestion_window = initial_window;
    max_congestion_window = max_window;
    min_congestion_window = default_minimum_congestion_window k;
    high_gain = f.lit 2885 1000;
    high_cwnd_gain = f.lit 2885 1000;
    drain_gain = f.lit 1000 2885;
    pacing_rate = 0;
    pacing_gain = f.lit 1 1;
    congestion_window_gain = f.lit 1 1;
    congestion_window_gain_constant = f.lit 2 1;
    num_startup_rtts = rounds_without_growth_before_exiting_startup;
    cycle_current_offset = 0;
    last_cycle_start = 0;
    is_at_full_bandwidth = false;
    rounds_without_bandwidth_gain = pos 0;
    bandwidth_at_last_round = 0;
    exiting_quiescence = false;
    exit_probe_rtt_at = 0;
    probe_rtt_round_passed = false;
    last_sample_is_app_limited = false;
    has_no_app_limited_sample = false;
    recovery_state = not_in_recovery;
    end_recovery_at = invalid_packet_number;
    recovery_window = max_window;
    enable_ack_aggregation_during_startup = false;
    expire_ack_aggregation_in_startup = false;
    drain_to_target = false;
    detect_overshooting = false;
    bytes_lost_while_detecting_overshooting = pos 0;
    bytes_lost_multiplier_while_detecting_overshooting = 2;
    cwnd_to_calculate_min_pacing_rate = initial_window;
    max_datagram_size = datagram;
    bytes_in_flight = pos 0;
  }

  unfoldable pub new_bbr_sender_from : ℤ → ℤ → ℤ → Sender f.F
  new_bbr_sender_from datagram initial_window max_window =
      set_high_cwnd_gain (enter_startup_mode (fresh_sender datagram initial_window max_window))
        (f.lit 2 1)

  unfoldable pub new_bbr_sender : ℤ → Sender f.F
  new_bbr_sender datagram =
      new_bbr_sender_from datagram (initial_congestion_window_packets *i datagram)
        (k.max_congestion_window_packets *i datagram)
