-- ===== src/CubicSender.antt =====
-- internal/congestion/cubic/cubic_sender.go: the sender that runs Cubic or Reno.
-- The package does not declare its `HybridSlowStart`, its `pacer` and some constants, so these are a
-- parameter; what `rttStats` answers at a call is an argument. A method that changes `*c` returns the
-- new value, and a panic is `none`. `reported` is what the tracer was told, newest first; a tracer
-- that is nil is told nothing.
pub mod Events
pub mod Calls
pub mod Cutback
pub mod Once
pub mod Limits
pub mod Cutbacks
pub mod Acks
pub mod Reach
mod Tests
use qperf_go.Prelude.{
  ℕ, ◌+◌, suc, Bool, true, false, Option, none, some, List, [], ◌∷◌, not, ◌&&◌, ◌||◌, if◌then◌else◌,
  leb, ℤ, pos, ltb_ℤ, leb_ℤ, eqb_ℤ, min_ℤ, max_ℤ, ◌+i◌, ◌-i◌, ◌*i◌, div_i, u64, to_u64, quotient,
  ◌>>=◌, max_i64, ◌^◌, ◌-◌,
}
use qperf_go.Prelude.Float.{Float64, Float32}
use qperf_go.Cubic.{
  Cubic, new_cubic, reset_cubic, cubic_application_limited, congestion_window_after_packet_loss,
  congestion_window_after_ack,
}

-- What the package uses and does not declare.
pub record Undeclared : Type 1 where
  pub HybridSlowStart : Type 0
  pub restart : HybridSlowStart → HybridSlowStart
  pub packet_sent : HybridSlowStart → ℤ → HybridSlowStart
  pub packet_acked : HybridSlowStart → ℤ → HybridSlowStart
  -- For the latest and the least round trip and the window in packets.
  pub should_exit : HybridSlowStart → ℤ → ℤ → ℤ → Bool × HybridSlowStart
  pub Pacer : Type 0
  -- For the bandwidth that its callback answers.
  pub sent_packet : Pacer → ℕ → ℕ → ℤ → Pacer
  pub budget : Pacer → ℕ → ℕ → ℤ
  pub time_until_send : Pacer → ℕ → ℕ
  pub set_datagram_size : Pacer → ℤ → Pacer
  pub inf_bandwidth : ℕ
  pub bandwidth_from_delta : ℤ → ℤ → ℕ
  -- `protocol.InvalidPacketNumber` and `protocol.MaxCongestionWindowPackets`.
  pub invalid_packet_number : ℤ
  pub max_congestion_window_packets : ℤ

pub data CongestionState : Type 0 where
  slow_start : CongestionState
  congestion_avoidance : CongestionState
  recovery : CongestionState
  application_limited : CongestionState

unfoldable pub same_state : CongestionState → CongestionState → Bool
same_state slow_start slow_start = true
same_state congestion_avoidance congestion_avoidance = true
same_state recovery recovery = true
same_state application_limited application_limited = true
same_state a b = false

abbrev pub max_burst_packets : ℤ
max_burst_packets = pos 3

abbrev pub min_congestion_window_packets : ℤ
min_congestion_window_packets = pos 2

abbrev pub initial_congestion_window_packets : ℤ
initial_congestion_window_packets = pos 32

abbrev pub max_byte_count : ℤ
max_byte_count = pos (2 ^ 62 - 1)

pub record CubicSender (H P : Type 0) : Type 0 where
  pub hybrid_slow_start : H
  pub cubic : Cubic
  pub pacer : P
  pub reno : Bool
  pub largest_sent_packet_number : ℤ
  pub largest_acked_packet_number : ℤ
  pub largest_sent_at_last_cutback : ℤ
  pub last_cutback_exited_slowstart : Bool
  pub congestion_window : ℤ
  pub slow_start_threshold : ℤ
  pub num_acked_packets : ℕ
  pub initial_congestion_window : ℤ
  pub initial_max_congestion_window : ℤ
  pub max_datagram_size : ℤ
  pub traced : Bool
  pub last_state : CongestionState
  pub reported : List CongestionState

module _ (u : Undeclared) where
  abbrev pub Sender : Type 0
  Sender = CubicSender u.HybridSlowStart u.Pacer

  -- `newCubicSender`, with the zero value of `HybridSlowStart` and the new pacer.
  unfoldable pub new_sender_from : u.HybridSlowStart → u.Pacer → Bool → ℤ → ℤ → ℤ → Bool → Sender
  new_sender_from start pacer reno size window max_window traced = record {
    hybrid_slow_start = start;
    cubic = new_cubic;
    pacer = pacer;
    reno = reno;
    largest_sent_packet_number = u.invalid_packet_number;
    largest_acked_packet_number = u.invalid_packet_number;
    largest_sent_at_last_cutback = u.invalid_packet_number;
    last_cutback_exited_slowstart = false;
    congestion_window = window;
    slow_start_threshold = max_byte_count;
    num_acked_packets = 0;
    initial_congestion_window = window;
    initial_max_congestion_window = max_window;
    max_datagram_size = size;
    traced = traced;
    last_state = slow_start;
    reported = if traced then slow_start ∷ [] else [];
  }

  unfoldable pub new_cubic_sender : u.HybridSlowStart → u.Pacer → Bool → ℤ → Bool → Sender
  new_cubic_sender start pacer reno size traced =
      new_sender_from start pacer reno size (initial_congestion_window_packets *i size)
        (u.max_congestion_window_packets *i size) traced

  unfoldable pub max_congestion_window : Sender → ℤ
  max_congestion_window c = c.max_datagram_size *i u.max_congestion_window_packets

  unfoldable pub min_congestion_window : Sender → ℤ
  min_congestion_window c = c.max_datagram_size *i min_congestion_window_packets

  unfoldable pub maybe_trace_state_change : Sender → CongestionState → Sender
  maybe_trace_state_change c new =
      if not c.traced || same_state new c.last_state
      then c
      else record c { last_state = new; reported = new ∷ c.reported }

  unfoldable pub in_slow_start : Sender → Bool
  in_slow_start c = ltb_ℤ c.congestion_window c.slow_start_threshold

  unfoldable pub in_recovery : Sender → Bool
  in_recovery c =
      not (eqb_ℤ c.largest_acked_packet_number u.invalid_packet_number)
      && leb_ℤ c.largest_acked_packet_number c.largest_sent_at_last_cutback

  abbrev pub cubic_can_send : Sender → ℤ → Bool
  cubic_can_send c bytes_in_flight = ltb_ℤ bytes_in_flight c.congestion_window

  -- `BandwidthEstimate`, for the smoothed round trip.
  unfoldable pub bandwidth_estimate : Sender → ℤ → ℕ
  bandwidth_estimate c smoothed_rtt =
      if eqb_ℤ smoothed_rtt (pos 0)
      then u.inf_bandwidth
      else u.bandwidth_from_delta c.congestion_window smoothed_rtt

  unfoldable pub cubic_time_until_send : Sender → ℤ → ℕ
  cubic_time_until_send c smoothed_rtt =
      u.time_until_send c.pacer (bandwidth_estimate c smoothed_rtt)

  unfoldable pub cubic_has_pacing_budget : Sender → ℤ → ℕ → Bool
  cubic_has_pacing_budget c smoothed_rtt now =
      leb_ℤ c.max_datagram_size (u.budget c.pacer (bandwidth_estimate c smoothed_rtt) now)

  unfoldable pub on_packet_sent : Sender → ℤ → ℕ → ℤ → ℤ → Bool → Sender
  on_packet_sent c smoothed_rtt sent_time packet_number bytes is_retransmittable =
      let sent = record c {
        pacer = u.sent_packet c.pacer (bandwidth_estimate c smoothed_rtt) sent_time bytes;
      } in
      if not is_retransmittable then sent else record sent {
        largest_sent_packet_number = packet_number;
        hybrid_slow_start = u.packet_sent c.hybrid_slow_start packet_number;
      }

  -- `MaybeExitSlowStart`: the hybrid slow start is asked only in slow start.
  unfoldable pub exit_slow_start : Sender → Bool × u.HybridSlowStart → Sender
  exit_slow_start c answer =
      let asked = record c { hybrid_slow_start = answer.1 } in
      if answer.0
      then maybe_trace_state_change (record asked { slow_start_threshold = c.congestion_window })
          congestion_avoidance
      else asked

  unfoldable pub maybe_exit_slow_start : Sender → ℤ → ℤ → Option Sender
  maybe_exit_slow_start c latest_rtt min_rtt =
      if in_slow_start c
      then (do
        packets ← quotient c.congestion_window c.max_datagram_size
        some (exit_slow_start c (u.should_exit c.hybrid_slow_start latest_rtt min_rtt packets)))
      else some c

  unfoldable pub is_cwnd_limited : Sender → ℤ → Bool
  is_cwnd_limited c bytes_in_flight =
      leb_ℤ c.congestion_window bytes_in_flight
      || (in_slow_start c && ltb_ℤ (div_i c.congestion_window 2) bytes_in_flight)
      || leb_ℤ (c.congestion_window -i bytes_in_flight) (max_burst_packets *i c.max_datagram_size)
