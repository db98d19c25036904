-- ===== src/Bbr/Tests.antt =====
-- A connection that sends one packet and has it acknowledged.
use qperf_go.Prelude.{
  ◌≤ℤ◌, ◌≡◌, refl, true, false, not, some, List, [], ◌∷◌, ℤ, pos, ◌*i◌, ◌*ℤ◌, i64, arith,
}
use qperf_go.Prelude.FixedPoint.{thousandths}
use qperf_go.Bbr.{
  probe_rtt, is_probe_rtt, Sender, Constants, new_bbr_sender, default_minimum_congestion_window,
  initial_congestion_window_packets,
}
use qperf_go.Bbr.Event.{Event, on_packet_sent_bbr, on_congestion_event_ex}
use qperf_go.Bbr.RecoveryLaws.{AckRound, Recovered, recover, recovering, recover_lem}
use qperf_go.Bbr.ProbeLaws.{Moment, done, stay, stay_lem}
use qperf_go.Bbr.Reach.{Proper, sent, event, Reachable, start, call, Sound, Reachable-Sound}

abbrev constants : Constants
constants = record {
  initial_packet_size_ipv4 = pos 1252;
  max_congestion_window_packets = pos 10000;
  max_packet_buffer_size = pos 1452;
  min_pacing_delay = pos 1_000_000;
}

abbrev datagram : ℤ
datagram = pos 1252

least_below :
    default_minimum_congestion_window constants ≤ℤ initial_congestion_window_packets *i datagram
unfolding ◌*i◌ ◌*ℤ◌ i64
least_below = omega arith

initial_below :
    initial_congestion_window_packets *i datagram
    ≤ℤ constants.max_congestion_window_packets *i datagram
unfolding ◌*i◌ ◌*ℤ◌ i64
initial_below = omega arith

abbrev sender : Sender ℤ
sender = new_bbr_sender thousandths constants datagram

-- Packet 0, of 1200 bytes, goes out at one second.
abbrev sender_sent : Sender ℤ
sender_sent =
    on_packet_sent_bbr thousandths constants sender 1_000_000_000 (pos 0) (pos 0) (pos 1200) true

sent-Reachable : Reachable thousandths constants datagram sender_sent
sent-Reachable = call start (sent sender 1_000_000_000 (pos 0) 0 (pos 1200) true (omega arith))

-- Its acknowledgement arrives after 50 milliseconds.
abbrev ack : Event
ack = record {
  prior_in_flight = pos 1200;
  event_time = 1_050_000_000;
  acked = record { packet_number = pos 0; bytes_acked = pos 1200 } ∷ [];
  lost = [];
  rtt = pos 50_000_000;
  rand = 3;
}

ack-Proper : Proper ack
ack-Proper = (omega arith, omega arith, (omega arith, omega arith), omega arith)

after_ack : (c : Sender ℤ) × (on_congestion_event_ex thousandths constants sender_sent ack ≡ some c)
after_ack =
    (Reachable-Sound thousandths constants datagram least_below initial_below sent-Reachable).next
      ack ack-Proper

Reachable-Sound_example : Sound thousandths constants datagram after_ack.0
Reachable-Sound_example =
    Reachable-Sound thousandths constants datagram least_below initial_below
      (call sent-Reachable (event sender_sent ack after_ack.0 ack-Proper after_ack.1))

-- A loss, then an acknowledgement of a packet that was sent before it, then of a later one.
abbrev at_full : Sender ℤ
at_full = record sender { is_at_full_bandwidth = true }

abbrev history : List AckRound
history =
    record { last_sent = pos 12; last_acked = pos 9; has_losses = false; is_round_start = true }
    ∷ record { last_sent = pos 10; last_acked = pos 5; has_losses = false; is_round_start = true }
    ∷ record { last_sent = pos 8; last_acked = pos 4; has_losses = true; is_round_start = false }
    ∷ []

recover_lem_example : Recovered at_full history (recover at_full history)
recover_lem_example = recover_lem at_full history refl

recovery_ends : recovering (pos 0) false history ≡ false
recovery_ends = refl

-- PROBE_RTT is to be left at three seconds; a round starts earlier.
abbrev probing : Sender ℤ
probing = record sender { mode = probe_rtt; exit_probe_rtt_at = 3_000_000_000 }

abbrev moments : List Moment
moments =
    record { now = 3_100_000_000; rand = 4; is_round_start = false }
    ∷ record { now = 2_950_000_000; rand = 1; is_round_start = true }
    ∷ record { now = 2_900_000_000; rand = 6; is_round_start = false }
    ∷ []

stay_lem_example :
    is_probe_rtt (stay thousandths (pos 1452) probing moments).mode
    ≡ not (done 3_000_000_000 probing.probe_rtt_round_passed moments)
stay_lem_example = stay_lem thousandths (pos 1452) probing moments refl refl

probing_ends : not (done 3_000_000_000 false moments) ≡ false
probing_ends = refl
