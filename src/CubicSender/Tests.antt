-- ===== src/CubicSender/Tests.antt =====
-- A Cubic sender with datagrams of 1252 bytes: two losses of one flight.
use qperf_go.Prelude.{
  ℕ, ◌*◌, ◌+◌, ◌≡◌, refl, true, false, List, [], ◌∷◌, ℤ, pos, negsuc, ◌≤ℤ◌, arith,
}
use qperf_go.Prelude.FixedPoint.{thousandths, thousandths32}
use qperf_go.Sampler.Safety.{Returns}
use qperf_go.Cubic.Concrete.{cube_root, thousandths-Grows, thousandths-reno, thousandths-cubic}
use qperf_go.CubicSender.{Undeclared, Sender, new_cubic_sender, new_sender_from}
use qperf_go.CubicSender.Events.{on_congestion_event}
use qperf_go.CubicSender.Calls.{Call, sent, acked, lost, run}
use qperf_go.CubicSender.Limits.{Sizes, Shrinks}
use qperf_go.CubicSender.Once.{once_lem}
use qperf_go.CubicSender.Reach.{window_lem}

-- A slow start that counts its packets and ends after 100 of them, and a pacer that counts bytes.
abbrev simple : Undeclared
simple = record {
  HybridSlowStart = ℕ;
  restart = λ n. 0;
  packet_sent = λ n number. n + 1;
  packet_acked = λ n number. n;
  should_exit = λ n latest min_rtt packets. (false, n);
  Pacer = ℤ;
  sent_packet = λ b bandwidth time bytes. bytes;
  budget = λ b bandwidth now. b;
  time_until_send = λ b bandwidth. 0;
  set_datagram_size = λ b size. b;
  inf_bandwidth = 1_000_000_000;
  bandwidth_from_delta = λ bytes delta. 1_000;
  invalid_packet_number = negsuc 0;
  max_congestion_window_packets = pos 10_000;
}

simple-Sizes : Sizes simple 1252 10_000
simple-Sizes = record {
  packets = refl;
  positive = omega arith;
  datagram = omega arith;
  most = omega arith;
  least = omega arith;
}

thousandths-Shrinks : Shrinks thousandths thousandths32
thousandths-Shrinks = record {
  reno = λ w h. thousandths-reno w;
  cubic = λ c w e h. thousandths-cubic c w e;
}

abbrev start : Sender simple
start = new_cubic_sender simple 0 (pos 0) false (pos 1252) true

abbrev send : ℕ → Call
send n = sent (pos 20_000_000) 1_000_000_000 (pos n) (pos 1252) true

abbrev calls : List Call
calls =
    acked (pos 2) 1252 (pos 40_000) (pos 20_000_000) 2_000_000_000
    ∷ lost (pos 1)
    ∷ send 3
    ∷ send 2
    ∷ send 1
    ∷ []

window_lem_example :
    Returns
      (λ c.
        (pos (2 * 1252) ≤ℤ c.congestion_window)
        × (c.congestion_window ≤ℤ pos (10_000 * 1252 + 1252)))
      (run simple cube_root thousandths thousandths32 start calls)
window_lem_example =
    window_lem simple 1252 10_000 simple-Sizes cube_root thousandths thousandths32 thousandths-Grows
      thousandths-Shrinks 0 (pos 0) false true calls (omega arith, omega arith)

-- Packets up to 3 were sent.
abbrev flight : Sender simple
flight = record start { largest_sent_packet_number = pos 3 }

once_lem_example :
    Returns
      (λ d. on_congestion_event simple cube_root thousandths thousandths32 d (pos 3) ≡ d)
      (run simple cube_root thousandths thousandths32
        (on_congestion_event simple cube_root thousandths thousandths32 flight (pos 1))
        (acked (pos 4) 1252 (pos 40_000) (pos 20_000_000) 2_000_000_000
          ∷ send 4
          ∷ lost (pos 2)
          ∷ []))
unfolding new_cubic_sender new_sender_from
once_lem_example =
    once_lem simple 1252 (omega arith) cube_root thousandths thousandths32 flight (pos 1) (pos 3)
      (acked (pos 4) 1252 (pos 40_000) (pos 20_000_000) 2_000_000_000 ∷ send 4 ∷ lost (pos 2) ∷ [])
      refl (omega arith) (omega arith, omega arith) (omega arith)
