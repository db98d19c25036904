-- ===== src/Sampler/Tests.antt =====
-- The sampler on two packets: 0 of 1200 bytes at one second, 1 of 800 bytes ten milliseconds later.
use qperf_go.Prelude.{◌-◌, ◌≡◌, ◌^◌, refl, true, List, [], ◌∷◌, ℤ, pos, arith}
use qperf_go.Prelude.FixedPoint.{thousandths}
use qperf_go.RingBuffer.Inv.{IsValid, init-IsValid}
use qperf_go.AckPoints.{point_zero}
use qperf_go.PacketQueue.{is_empty, new_queue}
use qperf_go.PacketQueue.Inv.{Inv}
use qperf_go.PacketQueue.Emplace.{new_queue-Inv}
use qperf_go.Sampler.{Sampler, sent_packet_zero, AckedPacket, LostPacket, on_packet_sent}
use qperf_go.Sampler.Ack.{on_packet_acknowledged}
use qperf_go.Sampler.Event.{new_bandwidth_sampler, on_congestion_event}
use qperf_go.Sampler.Safety.{Returns, IsReady, entry_at, Acknowledged, on_packet_acknowledged_lem}
use qperf_go.Sampler.Accounting.{Counted, on_congestion_event_lem}
use qperf_go.Sampler.Sent.{SentAndAcked, sent_and_acked_lem, on_packet_sent-IsReady}

abbrev fresh : Sampler ℤ
fresh = new_bandwidth_sampler thousandths 10

fresh-IsValid : IsValid fresh.a0_candidates
unfolding new_bandwidth_sampler
fresh-IsValid = init-IsValid 256

fresh-Inv : Inv fresh.connection_state_map
unfolding new_bandwidth_sampler
fresh-Inv = new_queue-Inv 256

fresh_empty : is_empty fresh.connection_state_map ≡ true
unfolding new_bandwidth_sampler new_queue is_empty
fresh_empty = refl

abbrev one : Sampler ℤ
one = on_packet_sent fresh 1_000_000_000 (pos 0) (pos 1200) (pos 0) true

abbrev two : Sampler ℤ
two = on_packet_sent one 1_010_000_000 (pos 1) (pos 800) (pos 1200) true

two-IsReady : IsReady two
two-IsReady =
    on_packet_sent-IsReady one 1_010_000_000 1 (pos 800) (pos 1200) true
      (on_packet_sent-IsReady fresh 1_000_000_000 0 (pos 1200) (pos 0) true
        (fresh-IsValid, fresh-Inv) (omega arith))
      (omega arith)

sent_and_acked_lem_example : SentAndAcked fresh 0 (pos 1200) 1_050_000_000 one
sent_and_acked_lem_example =
    sent_and_acked_lem fresh 1_000_000_000 0 (pos 1200) (pos 0) 1_050_000_000 fresh-Inv
      fresh-IsValid (omega arith) (rw fresh_empty refl)

on_packet_acknowledged_lem_example :
    Returns
      (Acknowledged two (pos 1) (entry_at two.connection_state_map (pos 1)))
      (on_packet_acknowledged two 1_060_000_000 (pos 1))
on_packet_acknowledged_lem_example =
    on_packet_acknowledged_lem two 1_060_000_000 (pos 1) two-IsReady (omega arith)

abbrev acked : List AckedPacket
acked = record { packet_number = pos 1; bytes_acked = pos 800 } ∷ []

abbrev lost : List LostPacket
lost = record { packet_number = pos 0; bytes_lost = pos 1200 } ∷ []

on_congestion_event_lem_example :
    Returns
      (λ out. Counted two acked lost out.0)
      (on_congestion_event thousandths two 1_060_000_000 acked lost 0 (2 ^ 64 - 1) 1)
on_congestion_event_lem_example =
    on_congestion_event_lem thousandths two 1_060_000_000 acked lost 0 (2 ^ 64 - 1) 1 two-IsReady
      (omega arith, omega arith) (omega arith, omega arith)
