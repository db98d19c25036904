-- ===== src/Pacer/Tests.antt =====
-- A pacer of 1252-byte datagrams at 100000 bytes per second, half a second after its last packet.
use qperf_go.Prelude.{refl, pos, arith}
use qperf_go.Pacer.{Pacer, sent_packet}
use qperf_go.Pacer.Bounds.{Spent, sent_packet_lem}

abbrev pacer : Pacer
pacer = record { budget_at_last_sent = pos 500; max_datagram_size = pos 1252; last_sent_time = 7 }

sent_packet_lem_example :
    Spent
      (pos 1_000_000)
      (pos 100_000)
      pacer
      500_000_007
      1200
      (sent_packet (pos 1_000_000) pacer (pos 100_000) 500_000_007 (pos 1200))
sent_packet_lem_example =
    sent_packet_lem (pos 1_000_000) (pos 100_000) pacer 1252 500_000_007 1200 refl (omega arith)
