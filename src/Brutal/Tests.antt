-- ===== src/Brutal/Tests.antt =====
-- Three events of a Brutal sender, the oldest of them six seconds before the latest.
use qperf_go.Prelude.{ℕ, ◌*◌, ◌+◌, ◌≡◌, refl, List, [], ◌∷◌, map, pos, arith, replicate}
use qperf_go.Prelude.FixedPoint.{thousandths}
use qperf_go.Prelude.Time.{second, unix_epoch}
use qperf_go.Sampler.{AckedPacket, LostPacket}
use qperf_go.Sampler.Safety.{Returns}
use qperf_go.Brutal.{new_brutal_sender}
use qperf_go.Brutal.Recent.{recent}
use qperf_go.Brutal.Slots.{acks_in}
use qperf_go.Brutal.Rate.{Tick, batch, run, RateOf, ack_rate_lem}

abbrev acks : ℕ → List AckedPacket
acks n = replicate n (record { packet_number = pos 7; bytes_acked = pos 1200 })

abbrev losses : ℕ → List LostPacket
losses n = replicate n (record { packet_number = pos 5; bytes_lost = pos 1200 })

abbrev tick : ℕ → ℕ → ℕ → Tick
tick s a l = record { time = (unix_epoch + s) * second; acked = acks a; lost = losses l }

abbrev latest_tick : Tick
latest_tick = tick 1_000_006 60 20

abbrev earlier : List Tick
earlier = tick 1_000_003 30 0 ∷ tick 1_000_000 9 9 ∷ []

ack_rate_lem_example :
    Returns
      (λ c. RateOf thousandths (batch latest_tick) (map batch earlier) c.ack_rate)
      (run thousandths (new_brutal_sender thousandths (pos 1252) 5_242_880) (latest_tick ∷ earlier))
ack_rate_lem_example =
    ack_rate_lem thousandths (pos 1252) 5_242_880 latest_tick earlier (omega arith)

recent_acks : recent acks_in (batch latest_tick).at (map batch (latest_tick ∷ earlier)) ≡ 90
recent_acks = refl
