-- ===== src/Brutal/Rate.antt =====
-- The ack rate after any sequence of events.
use qperf_go.Prelude.{
  ℕ, ◌-◌, ◌/◌, ◌^◌, ◌≤◌, ◌<◌, ◌≡◌, refl, ap, ◌∙◌, Option, some, List, [], ◌∷◌, map, ◌>>=◌, length,
  arith, u64, ℤ,
}
use qperf_go.Prelude.Float.{Float64}
use qperf_go.Prelude.Time.{second, unix_epoch, unix, unix-pos}
use qperf_go.Sampler.{AckedPacket, LostPacket}
use qperf_go.Sampler.Safety.{Returns}
use qperf_go.Brutal.{
  BrutalSender, acks_of, losses_of, count_packets, rate_of, update_ack_rate, on_congestion_event_ex,
  new_brutal_sender,
}
use qperf_go.Brutal.Recent.{Batch, recent, Ordered}
use qperf_go.Brutal.Slots.{acks_in, losses_in, slots_after, count_packets-slots_after, sums}

-- One call of `OnCongestionEventEx`.
pub record Tick : Type 0 where
  pub time : ℕ
  pub acked : List AckedPacket
  pub lost : List LostPacket

abbrev pub batch : Tick → Batch
batch t = record {
  at = t.time / second - unix_epoch;
  acks = length t.acked;
  losses = length t.lost;
}

-- The events, newest first, came since 1970, none before an older one.
abbrev pub InTime : List Tick → Type 0
InTime [] = 0 ≤ 0
InTime (t ∷ ts) =
    (unix_epoch ≤ t.time / second)
    × (t.time / second < 2 ^ 63)
    × Ordered (t.time / second - unix_epoch) (map batch ts)
    × InTime ts

module _ (f : Float64) where
  unfoldable pub run : BrutalSender f.F → List Tick → Option (BrutalSender f.F)
  run b [] = some b
  run b (t ∷ ts) = do c ← run b ts; on_congestion_event_ex f c t.time t.acked t.lost

  abbrev pub RateOf : Batch → List Batch → f.F → Type 0
  RateOf e es rate =
      rate ≡ rate_of f (u64 (recent acks_in e.at (e ∷ es))) (u64 (recent losses_in e.at (e ∷ es)))

  step :
      (b : BrutalSender f.F) (t : Tick) (ts : List Tick)
      → b.pkt_info_slots ≡ slots_after (map batch ts)
      → InTime (t ∷ ts)
      → Returns
          (λ c.
            (c.pkt_info_slots ≡ slots_after (map batch (t ∷ ts)))
            × RateOf (batch t) (map batch ts) c.ack_rate)
          (on_congestion_event_ex f b t.time t.acked t.lost)
  unfolding on_congestion_event_ex update_ack_rate
  step b t ts e h =
      let now = unix-pos t.time h.0 in
      let es = map batch ts in
      let slots : count_packets b.pkt_info_slots (unix t.time) (length t.acked) (length t.lost)
          ≡ some (slots_after (batch t ∷ es)) =
        ap (λ s. count_packets s (unix t.time) (length t.acked) (length t.lost)) e
        ∙ (ap (λ n. count_packets (slots_after es) n (length t.acked) (length t.lost)) now
            ∙ count_packets-slots_after (batch t) es) in
      let a = sums acks_in acks_of (batch t) es (λ i. refl) h.2 (omega (arith, h.1)) in
      let l = sums losses_in losses_of (batch t) es (λ i. refl) h.2 (omega (arith, h.1)) in
      rw (slots, now, a, l) (_, refl, (refl, refl))

  run-slots :
      (b : BrutalSender f.F) (ts : List Tick)
      → b.pkt_info_slots ≡ slots_after []
      → InTime ts
      → Returns (λ c. c.pkt_info_slots ≡ slots_after (map batch ts)) (run b ts)
  unfolding run
  run-slots b [] e h = (b, refl, e)
  run-slots b (t ∷ ts) e h =
      let (c, r, s) = run-slots b ts e h.3 in
      let (d, q, k) = step c t ts s h in rw (r, q) (d, refl, k.0)

  -- For events that come in the order of their time, since 1970: after any sequence of them from a new
  -- sender, `OnCongestionEventEx` returns, and the ack rate is that of exactly the packets
  -- acknowledged and lost in the five seconds up to the latest event.
  pub ack_rate_lem :
      (initial_packet_size : ℤ) (bps : ℕ) (t : Tick) (ts : List Tick)
      → InTime (t ∷ ts)
      → Returns
          (λ c. RateOf (batch t) (map batch ts) c.ack_rate)
          (run (new_brutal_sender f initial_packet_size bps) (t ∷ ts))
  unfolding run new_brutal_sender
  ack_rate_lem initial_packet_size bps t ts h =
      let b = new_brutal_sender f initial_packet_size bps in
      let (c, r, s) = run-slots b ts refl h.3 in
      let (d, q, k) = step c t ts s h in rw (r, q) (d, refl, k.1)
