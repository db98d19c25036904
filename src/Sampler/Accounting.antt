-- ===== src/Sampler/Accounting.antt =====
-- What a congestion event does to the sampler's counts, and that it returns.
use qperf_go.Prelude.{
  ℕ, ◌≡◌, refl, ap, ◌∙◌, Bool, List, [], ◌∷◌, if◌then◌else◌, ℤ, ltb, max, min, ◌+i◌, arith, ◌≤◌,
  ◌<◌, ◌^◌, pos_part, subst, sym, some, some_inj, false, not, Bool-cases, inl, inr,
}
use qperf_go.Prelude.Float.{Float64}
use qperf_go.RingBuffer.Inv.{IsValid}
use qperf_go.RingBuffer.Refine.{push_back_refines}
use qperf_go.PacketQueue.{Queue}
use qperf_go.PacketQueue.Lookup.{get_entry-Returns}
use qperf_go.PacketQueue.Inv.{Inv}
use qperf_go.AckPoints.{point_zero, less_recent_point}
use qperf_go.Sampler.{
  Sampler, SentPacket, sent_packet_zero, SendTimeState, no_state, AckedPacket, LostPacket,
  on_packet_lost, send_time_state_of,
}
use qperf_go.Sampler.Event.{
  Collected, collect, nothing_collected, lose, acknowledge, on_ack_event_end, finish_event,
  on_congestion_event, last_lost, last_state_of,
}
use qperf_go.Sampler.Safety.{Returns, IsReady, entry_at, acked_total, on_packet_acknowledged_lem}

-- The acknowledged bytes after the packets of an event: each known packet counts with the size that
-- it was sent with.
abbrev pub acked_sum : Queue SentPacket → ℤ → List AckedPacket → ℤ
acked_sum q n [] = n
acked_sum q n (p ∷ ps) = acked_sum q (acked_total n (entry_at q p.packet_number)) ps

-- Packet numbers are `int64`s.
abbrev pub AckedInRange : List AckedPacket → Type 0
AckedInRange [] = 0 ≤ 0
AckedInRange (p ∷ ps) = (pos_part p.packet_number < 2 ^ 63) × AckedInRange ps

abbrev pub LostInRange : List LostPacket → Type 0
LostInRange [] = 0 ≤ 0
LostInRange (p ∷ ps) = (pos_part p.packet_number < 2 ^ 63) × LostInRange ps

abbrev pub lost_sum : ℤ → List LostPacket → ℤ
lost_sum n [] = n
lost_sum n (p ∷ ps) = lost_sum (n +i p.bytes_lost) ps

-- What an event with these packets does to the sampler.
pub record Counted {F : Type 0} (b : Sampler F) (acked : List AckedPacket) (lost : List LostPacket)
    (c : Sampler F) : Type 0 where
  pub valid : IsValid c.a0_candidates
  pub acked_bytes : c.total_bytes_acked ≡ acked_sum b.connection_state_map b.total_bytes_acked acked
  pub lost_bytes : c.total_bytes_lost ≡ lost_sum b.total_bytes_lost lost
  pub sent_bytes : c.total_bytes_sent ≡ b.total_bytes_sent
  pub packets : c.connection_state_map ≡ b.connection_state_map

pub last_lost-Returns :
    (p : LostPacket) (ps : List LostPacket) → (n : ℤ) × (last_lost (p ∷ ps) ≡ some n)
unfolding last_lost
last_lost-Returns p [] = (_, refl)
last_lost-Returns p (q ∷ ps) = last_lost-Returns q ps

module _ {F : Type 0} where
  lose-Counted :
      (b : Sampler F) (s : SendTimeState) (ps : List LostPacket)
      → IsReady b
      → LostInRange ps
      → Returns (λ out. Counted b [] ps out.0) (lose b s ps)
  unfolding lose on_packet_lost
  lose-Counted b s [] v l = (
    _,
    refl,
    record {
      valid = v.0;
      acked_bytes = refl;
      lost_bytes = refl;
      sent_bytes = refl;
      packets = refl;
    },
  )
  lose-Counted b s (p ∷ ps) v l =
      let (o, e) = get_entry-Returns b.connection_state_map p.packet_number v.1 l.0 in
      let t = send_time_state_of o in
      let c : Sampler F = record b { total_bytes_lost = b.total_bytes_lost +i p.bytes_lost } in
      let (out, e', h) = lose-Counted c (if t.is_valid then t else s) ps v l.1 in
      rw (e, e')
        (
          out,
          refl,
          record {
            valid = h.valid;
            acked_bytes = h.acked_bytes;
            lost_bytes = h.lost_bytes;
            sent_bytes = h.sent_bytes;
            packets = h.packets;
          },
        )

  -- The last lost packet is read only where a lost packet was known, so that there is one.
  pub last_state_of-Returns :
      (b : Sampler F) (a : AckedPacket) (acked : List AckedPacket) (lost : List LostPacket)
      → (l : Sampler F × SendTimeState) (acked_state : SendTimeState)
      → lose b no_state lost ≡ some l
      → Returns (λ state. state ≡ state) (last_state_of a acked lost l.1 acked_state)
  unfolding last_state_of last_lost lose
  last_state_of-Returns b a acked [] l acked_state e =
      let none_known : l.1.is_valid ≡ false = ap (λ x. x.1.is_valid) (sym (some_inj e)) in
      rw none_known (_, refl, refl)
  last_state_of-Returns b a acked (p ∷ ps) l acked_state e =
      let (n, q) = last_lost-Returns p ps in
      elim (Bool-cases (not l.1.is_valid)) [
        | inl t ↦ rw t (_, refl, refl)
        | inr t ↦ elim (Bool-cases (not acked_state.is_valid)) [
          | inl t' ↦ rw (t, t') (_, refl, refl)
          | inr t' ↦ rw (t, t', q) (_, refl, refl)
        ]
      ]

  -- What the loop over the acknowledged packets needs of a sampler survives a step.
  pub Counted-IsReady :
      {acked : List AckedPacket} {lost : List LostPacket} (b c : Sampler F)
      → IsReady b
      → Counted b acked lost c
      → IsReady c
  Counted-IsReady b c v h = (h.valid, subst Inv (sym h.packets) v.1)

  acknowledge-Counted :
      (b : Sampler F) (now : ℕ) (c : Collected) (ps : List AckedPacket)
      → IsReady b
      → AckedInRange ps
      → Returns (λ out. Counted b ps [] out.0) (acknowledge b now c ps)
  unfolding acknowledge
  acknowledge-Counted b now c [] v i = (
    _,
    refl,
    record {
      valid = v.0;
      acked_bytes = refl;
      lost_bytes = refl;
      sent_bytes = refl;
      packets = refl;
    },
  )
  acknowledge-Counted b now c (p ∷ ps) v i =
      let (r, e, h) = on_packet_acknowledged_lem b now p.packet_number v i.0 in
      let c' = if r.1.state_at_send.is_valid then collect c r.1 r.0.total_bytes_acked else c in
      let (out, e', g) =
        acknowledge-Counted r.0 now c' ps (h.valid, subst Inv (sym h.packets) v.1) i.1 in
      rw (e, e')
        (
          out,
          refl,
          record {
            valid = g.valid;
            acked_bytes =
                g.acked_bytes
                ∙ (ap (λ q. acked_sum q r.0.total_bytes_acked ps) h.packets
                    ∙ ap (λ n. acked_sum b.connection_state_map n ps) h.acked);
            lost_bytes = g.lost_bytes ∙ h.lost;
            sent_bytes = g.sent_bytes ∙ h.sent;
            packets = g.packets ∙ h.packets;
          },
        )

module _ (f : Float64) where
  end-Counted :
      (b : Sampler f.F) (best : ℕ) (new : Bool) (round : ℕ)
      → IsValid b.a0_candidates
      → Counted b [] [] (on_ack_event_end f b best new round).0
  unfolding on_ack_event_end
  end-Counted b best new round v = record {
    valid =
        ground (arith, push_back_refines b.a0_candidates (less_recent_point b.recent_ack_points) v);
    acked_bytes = ground arith;
    lost_bytes = ground arith;
    sent_bytes = ground arith;
    packets = ground arith;
  }

  -- For a sampler with a valid buffer of candidates and a packet queue that keeps its invariant, a
  -- congestion event whose packet numbers are `int64`s never panics: it returns a sample, adds the sizes of the known acknowledged packets and the lost bytes to its counts, and
  -- leaves the sent bytes and the recorded packets as they were.
  pub on_congestion_event_lem :
      (b : Sampler f.F) (now : ℕ) (acked : List AckedPacket) (lost : List LostPacket)
      → (best upper round : ℕ) → IsReady b
      → AckedInRange acked
      → LostInRange lost
      → Returns
          (λ out. Counted b acked lost out.0)
          (on_congestion_event f b now acked lost best upper round)
  unfolding on_congestion_event finish_event
  on_congestion_event_lem b now [] lost best upper round v i j =
      let (l, e, h) = lose-Counted b no_state lost v j in rw e (_, refl, h)
  on_congestion_event_lem b now (p ∷ ps) lost best upper round v a j =
      let (l, d, h) = lose-Counted b no_state lost v j in
      let (r, e, g) =
        acknowledge-Counted l.0 now nothing_collected (p ∷ ps) (Counted-IsReady b l.0 v h) a in
      let (state, t, _) = last_state_of-Returns b p ps lost l r.1.last_state d in
      let best' = max best r.1.event.sample_max_bandwidth in
      let limited =
        if r.0.limit_max_ack_height_tracker_by_send_rate
        then max best' r.1.max_send_rate
        else best' in
      let i =
        end-Counted r.0 (min upper limited) (ltb best r.1.event.sample_max_bandwidth) round
          g.valid in
      rw (d, e, t)
        (
          _,
          refl,
          record {
            valid = i.valid;
            acked_bytes =
                i.acked_bytes
                ∙ (g.acked_bytes
                    ∙ (ap (λ q. acked_sum q l.0.total_bytes_acked (p ∷ ps)) h.packets
                        ∙ ap (λ n. acked_sum b.connection_state_map n (p ∷ ps)) h.acked_bytes));
            lost_bytes = i.lost_bytes ∙ (g.lost_bytes ∙ h.lost_bytes);
            sent_bytes = i.sent_bytes ∙ (g.sent_bytes ∙ h.sent_bytes);
            packets = i.packets ∙ (g.packets ∙ h.packets);
          },
        )
