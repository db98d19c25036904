-- ===== src/Sampler/Safety.antt =====
-- That an acknowledgement returns, and what it does to the sampler.
use qperf_go.Prelude.{
  ◌∙◌, ltb_ℤ, eqb_ℤ, not, ◌&&◌, ◌||◌, ℕ, ◌≤◌, ◌≡◌, refl, ap, ◌⊎◌, Bool, Option, none, some, ltb, ℤ,
  pos, leb_ℤ, ◌+i◌, ◌-i◌, arith, inl, inr, Bool-cases, ltb→lt, ◌<◌, ◌^◌, pos_part,
}
use qperf_go.Prelude.Time.{is_zero_time, sub_time}
use qperf_go.RingBuffer.{clear}
use qperf_go.RingBuffer.Inv.{IsValid, clear-IsValid}
use qperf_go.RingBuffer.Refine.{push_back_refines}
use qperf_go.PacketQueue.{Queue, get_entry, invalid_packet_number}
use qperf_go.PacketQueue.Inv.{Inv}
use qperf_go.PacketQueue.Lookup.{get_entry-Returns}
use qperf_go.Bandwidth.Rates.{sub_time-positive, bandwidth_from_delta-some}
use qperf_go.AckPoints.{AckPoint, no_points, update_points, most_recent_point, point_zero}
use qperf_go.AckPoints.Choice.{choose_a0_point_lem}
use qperf_go.Sampler.{
  Sampler, on_packet_sent, record_sent, leave_quiescence, restart_points, SentPacket,
  sent_packet_zero, BandwidthSample, new_bandwidth_sample, send_time_state_of,
}
use qperf_go.Sampler.Ack.{
  still_app_limited, count_acked, send_rate_of, choose_point, slope_sample, sample_of,
  acknowledge_found, on_packet_acknowledged,
}

-- `o` returns something that satisfies `P`.
abbrev pub Returns : {A : Type 0} → (A → Type 0) → Option A → Type 0
Returns {A} P o = (a : A) × (o ≡ some a) × P a

send_rate_of-Returns : (p : SentPacket) → Returns (λ r. r ≡ r) (send_rate_of p)
unfolding send_rate_of
send_rate_of-Returns p = elim (Bool-cases (ltb p.last_acked_packet_sent_time p.sent_time)) [
  | inl t ↦
      rw
        (
          t,
          bandwidth_from_delta-some
              (p.send_time_state.total_bytes_sent -i p.total_bytes_sent_at_last_acked_packet)
              p.sent_time p.last_acked_packet_sent_time
              (ltb→lt p.last_acked_packet_sent_time p.sent_time t),
        )
        (_, refl, refl)
  | inr t ↦ rw t (_, refl, refl)
]

module _ {F : Type 0} where
  choose_point-Returns :
      (b : Sampler F) (p : SentPacket)
      → IsValid b.a0_candidates
      → Returns (λ c. IsValid c.0) (choose_point b p)
  unfolding choose_point
  choose_point-Returns b p v = elim (Bool-cases b.overestimate_avoidance) [
    | inl t ↦
        let (q, e, w) = choose_a0_point_lem b.a0_candidates p.send_time_state.total_bytes_acked v in
        rw (t, e) (_, refl, w)
    | inr t ↦ rw t (_, refl, v)
  ]

  slope-Returns :
      (b : Sampler F) (now : ℕ) (p : SentPacket) (rate : ℕ) (a0 : AckPoint)
      → Returns
          (λ s.
            (s.bandwidth ≤ s.send_rate)
            × ((s ≡ new_bandwidth_sample) ⊎ (s.state_at_send ≡ send_time_state_of (some p))))
          (slope_sample b now p rate a0)
  unfolding slope_sample
  slope-Returns b now p rate a0 = elim (Bool-cases (leb_ℤ (sub_time now a0.ack_time) (pos 0))) [
    | inl t ↦ rw t (_, refl, (omega arith, inl refl))
    | inr t ↦
        rw
          (
            t,
            bandwidth_from_delta-some (b.total_bytes_acked -i a0.total_bytes_acked) now a0.ack_time
                (sub_time-positive now a0.ack_time t),
          )
          (_, refl, (omega arith, inr refl))
  ]

-- The entry that `GetEntry` returns, where it does.
abbrev pub returned : Option (Option SentPacket) → Option SentPacket
returned none = none
returned (some o) = o

abbrev pub entry_at : Queue SentPacket → ℤ → Option SentPacket
entry_at q k = returned (get_entry q k)

-- What a sampler keeps between two calls: the buffer of candidates and the packet queue are valid.
abbrev pub IsReady : {F : Type 0} → Sampler F → Type 0
IsReady b = IsValid b.a0_candidates × Inv b.connection_state_map

-- The acknowledged bytes after an acknowledgement of what `GetEntry` returned.
abbrev pub acked_total : ℤ → Option SentPacket → ℤ
acked_total n none = n
acked_total n (some p) = n +i p.size

-- Whether the app-limited phase goes on: a known packet past its end leaves it.
abbrev pub limited_after : ℤ → ℤ → Bool → Option SentPacket → Bool
limited_after end k limited none = limited
limited_after end k limited (some p) =
    limited && not (eqb_ℤ end invalid_packet_number || ltb_ℤ end k)

-- What an acknowledgement of packet `k`, found as `o`, does to the sampler.
pub record Acknowledged {F : Type 0} (b : Sampler F) (k : ℤ) (o : Option SentPacket)
    (out : Sampler F × BandwidthSample) : Type 0 where
  pub valid : IsValid out.0.a0_candidates
  pub acked : out.0.total_bytes_acked ≡ acked_total b.total_bytes_acked o
  pub packets : out.0.connection_state_map ≡ b.connection_state_map
  pub sent : out.0.total_bytes_sent ≡ b.total_bytes_sent
  pub lost : out.0.total_bytes_lost ≡ b.total_bytes_lost
  pub limited : out.0.is_app_limited ≡ limited_after b.end_of_app_limited_phase k b.is_app_limited o
  pub end : out.0.end_of_app_limited_phase ≡ b.end_of_app_limited_phase
  pub below_send_rate : out.1.bandwidth ≤ out.1.send_rate
  pub state : (out.1 ≡ new_bandwidth_sample) ⊎ (out.1.state_at_send ≡ send_time_state_of o)

module _ {F : Type 0} where
  sample_of-Returns :
      (b : Sampler F) (now : ℕ) (p : SentPacket)
      → IsValid b.a0_candidates
      → Returns
          (λ out.
            IsValid out.0.a0_candidates
            × (out.0 ≡ record b { a0_candidates = out.0.a0_candidates })
            × (out.1.bandwidth ≤ out.1.send_rate)
            × ((out.1 ≡ new_bandwidth_sample)
                ⊎ (out.1.state_at_send ≡ send_time_state_of (some p))))
          (sample_of b now p)
  unfolding sample_of
  sample_of-Returns b now p v = elim (Bool-cases (is_zero_time p.last_acked_packet_sent_time)) [
    | inl t ↦ rw t (_, refl, (v, refl, omega arith, inl refl))
    | inr t ↦
        let (r, e, _) = send_rate_of-Returns p in
        let (c, e', w) = choose_point-Returns b p v in
        let (s, e'', (l, st)) = slope-Returns b now p r c.1 in
        rw (t, e, e', e'') (_, refl, (w, refl, l, st))
  ]

  still_app_limited-eq :
      (b : Sampler F) (k : ℤ)
      → still_app_limited b k ≡ (
          b.is_app_limited
          && not (
              eqb_ℤ b.end_of_app_limited_phase invalid_packet_number
              || ltb_ℤ b.end_of_app_limited_phase k))
  unfolding still_app_limited
  still_app_limited-eq b k = ground arith

  -- For a sampler with a valid buffer of candidates and a packet queue that keeps its invariant, an
  -- acknowledgement of any `int64` never panics, known packet or not, whatever the times are: the buffer stays valid, a known packet counts with the size that it
  -- was sent with and ends the app-limited phase if it is past the end of it, the recorded packets and
  -- the sent and lost bytes stay, the sampled bandwidth is at most the send rate, and the sample is
  -- either the empty one or carries the state at sending.
  pub on_packet_acknowledged_lem :
      (b : Sampler F) (now : ℕ) (k : ℤ)
      → IsReady b
      → pos_part k < 2 ^ 63
      → Returns
          (Acknowledged b k (entry_at b.connection_state_map k))
          (on_packet_acknowledged b now k)
  unfolding on_packet_acknowledged count_acked still_app_limited
  on_packet_acknowledged_lem b now k (v, i) in_range =
      let (o, e) = get_entry-Returns b.connection_state_map k i in_range in rw e (by_entry o)
    where
      by_entry :
          (o : Option SentPacket)
          → Returns
              (Acknowledged b k o)
              (acknowledge_found (record b { last_acked_packet = k }) now k o)
      by_entry none = (
        _,
        refl,
        record {
          valid = v;
          acked = refl;
          packets = refl;
          sent = refl;
          lost = refl;
          limited = refl;
          end = refl;
          below_send_rate = omega arith;
          state = inl refl;
        },
      )
      by_entry (some p) =
          let (out, e, (w, same, l, st)) =
            sample_of-Returns (count_acked (record b { last_acked_packet = k }) now k p) now p v in
          (
            out,
            e,
            record {
              valid = w;
              acked = ap (λ c. c.total_bytes_acked) same;
              packets = ap (λ c. c.connection_state_map) same;
              sent = ap (λ c. c.total_bytes_sent) same;
              lost = ap (λ c. c.total_bytes_lost) same;
              limited = ap (λ c. c.is_app_limited) same ∙ still_app_limited-eq b k;
              end = ap (λ c. c.end_of_app_limited_phase) same;
              below_send_rate = l;
              state = st;
            },
          )

module _ {F : Type 0} where
  -- The candidates stay valid when a packet is sent.
  pub on_packet_sent-IsValid :
      (b : Sampler F) (now : ℕ) (k bytes flight : ℤ) (retransmittable : Bool)
      → IsValid b.a0_candidates
      → IsValid (on_packet_sent b now k bytes flight retransmittable).a0_candidates
  unfolding on_packet_sent record_sent leave_quiescence restart_points
  on_packet_sent-IsValid b now k bytes flight retransmittable v =
      let first = most_recent_point (update_points no_points now b.total_bytes_acked) in
      ground
        (arith, push_back_refines (clear b.a0_candidates) first (clear-IsValid b.a0_candidates))
