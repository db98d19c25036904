-- ===== src/CubicSender/Cutback.antt =====
-- Acknowledgements and the end of the slow start leave the packet numbers as they are.
use qperf_go.Prelude.{
  ℕ, ◌<◌, ◌≡◌, refl, Bool, true, false, not, ◌||◌, some, ℤ, pos, ◌+i◌, max_ℤ, ◌∙◌, Bool-cases, inl,
  inr, leb_ℤ, quotient, u64, to_u64, suc, leb,
}
use qperf_go.Prelude.Float.{Float64, Float32}
use qperf_go.Sampler.Safety.{Returns}
use qperf_go.Cubic.{cubic_application_limited}
use qperf_go.CubicSender.{
  Undeclared, Sender, CongestionState, same_state, slow_start, congestion_avoidance,
  application_limited, max_congestion_window, maybe_trace_state_change, in_slow_start, in_recovery,
  is_cwnd_limited, exit_slow_start, maybe_exit_slow_start,
}
use qperf_go.CubicSender.Events.{
  count_reno, grow_cubic, avoid_congestion, maybe_increase_cwnd, ack_slow_start, on_packet_acked,
}
use qperf_go.CubicSender.Limits.{divides}

module _ (u : Undeclared) where
  -- The packet numbers and the datagram size are as they were.
  abbrev pub Same : Sender u → Sender u → Type 0
  Same c d =
      (d.largest_sent_packet_number ≡ c.largest_sent_packet_number)
      × (d.largest_sent_at_last_cutback ≡ c.largest_sent_at_last_cutback)
      × (d.max_datagram_size ≡ c.max_datagram_size)

  Same-trans : (c d e : Sender u) → Same c d → Same d e → Same c e
  Same-trans c d e p q = (q.0 ∙ p.0, q.1 ∙ p.1, q.2 ∙ p.2)

  pub trace-Same :
      (c : Sender u) (new : CongestionState) → Same c (maybe_trace_state_change u c new)
  unfolding maybe_trace_state_change
  trace-Same c new = elim (Bool-cases (not c.traced || same_state new c.last_state)) [
    | inl t ↦ rw t (refl, refl, refl)
    | inr t ↦ rw t (refl, refl, refl)
  ]

  exit_slow_start-Same :
      (c : Sender u) (answer : Bool × u.HybridSlowStart) → Same c (exit_slow_start u c answer)
  unfolding exit_slow_start
  exit_slow_start-Same c (true, h) =
      trace-Same (record c { hybrid_slow_start = h; slow_start_threshold = c.congestion_window })
        congestion_avoidance
  exit_slow_start-Same c (false, h) = (refl, refl, refl)

  ack_slow_start-Same : (c : Sender u) (number : ℤ) → Same c (ack_slow_start u c number)
  unfolding ack_slow_start
  ack_slow_start-Same c number = elim (Bool-cases (in_slow_start u c)) [
    | inl t ↦ rw t (refl, refl, refl)
    | inr t ↦ rw t (refl, refl, refl)
  ]

  count_reno-Same : (c : Sender u) (packets : ℤ) → Same c (count_reno u c packets)
  unfolding count_reno
  count_reno-Same c packets =
      elim (Bool-cases (leb (to_u64 packets) (u64 (suc c.num_acked_packets)))) [
        | inl t ↦ rw t (refl, refl, refl)
        | inr t ↦ rw t (refl, refl, refl)
      ]

  module _ (s : ℕ) (positive : 0 < s) where
    packets_of :
        (c : Sender u)
        → c.max_datagram_size ≡ pos s
        → (n : ℤ) × (quotient c.congestion_window c.max_datagram_size ≡ some n)
    packets_of c e = rw e (divides s positive c.congestion_window)

    pub exit-Same :
        (c : Sender u) (latest min_rtt : ℤ)
        → c.max_datagram_size ≡ pos s
        → Returns (Same c) (maybe_exit_slow_start u c latest min_rtt)
    unfolding maybe_exit_slow_start
    exit-Same c latest min_rtt e = elim (Bool-cases (in_slow_start u c)) [
      | inl t ↦
          let n = packets_of c e in
          let answer = u.should_exit c.hybrid_slow_start latest min_rtt n.0 in
          (exit_slow_start u c answer, rw (t, n.1) refl, exit_slow_start-Same c answer)
      | inr t ↦ (c, rw t refl, (refl, refl, refl))
    ]

    module _ (cbrt : ℤ → ℕ) (f : Float64) (g : Float32) where
      avoid-Same :
          (c : Sender u) (bytes min_rtt : ℤ) (time : ℕ)
          → c.max_datagram_size ≡ pos s
          → Returns (Same c) (avoid_congestion u cbrt f g c bytes min_rtt time)
      unfolding avoid_congestion grow_cubic
      avoid-Same c bytes min_rtt time e = elim (Bool-cases c.reno) [
        | inl t ↦
            let n = packets_of c e in
            (count_reno u c n.0, simp (t, n.1) refl, count_reno-Same c n.0)
        | inr t ↦ (grow_cubic u cbrt f g c bytes min_rtt time, rw t refl, (refl, refl, refl))
      ]

      increase-Same :
          (c : Sender u) (bytes prior min_rtt : ℤ) (time : ℕ)
          → c.max_datagram_size ≡ pos s
          → Returns (Same c) (maybe_increase_cwnd u cbrt f g c bytes prior min_rtt time)
      unfolding maybe_increase_cwnd
      increase-Same c bytes prior min_rtt time e = elim (Bool-cases (is_cwnd_limited u c prior)) [
        | inr t ↦ (
          maybe_trace_state_change u (record c { cubic = cubic_application_limited c.cubic })
              application_limited,
          rw t refl,
          trace-Same (record c { cubic = cubic_application_limited c.cubic }) application_limited,
        )
        | inl t ↦ elim (Bool-cases (leb_ℤ (max_congestion_window u c) c.congestion_window)) [
          | inl full ↦ (c, rw (t, full) refl, (refl, refl, refl))
          | inr full ↦ elim (Bool-cases (in_slow_start u c)) [
            | inl slow ↦ (
              maybe_trace_state_change u
                  (record c { congestion_window = c.congestion_window +i c.max_datagram_size })
                  slow_start,
              rw (t, full, slow) refl,
              trace-Same
                  (record c { congestion_window = c.congestion_window +i c.max_datagram_size })
                  slow_start,
            )
            | inr slow ↦
                let d = maybe_trace_state_change u c congestion_avoidance in
                let k = trace-Same c congestion_avoidance in
                let r = avoid-Same d bytes min_rtt time (k.2 ∙ e) in
                (r.0, rw (t, full, slow) r.1, Same-trans c d r.0 k r.2)
          ]
        ]
      ]

      pub acked-Same :
          (c : Sender u) (number bytes prior min_rtt : ℤ) (time : ℕ)
          → c.max_datagram_size ≡ pos s
          → Returns (Same c) (on_packet_acked u cbrt f g c number bytes prior min_rtt time)
      unfolding on_packet_acked
      acked-Same c number bytes prior min_rtt time e =
          let d : Sender u = record c {
            largest_acked_packet_number = max_ℤ number c.largest_acked_packet_number;
          } in
          elim (Bool-cases (in_recovery u d)) [
            | inl t ↦ (d, rw t refl, (refl, refl, refl))
            | inr t ↦
                let r = increase-Same d bytes prior min_rtt time e in
                (
                  ack_slow_start u r.0 number,
                  rw (t, r.1) refl,
                  Same-trans d r.0 (ack_slow_start u r.0 number) r.2
                      (ack_slow_start-Same r.0 number),
                )
          ]
