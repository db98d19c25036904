-- ===== src/CubicSender/Reach.antt =====
-- Every sequence of calls keeps the limits of the window.
use qperf_go.Prelude.{
  ℕ, ◌+◌, ◌*◌, ◌^◌, ◌≤◌, ◌<◌, ◌≡◌, inl, inr, refl, Bool, false, not, ◌||◌, List, [], ◌∷◌, ℤ, pos,
  ◌<ℤ◌, ◌≤ℤ◌, arith, ◌+i◌, ◌*i◌, *i_pos, max_ℤ, sym, subst, Bool-cases, leb_ℤ,
}
use qperf_go.Prelude.Float.{Float64, Float32}
use qperf_go.Sampler.Safety.{Returns}
use qperf_go.Cubic.{cubic_application_limited}
use qperf_go.Cubic.Growth.{Grows}
use qperf_go.CubicSender.{
  Undeclared, Sender, CongestionState, same_state, slow_start, congestion_avoidance,
  application_limited, max_congestion_window, maybe_trace_state_change, in_slow_start, in_recovery,
  is_cwnd_limited, new_cubic_sender, initial_congestion_window_packets, new_sender_from,
}
use qperf_go.CubicSender.Events.{maybe_increase_cwnd, ack_slow_start, on_packet_acked}
use qperf_go.CubicSender.Calls.{Call, sent, acked, lost, maybe_exit, timeout, migration, apply, run}
use qperf_go.CubicSender.Limits.{
  Limited, Sizes, Shrinks, keep, trace-Limited, sent-Limited, exit-Limited, max_window, area,
}
use qperf_go.CubicSender.Cutbacks.{room, timeout-Limited, migration-Limited, lost-Limited}
use qperf_go.CubicSender.Acks.{one_more, avoid-Limited}

-- No acknowledgement is of 2^40 bytes.
abbrev pub SmallAcks : List Call → Type 0
SmallAcks [] = 0 ≤ 0
SmallAcks (acked number bytes prior min_rtt time ∷ xs) = (bytes < 2 ^ 40) × SmallAcks xs
SmallAcks (sent smoothed time number bytes again ∷ xs) = SmallAcks xs
SmallAcks (lost number ∷ xs) = SmallAcks xs
SmallAcks (maybe_exit latest min_rtt ∷ xs) = SmallAcks xs
SmallAcks (timeout again ∷ xs) = SmallAcks xs
SmallAcks (migration ∷ xs) = SmallAcks xs

earlier : (x : Call) (xs : List Call) → SmallAcks (x ∷ xs) → SmallAcks xs
earlier (acked number bytes prior min_rtt time) xs o = o.1
earlier (sent smoothed time number bytes again) xs o = o
earlier (lost number) xs o = o
earlier (maybe_exit latest min_rtt) xs o = o
earlier (timeout again) xs o = o
earlier migration xs o = o

trace_window :
    (u : Undeclared) (c : Sender u) (new : CongestionState)
    → (maybe_trace_state_change u c new).congestion_window ≡ c.congestion_window
unfolding maybe_trace_state_change
trace_window u c new = elim (Bool-cases (not c.traced || same_state new c.last_state)) [
  | inl t ↦ rw t refl
  | inr t ↦ rw t refl
]

module _ {u : Undeclared} {s p : ℕ} where
  idle :
      (c : Sender u)
      → Limited u s p c
      → Limited u s p (record c { cubic = cubic_application_limited c.cubic })
  idle c h = record {
    size = h.size;
    initial = h.initial;
    initial_max = h.initial_max;
    mode = inr refl;
    window = (
      h.window.0,
      h.window.1,
      h.window.2,
      h.window.3,
      record {
        connections = h.window.4.connections;
        count = h.window.4.count;
        estimate = inl refl;
      },
    );
  }

  ack_slow_start-Limited :
      (c : Sender u) (number : ℤ) → Limited u s p c → Limited u s p (ack_slow_start u c number)
  unfolding ack_slow_start
  ack_slow_start-Limited c number h = elim (Bool-cases (in_slow_start u c)) [
    | inl t ↦ rw t (keep c h refl refl refl refl refl refl)
    | inr t ↦ rw t h
  ]

not_full : (a b m : ℤ) → a ≡ m → leb_ℤ a b ≡ false → b <ℤ m
not_full a b m p h = ground (arith, p, h)

module _ (u : Undeclared) (s p : ℕ) (sizes : Sizes u s p) (cbrt : ℤ → ℕ) (f : Float64) (g : Float32)
    (grows : Grows g) where
  increase-Limited :
      (c : Sender u) (a time : ℕ) (prior min_rtt : ℤ)
      → Limited u s p c
      → a < 2 ^ 40
      → Returns (Limited u s p) (maybe_increase_cwnd u cbrt f g c (pos a) prior min_rtt time)
  unfolding maybe_increase_cwnd
  increase-Limited c a time prior min_rtt h small = elim (Bool-cases (is_cwnd_limited u c prior)) [
    | inr t ↦ (
      maybe_trace_state_change u (record c { cubic = cubic_application_limited c.cubic })
          application_limited,
      rw t refl,
      trace-Limited (record c { cubic = cubic_application_limited c.cubic }) application_limited
          (idle c h),
    )
    | inl t ↦ elim (Bool-cases (leb_ℤ (max_congestion_window u c) c.congestion_window)) [
      | inl full ↦ (c, rw (t, full) refl, h)
      | inr full ↦
          let l =
            not_full (max_congestion_window u c) c.congestion_window (pos (p * s))
              (max_window u s p sizes c h) full in
          elim (Bool-cases (in_slow_start u c)) [
            | inl slow ↦ (
              maybe_trace_state_change u
                  (record c { congestion_window = c.congestion_window +i c.max_datagram_size })
                  slow_start,
              rw (t, full, slow) refl,
              trace-Limited
                  (record c { congestion_window = c.congestion_window +i c.max_datagram_size })
                  slow_start (one_more u s p sizes c c.num_acked_packets h l),
            )
            | inr slow ↦
                rw (t, full, slow)
                  (avoid-Limited u s p sizes cbrt f g grows
                    (maybe_trace_state_change u c congestion_avoidance) a time min_rtt
                    (trace-Limited c congestion_avoidance h)
                    (subst (λ x. x <ℤ pos (p * s)) (sym (trace_window u c congestion_avoidance)) l)
                    small)
          ]
    ]
  ]

  acked-Limited :
      (c : Sender u) (number : ℤ) (a time : ℕ) (prior min_rtt : ℤ)
      → Limited u s p c
      → a < 2 ^ 40
      → Returns (Limited u s p) (on_packet_acked u cbrt f g c number (pos a) prior min_rtt time)
  unfolding on_packet_acked
  acked-Limited c number a time prior min_rtt h small =
      let d : Sender u = record c {
        largest_acked_packet_number = max_ℤ number c.largest_acked_packet_number;
      } in
      let k = keep c h refl refl refl refl refl refl in
      elim (Bool-cases (in_recovery u d)) [
        | inl t ↦ (d, rw t refl, k)
        | inr t ↦
            let r = increase-Limited d a time prior min_rtt k small in
            (ack_slow_start u r.0 number, rw (t, r.1) refl, ack_slow_start-Limited r.0 number r.2)
      ]

  module _ (shrinks : Shrinks f g) where
    apply-Limited :
        (c : Sender u) (x : Call) (xs : List Call)
        → Limited u s p c
        → SmallAcks (x ∷ xs)
        → Returns (Limited u s p) (apply u cbrt f g c x)
    unfolding apply
    apply-Limited c (sent smoothed time number bytes again) xs h o =
        (_, refl, sent-Limited c smoothed time number bytes again h)
    apply-Limited c (acked number a prior min_rtt time) xs h o =
        acked-Limited c number a time prior min_rtt h o.0
    apply-Limited c (lost number) xs h o =
        (_, refl, lost-Limited u s p sizes cbrt f g shrinks c number h)
    apply-Limited c (maybe_exit latest min_rtt) xs h o = exit-Limited u s p sizes c latest min_rtt h
    apply-Limited c (timeout again) xs h o = (_, refl, timeout-Limited u s p sizes c again h)
    apply-Limited c migration xs h o = (_, refl, migration-Limited u s p sizes c h)

    all-Limited :
        (c : Sender u) (xs : List Call)
        → Limited u s p c
        → SmallAcks xs
        → Returns (Limited u s p) (run u cbrt f g c xs)
    unfolding run
    all-Limited c [] h o = (c, refl, h)
    all-Limited c (x ∷ xs) h o =
        let r = all-Limited c xs h (earlier x xs o) in
        let n = apply-Limited r.0 x xs r.2 o in (n.0, rw r.1 n.1, n.2)

    new-Limited :
        (start : u.HybridSlowStart) (pacer : u.Pacer) (reno traced : Bool)
        → Limited u s p (new_cubic_sender u start pacer reno (pos s) traced)
    unfolding new_cubic_sender new_sender_from
    new-Limited start pacer reno traced =
        let initial : initial_congestion_window_packets *i pos s ≡ pos (32 * s) =
          *i_pos 32 s (omega (arith, sizes.datagram)) in
        let a = area u s p sizes in
        record {
          size = refl;
          initial = initial;
          initial_max = simp sizes.packets (*i_pos p s (omega (arith, a)));
          mode = inr refl;
          window = (
            32 * s,
            initial,
            omega arith,
            omega (arith, room u s p sizes),
            record { connections = refl; count = refl; estimate = inl refl },
          );
        }

    -- For datagrams of fewer than 2^16 bytes, a largest window of 32 to 2^20 datagrams, and float
    -- operations as `Shrinks` and `Grows` say: after any sequence of calls of a new sender, SetMaxDatagramSize not
    -- among them, with Reno or Cubic, with acknowledgements of fewer than 2^40 bytes, no call has panicked, and the
    -- window is at least two datagrams and at most one datagram above the largest window.
    pub window_lem :
        (start : u.HybridSlowStart) (pacer : u.Pacer) (reno traced : Bool) (xs : List Call)
        → SmallAcks xs
        → Returns
            (λ c. (pos (2 * s) ≤ℤ c.congestion_window) × (c.congestion_window ≤ℤ pos (p * s + s)))
            (run u cbrt f g (new_cubic_sender u start pacer reno (pos s) traced) xs)
    window_lem start pacer reno traced xs o =
        let r =
          all-Limited (new_cubic_sender u start pacer reno (pos s) traced) xs
            (new-Limited start pacer reno traced) o in
        (
          r.0,
          r.1,
          (ground (arith, r.2.window.1, r.2.window.2), ground (arith, r.2.window.1, r.2.window.3)),
        )
