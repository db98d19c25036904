-- ===== src/CubicSender/Acks.antt =====
-- Acknowledgements keep the limits of the window.
use qperf_go.Prelude.{
  ℕ, ◌+◌, ◌*◌, ◌^◌, ◌≤◌, ◌<◌, ◌≡◌, ◌⊎◌, inl, inr, refl, false, ℤ, pos, ◌≤ℤ◌, ◌<ℤ◌, arith, ◌+i◌,
  min_ℤ, ◌∙◌, Bool-cases, leb_ℤ, min, pos_part, leb, to_u64, u64, suc,
}
use qperf_go.Prelude.Float.{Float64, Float32}
use qperf_go.Prelude.Time.{is_zero_time}
use qperf_go.Sampler.Safety.{Returns}
use qperf_go.Cubic.{
  Cubic, start_epoch, count_acked, tcp_growth, grow_window, cubic_target, elapsed_time,
  congestion_window_after_ack,
}
use qperf_go.Cubic.Curve.{add_i_pos}
use qperf_go.Cubic.Growth.{Grows}
use qperf_go.CubicSender.{Undeclared, Sender}
use qperf_go.CubicSender.Events.{count_reno, grow_cubic, avoid_congestion}
use qperf_go.CubicSender.Limits.{CubicInv, Limited, Sizes, keep, max_window, area, in_packets}

-- What Cubic keeps once an acknowledgement was counted.
record Counted (s p w a : ℕ) (c : Cubic) : Type 0 where
  connections : c.num_connections ≡ pos 1
  count : c.acked_bytes_count ≡ pos a
  estimate : (e : ℕ) × (c.estimated_tcp_congestion_window ≡ pos e) × (2 * s ≤ e) × (e ≤ w)

running :
    (s p w : ℕ) {epoch : ℕ} {x : ℤ}
    → is_zero_time epoch ≡ false
    → w < p * s
    → (epoch ≡ 0) ⊎ ((e : ℕ) × (x ≡ pos e) × (2 * s ≤ e) × ((e ≤ w) ⊎ (p * s ≤ w)))
    → (e : ℕ) × (x ≡ pos e) × (2 * s ≤ e) × (e ≤ w)
running s p w t m (inl z) = absurd (ground (arith, t, z))
running s p w t m (inr (e, q, l, inl h)) = (e, q, l, h)
running s p w t m (inr (e, q, l, inr h)) = absurd (omega arith)

count_acked-Counted :
    (cbrt : ℤ → ℕ) (s p w a time : ℕ) (c : Cubic)
    → CubicInv s p w c
    → 2 * s ≤ w
    → w < p * s
    → a < 2 ^ 40
    → Counted s p w a (count_acked cbrt c (pos a) (pos w) time)
unfolding count_acked start_epoch
count_acked-Counted cbrt s p w a time c i l m h = elim (Bool-cases (is_zero_time c.epoch)) [
  | inl t ↦
      rw t
        (record { connections = i.connections; count = refl; estimate = (w, refl, l, omega arith) })
  | inr t ↦ rw t (record {
    connections = i.connections;
    count = simp i.count (add_i_pos 0 a (omega arith) (omega arith) ∙ ground arith);
    estimate = running s p w t m i.estimate;
  })
]

-- The new Reno window is a lower bound.
reno_bound :
    (g : Float32) (c : Cubic) (current target : ℤ) (e n : ℕ)
    → c.estimated_tcp_congestion_window ≡ pos e
    → tcp_growth g c ≡ pos n
    → e < 2 ^ 62
    → n < 2 ^ 62
    → (pos (e + n) ≤ℤ (grow_window g c current target).0)
      × ((grow_window g c current target).1.estimated_tcp_congestion_window ≡ pos (e + n))
unfolding grow_window
reno_bound g c current target e n p q h k = simp (q, p, add_i_pos e n h k) (ground arith, refl)

grow_fields :
    (g : Float32) (c : Cubic) (current target : ℤ)
    → ((grow_window g c current target).1.acked_bytes_count ≡ pos 0)
      × ((grow_window g c current target).1.num_connections ≡ c.num_connections)
unfolding grow_window
grow_fields g c current target = (refl, refl)

capped :
    (m e : ℕ) (a : ℤ)
    → pos e ≤ℤ a
    → (v : ℕ) × (min_ℤ (pos m) a ≡ pos v) × (min m e ≤ v) × (v ≤ m) × ((e ≤ v) ⊎ (m ≤ v))
unfolding min_ℤ
capped m e a h =
    (pos_part (min_ℤ (pos m) a), ground arith, ground arith, ground arith, ground arith)

-- The window after an acknowledgement is at least the new Reno window.
after_ack :
    (cbrt : ℤ → ℕ) (g : Float32)
    → Grows g
    → (s p w a time : ℕ) (min_rtt : ℤ) (c : Cubic) → CubicInv s p w c
    → 2 * s ≤ w
    → w < p * s
    → p * s < 2 ^ 36
    → a < 2 ^ 40
    → 0 < s
    → (v : ℕ) × (min_ℤ
          (pos (p * s))
          (congestion_window_after_ack g cbrt c (pos a) (pos w) min_rtt time).0
        ≡ pos v)
      × (2 * s ≤ v)
      × (v ≤ p * s)
      × CubicInv s p v (congestion_window_after_ack g cbrt c (pos a) (pos w) min_rtt time).1
unfolding congestion_window_after_ack
after_ack cbrt g grows s p w a time min_rtt c i l m q h some_bytes =
    let k = count_acked-Counted cbrt s p w a time c i l m h in
    let c1 = count_acked cbrt c (pos a) (pos w) time in
    let target =
      cubic_target c1.origin_point_congestion_window c1.time_to_origin_point
        (elapsed_time c1.epoch time min_rtt) in
    let e = k.estimate.0 in
    let n =
      grows c1 k.connections a e h (omega (arith, k.estimate.2, some_bytes)) k.count k.estimate.1 in
    let b =
      reno_bound g c1 (pos w) target e n.0 k.estimate.1 n.1 (omega (arith, k.estimate.3))
        (omega (arith, n.2)) in
    let v = capped (p * s) (e + n.0) (grow_window g c1 (pos w) target).0 b.0 in
    let fields = grow_fields g c1 (pos w) target in
    (
      v.0,
      v.1,
      omega (arith, v.2, k.estimate.2, m, l),
      v.3,
      record {
        connections = fields.1 ∙ k.connections;
        count = fields.0;
        estimate = inr (e + n.0, b.1, omega (arith, k.estimate.2), v.4);
      },
    )

wider : (s p w v : ℕ) (c : Cubic) → CubicInv s p w c → w ≤ v → CubicInv s p v c
wider s p w v c i h = record {
  connections = i.connections;
  count = i.count;
  estimate = elim i.estimate [
    | inl z ↦ inl z
    | inr (e, q, l, inl b) ↦ inr (e, q, l, inl (omega arith))
    | inr (e, q, l, inr b) ↦ inr (e, q, l, inr (omega arith))
  ];
}

below_max : (w m : ℕ) (a b : ℤ) → a ≡ pos m → b ≡ pos w → leb_ℤ a b ≡ false → w < m
below_max w m a b p q h = ground (arith, p, q, h)

module _ (u : Undeclared) (s p : ℕ) (sizes : Sizes u s p) where
  -- One more datagram, below the largest window.
  pub one_more :
      (c : Sender u) (n : ℕ)
      → Limited u s p c
      → c.congestion_window <ℤ pos (p * s)
      → Limited u s p (record c {
        congestion_window = c.congestion_window +i c.max_datagram_size;
        num_acked_packets = n;
      })
  one_more c n h l =
      let w = h.window.0 in
      let under : w < p * s = ground (arith, l, h.window.1) in
      record {
        size = h.size;
        initial = h.initial;
        initial_max = h.initial_max;
        mode = h.mode;
        window = (
          w + s,
          simp (h.window.1, h.size)
              (add_i_pos w s (omega (arith, area u s p sizes)) (omega (arith, sizes.datagram))),
          omega (arith, h.window.2),
          omega arith,
          wider s p w (w + s) c.cubic h.window.4 (omega arith),
        );
      }

  count_reno-Limited :
      (c : Sender u) (packets : ℤ)
      → Limited u s p c
      → c.congestion_window <ℤ pos (p * s)
      → Limited u s p (count_reno u c packets)
  unfolding count_reno
  count_reno-Limited c packets h l =
      elim (Bool-cases (leb (to_u64 packets) (u64 (suc c.num_acked_packets)))) [
        | inl t ↦ rw t (one_more c 0 h l)
        | inr t ↦ rw t (keep c h refl refl refl refl refl refl)
      ]

  module _ (cbrt : ℤ → ℕ) (f : Float64) (g : Float32) (grows : Grows g) where
    grow_cubic-Limited :
        (c : Sender u) (a time : ℕ) (min_rtt : ℤ)
        → Limited u s p c
        → c.congestion_window <ℤ pos (p * s)
        → c.reno ≡ false
        → a < 2 ^ 40
        → Limited u s p (grow_cubic u cbrt f g c (pos a) min_rtt time)
    unfolding grow_cubic
    grow_cubic-Limited c a time min_rtt h l t small =
        let w = h.window.0 in
        let under : w < p * s = ground (arith, l, h.window.1) in
        let v =
          after_ack cbrt g grows s p w a time min_rtt c.cubic h.window.4 h.window.2 under
            (area u s p sizes) small sizes.positive in
        record {
          size = h.size;
          initial = h.initial;
          initial_max = h.initial_max;
          mode = inl t;
          window = (
            v.0,
            simp (max_window u s p sizes c h, h.window.1) v.1,
            v.2,
            omega (arith, v.3),
            simp h.window.1 v.4,
          );
        }

    pub avoid-Limited :
        (c : Sender u) (a time : ℕ) (min_rtt : ℤ)
        → Limited u s p c
        → c.congestion_window <ℤ pos (p * s)
        → a < 2 ^ 40
        → Returns (Limited u s p) (avoid_congestion u cbrt f g c (pos a) min_rtt time)
    unfolding avoid_congestion
    avoid-Limited c a time min_rtt h l small = elim (Bool-cases c.reno) [
      | inl t ↦
          let n = in_packets u s p sizes c h in
          (count_reno u c n.0, rw (t, n.1) refl, count_reno-Limited c n.0 h l)
      | inr t ↦ (
        grow_cubic u cbrt f g c (pos a) min_rtt time,
        rw t refl,
        grow_cubic-Limited c a time min_rtt h l t small,
      )
    ]
