-- ===== src/Cubic/Growth.antt =====
-- Acknowledgements within an epoch never shrink the window.
use qperf_go.Prelude.{
  ℕ, ◌+◌, ◌*◌, ◌/◌, ◌^◌, ◌≤◌, ◌<◌, ◌≡◌, refl, ℤ, pos, pos_part, max_ℤ, ◌≤ℤ◌, ◌+i◌, min_ℤ, arith,
  sym, ap, subst, ◌∙◌, div_i, max, min, +i_exact, ◌+ℤ◌,
}
use qperf_go.Prelude.Float.{Float32}
use qperf_go.Cubic.{Cubic, cube_factor, tcp_growth, grow_window, cubic_target, elapsed_time}
use qperf_go.Cubic.Curve.{
  curve, curve_mono, curve_start, target_exact, ticks, ticks_mono, ticks_bound, elapsed_time_exact,
  origin_near, max_offset,
}

-- The Reno growth for fewer than 2^40 bytes and a Reno window that is not empty: none backwards, and
-- no more than a datagram for each byte.
abbrev pub Grows : (g : Float32) → Type 0
Grows g =
    (c : Cubic)
    → c.num_connections ≡ pos 1
    → (a e : ℕ) → a < 2 ^ 40
    → 0 < e
    → c.acked_bytes_count ≡ pos a
    → c.estimated_tcp_congestion_window ≡ pos e
    → (n : ℕ) × (tcp_growth g c ≡ pos n) × (n ≤ a * 1252)

-- The cube root, rounded down.
abbrev pub Cubes : ((ℤ → ℕ)) → Type 0
Cubes cbrt = (x : ℕ) → x < 2 ^ 45 → cbrt (pos x) * cbrt (pos x) * cbrt (pos x) ≤ x

abbrev pub next_window : ℕ → ℕ → ℕ → ℕ → ℕ
next_window w e acked target = max (min target (w + acked / 2)) e

add_small : (a b : ℕ) → a + b < 2 ^ 63 → pos a +i pos b ≡ pos (a + b)
unfolding ◌+ℤ◌
add_small a b h = +i_exact (pos a) (pos b) (omega arith) (omega arith) ∙ ground arith

module _ (g : Float32) where
  grow_window_exact :
      (c : Cubic) (w e a n target : ℕ)
      → c.acked_bytes_count ≡ pos a
      → c.estimated_tcp_congestion_window ≡ pos e
      → tcp_growth g c ≡ pos n
      → w + a < 2 ^ 63
      → e + n < 2 ^ 63
      → grow_window g c (pos w) (pos target) ≡ (
        pos (next_window w (e + n) a target),
        record c {
          estimated_tcp_congestion_window = pos (e + n);
          acked_bytes_count = pos 0;
          last_target_congestion_window = pos (min target (w + a / 2));
        },
      )
  unfolding grow_window min_ℤ div_i
  grow_window_exact c w e a n target p q r h k =
      simp (r, p, q, add_small w (a / 2) (omega arith), add_small e n k) (ground arith)

-- What holds between the acknowledgements of an epoch, which started with the window `w0`: the
-- window is `w`, the Reno window `e`, the origin of the curve lies `drop` above `w0`, and `acked`
-- bytes were acknowledged.
pub record InEpoch (epoch w0 drop k d acked w e : ℕ) (s : ℤ × Cubic) : Type 0 where
  pub window : s.0 ≡ pos w
  pub estimate : s.1.estimated_tcp_congestion_window ≡ pos e
  pub origin : s.1.origin_point_congestion_window ≡ pos (w0 + drop)
  pub time_to : s.1.time_to_origin_point ≡ k
  pub start : s.1.epoch ≡ epoch
  pub connections : s.1.num_connections ≡ pos 1
  pub below : pos w ≤ℤ max_ℤ (curve (w0 + drop) k (ticks d)) (pos e)
  pub window_bound : w ≤ w0 + acked * 1252
  pub estimate_some : 0 < e
  pub estimate_bound : e ≤ w0 + acked * 1252

-- `w0` bytes of window, and what the acknowledgements add to it, stay far below 2^63.
pub record Small (w0 drop acked k : ℕ) : Type 0 where
  pub near : drop ≤ 8_000_000
  pub window : w0 < 2 ^ 50
  pub bytes : acked < 2 ^ 40
  pub cube : k * k * k ≤ cube_factor * drop

target_natural :
    (w0 drop acked k t : ℕ)
    → Small w0 drop acked k
    → t ≤ max_offset
    → cubic_target (pos (w0 + drop)) k (pos t) ≡ pos (pos_part (curve (w0 + drop) k t))
target_natural w0 drop acked k t h p =
    target_exact (w0 + drop) k t (omega (arith, h.near, h.window))
      (origin_near k drop h.cube h.near) p
    ∙ ground (arith, curve_start w0 drop k t h.cube)

next_bounds :
    (w e0 e a t : ℕ) (c : ℤ)
    → pos w ≤ℤ max_ℤ c (pos e0)
    → c ≤ℤ pos t
    → e0 ≤ e
    → (w ≤ next_window w e a t)
      × (pos (next_window w e a t) ≤ℤ max_ℤ (pos t) (pos e))
      × (next_window w e a t ≤ max (w + a / 2) e)
unfolding max_ℤ
next_bounds w e0 e a t c h p q = ground arith

module _ (g : Float32) (grows : Grows g) where
  -- One acknowledgement, after it was counted.
  pub step :
      (epoch w0 drop k d acked w e a time min_rtt d1 sum : ℕ) (c : Cubic)
      → InEpoch epoch w0 drop k d acked w e (pos w, c)
      → c.acked_bytes_count ≡ pos a
      → acked + a ≡ sum
      → Small w0 drop sum k
      → d ≤ d1
      → d1 ≤ 25_000_000_000
      → time + min_rtt ≡ epoch + d1
      → (w1 : ℕ) × (e1 : ℕ) × (w ≤ w1)
        × InEpoch epoch w0 drop k d1 sum w1 e1 (
            grow_window g c (pos w) (
              cubic_target c.origin_point_congestion_window c.time_to_origin_point
                (elapsed_time c.epoch time (pos min_rtt))))
  step epoch w0 drop k d acked w e a time min_rtt d1 sum c i p add small h l at =
      let n =
        grows c i.connections a e (omega (arith, add, small.bytes)) i.estimate_some p i.estimate in
      let t = pos_part (curve (w0 + drop) k (ticks d1)) in
      let target : cubic_target c.origin_point_congestion_window c.time_to_origin_point
            (elapsed_time c.epoch time (pos min_rtt))
          ≡ pos t =
        simp (i.origin, i.time_to, i.start, elapsed_time_exact epoch d1 time min_rtt at l)
          (target_natural w0 drop sum k (ticks d1) small (ticks_bound d1 l)) in
      let exact =
        grow_window_exact g c w e a n.0 t p i.estimate n.1
          (omega (arith, small.bytes, small.window, i.window_bound))
          (omega (arith, small.bytes, small.window, i.estimate_bound, n.2)) in
      let on_curve : curve (w0 + drop) k (ticks d1) ≡ pos t =
        sym (ground (arith, curve_start w0 drop k (ticks d1) small.cube)) in
      let later = curve_mono (w0 + drop) k (ticks d) (ticks d1) (ticks_mono d d1 h) in
      let b =
        next_bounds w e (e + n.0) a t (curve (w0 + drop) k (ticks d)) i.below
          (subst (λ x. curve (w0 + drop) k (ticks d) ≤ℤ x) on_curve later) (omega arith) in
      (
        next_window w (e + n.0) a t,
        e + n.0,
        b.0,
        subst (InEpoch epoch w0 drop k d1 sum (next_window w (e + n.0) a t) (e + n.0))
            (sym (ap (grow_window g c (pos w)) target ∙ exact))
            (record {
              window = refl;
              estimate = refl;
              origin = i.origin;
              time_to = i.time_to;
              start = i.start;
              connections = i.connections;
              below =
                  subst (λ x. pos (next_window w (e + n.0) a t) ≤ℤ max_ℤ x (pos (e + n.0)))
                    (sym on_curve) b.1;
              window_bound = omega (arith, b.2, i.window_bound, i.estimate_bound, n.2);
              estimate_some = omega (arith, i.estimate_some);
              estimate_bound = omega (arith, i.estimate_bound, n.2);
            }),
      )
