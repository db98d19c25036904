-- ===== src/CubicSender/Limits.antt =====
-- The limits of the window, which every call keeps.
use qperf_go.Prelude.{
  ℕ, zero, suc, ◌||◌, ◌+◌, ◌-◌, ◌*◌, ◌^◌, ◌≤◌, ◌<◌, ◌≡◌, ◌⊎◌, inl, inr, refl, Bool, true, false,
  not, some, ℤ, pos, ◌≤ℤ◌, arith, *i_pos, div_i, quotient, sym, ap, subst, ◌∙◌, Bool-cases,
}
use qperf_go.Prelude.Float.{Float64, Float32}
use qperf_go.Sampler.Safety.{Returns}
use qperf_go.Cubic.{Cubic, congestion_window_after_packet_loss}
use native.Mathlib.Nat.{mul-le-mul}
use qperf_go.CubicSender.{
  Undeclared, CongestionState, Sender, max_congestion_window, min_congestion_window,
  maybe_trace_state_change, on_packet_sent, exit_slow_start, maybe_exit_slow_start, in_slow_start,
  same_state, congestion_avoidance,
}

-- For datagrams of `s` bytes and a window of at most `p` datagrams, what Cubic keeps: within an
-- epoch the Reno window is at least two datagrams, and at most the window `w` unless that is full.
pub record CubicInv (s p w : ℕ) (c : Cubic) : Type 0 where
  pub connections : c.num_connections ≡ pos 1
  pub count : c.acked_bytes_count ≡ pos 0
  pub estimate :
      (c.epoch ≡ 0)
      ⊎ ((e : ℕ) × (c.estimated_tcp_congestion_window ≡ pos e)
          × (2 * s ≤ e)
          × ((e ≤ w) ⊎ (p * s ≤ w)))

pub record Limited (u : Undeclared) (s p : ℕ) (c : Sender u) : Type 0 where
  pub size : c.max_datagram_size ≡ pos s
  pub initial : c.initial_congestion_window ≡ pos (32 * s)
  pub initial_max : c.initial_max_congestion_window ≡ pos (p * s)
  pub mode : (c.reno ≡ false) ⊎ (c.cubic.epoch ≡ 0)
  pub window :
      (w : ℕ) × (c.congestion_window ≡ pos w)
      × (2 * s ≤ w)
      × (w ≤ p * s + s)
      × CubicInv s p w c.cubic

-- The sizes that keep the arithmetic exact.
pub record Sizes (u : Undeclared) (s p : ℕ) : Type 0 where
  pub packets : u.max_congestion_window_packets ≡ pos p
  pub positive : 0 < s
  pub datagram : s < 2 ^ 16
  pub most : p < 2 ^ 20
  pub least : 32 ≤ p

-- A product with 0.7 does not grow, nor does the Cubic reduction.
pub record Shrinks (f : Float64) (g : Float32) : Type 0 where
  pub reno : (w : ℕ) → w < 2 ^ 40 → f.to_int (f.mul (f.of_int (pos w)) (f.lit 7 10)) ≤ℤ pos w
  pub cubic :
      (c : Cubic) (w : ℕ)
      → c.num_connections ≡ pos 1
      → w < 2 ^ 40
      → (congestion_window_after_packet_loss g c (pos w)).0 ≤ℤ pos w

map_sum : {A B C D : Type 0} → (A → C) → (B → D) → A ⊎ B → C ⊎ D
map_sum f g (inl a) = inl (f a)
map_sum f g (inr b) = inr (g b)

pub divides : (s : ℕ) → 0 < s → (a : ℤ) → (n : ℤ) × (quotient a (pos s) ≡ some n)
unfolding quotient
divides zero h a = absurd (omega arith)
divides (suc d) h a = (div_i a (suc d), refl)

module _ {u : Undeclared} {s p : ℕ} where
  pub keep :
      (c : Sender u) {d : Sender u}
      → Limited u s p c
      → d.max_datagram_size ≡ c.max_datagram_size
      → d.initial_congestion_window ≡ c.initial_congestion_window
      → d.initial_max_congestion_window ≡ c.initial_max_congestion_window
      → d.congestion_window ≡ c.congestion_window
      → d.cubic ≡ c.cubic
      → d.reno ≡ c.reno
      → Limited u s p d
  keep c h a b e w k r = record {
    mode = map_sum (λ x. r ∙ x) (λ x. ap (λ q. q.epoch) k ∙ x) h.mode;
    size = a ∙ h.size;
    initial = b ∙ h.initial;
    initial_max = e ∙ h.initial_max;
    window = (
      h.window.0,
      w ∙ h.window.1,
      h.window.2,
      h.window.3,
      subst (CubicInv s p h.window.0) (sym k) h.window.4,
    );
  }

  pub trace-Limited :
      (c : Sender u) (new : CongestionState)
      → Limited u s p c
      → Limited u s p (maybe_trace_state_change u c new)
  unfolding maybe_trace_state_change
  trace-Limited c new h = elim (Bool-cases (not c.traced || same_state new c.last_state)) [
    | inl t ↦ rw t h
    | inr t ↦ rw t (keep c h refl refl refl refl refl refl)
  ]

  pub sent-Limited :
      (c : Sender u) (smoothed : ℤ) (time : ℕ) (number bytes : ℤ) (again : Bool)
      → Limited u s p c
      → Limited u s p (on_packet_sent u c smoothed time number bytes again)
  unfolding on_packet_sent
  sent-Limited c smoothed time number bytes true h = keep c h refl refl refl refl refl refl
  sent-Limited c smoothed time number bytes false h = keep c h refl refl refl refl refl refl

  exit_slow_start-Limited :
      (c : Sender u) (answer : Bool × u.HybridSlowStart)
      → Limited u s p c
      → Limited u s p (exit_slow_start u c answer)
  unfolding exit_slow_start
  exit_slow_start-Limited c (true, k) h =
      trace-Limited (record c { hybrid_slow_start = k; slow_start_threshold = c.congestion_window })
        congestion_avoidance (keep c h refl refl refl refl refl refl)
  exit_slow_start-Limited c (false, k) h = keep c h refl refl refl refl refl refl

module _ (u : Undeclared) (s p : ℕ) (sizes : Sizes u s p) where
  pub area : p * s < 2 ^ 36
  area =
      let most : p ≤ 2 ^ 20 - 1 = omega (arith, sizes.most) in
      let datagram : s ≤ 2 ^ 16 - 1 = omega (arith, sizes.datagram) in
      omega (arith, mul-le-mul most datagram)

  pub in_packets :
      (c : Sender u)
      → Limited u s p c
      → (n : ℤ) × (quotient c.congestion_window c.max_datagram_size ≡ some n)
  in_packets c h = rw h.size (divides s sizes.positive c.congestion_window)

  pub exit-Limited :
      (c : Sender u) (latest min_rtt : ℤ)
      → Limited u s p c
      → Returns (Limited u s p) (maybe_exit_slow_start u c latest min_rtt)
  unfolding maybe_exit_slow_start
  exit-Limited c latest min_rtt h = elim (Bool-cases (in_slow_start u c)) [
    | inl t ↦
        let n = in_packets c h in
        let answer = u.should_exit c.hybrid_slow_start latest min_rtt n.0 in
        (exit_slow_start u c answer, rw (t, n.1) refl, exit_slow_start-Limited c answer h)
    | inr t ↦ (c, rw t refl, h)
  ]

  pub max_window : (c : Sender u) → Limited u s p c → max_congestion_window u c ≡ pos (p * s)
  unfolding max_congestion_window
  max_window c h = simp (h.size, sizes.packets) (*i_pos s p (omega (arith, area)) ∙ ground arith)

  pub min_window : (c : Sender u) → Limited u s p c → min_congestion_window u c ≡ pos (2 * s)
  unfolding min_congestion_window
  min_window c h = simp h.size (*i_pos s 2 (omega (arith, sizes.datagram)) ∙ ground arith)
