-- ===== src/CubicSender/Cutbacks.antt =====
-- Losses, timeouts and migrations keep the limits of the window.
use qperf_go.Prelude.{
  ℕ, ◌*◌, ◌^◌, ◌≤◌, ◌<◌, ◌≡◌, ◌⊎◌, inl, inr, refl, Bool, true, false, ℤ, pos, ◌≤ℤ◌, arith, max_ℤ,
  sym, subst, Bool-cases, leb_ℤ, max, pos_part,
}
use qperf_go.Prelude.Float.{Float64, Float32}
use native.Mathlib.Nat.{mul-le-mul}
use qperf_go.Cubic.{Cubic, reset_cubic, congestion_window_after_packet_loss}
use qperf_go.CubicSender.{Undeclared, Sender, recovery, maybe_trace_state_change, in_slow_start}
use qperf_go.CubicSender.Events.{
  reduced_window, cut_back, on_congestion_event, on_retransmission_timeout, on_connection_migration,
}
use qperf_go.CubicSender.Limits.{
  CubicInv, Limited, Sizes, Shrinks, keep, trace-Limited, min_window, area,
}

reno_epoch : {reno : Bool} {n : ℕ} → reno ≡ true → (reno ≡ false) ⊎ (n ≡ 0) → n ≡ 0
reno_epoch t (inl e) = ground (arith, t, e)
reno_epoch t (inr e) = e

loss_fields :
    (g : Float32) (c : Cubic) (current : ℤ)
    → c.num_connections ≡ pos 1
    → c.acked_bytes_count ≡ pos 0
    → ((congestion_window_after_packet_loss g c current).1.num_connections ≡ pos 1)
      × ((congestion_window_after_packet_loss g c current).1.acked_bytes_count ≡ pos 0)
      × ((congestion_window_after_packet_loss g c current).1.epoch ≡ 0)
unfolding congestion_window_after_packet_loss
loss_fields g c current p q = (p, q, refl)

at_least :
    (a : ℤ) (w m : ℕ) → a ≤ℤ pos w → (n : ℕ) × (max_ℤ a (pos m) ≡ pos n) × (m ≤ n) × (n ≤ max w m)
unfolding max_ℤ
at_least a w m h = (pos_part (max_ℤ a (pos m)), ground arith, ground arith, ground arith)

module _ (u : Undeclared) (s p : ℕ) (sizes : Sizes u s p) where
  pub room : 32 * s ≤ p * s
  room = let same : s ≤ s = omega arith in mul-le-mul sizes.least same

  pub timeout-Limited :
      (c : Sender u) (again : Bool)
      → Limited u s p c
      → Limited u s p (on_retransmission_timeout u c again)
  unfolding on_retransmission_timeout reset_cubic
  timeout-Limited c false h = keep c h refl refl refl refl refl refl
  timeout-Limited c true h = record {
    size = h.size;
    initial = h.initial;
    initial_max = h.initial_max;
    mode = inr refl;
    window = (
      2 * s,
      min_window u s p sizes c h,
      omega arith,
      omega (arith, room),
      record { connections = h.window.4.connections; count = refl; estimate = inl refl },
    );
  }

  pub migration-Limited :
      (c : Sender u) → Limited u s p c → Limited u s p (on_connection_migration u c)
  unfolding on_connection_migration reset_cubic
  migration-Limited c h = record {
    size = h.size;
    initial = h.initial;
    initial_max = h.initial_max;
    mode = inr refl;
    window = (
      32 * s,
      h.initial,
      omega arith,
      omega (arith, room),
      record { connections = h.window.4.connections; count = refl; estimate = inl refl },
    );
  }

  module _ (cbrt : ℤ → ℕ) (f : Float64) (g : Float32) (shrinks : Shrinks f g) where
    reduced :
        (c : Sender u) (w : ℕ)
        → c.congestion_window ≡ pos w
        → w < 2 ^ 40
        → (c.reno ≡ false) ⊎ (c.cubic.epoch ≡ 0)
        → CubicInv s p w c.cubic
        → ((reduced_window u cbrt f g c).0 ≤ℤ pos w)
          × ((reduced_window u cbrt f g c).1.num_connections ≡ pos 1)
          × ((reduced_window u cbrt f g c).1.acked_bytes_count ≡ pos 0)
          × ((reduced_window u cbrt f g c).1.epoch ≡ 0)
    unfolding reduced_window
    reduced c w e l mode i = elim (Bool-cases c.reno) [
      | inl t ↦ rw (t, e) (shrinks.reno w l, i.connections, i.count, reno_epoch t mode)
      | inr t ↦
          let k = loss_fields g c.cubic c.congestion_window i.connections i.count in
          rw t (
            subst (λ x. (congestion_window_after_packet_loss g c.cubic x).0 ≤ℤ pos w) (sym e)
                (shrinks.cubic c.cubic w i.connections l),
            k.0,
            k.1,
            k.2,
          )
    ]

    cut_back-Limited : (c : Sender u) → Limited u s p c → Limited u s p (cut_back u cbrt f g c)
    unfolding cut_back
    cut_back-Limited c h =
        let w = h.window.0 in
        let r =
          reduced c w h.window.1 (omega (arith, area u s p sizes, sizes.datagram, h.window.3))
            h.mode h.window.4 in
        let m = at_least (reduced_window u cbrt f g c).0 w (2 * s) r.0 in
        record {
          size = h.size;
          initial = h.initial;
          initial_max = h.initial_max;
          mode = inr r.3;
          window = (
            m.0,
            rw (min_window u s p sizes c h) m.1,
            m.2,
            omega (arith, m.3, h.window.3, room),
            record { connections = r.1; count = r.2; estimate = inl r.3 },
          );
        }

    pub lost-Limited :
        (c : Sender u) (number : ℤ)
        → Limited u s p c
        → Limited u s p (on_congestion_event u cbrt f g c number)
    unfolding on_congestion_event
    lost-Limited c number h = elim (Bool-cases (leb_ℤ number c.largest_sent_at_last_cutback)) [
      | inl t ↦ rw t h
      | inr t ↦ rw t (
          cut_back-Limited
            (maybe_trace_state_change u
              (record c { last_cutback_exited_slowstart = in_slow_start u c }) recovery)
            (trace-Limited (record c { last_cutback_exited_slowstart = in_slow_start u c }) recovery
              (keep c h refl refl refl refl refl refl)))
    ]
