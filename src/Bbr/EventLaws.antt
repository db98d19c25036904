-- ===== src/Bbr/EventLaws.antt =====
-- `OnCongestionEventEx` as a whole: that it returns, and that it keeps the sender well-formed.
use qperf_go.Prelude.{
  ◌<◌, ◌≡◌, refl, ap, ◌∙◌, Bool, false, not, ◌&&◌, List, [], ◌∷◌, ℤ, pos, eqb_ℤ, ◌==◌, ◌-i◌, arith,
  length, ◌+◌, inl, inr, Bool-cases, to_u64, bits64, InI64,
}
use qperf_go.Prelude.Float.{Float64}
use qperf_go.AckPoints.{point_zero}
use qperf_go.Bandwidth.{bandwidth_from_delta, inf_bandwidth}
use qperf_go.Sampler.{sent_packet_zero, AckedPacket, LostPacket, remove_obsolete_packets}
use qperf_go.Sampler.Safety.{Returns}
use qperf_go.Sampler.Accounting.{
  AckedInRange, LostInRange, Counted-IsReady, last_lost-Returns, on_congestion_event_lem,
}
use qperf_go.PacketQueue.Remove.{remove_up_to_lem}
use qperf_go.Bbr.{Sender, Constants, bandwidth_estimate, in_recovery}
use qperf_go.Bbr.PacingRate.{calculate_pacing_rate, startup_rate}
use qperf_go.Bbr.Windows.{calculate_congestion_window, calculate_recovery_window}
use qperf_go.Bbr.Event.{
  Event, least_unacked, begin_event, learn, count_losses, change_mode, clean_up, finish_event,
  apply_sample, on_congestion_event_ex,
}
use qperf_go.Bbr.ModeLaws.{StateInv, change_mode-StateInv}
use qperf_go.Bbr.LimitLaws.{limits, limits-window, limits-recovery, limits-change_mode}
use qperf_go.Bbr.WindowLaws.{window-StateInv, recovery-StateInv, recovery-Recovering, Recovering}
use qperf_go.Bbr.Frame.{core, replaced, keep, core-losses, core-learn, core-begin}

nonzero_bits : (n : ℤ) → InI64 n → eqb_ℤ n (pos 0) ≡ false → (to_u64 n == 0) ≡ false
unfolding bits64
nonzero_bits n i h = ground arith

module _ (f : Float64) (k : Constants) where
  -- The pacing rate is set without a panic, and touches nothing else.
  rate-Returns :
      (b : Sender f.F) (rtt lost : ℤ)
      → InI64 rtt
      → b.detect_overshooting ≡ false
      → Returns (λ c. core c ≡ core b) (calculate_pacing_rate f b rtt lost)
  unfolding calculate_pacing_rate startup_rate bandwidth_from_delta
  rate-Returns b rtt lost i d = elim (Bool-cases (bandwidth_estimate b == 0)) [
    | inl t ↦ rw t (_, refl, refl)
    | inr t ↦ elim (Bool-cases b.is_at_full_bandwidth) [
      | inl u ↦ rw (t, u) (_, refl, refl)
      | inr u ↦ elim (Bool-cases ((b.pacing_rate == 0) && not (eqb_ℤ rtt (pos 0)))) [
        | inl w ↦ rw (t, u, w, nonzero_bits rtt i (ground arith)) (_, refl, refl)
        | inr w ↦ rw (t, u, w, d) (_, refl, refl)
      ]
    ]
  ]

  least-Returns :
      (acked : List AckedPacket) (lost : List LostPacket)
      → 0 < length acked + length lost
      → Returns (λ n. n ≡ n) (least_unacked acked lost)
  least-Returns [] [] h = absurd (omega arith)
  least-Returns [] (p ∷ ps) h = let (n, e) = last_lost-Returns p ps in rw e (_, refl, refl)
  least-Returns (p ∷ ps) lost h = (_, refl, refl)

  finish-Returns :
      (b : Sender f.F) (e : Event) (start : Bool) (acked lost excess : ℤ)
      → StateInv b
      → InI64 e.rtt
      → 0 < length e.acked + length e.lost
      → Returns
          (λ c. StateInv c × Recovering c × (limits c ≡ limits b))
          (finish_event f k b e start acked lost excess)
  unfolding finish_event clean_up remove_obsolete_packets in_recovery
  finish-Returns b e start acked lost excess h i l =
      let (c, q, r) = rate-Returns b e.rtt lost i h.ready.0 in
      let (n, q', _) = least-Returns e.acked e.lost l in
      let w = calculate_congestion_window f c e.rtt acked excess in
      let d = calculate_recovery_window w acked lost in
      let g =
        recovery-StateInv w acked lost (window-StateInv f c e.rtt acked excess (keep b c r h)) in
      rw (q, q')
        (
          clean_up f k d start n,
          refl,
          (
            record {
              in_mode = g.in_mode;
              offset = g.offset;
              limits = g.limits;
              ready = (
                g.ready.0,
                (g.ready.1.0, (remove_up_to_lem d.sampler.connection_state_map n g.ready.1.1).0),
              );
            },
            recovery-Recovering w acked lost,
            limits-recovery f w acked lost
                ∙ (limits-window f c e.rtt acked excess ∙ ap (λ t. (t.4, t.5)) r),
          ),
        )

  -- What holds of a sender between two calls; `m` are the least and the largest window.
  pub record WellFormed (m : ℤ × ℤ) (b : Sender f.F) : Type 0 where
    pub state : StateInv b
    pub recovering : Recovering b
    pub fixed : limits b ≡ m

  -- For a well-formed sender an event with at least one packet, whose numbers are
  -- `int64`s, never panics, and the sender is
  -- well-formed afterwards, with the same limits.
  pub on_congestion_event_ex_lem :
      (lims : ℤ × ℤ) (b : Sender f.F) (e : Event)
      → WellFormed lims b
      → InI64 e.rtt
      → 0 < length e.acked + length e.lost
      → AckedInRange e.acked
      → LostInRange e.lost
      → Returns (WellFormed lims) (on_congestion_event_ex f k b e)
  unfolding on_congestion_event_ex apply_sample
  on_congestion_event_ex_lem lims b e h i l acked_in lost_in =
      let r = begin_event f k b e in
      let c = r.1 in
      let g = keep b c (core-begin f k b e) h.state in
      let (q, p, n) =
        on_congestion_event_lem f c.sampler e.event_time e.acked e.lost (bandwidth_estimate c)
          inf_bandwidth c.round_trip_count g.ready.1 acked_in lost_in in
      let d : Sender f.F = record c { sampler = q.0 } in
      let g' : StateInv d = record {
        in_mode = g.in_mode;
        offset = g.offset;
        limits = g.limits;
        ready = (g.ready.0, Counted-IsReady c.sampler q.0 g.ready.1 n);
      } in
      let s = q.1 in
      let m = learn f k d e.event_time b.sampler.total_bytes_acked s in
      let lost = d.sampler.total_bytes_lost -i b.sampler.total_bytes_lost in
      let o = count_losses f k m.1 lost e.lost in
      let g'' =
        keep d o
          (core-losses f k m.1 lost e.lost
            ∙ core-learn f k d e.event_time b.sampler.total_bytes_acked s)
          g' in
      let u = change_mode f k o e r.0 m.0 s.last_packet_send_state in
      let v = change_mode-StateInv f k o e r.0 m.0 s.last_packet_send_state g'' in
      let same : limits u ≡ limits b =
        limits-change_mode f k o e r.0 m.0 s.last_packet_send_state
        ∙ ap (λ t. (t.4, t.5))
            (core-losses f k m.1 lost e.lost
              ∙ (core-learn f k d e.event_time b.sampler.total_bytes_acked s
                  ∙ replaced b c q.0 (core-begin f k b e))) in
      let (z, y, w) =
        finish-Returns u e r.0 (u.sampler.total_bytes_acked -i b.sampler.total_bytes_acked) lost
          s.extra_acked v i l in
      rw (p, y) (z, refl, record { state = w.0; recovering = w.1; fixed = w.2 ∙ (same ∙ h.fixed) })
