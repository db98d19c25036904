-- ===== src/Bbr/Frame.antt =====
-- Steps of an event that leave alone what `StateInv` reads.
use qperf_go.Prelude.{
  ℕ, ◌<◌, ◌≤ℤ◌, ◌≡◌, refl, ap, sym, subst, ◌∙◌, Bool, false, List, [], ◌∷◌, ℤ, eqb_ℤ, arith, inl,
  inr, Bool-cases,
}
use qperf_go.Prelude.Float.{Float64}
use qperf_go.RingBuffer.{RingBuffer}
use qperf_go.RingBuffer.Inv.{IsValid}
use qperf_go.AckPoints.{AckPoint, point_zero}
use qperf_go.PacketQueue.{Queue}
use qperf_go.PacketQueue.Inv.{Inv}
use qperf_go.Sampler.{
  SentPacket, sent_packet_zero, CongestionEventSample, Sampler, SendTimeState, AckedPacket,
  LostPacket, inf_rtt, on_app_limited,
}
use qperf_go.Sampler.Event.{last_acked}
use qperf_go.Bbr.{Mode, Sender, Constants}
use qperf_go.Bbr.Target.{maybe_update_min_rtt}
use qperf_go.Bbr.Modes.{maybe_applimited, update_round_trip_counter}
use qperf_go.Bbr.Recovery.{update_recovery_state}
use qperf_go.Bbr.Event.{
  Event, any_lost, less_lost, less_acked, begin_event, learn_bandwidth, learn_limit, learn,
  count_losses,
}
use qperf_go.Bbr.ModeLaws.{InMode, StateInv}

-- The fields that `StateInv` reads.
abbrev pub core :
    {F : Type 0}
    → Sender F
    → Mode × Bool × ℕ × ℤ × ℤ × ℤ × Bool × RingBuffer AckPoint × Queue SentPacket
core b = (
  b.mode, b.is_at_full_bandwidth, b.cycle_current_offset, b.congestion_window,
  b.min_congestion_window, b.max_congestion_window, b.detect_overshooting, b.sampler.a0_candidates,
  b.sampler.connection_state_map,
)

-- A sampler that is replaced changes only the candidates and the packets.
pub replaced :
    {F : Type 0} (b c : Sender F) (q : Sampler F)
    → core c ≡ core b
    → core (record c { sampler = q }) ≡ (
      b.mode, b.is_at_full_bandwidth, b.cycle_current_offset, b.congestion_window,
      b.min_congestion_window, b.max_congestion_window, b.detect_overshooting, q.a0_candidates,
      q.connection_state_map,
    )
replaced b c q e =
    ap (λ t. (t.0, t.1, t.2, t.3, t.4, t.5, t.6, q.a0_candidates, q.connection_state_map)) e

pub keep : {F : Type 0} (b c : Sender F) → core c ≡ core b → StateInv b → StateInv c
keep b c e h = record {
  in_mode = subst (λ t. InMode t.0 t.1) (sym e) h.in_mode;
  offset = subst (λ t. t.2 < 8) (sym e) h.offset;
  limits = subst (λ t. (t.4 ≤ℤ t.3) × (t.3 ≤ℤ t.5)) (sym e) h.limits;
  ready = subst (λ t. (t.6 ≡ false) × (IsValid t.7 × Inv t.8)) (sym e) h.ready;
}

module _ {F : Type 0} where
  pub core-applimited : (b : Sender F) (n : ℤ) → core (maybe_applimited b n) ≡ core b
  unfolding maybe_applimited on_app_limited
  core-applimited b n = ground arith

  pub core-round : (b : Sender F) (n : ℤ) → core (update_round_trip_counter b n).1 ≡ core b
  unfolding update_round_trip_counter
  core-round b n = ground arith

  pub core-recovery :
      (b : Sender F) (n : ℤ) (lost start : Bool)
      → core (update_recovery_state b n lost start) ≡ core b
  unfolding update_recovery_state
  core-recovery b n lost start = ground arith

  pub core-min_rtt :
      (b : Sender F) (now : ℕ) (r : ℤ) → core (maybe_update_min_rtt b now r).1 ≡ core b
  unfolding maybe_update_min_rtt
  core-min_rtt b now r = ground arith

module _ (f : Float64) (k : Constants) where
  pub core-limit : (b : Sender f.F) (s : SendTimeState) → core (learn_limit f k b s) ≡ core b
  unfolding learn_limit
  core-limit b s = ground arith

  pub core-bandwidth :
      (b : Sender f.F) (before : ℤ) (s : CongestionEventSample)
      → core (learn_bandwidth f k b before s) ≡ core b
  unfolding learn_bandwidth
  core-bandwidth b before s = ground arith

  pub core-losses :
      (b : Sender f.F) (n : ℤ) (lost : List LostPacket) → core (count_losses f k b n lost) ≡ core b
  unfolding count_losses
  core-losses b n [] = refl
  core-losses b n (p ∷ ps) = refl

  pub core-learn :
      (b : Sender f.F) (now : ℕ) (before : ℤ) (s : CongestionEventSample)
      → core (learn f k b now before s).1 ≡ core b
  unfolding learn
  core-learn b now before s =
      let c = learn_limit f k b s.last_packet_send_state in
      let d = learn_bandwidth f k c before s in
      let e = core-bandwidth c before s ∙ core-limit b s.last_packet_send_state in
      elim (Bool-cases (eqb_ℤ s.sample_rtt inf_rtt)) [
        | inl t ↦ rw t e
        | inr t ↦ rw t (core-min_rtt d now s.sample_rtt ∙ e)
      ]

  pub core-begin : (b : Sender f.F) (e : Event) → core (begin_event f k b e).1 ≡ core b
  unfolding begin_event
  core-begin b e = by_packets e.acked
    where
      by_packets :
          (ps : List AckedPacket) → core (begin_event f k b (record e { acked = ps })).1 ≡ core b
      by_packets [] = core-applimited b e.prior_in_flight
      by_packets (p ∷ ps) =
          let c = maybe_applimited b e.prior_in_flight in
          let d : Sender f.F = record c {
            bytes_in_flight = less_lost (less_acked e.prior_in_flight (p ∷ ps)) e.lost;
          } in
          let r = update_round_trip_counter d (last_acked p ps) in
          core-recovery r.1 (last_acked p ps) (any_lost e.lost) r.0
          ∙ (core-round d (last_acked p ps) ∙ core-applimited b e.prior_in_flight)
