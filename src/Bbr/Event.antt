-- ===== src/Bbr/Event.antt =====
-- `OnPacketSent`, `HasPacingBudget`, `TimeUntilSend` and `OnCongestionEventEx`.
-- `rtt` is what `rttStats.MinRTT()` answers and `rand` what `rand.Int31n` does.
use qperf_go.Prelude.{
  ℕ, ◌+◌, Bool, true, false, not, ◌&&◌, ◌||◌, Option, none, some, List, [], ◌∷◌, if◌then◌else◌,
  ◌>>=◌, ℤ, pos, ltb, leb_ℤ, eqb_ℤ, ◌+i◌, ◌-i◌, u64,
}
use qperf_go.Prelude.Float.{Float64}
use qperf_go.WindowedFilter as Filter
use qperf_go.Bandwidth.{inf_bandwidth}
use qperf_go.Sampler.{
  SendTimeState, AckedPacket, LostPacket, CongestionEventSample, on_packet_sent,
  remove_obsolete_packets, inf_rtt,
}
use qperf_go.Sampler.Event.{on_congestion_event, last_acked, last_lost}
use qperf_go.Bbr.{Sender, Constants, nat_zero, is_probe_bw, bandwidth_estimate}
use qperf_go.Pacer.{sent_packet, budget, time_until_send}
use qperf_go.Bbr.Target.{maybe_update_min_rtt, bandwidth_for_pacer}
use qperf_go.Bbr.Cycle.{update_gain_cycle_phase}
use qperf_go.Bbr.Recovery.{update_recovery_state}
use qperf_go.Bbr.Modes.{
  maybe_applimited, update_round_trip_counter, check_if_full_bandwidth_reached,
  maybe_exit_startup_or_drain, maybe_enter_or_exit_probe_rtt,
}
use qperf_go.Bbr.PacingRate.{calculate_pacing_rate}
use qperf_go.Bbr.Windows.{calculate_congestion_window, calculate_recovery_window}

unfoldable pub less_acked : ℤ → List AckedPacket → ℤ
less_acked n [] = n
less_acked n (p ∷ ps) = less_acked (n -i p.bytes_acked) ps

unfoldable pub less_lost : ℤ → List LostPacket → ℤ
less_lost n [] = n
less_lost n (p ∷ ps) = less_lost (n -i p.bytes_lost) ps

abbrev pub any_lost : List LostPacket → Bool
any_lost [] = false
any_lost (p ∷ ps) = true

-- An event: its time, its packets, and what the connection answers.
pub record Event : Type 0 where
  pub prior_in_flight : ℤ
  pub event_time : ℕ
  pub acked : List AckedPacket
  pub lost : List LostPacket
  pub rtt : ℤ
  pub rand : ℕ

-- The number below which the packets are obsolete; with no packet at all the source reads out of
-- range.
abbrev pub least_unacked : List AckedPacket → List LostPacket → Option ℤ
least_unacked [] [] = none
least_unacked [] (p ∷ ps) = do n ← last_lost (p ∷ ps); some (n +i pos 1)
least_unacked (p ∷ ps) lost = some (last_acked p ps -i pos 2)

module _ (f : Float64) (k : Constants) where
  unfoldable pub on_packet_sent_bbr : Sender f.F → ℕ → ℤ → ℤ → ℤ → Bool → Sender f.F
  on_packet_sent_bbr b sent_time bytes_in_flight packet_number bytes is_retransmittable = record b {
    pacer = sent_packet k.min_pacing_delay b.pacer (bandwidth_for_pacer f b) sent_time bytes;
    last_sent_packet = packet_number;
    bytes_in_flight = bytes_in_flight;
    exiting_quiescence = if eqb_ℤ bytes_in_flight (pos 0) then true else b.exiting_quiescence;
    sampler =
        on_packet_sent b.sampler sent_time packet_number bytes bytes_in_flight is_retransmittable;
  }

  unfoldable pub has_pacing_budget : Sender f.F → ℕ → Bool
  has_pacing_budget b now =
      leb_ℤ b.max_datagram_size (budget k.min_pacing_delay b.pacer (bandwidth_for_pacer f b) now)

  unfoldable pub time_until_send_bbr : Sender f.F → ℕ
  time_until_send_bbr b = time_until_send k.min_pacing_delay f b.pacer (bandwidth_for_pacer f b)

  -- Up to the call of the sampler: whether a round starts, and the sender.
  unfoldable pub begin_event : Sender f.F → Event → Bool × Sender f.F
  begin_event b e =
      let c = maybe_applimited b e.prior_in_flight in
      let d : Sender f.F = record c {
        bytes_in_flight = less_lost (less_acked e.prior_in_flight e.acked) e.lost;
      } in
      elim e.acked [
        | [] ↦ (false, d)
        | p ∷ ps ↦
            let r = update_round_trip_counter d (last_acked p ps) in
            (r.0, update_recovery_state r.1 (last_acked p ps) (any_lost e.lost) r.0)
      ]

  -- The maximum bandwidth and the minimum RTT after a sample. `before` is `totalBytesAckedBefore`;
  -- the result says whether the minimum RTT has expired.
  unfoldable pub learn_bandwidth : Sender f.F → ℤ → CongestionEventSample → Sender f.F
  learn_bandwidth b before s =
      if not (eqb_ℤ before b.sampler.total_bytes_acked)
        && (not s.sample_is_app_limited || ltb (bandwidth_estimate b) s.sample_max_bandwidth)
      then record b {
        max_bandwidth = Filter.update b.max_bandwidth s.sample_max_bandwidth b.round_trip_count;
      }
      else b

  unfoldable pub learn_limit : Sender f.F → SendTimeState → Sender f.F
  learn_limit b s =
      if s.is_valid
      then record b {
        last_sample_is_app_limited = s.is_app_limited;
        has_no_app_limited_sample = b.has_no_app_limited_sample || not s.is_app_limited;
      }
      else b

  unfoldable pub learn : Sender f.F → ℕ → ℤ → CongestionEventSample → Bool × Sender f.F
  learn b now before s =
      let c = learn_bandwidth (learn_limit b s.last_packet_send_state) before s in
      if eqb_ℤ s.sample_rtt inf_rtt then (false, c) else maybe_update_min_rtt c now s.sample_rtt

  unfoldable pub count_losses : Sender f.F → ℤ → List LostPacket → Sender f.F
  count_losses b bytes_lost lost =
      if any_lost lost
      then record b {
        num_loss_events_in_round = u64 (b.num_loss_events_in_round + 1);
        bytes_lost_in_round = b.bytes_lost_in_round +i bytes_lost;
      }
      else b

  -- The moves between the modes.
  unfoldable pub change_mode : Sender f.F → Event → Bool → Bool → SendTimeState → Sender f.F
  change_mode b e is_round_start min_rtt_expired s =
      let c =
        if is_probe_bw b.mode
        then update_gain_cycle_phase f b e.rtt e.event_time e.prior_in_flight (any_lost e.lost)
        else b in
      let d =
        if is_round_start && not c.is_at_full_bandwidth
        then check_if_full_bandwidth_reached f c s
        else c in
      maybe_enter_or_exit_probe_rtt f (maybe_exit_startup_or_drain f d e.rtt e.rand e.event_time)
        k.max_packet_buffer_size e.rand e.event_time is_round_start min_rtt_expired

  -- The rate, the windows and the cleaning up.
  unfoldable pub clean_up : Sender f.F → Bool → ℤ → Sender f.F
  clean_up b is_round_start n = record b {
    sampler = remove_obsolete_packets b.sampler n;
    num_loss_events_in_round = if is_round_start then 0 else b.num_loss_events_in_round;
    bytes_lost_in_round = if is_round_start then pos 0 else b.bytes_lost_in_round;
  }

  unfoldable pub finish_event : Sender f.F → Event → Bool → ℤ → ℤ → ℤ → Option (Sender f.F)
  finish_event b e is_round_start bytes_acked bytes_lost excess_acked = do
    c ← calculate_pacing_rate f b e.rtt bytes_lost
    n ← least_unacked e.acked e.lost
    some (
        clean_up
          (calculate_recovery_window
            (calculate_congestion_window f c e.rtt bytes_acked excess_acked) bytes_acked bytes_lost)
          is_round_start n)

  -- After the sampler's answer.
  unfoldable pub apply_sample :
      Sender f.F → Sender f.F → Event → Bool → CongestionEventSample → Option (Sender f.F)
  apply_sample before b e is_round_start s =
      let l = learn b e.event_time before.sampler.total_bytes_acked s in
      let bytes_lost = b.sampler.total_bytes_lost -i before.sampler.total_bytes_lost in
      let c =
        change_mode (count_losses l.1 bytes_lost e.lost) e is_round_start l.0
          s.last_packet_send_state in
      finish_event c e is_round_start
        (c.sampler.total_bytes_acked -i before.sampler.total_bytes_acked) bytes_lost s.extra_acked

  unfoldable pub on_congestion_event_ex : Sender f.F → Event → Option (Sender f.F)
  on_congestion_event_ex b e =
      let r = begin_event b e in
      let c = r.1 in
      do
        q ←
            on_congestion_event f c.sampler e.event_time e.acked e.lost (bandwidth_estimate c)
              inf_bandwidth c.round_trip_count
        apply_sample b (record c { sampler = q.0 }) e r.0 q.1
