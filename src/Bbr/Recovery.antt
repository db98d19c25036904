-- ===== src/Bbr/Recovery.antt =====
-- `updateRecoveryState`.
use qperf_go.Prelude.{Bool, not, ◌&&◌, if◌then◌else◌, ℤ, pos, ltb_ℤ}
use qperf_go.Bbr.{
  RecoveryState, not_in_recovery, conservation, growth, Sender, nat_zero, in_recovery,
}

-- The `switch`: the state after an event, `past` where the event acknowledges a packet past
-- `endRecoveryAt`.
unfoldable pub next_recovery_state : RecoveryState → Bool → Bool → Bool → RecoveryState
next_recovery_state not_in_recovery has_losses is_round_start past =
    if has_losses then conservation else not_in_recovery
next_recovery_state conservation has_losses is_round_start past =
    if not has_losses && past
    then not_in_recovery
    else if is_round_start
    then growth
    else conservation
next_recovery_state growth has_losses is_round_start past =
    if not has_losses && past then not_in_recovery else growth

module _ {F : Type 0} where
  -- Recovery is entered: the window is computed anew, and the round starts again.
  abbrev pub enters : Sender F → Bool → Bool
  enters b has_losses = not (in_recovery b) && has_losses

  unfoldable pub update_recovery_state : Sender F → ℤ → Bool → Bool → Sender F
  update_recovery_state b last_acked_packet has_losses is_round_start =
      let end = if has_losses then b.last_sent_packet else b.end_recovery_at in
      if not b.is_at_full_bandwidth then b else record b {
        end_recovery_at = end;
        recovery_state =
            next_recovery_state b.recovery_state has_losses is_round_start
              (ltb_ℤ end last_acked_packet);
        recovery_window = if enters b has_losses then pos 0 else b.recovery_window;
        current_round_trip_end =
            if enters b has_losses then b.last_sent_packet else b.current_round_trip_end;
      }
