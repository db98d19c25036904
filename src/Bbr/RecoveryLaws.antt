-- ===== src/Bbr/RecoveryLaws.antt =====
-- How long recovery lasts, over any sequence of events.
use qperf_go.Prelude.{
  ◌≡◌, refl, ap, ap₂, ◌∙◌, Bool, true, ◌&&◌, ◌||◌, List, [], ◌∷◌, if◌then◌else◌, ℤ, leb_ℤ, arith,
}
use qperf_go.Bbr.{Sender, in_recovery}
use qperf_go.Bbr.Recovery.{next_recovery_state, update_recovery_state}

-- What `updateRecoveryState` is told at one event, and the last packet that was sent before it.
pub record AckRound : Type 0 where
  pub last_sent : ℤ
  pub last_acked : ℤ
  pub has_losses : Bool
  pub is_round_start : Bool

module _ {F : Type 0} where
  -- The sender after a history of events, newest first.
  unfoldable pub recover : Sender F → List AckRound → Sender F
  recover b [] = b
  recover b (e ∷ es) =
      update_recovery_state (record (recover b es) { last_sent_packet = e.last_sent }) e.last_acked
        e.has_losses e.is_round_start

-- The last packet that was sent before the latest event with a loss.
abbrev pub latest_loss : ℤ → List AckRound → ℤ
latest_loss n [] = n
latest_loss n (e ∷ es) = if e.has_losses then e.last_sent else latest_loss n es

-- Whether a history ends in recovery: there was a loss, and since the latest one no event has
-- acknowledged a packet that was sent after it.
abbrev pub recovering : ℤ → Bool → List AckRound → Bool
recovering n start [] = start
recovering n start (e ∷ es) =
    e.has_losses || (recovering n start es && leb_ℤ e.last_acked (latest_loss n es))

module _ {F : Type 0} where
  pub record Recovered (b : Sender F) (es : List AckRound) (c : Sender F) : Type 0 where
    pub full : c.is_at_full_bandwidth ≡ true
    pub end : c.end_recovery_at ≡ latest_loss b.end_recovery_at es
    pub in_state : in_recovery c ≡ recovering b.end_recovery_at (in_recovery b) es

  step-full :
      (b : Sender F) (n : ℤ) (losses start : Bool)
      → b.is_at_full_bandwidth ≡ true
      → (update_recovery_state b n losses start).is_at_full_bandwidth ≡ true
  unfolding update_recovery_state
  step-full b n losses start h = ground arith

  step-in_recovery :
      (b : Sender F) (n : ℤ) (losses start : Bool)
      → b.is_at_full_bandwidth ≡ true
      → in_recovery (update_recovery_state b n losses start)
        ≡ (losses || (in_recovery b && leb_ℤ n b.end_recovery_at))
  unfolding update_recovery_state in_recovery next_recovery_state
  step-in_recovery b n losses start h = ground arith

  step-end_recovery_at :
      (b : Sender F) (n : ℤ) (losses start : Bool)
      → b.is_at_full_bandwidth ≡ true
      → (update_recovery_state b n losses start).end_recovery_at
        ≡ (if losses then b.last_sent_packet else b.end_recovery_at)
  unfolding update_recovery_state
  step-end_recovery_at b n losses start h = ground arith

  -- Of a sender at the full bandwidth, after any events: it is in recovery exactly if there was a loss
  -- (or it began in recovery) and since the latest one no event has acknowledged a packet sent after
  -- it; `endRecoveryAt` is the last packet sent before the latest loss.
  pub recover_lem :
      (b : Sender F) (es : List AckRound)
      → b.is_at_full_bandwidth ≡ true
      → Recovered b es (recover b es)
  unfolding recover in_recovery
  recover_lem b [] h = record { full = h; end = refl; in_state = refl }
  recover_lem b (e ∷ es) h =
      let r = recover_lem b es h in
      let c : Sender F = record (recover b es) { last_sent_packet = e.last_sent } in
      record {
        full = step-full c e.last_acked e.has_losses e.is_round_start r.full;
        end =
            step-end_recovery_at c e.last_acked e.has_losses e.is_round_start r.full
            ∙ ap (λ n. if e.has_losses then e.last_sent else n) r.end;
        in_state =
            step-in_recovery c e.last_acked e.has_losses e.is_round_start r.full
            ∙ ap₂ (λ x n. e.has_losses || (x && leb_ℤ e.last_acked n)) r.in_state r.end;
      }
