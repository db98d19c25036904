-- ===== src/CubicSender/Calls.antt =====
-- Sequences of calls of a Cubic sender, newest first.
use qperf_go.Prelude.{ℕ, Bool, Option, some, List, [], ◌∷◌, ℤ, pos, ◌>>=◌}
use qperf_go.Prelude.Float.{Float64, Float32}
use qperf_go.CubicSender.{Undeclared, Sender, on_packet_sent, maybe_exit_slow_start}
use qperf_go.CubicSender.Events.{
  on_packet_acked, on_congestion_event, on_retransmission_timeout, on_connection_migration,
}

-- `sent` has the smoothed round trip, the time, the number, the bytes and whether they are
-- retransmitted; `acked` the number, the bytes, the bytes in flight before, the least round trip and
-- the time; `maybe_exit` the latest and the least round trip.
pub data Call : Type 0 where
  sent : ℤ → ℕ → ℤ → ℤ → Bool → Call
  acked : ℤ → ℕ → ℤ → ℤ → ℕ → Call
  lost : ℤ → Call
  maybe_exit : ℤ → ℤ → Call
  timeout : Bool → Call
  migration : Call

module _ (u : Undeclared) (cbrt : ℤ → ℕ) (f : Float64) (g : Float32) where
  unfoldable pub apply : Sender u → Call → Option (Sender u)
  apply c (sent smoothed time number bytes again) =
      some (on_packet_sent u c smoothed time number bytes again)
  apply c (acked number bytes prior min_rtt time) =
      on_packet_acked u cbrt f g c number (pos bytes) prior min_rtt time
  apply c (lost number) = some (on_congestion_event u cbrt f g c number)
  apply c (maybe_exit latest min_rtt) = maybe_exit_slow_start u c latest min_rtt
  apply c (timeout again) = some (on_retransmission_timeout u c again)
  apply c migration = some (on_connection_migration u c)

  unfoldable pub run : Sender u → List Call → Option (Sender u)
  run c [] = some c
  run c (x ∷ xs) = do d ← run c xs; apply d x
