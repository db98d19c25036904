-- ===== src/Sampler/AppLimited.antt =====
-- The app-limited phase: how long it lasts.
use qperf_go.Prelude.{
  Bool, true, false, ◌&&◌, ◌||◌, Option, none, some, List, [], ◌∷◌, ℤ, ltb_ℤ, eqb_ℤ,
}
use qperf_go.AckPoints.{point_zero}
use qperf_go.PacketQueue.{Queue, invalid_packet_number}
use qperf_go.PacketQueue.Inv.{Inv}
use qperf_go.Sampler.{Sampler, SentPacket, sent_packet_zero, AckedPacket}
use qperf_go.Sampler.Safety.{entry_at}

abbrev known : Option SentPacket → Bool
known none = false
known (some p) = true

-- Whether one of the packets is known and was sent after packet `end`, if that is a packet at all.
abbrev pub any_after : Queue SentPacket → ℤ → List AckedPacket → Bool
any_after q end [] = false
any_after q end (p ∷ ps) =
    (known (entry_at q p.packet_number)
      && (eqb_ℤ end invalid_packet_number || ltb_ℤ end p.packet_number))
    || any_after q end ps
