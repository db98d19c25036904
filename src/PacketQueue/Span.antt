-- ===== src/PacketQueue/Span.antt =====
-- `FirstPacket`, `LastPacket` and `EntrySlotsUsed`: the packet numbers that a queue spans.
use qperf_go.Prelude.{
  ℕ, ◌+◌, ◌-◌, ◌^◌, ◌<◌, ◌≡◌, ◌∙◌, false, none, some, List, [], ◌∷◌, arith, length, pos,
}
use qperf_go.RingBuffer.{Zero}
use qperf_go.PacketQueue.{
  EntryWrapper, Queue, wrapper_zero, is_empty, last_packet, get_entry, entry_slots_used,
}
use qperf_go.PacketQueue.Slots.{look-cons}
use qperf_go.PacketQueue.Inv.{Inv, Settled}
use qperf_go.PacketQueue.Loops.{len-Placed}
use qperf_go.PacketQueue.Lookup.{get_entry-Settled}
use qperf_go.PacketQueue.Append.{at_out}
use qperf_go.PacketQueue.Emplace.{last_packet-Holds}

module _ {T : Type 0} ⦃z : Zero T⦄ where
  -- The packet numbers that a queue which is not empty may hold: its first packet is the least number
  -- that `GetEntry` finds, it finds none past the last packet, and there is one slot for each
  -- number in between.
  pub record Spans (p : Queue T) : Type 0 where
    pub low : ℕ
    pub high : ℕ
    pub first : p.first_packet ≡ pos low
    pub last : last_packet p ≡ pos high
    pub least : (e : T) × (get_entry p (pos low) ≡ some (some e))
    pub below : (m : ℕ) → m < low → get_entry p (pos m) ≡ some none
    pub above : (m : ℕ) → high < m → m < 2 ^ 63 → get_entry p (pos m) ≡ some none
    pub used : entry_slots_used p ≡ high - low + 1

  Spans-Settled :
      (p : Queue T) (f : ℕ) (ws : List (EntryWrapper T))
      → Settled p f ws
      → is_empty p ≡ false
      → Spans p
  Spans-Settled p f [] s e = absurd (unfold is_empty in ground (arith, s.3))
  Spans-Settled p f (w ∷ ws) (h, here) e = record {
    low = f;
    high = f + length ws;
    first = h.first;
    last = (last_packet-Holds p f w ws h here).1;
    least = (
      w.entry,
      get_entry-Settled p f f (w ∷ ws) (h, here) (omega (arith, h.bound))
          ∙ ground (arith, look-cons f f w ws),
    );
    below =
        λ m c. get_entry-Settled p f m (w ∷ ws) (h, here) (omega (arith, h.bound)) ∙ ground arith;
    above = λ m c d.
        get_entry-Settled p f m (w ∷ ws) (h, here) d ∙ ground (arith, at_out (w ∷ ws) (m - f));
    used = unfold entry_slots_used in omega (arith, len-Placed h.placed);
  }

  pub first_last_lem : (p : Queue T) → Inv p → is_empty p ≡ false → Spans p
  first_last_lem p i e = Spans-Settled p i.at_packet i.list i.settled e
