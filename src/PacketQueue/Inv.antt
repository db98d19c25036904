-- ===== src/PacketQueue/Inv.antt =====
-- The representation invariant of the queue, and what it says of the packet numbers.
use qperf_go.Prelude.{
  ℕ, ◌+◌, ◌-◌, ◌^◌, ◌≤◌, ◌<◌, ◌≡◌, ◌∙◌, true, List, [], ◌∷◌, arith, length, pos, ◌+ℤ◌, ◌-ℤ◌,
  +i_exact, -i_exact, +ℤ_parts, -ℤ_parts, eq_of_parts, ◌+i◌, ◌-i◌,
}
use qperf_go.RingBuffer.{Zero}
use qperf_go.RingBuffer.Inv.{IsValid}
use qperf_go.RingBuffer.Window.{contents}
use qperf_go.PacketQueue.{EntryWrapper, Queue, wrapper_zero, invalid_packet_number}
use qperf_go.PacketQueue.Slots.{count_present}

-- Packet numbers of QUIC are below 2^62.
abbrev pub max_packets : ℕ
max_packets = 2 ^ 62

module _ {T : Type 0} ⦃z : Zero T⦄ where
  abbrev pub slots : Queue T → List (EntryWrapper T)
  slots p = contents p.entries

  -- The queue's slots are `ws`, the first for packet number `f`.
  pub record Placed (p : Queue T) (f : ℕ) (ws : List (EntryWrapper T)) : Type 0 where
    pub valid : IsValid p.entries
    pub same : slots p ≡ ws
    pub first : p.first_packet ≡ pos f
    pub bound : f + length ws ≤ max_packets

  -- They are, and the present ones are counted.
  pub record Holds (p : Queue T) (f : ℕ) (ws : List (EntryWrapper T)) : Type 0 where
    pub placed : Placed p f ws
    pub open placed use *
    pub count : p.number_of_present_entries ≡ count_present ws

  -- So they are between two calls: the first is present, and without slots the first packet is
  -- invalid.
  abbrev pub Settled : Queue T → ℕ → List (EntryWrapper T) → Type 0
  Settled p f [] =
      IsValid p.entries
      × (slots p ≡ [])
      × (p.first_packet ≡ invalid_packet_number)
      × (p.number_of_present_entries ≡ 0)
  Settled p f (w ∷ ws) = Holds p f (w ∷ ws) × (w.present ≡ true)

  pub record Inv (p : Queue T) : Type 0 where
    pub at_packet : ℕ
    pub list : List (EntryWrapper T)
    pub settled : Settled p at_packet list

-- The differences and sums of packet numbers that the queue computes do not overflow.
pub packet-sub : (m f : ℕ) → m < 2 ^ 63 → f ≤ m → pos m -i pos f ≡ pos (m - f)
packet-sub m f h k =
    -i_exact (pos m) (pos f) (omega arith) (omega arith)
    ∙ eq_of_parts (pos m -ℤ pos f) (pos (m - f)) (omega (arith, -ℤ_parts (pos m) (pos f)))

pub packet-add : (f k : ℕ) → f + k < 2 ^ 63 → pos f +i pos k ≡ pos (f + k)
packet-add f k h =
    +i_exact (pos f) (pos k) (omega arith) (omega arith)
    ∙ eq_of_parts (pos f +ℤ pos k) (pos (f + k)) (omega (arith, +ℤ_parts (pos f) (pos k)))
