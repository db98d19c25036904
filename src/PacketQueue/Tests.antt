-- ===== src/PacketQueue/Tests.antt =====
-- The packet queue on concrete calls.
use qperf_go.Prelude.{
  negsuc, ◌+i◌, ◌-i◌, ◌+ℤ◌, ◌-ℤ◌, i64, ◌≡◌, refl, true, false, [], ◌∷◌, ℕ, arith, pos, some, none,
  ltb_ℤ, if◌then◌else◌,
}
use Prim.Native.Nat.{◌<◌, ◌^◌}
use qperf_go.RingBuffer
use qperf_go.RingBuffer.{Zero}
use qperf_go.PacketQueue.{
  Queue, EntryWrapper, wrapper_zero, emplace, remove_up_to, get_entry, is_empty, get_entry_wrapper,
  wrapper_at, first_entry, new_queue,
}
use qperf_go.PacketQueue.Inv.{Inv}
use qperf_go.PacketQueue.Emplace.{Emplaced, emplace_lem}
use qperf_go.PacketQueue.Span.{Spans, first_last_lem}
use qperf_go.PacketQueue.Remove.{Removes, remove_lem, remove_up_to_lem}

instance nat_zero : Zero ℕ
nat_zero = record { zero_value = 0 }

abbrev here : ℕ → EntryWrapper ℕ
here n = record { present = true; entry = n }

-- Packets 7 and 9 are present; 8 is missing; the slots go round the end of the buffer.
abbrev two_packets : Queue ℕ
two_packets = record {
  entries = record {
    ring =
        record { present = false; entry = 0 }
        ∷ here 90
        ∷ record { present = false; entry = 0 }
        ∷ here 70
        ∷ [];
    head_pos = 3;
    tail_pos = 2;
    full = false;
  };
  number_of_present_entries = 2;
  first_packet = pos 7;
}

two_packets-Inv : Inv two_packets
unfolding RingBuffer.len
two_packets-Inv = record {
  at_packet = 7;
  list = here 70 ∷ record { present = false; entry = 0 } ∷ here 90 ∷ [];
  settled = (
    record {
      placed = record { valid = ground arith; same = refl; first = refl; bound = omega arith };
      count = refl;
    },
    refl,
  );
}

emplace_lem_example : Emplaced two_packets 12 120 (emplace two_packets (pos 12) (some 120))
emplace_lem_example = emplace_lem two_packets 12 120 two_packets-Inv (omega arith)

remove_lem_example : Removes two_packets 7
remove_lem_example = remove_lem two_packets 7 two_packets-Inv (omega arith)

remove_up_to_lem_example :
    Inv (remove_up_to two_packets (pos 8))
    × ((m : ℕ)
        → m < 2 ^ 63
        → get_entry (remove_up_to two_packets (pos 8)) (pos m)
          ≡ (if ltb_ℤ (pos m) (pos 8) then some none else get_entry two_packets (pos m)))
remove_up_to_lem_example = remove_up_to_lem two_packets (pos 8) two_packets-Inv

first_last_lem_example : Spans two_packets
unfolding is_empty
first_last_lem_example = first_last_lem two_packets two_packets-Inv refl

-- A packet number 2^63 above the first one: the offset wraps round to a negative one, and the lookup
-- panics.
far :
    get_entry {T = ℕ} (emplace (new_queue 4) (negsuc 9_223_372_036_854_775_807) (some 5)).0 (pos 1)
    ≡ none
unfolding get_entry get_entry_wrapper wrapper_at emplace first_entry new_queue is_empty
    RingBuffer.init RingBuffer.push_back RingBuffer.put RingBuffer.offset RingBuffer.slot
    RingBuffer.len RingBuffer.empty ◌+i◌ ◌-i◌ ◌+ℤ◌ ◌-ℤ◌ i64
far = refl
