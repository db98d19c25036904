-- ===== src/PacketQueue.antt =====
-- internal/congestion/bbr/packet_number_indexed_queue.go: entries indexed by packet number, stored
-- in a ring buffer that starts at the lowest present number.
-- A method that changes `*p` returns the new queue. A returned pointer is the value that it points
-- at, nil is `none`. Packet numbers are `int64`. `numberOfPresentEntries` falls only where an entry
-- is present, so it is a plain number (`Inv.Inv`).
pub mod Slots
pub mod Inv
pub mod Loops
pub mod Lookup
mod Append
pub mod Emplace
pub mod Span
mod Marking
pub mod Remove
mod Tests
use qperf_go.Prelude.{
  ℕ, zero, suc, ◌+◌, ◌-◌, Bool, true, false, not, ◌&&◌, ◌||◌, Option, none, some, ℤ, pos, negsuc,
  pos_part, ltb_ℤ, leb_ℤ, eqb_ℤ, ◌+i◌, ◌-i◌, leb, ltb, ◌==◌, if◌then◌else◌, ◌>>=◌,
}
use qperf_go.RingBuffer.{
  RingBuffer, Zero, new_value, init, len, empty, push_back, pop_front, offset, front, write_at,
}

pub record EntryWrapper (T : Type 0) : Type 0 where
  pub present : Bool
  pub entry : T

instance abbrev pub wrapper_zero : {T : Type 0} ⦃z : Zero T⦄ → Zero (EntryWrapper T)
wrapper_zero = record { zero_value = record { present = false; entry = new_value } }

pub record Queue (T : Type 0) : Type 0 where
  pub entries : RingBuffer (EntryWrapper T)
  pub number_of_present_entries : ℕ
  pub first_packet : ℤ

abbrev pub invalid_packet_number : ℤ
invalid_packet_number = negsuc 0

module _ {T : Type 0} where
  unfoldable pub is_empty : Queue T → Bool
  is_empty p = p.number_of_present_entries == 0

  unfoldable pub entry_slots_used : Queue T → ℕ
  entry_slots_used p = len p.entries

  -- `congestion.PacketNumber(p.entries.Len()-1)` is -1 for a buffer with no slot.
  unfoldable pub last_packet : Queue T → ℤ
  last_packet p =
      if is_empty p then invalid_packet_number else p.first_packet +i (pos (len p.entries) -i pos 1)

  -- `if ew == nil || !ew.present { return nil }`; `Offset` returns no nil.
  abbrev pub present_only : EntryWrapper T → Option (EntryWrapper T)
  present_only ew = if ew.present then some ew else none

  -- `return &ew.entry`
  abbrev pub entry_only : Option (EntryWrapper T) → Option T
  entry_only none = none
  entry_only (some ew) = some ew.entry

module _ {T : Type 0} ⦃z : Zero T⦄ where
  unfoldable pub new_queue : ℕ → Queue T
  new_queue size = record {
    entries = init size;
    number_of_present_entries = 0;
    first_packet = invalid_packet_number;
  }

  -- The loop that fills in the missing entries.
  unfoldable pub push_gap : ℕ → RingBuffer (EntryWrapper T) → RingBuffer (EntryWrapper T)
  push_gap zero r = r
  push_gap (suc gap) r = push_gap gap (push_back r new_value)

  -- `p.entries.Offset(offset)` and what follows it. The offset may be negative: it wraps round where
  -- the packet numbers are 2^63 apart, and `Offset` may then panic.
  unfoldable pub wrapper_at : Queue T → ℤ → Option (Option (EntryWrapper T))
  wrapper_at p packet_number = do
    ew ← offset p.entries (packet_number -i p.first_packet)
    some (present_only ew)

  -- A panic is the outer `none`, nil is `some none`; so for `GetEntry`.
  unfoldable pub get_entry_wrapper : Queue T → ℤ → Option (Option (EntryWrapper T))
  get_entry_wrapper p packet_number =
      if eqb_ℤ packet_number invalid_packet_number
        || (is_empty p || ltb_ℤ packet_number p.first_packet)
      then some none
      else if leb_ℤ (pos (len p.entries)) (packet_number -i p.first_packet)
      then some none
      else wrapper_at p packet_number

  unfoldable pub get_entry : Queue T → ℤ → Option (Option T)
  get_entry p packet_number = do ew ← get_entry_wrapper p packet_number; some (entry_only ew)

  -- `Emplace` where an entry is appended, past the missing ones.
  unfoldable pub append_entry : Queue T → ℤ → T → Queue T
  append_entry p packet_number entry =
      let gap = pos_part (packet_number -i p.first_packet -i pos (len p.entries)) in
      record p {
        entries = push_back (push_gap gap p.entries) (record { present = true; entry = entry });
        number_of_present_entries = p.number_of_present_entries + 1;
      }

  -- `Emplace` into an empty queue.
  unfoldable pub first_entry : Queue T → ℤ → T → Queue T
  first_entry p packet_number entry = record {
    entries = push_back p.entries (record { present = true; entry = entry });
    number_of_present_entries = 1;
    first_packet = packet_number;
  }

  -- The second argument is nil as `none`.
  unfoldable pub emplace : Queue T → ℤ → Option T → Queue T × Bool
  emplace p packet_number none = (p, false)
  emplace p packet_number (some entry) =
      if eqb_ℤ packet_number invalid_packet_number
      then (p, false)
      else if is_empty p
      then (first_entry p packet_number entry, true)
      else if leb_ℤ packet_number (last_packet p)
      then (p, false)
      else (append_entry p packet_number entry, true)

  -- `p.entries.Front().present`, asked of a buffer that is not empty.
  unfoldable pub front_present : Queue T → Bool
  front_present p = elim (front p.entries) [ none ↦ false | some ew ↦ ew.present ]

  -- `p.entries.PopFront(); p.firstPacket++`
  unfoldable pub pop_entry : Queue T → Queue T
  pop_entry p = elim (pop_front p.entries) [
    | none ↦ p
    | some (_, rest) ↦ record p { entries = rest; first_packet = p.first_packet +i pos 1 }
  ]

  -- The loop of `clearup`. Each round pops a slot, so the number of slots is fuel enough.
  unfoldable pub clear_loop : ℕ → Queue T → Queue T
  clear_loop zero p = p
  clear_loop (suc fuel) p = elim (not (empty p.entries) && not (front_present p)) [
    | true ↦ clear_loop fuel (pop_entry p)
    | false ↦ p
  ]

  unfoldable pub clearup : Queue T → Queue T
  clearup p =
      let q = clear_loop (len p.entries) p in
      if empty q.entries then record q { first_packet = invalid_packet_number } else q

  -- `ew.present = false; p.numberOfPresentEntries--`, through the pointer to the slot.
  unfoldable pub mark_absent : Queue T → ℤ → EntryWrapper T → Queue T
  mark_absent p packet_number ew = record p {
    entries = write_at p.entries (packet_number -i p.first_packet) (record ew { present = false });
    number_of_present_entries = p.number_of_present_entries - 1;
  }

  unfoldable pub remove_found : Queue T → ℤ → EntryWrapper T → Queue T
  remove_found p packet_number ew =
      let q = mark_absent p packet_number ew in
      if eqb_ℤ packet_number q.first_packet then clearup q else q

  abbrev pub remove_result : Queue T → ℤ → Option (EntryWrapper T) → Queue T × Option T
  remove_result p packet_number none = (p, none)
  remove_result p packet_number (some ew) = (remove_found p packet_number ew, some ew.entry)

  -- The value is the entry that `f` is called with; `none` beside the queue is the result `false`.
  unfoldable pub remove : Queue T → ℤ → Option (Queue T × Option T)
  remove p packet_number = do
    ew ← get_entry_wrapper p packet_number
    some (remove_result p packet_number ew)

  -- The body of the loop of `RemoveUpTo`.
  unfoldable pub drop_front : Queue T → Queue T
  drop_front p = pop_entry (
      if front_present p
      then record p { number_of_present_entries = p.number_of_present_entries - 1 }
      else p)

  -- The loop of `RemoveUpTo`, on fuel as `clear_loop`.
  unfoldable pub remove_loop : ℕ → ℤ → Queue T → Queue T
  remove_loop zero n p = p
  remove_loop (suc fuel) n p =
      elim (not (empty p.entries)
        && (not (eqb_ℤ p.first_packet invalid_packet_number) && ltb_ℤ p.first_packet n)) [
          | true ↦ remove_loop fuel n (drop_front p)
          | false ↦ p
        ]

  unfoldable pub remove_up_to : Queue T → ℤ → Queue T
  remove_up_to p packet_number = clearup (remove_loop (len p.entries) packet_number p)
