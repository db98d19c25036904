-- ===== src/RingBuffer.antt =====
-- internal/congestion/bbr/ringbuffer.go: the growing ring buffer `RingBuffer[T]`.
-- A method that changes `*r` returns the new buffer. A panic is `none`. The positions are `int`s
-- that stay within the slice (`Inv.IsValid`), so they are plain numbers; a slice's length is far
-- below 2^63. A pointer into the slice is modelled by the value that it points at.
pub mod Inv
pub mod Window
mod Grow
pub mod Refine
pub mod Model
mod Tests
use qperf_go.Prelude.{
  ℕ, ◌+◌, ◌-◌, ◌*◌, ◌%◌, Bool, true, false, not, ◌&&◌, ◌||◌, Option, none, some, List, [], ◌++◌,
  leb, ◌==◌, if◌then◌else◌, length, get_or, set, take, drop, replicate, ℤ, pos, negsuc, leb_ℤ, ◌+ℤ◌,
  ◌-ℤ◌, ◌>>=◌,
}

-- The zero value of a Go type, `*new(T)`.
pub record Zero {ℓ} (T : Type ℓ) : Type ℓ where
  pub zero_value : T

abbrev pub new_value {ℓ} : {T : Type ℓ} ⦃z : Zero T⦄ → T
new_value ⦃z⦄ = z.zero_value

pub record RingBuffer {ℓ} (T : Type ℓ) : Type ℓ where
  pub ring : List T
  pub head_pos : ℕ
  pub tail_pos : ℕ
  pub full : Bool

module _ {ℓ} {T : Type ℓ} ⦃z : Zero T⦄ where
  unfoldable pub init : ℕ → RingBuffer T
  init size = record { ring = replicate size new_value; head_pos = 0; tail_pos = 0; full = false }

  -- `copy(r.ring, oldRing[r.headPos:])`, then `copy(r.ring[headLen:], oldRing[:r.headPos])`, into a
  -- slice of zero values that is at least as long.
  unfoldable pub grow : RingBuffer T → RingBuffer T
  grow r =
      let old_ring = r.ring in
      let new_size = if length old_ring * 2 == 0 then 1 else length old_ring * 2 in
      record {
        ring =
            drop r.head_pos old_ring
            ++ (take r.head_pos old_ring ++ replicate (new_size - length old_ring) new_value);
        head_pos = 0;
        tail_pos = length old_ring;
        full = false;
      }

  -- Clears every slot; the slice keeps its size.
  unfoldable pub clear : RingBuffer T → RingBuffer T
  clear r = record {
    ring = replicate (length r.ring) new_value;
    head_pos = 0;
    tail_pos = 0;
    full = false;
  }

module _ {ℓ} {T : Type ℓ} where
  -- With `tailPos < headPos` the `int` expression `tailPos - headPos + len(ring)` is not negative.
  unfoldable pub len : RingBuffer T → ℕ
  len r =
      if r.full
      then length r.ring
      else if leb r.head_pos r.tail_pos
      then r.tail_pos - r.head_pos
      else r.tail_pos + length r.ring - r.head_pos

  unfoldable pub empty : RingBuffer T → Bool
  empty r = not r.full && (r.head_pos == r.tail_pos)

-- `p++` with `if p == len(r.ring) { p = 0 }`.
abbrev pub advance : ℕ → ℕ → ℕ
advance n p = if (p + 1) == n then 0 else p + 1

-- The index `sum % n` into a slice of `n` slots. Go's remainder has the sign of the sum, so that a
-- negative sum is an index only if it is a multiple of `n`; a division by 0 panics.
unfoldable pub slot : ℕ → ℤ → Option ℕ
slot n (pos k) = if n == 0 then none else some (k % n)
slot n (negsuc k) = if n == 0 then none else if ((k + 1) % n) == 0 then some 0 else none

module _ {ℓ} {T : Type ℓ} ⦃z : Zero T⦄ where
  -- `PushBack` after it has made room.
  unfoldable pub put : RingBuffer T → T → RingBuffer T
  put r t =
      let tail = advance (length r.ring) r.tail_pos in
      record r {
        ring = set r.ring r.tail_pos t;
        tail_pos = tail;
        full = if tail == r.head_pos then true else r.full;
      }

  unfoldable pub push_back : RingBuffer T → T → RingBuffer T
  push_back r t = put (if r.full || (length r.ring == 0) then grow r else r) t

  -- `PopFront` after its check.
  unfoldable pub popped : RingBuffer T → RingBuffer T
  popped r = record r {
    ring = set r.ring r.head_pos new_value;
    head_pos = advance (length r.ring) r.head_pos;
    full = false;
  }

  unfoldable pub pop_front : RingBuffer T → Option (T × RingBuffer T)
  pop_front r = if empty r then none else some (get_or r.ring r.head_pos new_value, popped r)

  -- `Offset`, for an `int`: a negative index is not refused, and reads a slot before the head or
  -- panics.
  unfoldable pub offset : RingBuffer T → ℤ → Option T
  offset r index = if empty r || leb_ℤ (pos (len r)) index then none else do
    place ← slot (length r.ring) (pos r.head_pos +ℤ index)
    some (get_or r.ring place new_value)

  unfoldable pub front : RingBuffer T → Option T
  front r = if empty r then none else some (get_or r.ring r.head_pos new_value)

  unfoldable pub back : RingBuffer T → Option T
  back r = if empty r then none else offset r (pos (len r) -ℤ pos 1)

  abbrev pub write_slot : RingBuffer T → Option ℕ → T → RingBuffer T
  write_slot r none t = r
  write_slot r (some place) t = record r { ring = set r.ring place t }

  -- `*r.Offset(index) = t`: a write through the pointer that `Offset` returns.
  unfoldable pub write_at : RingBuffer T → ℤ → T → RingBuffer T
  write_at r index t = write_slot r (slot (length r.ring) (pos r.head_pos +ℤ index)) t
