-- ===== src/RingBuffer/Inv.antt =====
-- The representation invariant of `RingBuffer`: positions within the slice, `full` only where they
-- meet, a slice without slots only when nothing is stored.
use qperf_go.Prelude.{
  ℕ, ◌-◌, Option, none, some, ℤ, pos, ◌+ℤ◌, ◌≤◌, ◌<◌, ◌≡◌, true, false, ◌==◌, arith, length,
  length-set, length-replicate,
}
use qperf_go.RingBuffer.{
  RingBuffer, Zero, new_value, init, clear, len, empty, put, popped, write_at, write_slot, slot,
}

pub record IsValid {ℓ} {T : Type ℓ} (r : RingBuffer T) : Type 0 where
  pub head_in : r.head_pos ≤ length r.ring - 1
  pub tail_in : r.tail_pos ≤ length r.ring - 1
  pub full_meets : r.full ≡ true → r.head_pos ≡ r.tail_pos
  pub full_room : r.full ≡ true → 0 < length r.ring

module _ {ℓ} {T : Type ℓ} where
  pub len-le : (r : RingBuffer T) → IsValid r → len r ≤ length r.ring
  unfolding len
  len-le r v = ground arith

  pub empty-eq-len : (r : RingBuffer T) → IsValid r → empty r ≡ (len r == 0)
  unfolding len empty
  empty-eq-len r v = ground arith

module _ {ℓ} {T : Type ℓ} ⦃z : Zero T⦄ where
  pub init-IsValid : (size : ℕ) → IsValid {T = T} (init size)
  unfolding init
  init-IsValid size = ground (arith, length-replicate size (new_value {T = T}))

  pub clear-IsValid : (r : RingBuffer T) → IsValid (clear r)
  unfolding clear
  clear-IsValid r = ground arith

  pub popped-IsValid : (r : RingBuffer T) → IsValid r → empty r ≡ false → IsValid (popped r)
  unfolding popped empty
  popped-IsValid r v e = ground (arith, length-set r.ring r.head_pos new_value)

  write_slot-IsValid :
      (r : RingBuffer T) (o : Option ℕ) (t : T) → IsValid r → IsValid (write_slot r o t)
  write_slot-IsValid r none t v = v
  write_slot-IsValid r (some place) t v = ground (arith, length-set r.ring place t)

  pub write_at-IsValid : (r : RingBuffer T) (i : ℤ) (t : T) → IsValid r → IsValid (write_at r i t)
  unfolding write_at
  write_at-IsValid r i t v = write_slot-IsValid r (slot (length r.ring) (pos r.head_pos +ℤ i)) t v

  -- A buffer that is not full takes one more element where it is.
  pub put-IsValid :
      (r : RingBuffer T) (t : T)
      → IsValid r
      → 0 < length r.ring
      → r.full ≡ false
      → IsValid (put r t)
  unfolding put
  put-IsValid r t v h e = ground (arith, length-set r.ring r.tail_pos t)
