-- ===== src/RingBuffer/Refine.antt =====
-- Each method of `RingBuffer`, against the list of the elements that the buffer holds.
use qperf_go.Prelude.{
  ℕ, suc, ◌+◌, ◌-◌, ◌%◌, ◌<◌, ◌≡◌, refl, ap, sym, ◌∙◌, true, false, Option, none, some, [], ◌∷◌,
  ◌++◌, arith, Bool-cases, inl, inr, length, get_elem?, get_elem?-none, get_or, set, length-set,
  ◌||◌, ◌==◌, ◌⊎◌, ℤ, pos, ◌+ℤ◌, ◌-ℤ◌, +ℤ_parts, -ℤ_parts, eq_of_parts,
}
use native.Mathlib.Decide.{dec_lt}
use qperf_go.RingBuffer.{
  RingBuffer, Zero, new_value, slot, init, grow, clear, len, empty, push_back, popped, pop_front,
  offset, front, back, write_at, write_slot,
}
use qperf_go.RingBuffer.Inv.{IsValid, len-le, empty-eq-len, put-IsValid, popped-IsValid}
use qperf_go.RingBuffer.Grow.{grow-Grown, put_refines, length_zero}
use qperf_go.RingBuffer.Window.{
  wrap_add-mod, length-window, window-get_elem?, window-set, window-pop, contents,
}

slot-pos : (n h i : ℕ) → 0 < n → slot n (pos h +ℤ pos i) ≡ some ((h + i) % n)
unfolding slot
slot-pos n h i p =
    let e = eq_of_parts (pos h +ℤ pos i) (pos (h + i)) (omega (arith, +ℤ_parts (pos h) (pos i))) in
    rw e (ground arith)

index-last : (n : ℕ) → 0 < n → pos n -ℤ pos 1 ≡ pos (n - 1)
index-last n p =
    eq_of_parts (pos n -ℤ pos 1) (pos (n - 1)) (omega (arith, -ℤ_parts (pos n) (pos 1)))

module _ {ℓ} {T : Type ℓ} ⦃z : Zero T⦄ where
  len-write_slot : (r : RingBuffer T) (o : Option ℕ) (t : T) → len (write_slot r o t) ≡ len r
  unfolding len
  len-write_slot r none t = refl
  len-write_slot r (some place) t = ground (arith, length-set r.ring place t)

  pub length-contents : (r : RingBuffer T) → length (contents r) ≡ len r
  length-contents r = length-window r.ring r.head_pos (len r)

  pub contents-init : (size : ℕ) → contents {T = T} (init size) ≡ []
  unfolding init len
  contents-init size = refl

  pub contents-clear : (r : RingBuffer T) → contents (clear r) ≡ []
  unfolding clear len
  contents-clear r = refl

  -- `PushBack` appends, growing the slice where it must, and keeps the invariant.
  pub push_back_refines :
      (r : RingBuffer T) (t : T)
      → IsValid r
      → IsValid (push_back r t) × (contents (push_back r t) ≡ contents r ++ (t ∷ []))
  unfolding push_back
  push_back_refines r t v = elim (Bool-cases (r.full || (length r.ring == 0))) [
    | inl f ↦
        let g = grow-Grown r v f in
        rw f (
          put-IsValid (grow r) t g.valid g.room g.not_full,
          put_refines (grow r) t g.valid g.room g.not_full ∙ ap (λ xs. xs ++ (t ∷ [])) g.same,
        )
    | inr f ↦ rw f (
      put-IsValid r t v (ground arith) (ground arith),
      put_refines r t v (ground arith) (ground arith),
    )
  ]

  -- What `PopFront` does, for each list that the buffer may hold.
  abbrev pub Pops : RingBuffer T → Option (T × RingBuffer T) → Type ℓ
  Pops r out =
      ((contents r ≡ []) × (out ≡ none))
      ⊎ ((t : T) × (s : RingBuffer T) × (out ≡ some (t, s))
          × IsValid s
          × (contents r ≡ t ∷ contents s))

  len-popped : (r : RingBuffer T) → IsValid r → empty r ≡ false → len r ≡ suc (len (popped r))
  unfolding popped len empty
  len-popped r v e = ground (arith, length-set r.ring r.head_pos new_value)

  contents-popped :
      (r : RingBuffer T)
      → IsValid r
      → empty r ≡ false
      → contents r ≡ get_or r.ring r.head_pos new_value ∷ contents (popped r)
  unfolding popped
  contents-popped r v e =
      let n = len-popped r v e in
      let bound = len-le r v in
      rw n (
        ap (◌∷◌ (get_or r.ring r.head_pos new_value)) (
          sym
            (window-pop r.ring new_value r.head_pos (len (popped r)) (omega arith) (omega arith))))

  contents-empty : (r : RingBuffer T) → IsValid r → empty r ≡ true → contents r ≡ []
  contents-empty r v e =
      length_zero (contents r) (ground (arith, length-contents r, empty-eq-len r v))

  -- `PopFront` panics on an empty buffer only; otherwise it splits off the oldest element and keeps
  -- the invariant.
  pub pop_front_refines : (r : RingBuffer T) → IsValid r → Pops r (pop_front r)
  unfolding pop_front
  pop_front_refines r v = elim (Bool-cases (empty r)) [
    | inl e ↦ inl (contents-empty r v e, rw e)
    | inr e ↦ inr (
      get_or r.ring r.head_pos new_value,
      popped r,
      rw e,
      popped-IsValid r v e,
      contents-popped r v e,
    )
  ]

  -- `Offset` reads the element at a position, and panics outside the buffer.
  pub offset_refines :
      (r : RingBuffer T) (i : ℕ) → IsValid r → offset r (pos i) ≡ get_elem? (contents r) i
  unfolding offset
  offset_refines r i v = elim (dec_lt i (len r)) [
    | yes p ↦
        let bound = len-le r v in
        ground (
          arith,
          slot-pos (length r.ring) r.head_pos i,
          empty-eq-len r v,
          wrap_add-mod (length r.ring) r.head_pos i,
          window-get_elem? r.ring r.head_pos (len r) i,
        )
    | no p ↦ ground (arith, get_elem?-none (contents r) i, length-contents r)
  ]

  pub front_refines : (r : RingBuffer T) → IsValid r → front r ≡ get_elem? (contents r) 0
  unfolding front
  front_refines r v = elim (Bool-cases (empty r)) [
    | inl e ↦ rw (e, contents-empty r v e)
    | inr e ↦ rw (e, contents-popped r v e)
  ]

  -- `Back` reads the last element, and panics on an empty buffer.
  pub back_refines :
      (r : RingBuffer T)
      → IsValid r
      → ((contents r ≡ []) × (back r ≡ none))
        ⊎ ((back r ≡ get_elem? (contents r) (len r - 1)) × (0 < len r))
  unfolding back
  back_refines r v = elim (Bool-cases (empty r)) [
    | inl e ↦ inl (contents-empty r v e, rw e)
    | inr e ↦
        let c : 0 < len r = ground (arith, empty-eq-len r v) in
        inr (rw (e, index-last (len r) c) (offset_refines r (len r - 1) v), c)
  ]

  pub len-write_at : (r : RingBuffer T) (i : ℤ) (t : T) → len (write_at r i t) ≡ len r
  unfolding write_at
  len-write_at r i t = len-write_slot r (slot (length r.ring) (pos r.head_pos +ℤ i)) t

  -- A write through the pointer that `Offset` returns changes that element alone.
  pub write_at_refines :
      (r : RingBuffer T) (i : ℕ) (t : T)
      → IsValid r
      → i < len r
      → contents (write_at r (pos i) t) ≡ set (contents r) i t
  unfolding write_at
  write_at_refines r i t v h =
      let bound = len-le r v in
      rw (slot-pos (length r.ring) r.head_pos i (omega arith)) (
        rw (len-write_slot r (some ((r.head_pos + i) % length r.ring)) t) (
          window-set r.ring t ((r.head_pos + i) % length r.ring) r.head_pos (len r) i (omega arith)
            bound (omega arith)
            (wrap_add-mod (length r.ring) r.head_pos i (omega arith) (omega arith))))
