-- ===== src/RingBuffer/Grow.antt =====
-- `grow` and the store of `PushBack`: where the copied elements end up.
use qperf_go.Prelude.{
  ℕ, zero, suc, ◌-◌, ◌*◌, ◌≤◌, ◌<◌, ◌≡◌, refl, ap, ap₂, sym, ◌∙◌, true, false, List, [], ◌∷◌, ◌++◌,
  arith, length, take, drop, replicate, length-set, length-append, length-drop, length-replicate,
  append_assoc, ◌||◌, ◌==◌, if◌then◌else◌,
}
use native.Mathlib.Decide.{dec_lt}
use qperf_go.RingBuffer.{RingBuffer, Zero, new_value, grow, len, put}
use qperf_go.RingBuffer.Inv.{IsValid}
use qperf_go.RingBuffer.Window.{wrap_add, window, window-push, window_full, window_prefix, contents}

module _ {ℓ} {T : Type ℓ} ⦃z : Zero T⦄ where
  -- What `grow` makes of a full slice.
  pub record Grown (r s : RingBuffer T) : Type ℓ where
    pub valid : IsValid s
    pub room : 0 < length s.ring
    pub not_full : s.full ≡ false
    pub same : contents s ≡ contents r

  pub length_zero : (xs : List T) → length xs ≡ 0 → xs ≡ []
  length_zero [] e = refl
  length_zero (x ∷ xs) e = absurd (omega arith)

  length-take : (n : ℕ) (xs : List T) → n ≤ length xs → length (take n xs) ≡ n
  length-take zero xs h = refl
  length-take (suc n) [] h = absurd (omega arith)
  length-take (suc n) (x ∷ xs) h = ap suc (length-take n xs (omega arith))

  -- The copied slots: all the old ones, from the head on.
  abbrev copied : RingBuffer T → List T
  copied r = drop r.head_pos r.ring ++ take r.head_pos r.ring

  length-copied :
      (r : RingBuffer T) → r.head_pos ≤ length r.ring → length (copied r) ≡ length r.ring
  length-copied r h = omega (
    arith,
    length-append (drop r.head_pos r.ring) (take r.head_pos r.ring),
    length-drop r.head_pos r.ring,
    length-take r.head_pos r.ring h,
  )

  abbrev spare : RingBuffer T → List T
  spare r =
      replicate ((if length r.ring * 2 == 0 then 1 else length r.ring * 2) - length r.ring)
        new_value

  ring-grow : (r : RingBuffer T) → (grow r).ring ≡ copied r ++ spare r
  unfolding grow
  ring-grow r = sym (append_assoc (drop r.head_pos r.ring) (take r.head_pos r.ring) (spare r))

  length-grow :
      (r : RingBuffer T) → r.head_pos ≤ length r.ring → (length r.ring < length (grow r).ring)
  length-grow r h = rw (ring-grow r) (
      ground (
        arith,
        length-append (copied r) (spare r),
        length-copied r h,
        length-replicate ((if length r.ring * 2 == 0 then 1 else length r.ring * 2) - length r.ring)
            (new_value {T = T}),
      ))

  len_full :
      (r : RingBuffer T)
      → IsValid r
      → (r.full || (length r.ring == 0)) ≡ true
      → len r ≡ length r.ring
  unfolding len
  len_full r v f = ground arith

  contents_full :
      (r : RingBuffer T)
      → IsValid r
      → (r.full || (length r.ring == 0)) ≡ true
      → contents r ≡ copied r
  contents_full r v f = elim (dec_lt 0 (length r.ring)) [
    | yes p ↦ rw (len_full r v f) (window_full r.ring r.head_pos (omega arith))
    | no p ↦
        let none_stored : length r.ring ≡ 0 = omega arith in
        rw (len_full r v f, none_stored)
          (sym (length_zero (copied r) (omega (arith, length-copied r (omega arith)))))
  ]

  head-grow : (r : RingBuffer T) → (grow r).head_pos ≡ 0
  unfolding grow
  head-grow r = refl

  len-grow : (r : RingBuffer T) → len (grow r) ≡ length r.ring
  unfolding grow len
  len-grow r = ground arith

  contents-grow :
      (r : RingBuffer T)
      → IsValid r
      → (r.full || (length r.ring == 0)) ≡ true
      → contents (grow r) ≡ contents r
  contents-grow r v f =
      ap (λ ring. window ring (grow r).head_pos (len (grow r))) (ring-grow r)
      ∙ ap₂ (window (copied r ++ spare r)) (head-grow r) (len-grow r)
      ∙ window_prefix (copied r) (spare r) (length r.ring)
          (omega (arith, length-copied r (omega arith)))
      ∙ sym (contents_full r v f)

  pub grow-Grown :
      (r : RingBuffer T) → IsValid r → (r.full || (length r.ring == 0)) ≡ true → Grown r (grow r)
  unfolding grow
  grow-Grown r v f = record {
    valid = record {
      head_in = omega arith;
      tail_in = omega (arith, length-grow r (omega arith));
      full_meets = λ e. cc;
      full_room = λ e. cc;
    };
    room = omega (arith, length-grow r (omega arith));
    not_full = refl;
    same = contents-grow r v f;
  }

  len-put :
      (r : RingBuffer T) (t : T)
      → IsValid r
      → 0 < length r.ring
      → r.full ≡ false
      → len (put r t) ≡ suc (len r)
  unfolding put len
  len-put r t v h f = ground (arith, length-set r.ring r.tail_pos t)

  tail-eq-wrap_add :
      (r : RingBuffer T)
      → IsValid r
      → 0 < length r.ring
      → r.full ≡ false
      → (len r < length r.ring) × (r.tail_pos ≡ wrap_add (length r.ring) r.head_pos (len r))
  unfolding len
  tail-eq-wrap_add r v h f = ground arith

  pub put_refines :
      (r : RingBuffer T) (t : T)
      → IsValid r
      → 0 < length r.ring
      → r.full ≡ false
      → contents (put r t) ≡ contents r ++ (t ∷ [])
  unfolding put
  put_refines r t v h f =
      let at = tail-eq-wrap_add r v h f in
      rw (len-put r t v h f)
        (window-push r.ring t r.tail_pos r.head_pos (len r) (omega arith) at.0 at.1)
