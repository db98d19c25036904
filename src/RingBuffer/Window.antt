-- ===== src/RingBuffer/Window.antt =====
-- The elements that a ring buffer holds, oldest first: the slots from `headPos` on, going round at
-- the end of the slice.
use native.Mathlib.Nat.{mod-eq_of_lt, mod-eq-sub-mod}
use native.Mathlib.Decide.{dec_lt}
use qperf_go.Prelude.{
  ℕ, zero, suc, ◌+◌, ◌-◌, ◌%◌, ◌≤◌, ◌<◌, ◌≡◌, refl, ap, ap₂, ◌∙◌, ◌≢◌, some, List, [], ◌∷◌, ◌++◌,
  arith, ltb, if◌then◌else◌, length, get_elem?, get_or, set, take, drop, get_or-set_self,
  get_or-set_ne, length-set, length-drop, length-append, sym,
}
use qperf_go.RingBuffer.{RingBuffer, Zero, new_value, advance, len}

-- Position `i` after `h` in a slice of `n` slots.
abbrev pub wrap_add : ℕ → ℕ → ℕ → ℕ
wrap_add n h i = if ltb (h + i) n then h + i else h + i - n

pub wrap_add-mod : (n h i : ℕ) → h < n → i ≤ n → (h + i) % n ≡ wrap_add n h i
wrap_add-mod n h i p q = elim (dec_lt (h + i) n) [
  | yes k ↦ ground (arith, mod-eq_of_lt k)
  | no k ↦ ground (
    arith,
    mod-eq-sub-mod {n = h + i} {m = n} (omega arith),
    mod-eq_of_lt {n = h + i - n} {m = n},
  )
]

wrap_add_ne : (n h i : ℕ) → h < n → suc i < n → wrap_add n h (suc i) ≢ h
wrap_add_ne n h i p q = ground arith

wrap_add-advance : (n h i : ℕ) → h < n → i < n → wrap_add n (advance n h) i ≡ wrap_add n h (suc i)
wrap_add-advance n h i p q = ground arith

advance-lt : (n h : ℕ) → h < n → advance n h < n
advance-lt n h p = ground arith

module _ {ℓ} {T : Type ℓ} ⦃z : Zero T⦄ where
  abbrev pub window : List T → ℕ → ℕ → List T
  window ring h zero = []
  window ring h (suc n) = get_or ring h new_value ∷ window ring (advance (length ring) h) n

  pub length-window : (ring : List T) (h n : ℕ) → length (window ring h n) ≡ n
  length-window ring h zero = refl
  length-window ring h (suc n) = ap suc (length-window ring (advance (length ring) h) n)

  -- The index that `Offset` computes.
  pub window-get_elem? :
      (ring : List T) (h n i : ℕ)
      → h < length ring
      → n ≤ length ring
      → i < n
      → get_elem? (window ring h n) i ≡ some (get_or ring (wrap_add (length ring) h i) new_value)
  window-get_elem? ring h zero i p q k = absurd (omega arith)
  window-get_elem? ring h (suc n) zero p q k =
      ap (λ j. some (get_or ring j new_value)) (ground arith)
  window-get_elem? ring h (suc n) (suc i) p q k =
      window-get_elem? ring (advance (length ring) h) n i (advance-lt _ h p) (omega arith)
        (omega arith)
      ∙ ap (λ j. some (get_or ring j new_value))
          (wrap_add-advance (length ring) h i p (omega arith))

  set_out : (xs : List T) (k : ℕ) (v : T) → length xs ≤ k → set xs k v ≡ xs
  set_out [] k v h = refl
  set_out (x ∷ xs) zero v h = absurd (omega arith)
  set_out (x ∷ xs) (suc k) v h = ap (◌∷◌ x) (set_out xs k v (omega arith))

  -- A write into the slot of position `k` is a write at `k` of the list.
  pub window-set :
      (ring : List T) (x : T) (i h n k : ℕ)
      → h < length ring
      → n ≤ length ring
      → k < length ring
      → i ≡ wrap_add (length ring) h k
      → window (set ring i x) h n ≡ set (window ring h n) k x
  window-set ring x i h zero k p q r e = refl
  window-set ring x i h (suc n) zero p q r e =
      let here : i ≡ h = ground arith in
      rw (length-set ring i x) (
        ap₂ ◌∷◌ (rw here (get_or-set_self ring h x new_value p)) (
          window-set ring x i (advance (length ring) h) n (length ring - 1)
            (advance-lt (length ring) h p) (omega arith) (omega arith) (ground arith)
          ∙ set_out (window ring (advance (length ring) h) n) (length ring - 1) x
              (omega (arith, length-window ring (advance (length ring) h) n))))
  window-set ring x i h (suc n) (suc k) p q r e = rw (length-set ring i x) (
      ap₂ ◌∷◌ (get_or-set_ne ring x new_value (rw e (wrap_add_ne (length ring) h k p r))) (
        window-set ring x i (advance (length ring) h) n k (advance-lt (length ring) h p)
          (omega arith) (omega arith)
          (e ∙ sym (wrap_add-advance (length ring) h k p (omega arith)))))

  set-window_last :
      (ring : List T) (x : T) (h n : ℕ)
      → set (window ring h (suc n)) n x ≡ window ring h n ++ (x ∷ [])
  set-window_last ring x h zero = refl
  set-window_last ring x h (suc n) =
      ap (◌∷◌ (get_or ring h new_value)) (set-window_last ring x (advance (length ring) h) n)

  -- Writing just past a window extends it.
  pub window-push :
      (ring : List T) (x : T) (i h n : ℕ)
      → h < length ring
      → n < length ring
      → i ≡ wrap_add (length ring) h n
      → window (set ring i x) h (suc n) ≡ window ring h n ++ (x ∷ [])
  window-push ring x i h n p q e =
      window-set ring x i h (suc n) n p q q e ∙ set-window_last ring x h n

  -- Clearing the slot at the head changes nothing behind it.
  pub window-pop :
      (ring : List T) (x : T) (h n : ℕ)
      → h < length ring
      → n < length ring
      → window (set ring h x) (advance (length ring) h) n ≡ window ring (advance (length ring) h) n
  window-pop ring x h n p q =
      window-set ring x h (advance (length ring) h) n (length ring - 1)
        (advance-lt (length ring) h p) (omega arith) (omega arith) (ground arith)
      ∙ set_out (window ring (advance (length ring) h) n) (length ring - 1) x
          (omega (arith, length-window ring (advance (length ring) h) n))

  -- A window is split at any place.
  window-append :
      (ring : List T) (h a b n : ℕ)
      → h < length ring
      → n ≡ a + b
      → n ≤ length ring
      → window ring h n ≡ window ring h a ++ window ring (wrap_add (length ring) h a) b
  window-append ring h zero b n p e q =
      let e' : n ≡ b = omega arith in
      let s : wrap_add (length ring) h 0 ≡ h = ground arith in rw (e', s)
  window-append ring h (suc a) b zero p e q = absurd (omega arith)
  window-append ring h (suc a) b (suc n) p e q = ap (◌∷◌ (get_or ring h new_value)) (
      window-append ring (advance (length ring) h) a b n (advance-lt (length ring) h p)
        (omega arith) (omega arith)
      ∙ ap (λ j. window ring (advance (length ring) h) a ++ window ring j b)
          (wrap_add-advance (length ring) h a p (omega arith)))

  -- A window that does not reach the end of the slice.
  drop_step :
      (xs : List T) (h : ℕ) → h < length xs → drop h xs ≡ get_or xs h new_value ∷ drop (suc h) xs
  drop_step [] h p = elim p [ ]
  drop_step (x ∷ xs) zero p = refl
  drop_step (x ∷ xs) (suc h) p = drop_step xs h (omega arith)

  window-straight :
      (ring : List T) (h n : ℕ) → h + n ≤ length ring → window ring h n ≡ take n (drop h ring)
  window-straight ring h zero p = refl
  window-straight ring h (suc zero) p = rw (drop_step ring h (omega arith))
  window-straight ring h (suc (suc n)) p =
      let e : advance (length ring) h ≡ suc h = ground arith in
      rw (e, drop_step ring h (omega arith))
        (ap (◌∷◌ (get_or ring h new_value)) (window-straight ring (suc h) (suc n) (omega arith)))

  take_all : (xs : List T) (n : ℕ) → n ≡ length xs → take n xs ≡ xs
  take_all [] zero e = refl
  take_all [] (suc n) e = refl
  take_all (x ∷ xs) zero e = absurd (omega arith)
  take_all (x ∷ xs) (suc n) e = ap (◌∷◌ x) (take_all xs n (omega arith))

  -- A full slice read from `h` on, as `grow` copies it.
  pub window_full :
      (ring : List T) (h : ℕ)
      → h < length ring
      → window ring h (length ring) ≡ drop h ring ++ take h ring
  window_full ring h p =
      let s : wrap_add (length ring) h (length ring - h) ≡ 0 = ground arith in
      window-append ring h (length ring - h) h (length ring) p (omega arith) (omega arith)
      ∙ ap₂ ◌++◌
          (window-straight ring h (length ring - h) (omega arith)
            ∙ take_all (drop h ring) (length ring - h) (omega (arith, length-drop h ring)))
          (ap (λ j. window ring j h) s ∙ window-straight ring 0 h (omega arith))

  take-append : (xs ys : List T) → take (length xs) (xs ++ ys) ≡ xs
  take-append [] ys = refl
  take-append (x ∷ xs) ys = ap (◌∷◌ x) (take-append xs ys)

  -- The first slots of a slice.
  pub window_prefix : (xs ys : List T) (n : ℕ) → n ≡ length xs → window (xs ++ ys) 0 n ≡ xs
  window_prefix xs ys n e =
      window-straight (xs ++ ys) 0 n (omega (arith, length-append xs ys)) ∙ rw e (take-append xs ys)

-- What a buffer holds, oldest first.
abbrev pub contents {ℓ} : {T : Type ℓ} ⦃z : Zero T⦄ → RingBuffer T → List T
contents r = window r.ring r.head_pos (len r)
