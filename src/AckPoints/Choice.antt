-- ===== src/AckPoints/Choice.antt =====
-- `chooseA0Point` on a valid buffer of candidates: it never panics, and which point it chooses.
use qperf_go.Prelude.{
  pos, ℕ, zero, suc, ◌+◌, ◌-◌, ◌<◌, ◌≡◌, refl, ap, sym, subst, ◌∙◌, Bool, true, false, Option, none,
  some, List, [], ◌∷◌, ◌++◌, append_assoc, ℤ, ltb_ℤ, ltb, ◌==◌, if◌then◌else◌, ◌>>=◌, arith, inl,
  inr, Bool-cases, length, length-append, get_elem?, get_elem?-append_right,
}
use qperf_go.RingBuffer.{RingBuffer, len, empty, front, back, offset}
use qperf_go.RingBuffer.Inv.{IsValid, empty-eq-len}
use qperf_go.RingBuffer.Window.{contents}
use qperf_go.RingBuffer.Refine.{
  length-contents, pop_front_refines, offset_refines, front_refines, back_refines,
}
use qperf_go.AckPoints.{
  AckPoint, point_zero, Chosen, pop_one, pop_many, pop_rest, choose_last, settle, search_a0,
  choose_a0_point,
}

-- A buffer that a pop may leave behind.
abbrev Left : Option (RingBuffer AckPoint) → Type 0
Left o = (q : RingBuffer AckPoint) × (o ≡ some q) × IsValid q × (0 < len q)

pop_one-Left :
    (r : RingBuffer AckPoint)
    → IsValid r
    → 0 < len r
    → (q : RingBuffer AckPoint) × (pop_one r ≡ some q) × IsValid q × (len r ≡ suc (len q))
pop_one-Left r v h = elim (pop_front_refines r v) [
  | inl p ↦ absurd (omega (arith, length-contents r, ap length p.0))
  | inr (t, s, e, w, c) ↦
      (s, rw e, w, omega (arith, length-contents r, length-contents s, ap length c))
]

pop_many-Left : (n : ℕ) (r : RingBuffer AckPoint) → IsValid r → n < len r → Left (pop_many n r)
unfolding pop_many
pop_many-Left zero r v h = (r, refl, v, h)
pop_many-Left (suc n) r v h =
    let (q, e, w, l) = pop_one-Left r v (omega arith) in
    rw e (pop_many-Left n q w (omega (arith, l)))

pop_rest-Left :
    (fuel k : ℕ) (r : RingBuffer AckPoint) → IsValid r → 0 < len r → Left (pop_rest fuel k r)
unfolding pop_rest
pop_rest-Left zero k r v h = (r, refl, v, h)
pop_rest-Left (suc fuel) k r v h = elim (Bool-cases (ltb k (len r - 1))) [
  | inl t ↦
      let (q, e, w, l) = pop_one-Left r v h in
      subst Left
        (sym (ap (λ b. if b then (do q' ← pop_one r; pop_rest fuel (k + 1) q') else some r) t))
        (rw e (pop_rest-Left fuel (k + 1) q w (ground (arith, l))))
  | inr t ↦
      subst Left
        (sym (ap (λ b. if b then (do q' ← pop_one r; pop_rest fuel (k + 1) q') else some r) t))
        (r, refl, v, h)
]

-- The last point before the first one with more than `total` bytes; the last one if none has.
abbrev pub pick : ℤ → AckPoint → List AckPoint → AckPoint
pick total p [] = p
pick total p (q ∷ qs) = if ltb_ℤ total q.total_bytes_acked then p else pick total q qs

abbrev Finds : AckPoint → Option Chosen → Type 0
Finds p o = (q : RingBuffer AckPoint) × (o ≡ some (q, p)) × IsValid q × (0 < len q)

module _ (total : ℤ) (r : RingBuffer AckPoint) (v : IsValid r) where
  -- The candidate at the end of a first part of the list.
  offset-at :
      (ys zs : List AckPoint) (p : AckPoint)
      → contents r ≡ ys ++ (p ∷ zs)
      → offset r (pos (length ys)) ≡ some p
  offset-at ys zs p c =
      let e : length ys ≡ length ys + 0 = omega arith in
      offset_refines r (length ys) v
      ∙ rw c (ap (get_elem? (ys ++ (p ∷ zs))) e ∙ get_elem?-append_right ys (p ∷ zs) 0)

  len-at :
      (ys zs : List AckPoint) (p : AckPoint)
      → contents r ≡ ys ++ (p ∷ zs)
      → len r ≡ length ys + suc (length zs)
  len-at ys zs p c = sym (length-contents r) ∙ ap length c ∙ length-append ys (p ∷ zs)

  choose_last-Finds :
      (ys : List AckPoint) (p : AckPoint) → contents r ≡ ys ++ (p ∷ []) → Finds p (choose_last r)
  unfolding choose_last
  choose_last-Finds ys p c =
      let l = len-at ys [] p c in
      let (q, e, w, h) = pop_rest-Left (len r) 0 r v (omega (arith, l)) in
      let back_is : back r ≡ some p = elim (back_refines r v) [
        | inl b ↦ absurd (omega (arith, length-contents r, ap length b.0, l))
        | inr b ↦
            b.0
            ∙ (sym (offset_refines r (len r - 1) v)
                ∙ (ap (λ j. offset r (pos j)) (omega (arith, l)) ∙ offset-at ys [] p c))
      ] in
      rw (back_is, e) (q, refl, w, h)

  settled :
      (b : Bool) (ys : List AckPoint) (p z : AckPoint) (zs : List AckPoint) (rest : Option Chosen)
      → contents r ≡ ys ++ (p ∷ z ∷ zs)
      → Finds (pick total z zs) rest
      → Finds (if b then p else pick total z zs) (settle b (suc (length ys)) r rest)
  unfolding settle
  settled false ys p z zs rest c h = h
  settled true ys p z zs rest c h =
      let (q, e, w, g) = pop_many-Left (length ys) r v (omega (arith, len-at ys (z ∷ zs) p c)) in
      let m : suc (length ys) - 1 ≡ length ys = omega arith in
      rw (m, offset-at ys (z ∷ zs) p c, e) (q, refl, w, g)

  search_a0-Finds :
      (ys zs : List AckPoint) (p : AckPoint)
      → contents r ≡ ys ++ (p ∷ zs)
      → Finds (pick total p zs) (search_a0 (length zs) (suc (length ys)) total r)
  unfolding search_a0
  search_a0-Finds ys [] p c = choose_last-Finds ys p c
  search_a0-Finds ys (z ∷ zs) p c =
      let c' : contents r ≡ (ys ++ (p ∷ [])) ++ (z ∷ zs) =
        c ∙ sym (append_assoc ys (p ∷ []) (z ∷ zs)) in
      let n : length (ys ++ (p ∷ [])) ≡ suc (length ys) =
        omega (arith, length-append ys (p ∷ [])) in
      let at = offset-at (ys ++ (p ∷ [])) zs z c' in
      let rest = search_a0-Finds (ys ++ (p ∷ [])) zs z c' in
      let next : suc (length (ys ++ (p ∷ []))) ≡ suc (length ys) + 1 = omega (arith, n) in
      let here : offset r (pos (suc (length ys))) ≡ some z =
        ap (λ j. offset r (pos j)) (sym n) ∙ at in
      let step : search_a0 (suc (length zs)) (suc (length ys)) total r
          ≡ settle (ltb_ℤ total z.total_bytes_acked) (suc (length ys)) r
              (search_a0 (length zs) (suc (length ys) + 1) total r) =
        rw here refl in
      subst (Finds (pick total p (z ∷ zs))) (sym step) (
        settled (ltb_ℤ total z.total_bytes_acked) ys p z zs
          (search_a0 (length zs) (suc (length ys) + 1) total r) c
          (subst (Finds (pick total z zs)) (ap (λ i. search_a0 (length zs) i total r) next) rest))

-- What `chooseA0Point` answers for a list of candidates.
abbrev pub choice : ℤ → List AckPoint → Option AckPoint
choice total [] = none
choice total (p ∷ ps) = some (pick total p ps)

-- On a valid buffer `chooseA0Point` does not panic and leaves a valid buffer. It answers nothing
-- exactly where there are no candidates, and otherwise the last candidate before the first one, after
-- the oldest, that has more than the given number of acknowledged bytes.
pub choose_a0_point_lem :
    (r : RingBuffer AckPoint) (total : ℤ)
    → IsValid r
    → (q : RingBuffer AckPoint) × (choose_a0_point r total ≡ some (q, choice total (contents r)))
      × IsValid q
unfolding choose_a0_point
choose_a0_point_lem r total v = by_contents (contents r) refl
  where
    by_contents :
        (ps : List AckPoint)
        → contents r ≡ ps
        → (q : RingBuffer AckPoint) × (choose_a0_point r total
            ≡ some (q, choice total (contents r)))
          × IsValid q
    by_contents [] c =
        let e : empty r ≡ true = ground (arith, empty-eq-len r v, length-contents r, ap length c) in
        rw (e, c) (r, refl, v)
    by_contents (p ∷ []) c =
        let n : len r ≡ 1 = omega (arith, length-contents r, ap length c) in
        let e : empty r ≡ false = ground (arith, empty-eq-len r v) in
        let first : front r ≡ some p = front_refines r v ∙ ap (λ ps. get_elem? ps 0) c in
        rw (c, e, n, first) (r, refl, v)
    by_contents (p ∷ p' ∷ ps) c =
        let n : len r ≡ suc (suc (length ps)) = omega (arith, length-contents r, ap length c) in
        let e : empty r ≡ false = ground (arith, empty-eq-len r v) in
        let one : (len r == 1) ≡ false = ground arith in
        let m : len r - 1 ≡ suc (length ps) = omega (arith, n) in
        let (q, f, w, g) = search_a0-Finds total r v [] (p' ∷ ps) p c in
        rw (c, e, one, m, f) (q, refl, w)
