-- ===== src/PacketQueue/Slots.antt =====
-- The slots of a queue as a list that starts at a packet number: what a list of slots holds at a
-- number, and what the loops of the queue do to it.
use qperf_go.Prelude.{
  ℕ, zero, suc, ◌+◌, ◌-◌, ◌<◌, ◌≡◌, refl, ◌≢◌, Bool, true, Option, none, some, List, [], ◌∷◌, ◌++◌,
  arith, ltb, ◌==◌, if◌then◌else◌, length, get_elem?, set, ℤ, pos, ltb_ℤ,
}
use native.Mathlib.Decide.{dec_lt}
use qperf_go.PacketQueue.{EntryWrapper}

abbrev pub one_if : Bool → ℕ
one_if b = if b then 1 else 0

module _ {T : Type 0} where
  abbrev pub entry_of : EntryWrapper T → Option T
  entry_of w = if w.present then some w.entry else none

  -- What the slots hold at position `i`.
  abbrev pub at : List (EntryWrapper T) → ℕ → Option T
  at [] i = none
  at (w ∷ ws) zero = entry_of w
  at (w ∷ ws) (suc i) = at ws i

  -- What slots that start at packet number `f` hold for packet number `m`.
  abbrev pub look : ℕ → List (EntryWrapper T) → ℕ → Option T
  look f ws m = if ltb m f then none else at ws (m - f)

  abbrev pub count_present : List (EntryWrapper T) → ℕ
  count_present [] = 0
  count_present (w ∷ ws) = one_if w.present + count_present ws

  -- The front is present.
  abbrev pub StartsPresent : List (EntryWrapper T) → Type 0
  StartsPresent [] = Unit {0}
  StartsPresent (w ∷ ws) = w.present ≡ true

  -- `clearup` on the list: the slots in front that are not present go.
  abbrev pub drop_absent : ℕ → List (EntryWrapper T) → ℕ × List (EntryWrapper T)
  drop_absent f [] = (f, [])
  drop_absent f (w ∷ ws) =
      let rest = drop_absent (f + 1) ws in if w.present then (f, w ∷ ws) else rest

  -- `RemoveUpTo` on the list, before `clearup`.
  abbrev pub drop_below : ℤ → ℕ → List (EntryWrapper T) → ℕ × List (EntryWrapper T)
  drop_below n f [] = (f, [])
  drop_below n f (w ∷ ws) =
      let rest = drop_below n (f + 1) ws in if ltb_ℤ (pos f) n then rest else (f, w ∷ ws)

  pub look-cons :
      (f m : ℕ) (w : EntryWrapper T) (ws : List (EntryWrapper T))
      → look f (w ∷ ws) m ≡ (if m == f then entry_of w else look (f + 1) ws m)
  look-cons f m w ws = elim (dec_lt f m) [
    | yes h ↦ let e : m - f ≡ suc (m - (f + 1)) = omega arith in ground (arith, e)
    | no h ↦ ground arith
  ]

  pub drop_absent-StartsPresent :
      (f : ℕ) (ws : List (EntryWrapper T)) → StartsPresent (drop_absent f ws).1
  drop_absent-StartsPresent f [] = tt
  drop_absent-StartsPresent f (w ∷ ws) = ground (arith, drop_absent-StartsPresent (f + 1) ws)

  pub look-drop_absent :
      (f m : ℕ) (ws : List (EntryWrapper T))
      → look (drop_absent f ws).0 (drop_absent f ws).1 m ≡ look f ws m
  look-drop_absent f m [] = refl
  look-drop_absent f m (w ∷ ws) = ground (arith, look-drop_absent (f + 1) m ws, look-cons f m w ws)

  pub look-drop_below :
      (n : ℤ) (f m : ℕ) (ws : List (EntryWrapper T))
      → look (drop_below n f ws).0 (drop_below n f ws).1 m
        ≡ (if ltb_ℤ (pos m) n then none else look f ws m)
  look-drop_below n f m [] = ground arith
  look-drop_below n f m (w ∷ ws) =
      ground (arith, look-drop_below n (f + 1) m ws, look-cons f m w ws)

  pub length-drop_absent :
      (f : ℕ) (ws : List (EntryWrapper T))
      → (drop_absent f ws).0 + length (drop_absent f ws).1 ≡ f + length ws
  length-drop_absent f [] = refl
  length-drop_absent f (w ∷ ws) = ground (arith, length-drop_absent (f + 1) ws)

  pub count-drop_absent :
      (f : ℕ) (ws : List (EntryWrapper T)) → count_present (drop_absent f ws).1 ≡ count_present ws
  count-drop_absent f [] = refl
  count-drop_absent f (w ∷ ws) = ground (arith, count-drop_absent (f + 1) ws)

  pub length-drop_below :
      (n : ℤ) (f : ℕ) (ws : List (EntryWrapper T))
      → (drop_below n f ws).0 + length (drop_below n f ws).1 ≡ f + length ws
  length-drop_below n f [] = refl
  length-drop_below n f (w ∷ ws) = ground (arith, length-drop_below n (f + 1) ws)

  -- With the front present, only the list without slots has no present entry.
  pub count_zero : (ws : List (EntryWrapper T)) → StartsPresent ws → count_present ws ≡ 0 → ws ≡ []
  count_zero [] s e = refl
  count_zero (w ∷ ws) s e = absurd (ground arith)

  pub at-append :
      (ws vs : List (EntryWrapper T)) (i : ℕ)
      → at (ws ++ vs) i ≡ (if ltb i (length ws) then at ws i else at vs (i - length ws))
  at-append [] vs i = ground arith
  at-append (w ∷ ws) vs zero = ground arith
  at-append (w ∷ ws) vs (suc i) = ground (arith, at-append ws vs i)

  pub count-append :
      (ws vs : List (EntryWrapper T))
      → count_present (ws ++ vs) ≡ count_present ws + count_present vs
  count-append [] vs = omega arith
  count-append (w ∷ ws) vs = omega (arith, count-append ws vs)

  pub at-set :
      (ws : List (EntryWrapper T)) (i j : ℕ) (w : EntryWrapper T)
      → i < length ws
      → at (set ws i w) j ≡ (if j == i then entry_of w else at ws j)
  at-set [] i j w h = elim h [ ]
  at-set (v ∷ ws) zero zero w h = ground arith
  at-set (v ∷ ws) zero (suc j) w h = ground arith
  at-set (v ∷ ws) (suc i) zero w h = ground arith
  at-set (v ∷ ws) (suc i) (suc j) w h = ground (arith, at-set ws i j w)

  -- Clearing one present slot takes one off the count.
  pub count-set :
      (ws : List (EntryWrapper T)) (i : ℕ) (v w : EntryWrapper T)
      → get_elem? ws i ≡ some v
      → count_present (set ws i w) + one_if v.present ≡ count_present ws + one_if w.present
  count-set [] i v w h = absurd (cc)
  count-set (x ∷ ws) zero v w h = ground arith
  count-set (x ∷ ws) (suc i) v w h = omega (arith, count-set ws i v w h)

  pub StartsPresent-set_suc :
      (ws : List (EntryWrapper T)) (i : ℕ) (w : EntryWrapper T)
      → i ≢ 0
      → StartsPresent ws
      → StartsPresent (set ws i w)
  StartsPresent-set_suc [] i w h s = tt
  StartsPresent-set_suc (v ∷ ws) zero w h s = absurd (h refl)
  StartsPresent-set_suc (v ∷ ws) (suc i) w h s = s

  pub StartsPresent-append :
      (ws vs : List (EntryWrapper T)) → ws ≢ [] → StartsPresent ws → StartsPresent (ws ++ vs)
  StartsPresent-append [] vs h s = absurd (h refl)
  StartsPresent-append (w ∷ ws) vs h s = s
