-- ===== src/Store/FirstPut.antt =====
-- A store keeps what was put first.
use qperf_go.Prelude.{
  ℕ, ◌≡◌, refl, ap, true, Option, none, some, List, [], ◌∷◌, Bool-cases, inl, inr, arith,
}
use qperf_go.ByteCount.{same_text}
use qperf_go.Store.{Entry, put, pop, get, await}

same_text_refl : (k : List ℕ) → same_text k k ≡ true
unfolding same_text
same_text_refl [] = refl
same_text_refl (c ∷ cs) = rw (same_text_refl cs) (ground arith)

module _ {T : Type 0} where
  -- Puts, newest first, into a new store.
  unfoldable pub puts : List (Entry T) → Option (Entry T)
  puts [] = none
  puts (e ∷ es) = put (puts es) e.key e.value

  abbrev pub first_of : Entry T → List (Entry T) → Entry T
  first_of e [] = e
  first_of e (d ∷ ds) = first_of d ds

  puts-first_of : (e : Entry T) (es : List (Entry T)) → puts (e ∷ es) ≡ some (first_of e es)
  unfolding puts put
  puts-first_of e [] = refl
  puts-first_of e (d ∷ ds) = ap (λ s. put s e.key e.value) (puts-first_of d ds)

  -- After any puts, one at least: Await answers the key and the value of the first; Pop answers its
  -- value for its key; and Get answers that it found its key, but no session for any key.
  pub first_put_lem :
      (e : Entry T) (es : List (Entry T))
      → (await (puts (e ∷ es)) ≡ some ((first_of e es).key, (first_of e es).value))
        × (pop (puts (e ∷ es)) (first_of e es).key ≡ some (first_of e es).value)
        × (get (puts (e ∷ es)) (first_of e es).key ≡ (none, true))
        × ((key : List ℕ) → (get (puts (e ∷ es)) key).0 ≡ none)
  unfolding await pop get
  first_put_lem e es =
      let p = puts-first_of e es in
      let t = same_text_refl (first_of e es).key in
      (
        rw p refl,
        rw (p, t) refl,
        rw (p, t) refl,
        λ key. elim (Bool-cases (same_text key (first_of e es).key)) [
          | inl h ↦ rw (p, h) refl
          | inr h ↦ rw (p, h) refl
        ],
      )
