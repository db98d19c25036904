-- ===== src/Store/Tests.antt =====
-- Two puts under two keys.
use qperf_go.Prelude.{ℕ, ◌≡◌, true, none, some, List, [], ◌∷◌}
use qperf_go.Store.{Entry, pop, get, await}
use qperf_go.Store.FirstPut.{puts, first_of, first_put_lem}

abbrev second_entry : Entry ℕ
second_entry = record { key = 98 ∷ []; value = 2 }

abbrev others : List (Entry ℕ)
others = record { key = 97 ∷ []; value = 1 } ∷ []

first_put_lem_example :
    (await (puts (second_entry ∷ others))
      ≡ some ((first_of second_entry others).key, (first_of second_entry others).value))
    × (pop (puts (second_entry ∷ others)) (first_of second_entry others).key
        ≡ some (first_of second_entry others).value)
    × (get (puts (second_entry ∷ others)) (first_of second_entry others).key ≡ (none, true))
    × ((key : List ℕ) → (get (puts (second_entry ∷ others)) key).0 ≡ none)
first_put_lem_example = first_put_lem second_entry others
