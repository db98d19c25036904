-- ===== src/ByteCount/Texts.antt =====
-- Texts that are runs of characters.
use qperf_go.Prelude.{ℕ, ◌≡◌, refl, ap, Bool, true, false, List, [], ◌∷◌, ◌++◌, ◌≤◌}
use qperf_go.ByteCount.{take_while, drop_while}

-- Every character passes; a text does not go on with one that passes.
abbrev pub All : (ℕ → Bool) → List ℕ → Type 0
All test [] = 0 ≤ 0
All test (c ∷ cs) = (test c ≡ true) × All test cs

abbrev pub Stops : (ℕ → Bool) → List ℕ → Type 0
Stops test [] = 0 ≤ 0
Stops test (c ∷ cs) = test c ≡ false

pub take_while-run :
    (test : ℕ → Bool) (run rest : List ℕ)
    → All test run
    → Stops test rest
    → take_while test (run ++ rest) ≡ run
unfolding take_while
take_while-run test [] [] h s = refl
take_while-run test [] (c ∷ cs) h s = rw s refl
take_while-run test (c ∷ cs) rest h s = rw h.0 (ap (λ t. c ∷ t) (take_while-run test cs rest h.1 s))

pub drop_while-run :
    (test : ℕ → Bool) (run rest : List ℕ)
    → All test run
    → Stops test rest
    → drop_while test (run ++ rest) ≡ rest
unfolding drop_while
drop_while-run test [] [] h s = refl
drop_while-run test [] (c ∷ cs) h s = rw s refl
drop_while-run test (c ∷ cs) rest h s = rw h.0 (drop_while-run test cs rest h.1 s)
