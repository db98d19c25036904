-- ===== src/Log/Tests.antt =====
-- A logger at the default level, with two prefixes and an empty one.
use qperf_go.Prelude.{
  ℕ, ◌≡◌, ◌≢◌, ◌⊎◌, refl, ap, none, some, List, [], ◌∷◌, ◌++◌, ◌==◌, if◌then◌else◌, arith,
}
use qperf_go.Log.{errorf, infof, debugf}
use qperf_go.Log.Levels.{with_all, all_bracketed, default_logger, spaced, Copies, levels_lem}

-- A `Printf` for one argument, a text, which the percent signs stand for.
unfoldable print : List ℕ → List ℕ → List ℕ
print [] arg = []
print (c ∷ cs) arg = let rest = print cs arg in if c == 37 then arg ++ rest else c ∷ rest

print-Copies : Copies print
unfolding print
print-Copies [] format arg h = refl
print-Copies (c ∷ cs) format arg h = rw h.0 (ap (◌∷◌ c) (print-Copies cs format arg h.1))

abbrev prefixes : List (List ℕ)
prefixes = (98 ∷ []) ∷ [] ∷ (97 ∷ []) ∷ []

levels_lem_example :
    (errorf print (with_all (default_logger []) prefixes) [] (37 ∷ []) (120 ∷ [])
      ≡ some (spaced (all_bracketed prefixes) ++ print ((37 ∷ []) ++ (10 ∷ [])) (120 ∷ [])))
    × ((infof print (with_all (default_logger []) prefixes) [] (37 ∷ []) (120 ∷ []) ≢ none)
        ⊎ (debugf print (with_all (default_logger []) prefixes) [] (37 ∷ []) (120 ∷ []) ≡ none))
levels_lem_example =
    levels_lem print [] prefixes [] (37 ∷ []) (120 ∷ []) print-Copies
      ((refl, omega arith), (omega arith, ((refl, omega arith), omega arith)))
