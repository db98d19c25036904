-- ===== src/ByteCount/Tests.antt =====
-- Texts with byte counts.
use qperf_go.Prelude.{ℕ, ◌*◌, ◌^◌, ◌≡◌, refl, List, [], ◌∷◌, ◌++◌, arith, u64}
use qperf_go.ByteCount.{
  to_lower, parsed, failed_to_parse, parse_byte_count_with_unit, parse_match, find_match,
  match_from, drop_while, is_digit, with_suffix, parse_uint, value_from, take_while, scale,
  find_unit, same_text, is_space, is_word, is_upper, lower,
}
use qperf_go.ByteCount.Parse.{decimal, parse_lem, decimal_lem}

-- "KiB", and "x=15 KiB!"
abbrev kib : List ℕ
kib = 75 ∷ 105 ∷ 66 ∷ []

abbrev before : List ℕ
before = 120 ∷ 61 ∷ []

abbrev spaced : List ℕ
spaced = (49 ∷ 53 ∷ []) ++ ((32 ∷ []) ++ (kib ++ (33 ∷ [])))

parse_lem_example :
    (parse_byte_count_with_unit before ≡ failed_to_parse)
    × (parse_byte_count_with_unit (before ++ spaced)
        ≡ with_suffix (parse_uint (49 ∷ 53 ∷ [])) (to_lower kib))
unfolding is_digit is_space is_word is_upper
parse_lem_example =
    parse_lem before 49 (53 ∷ []) (32 ∷ []) kib (33 ∷ []) (refl, (refl, omega arith))
      (refl, (refl, omega arith)) (refl, omega arith) (refl, (refl, (refl, omega arith))) refl refl
      refl

reads_kib : parse_byte_count_with_unit (before ++ spaced) ≡ parsed 15_360
unfolding parse_byte_count_with_unit parse_match find_match match_from drop_while is_digit
    with_suffix parse_uint value_from take_while scale find_unit same_text is_space is_word is_upper
    lower
reads_kib = refl

-- "1.5kb" reads as 1: the expression need not match the whole text.
reads_one : parse_byte_count_with_unit (49 ∷ 46 ∷ 53 ∷ 107 ∷ 98 ∷ []) ≡ parsed 1
unfolding parse_byte_count_with_unit parse_match find_match match_from drop_while is_digit
    with_suffix parse_uint value_from take_while scale find_unit same_text is_space is_word is_upper
    lower
reads_one = refl

decimal_lem_example :
    parse_byte_count_with_unit (decimal 1500 ++ kib) ≡ parsed (u64 (1500 * 2 ^ 10))
unfolding is_digit is_word is_upper find_unit same_text lower
decimal_lem_example =
    decimal_lem 1500 kib (2 ^ 10) (omega arith) (refl, (refl, (refl, omega arith))) refl refl
