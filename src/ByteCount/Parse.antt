-- ===== src/ByteCount/Parse.antt =====
-- What the parser reads in any text, and that it reads back a decimal number with a unit.
use qperf_go.Prelude.{
  ℕ, zero, suc, ◌+◌, ◌*◌, ◌/◌, ◌%◌, ◌^◌, ◌≡◌, refl, ap, sym, subst, ◌∙◌, Bool, true, false, not,
  List, [], ◌∷◌, ◌++◌, ◌≤◌, ◌<◌, arith, Bool-cases, inl, inr, if◌then◌else◌, ltb, lt→ltb, some,
  append-nil, u64,
}
use qperf_go.ByteCount.{
  is_digit, is_space, is_word, is_upper, drop_while, match_from, find_match, value_from, parse_uint,
  to_lower, units, find_unit, failed_to_parse, parsed, scale, with_suffix, parse_match,
  parse_byte_count_with_unit,
}
use qperf_go.ByteCount.Texts.{All, Stops, take_while-run, drop_while-run}

abbrev pub not_digit : ℕ → Bool
not_digit c = not (is_digit c)

match_at :
    (d : ℕ) (ds spaces word rest : List ℕ)
    → All is_digit (d ∷ ds)
    → All is_space spaces
    → All is_word word
    → Stops is_digit (spaces ++ (word ++ rest))
    → Stops is_space (word ++ rest)
    → Stops is_word rest
    → match_from ((d ∷ ds) ++ (spaces ++ (word ++ rest)))
      ≡ some (record { digits = d ∷ ds; word = word })
unfolding match_from
match_at d ds spaces word rest a b c p q r =
    rw
      (
        take_while-run is_digit (d ∷ ds) (spaces ++ (word ++ rest)) a p,
        drop_while-run is_digit (d ∷ ds) (spaces ++ (word ++ rest)) a p,
        drop_while-run is_space spaces (word ++ rest) b q,
        take_while-run is_word word rest c r,
      )
      refl

-- In any text that is something without a digit, then digits, spaces and a word, and goes on with no
-- character of the part before: the first part alone fails to parse, and the whole reads as the digits
-- with the word, in lower case, as the unit, whatever follows.
pub parse_lem :
    (junk : List ℕ) (d : ℕ) (ds spaces word rest : List ℕ)
    → All not_digit junk
    → All is_digit (d ∷ ds)
    → All is_space spaces
    → All is_word word
    → Stops is_digit (spaces ++ (word ++ rest))
    → Stops is_space (word ++ rest)
    → Stops is_word rest
    → (parse_byte_count_with_unit junk ≡ failed_to_parse)
      × (parse_byte_count_with_unit (junk ++ ((d ∷ ds) ++ (spaces ++ (word ++ rest))))
          ≡ with_suffix (parse_uint (d ∷ ds)) (to_lower word))
unfolding parse_byte_count_with_unit find_match parse_match match_from
parse_lem junk d ds spaces word rest h a b c p q r =
    let d_stops : not_digit d ≡ false = rw a.0 refl in
    let empty =
      ap (drop_while not_digit) (sym (append-nil junk))
      ∙ drop_while-run not_digit junk [] h (omega arith) in
    let text = (d ∷ ds) ++ (spaces ++ (word ++ rest)) in
    let skip = drop_while-run not_digit junk text h d_stops in
    (
      ap (λ t. parse_match (match_from t)) empty,
      ap (λ t. parse_match (match_from t)) skip
          ∙ ap parse_match (match_at d ds spaces word rest a b c p q r),
    )

-- The decimal digits of a number, in front of others.
unfoldable pub decimal_from : ℕ → ℕ → List ℕ → List ℕ
decimal_from zero n digits = (48 + n % 10) ∷ digits
decimal_from (suc fuel) n digits =
    let rest = decimal_from fuel (n / 10) ((48 + n % 10) ∷ digits) in
    if ltb n 10 then (48 + n % 10) ∷ digits else rest

abbrev pub decimal : ℕ → List ℕ
decimal n = decimal_from n n []

value_from-decimal :
    (fuel n : ℕ) (digits : List ℕ)
    → n ≤ fuel
    → value_from 0 (decimal_from fuel n digits) ≡ value_from n digits
unfolding decimal_from value_from
value_from-decimal zero n digits h = ap (λ k. value_from k digits) (omega arith)
value_from-decimal (suc fuel) n digits h = elim (Bool-cases (ltb n 10)) [
  | inl e ↦ rw e (ap (λ k. value_from k digits) (ground (arith, e)))
  | inr e ↦ rw e (
      value_from-decimal fuel (n / 10) ((48 + n % 10) ∷ digits) (ground (arith, e))
      ∙ ap (λ k. value_from k digits) (omega arith))
]

digit_is : (n : ℕ) → is_digit (48 + n % 10) ≡ true
unfolding is_digit
digit_is n = ground arith

decimal_from-All :
    (fuel n : ℕ) (digits : List ℕ) → All is_digit digits → All is_digit (decimal_from fuel n digits)
unfolding decimal_from
decimal_from-All zero n digits h = (digit_is n, h)
decimal_from-All (suc fuel) n digits h = elim (Bool-cases (ltb n 10)) [
  | inl e ↦ rw e (digit_is n, h)
  | inr e ↦ rw e (decimal_from-All fuel (n / 10) ((48 + n % 10) ∷ digits) (digit_is n, h))
]

-- A decimal number is a digit and more digits.
decimal-cons :
    (fuel n : ℕ) (digits : List ℕ) → (d : ℕ) × (ds : List ℕ) × (decimal_from fuel n digits ≡ d ∷ ds)
unfolding decimal_from
decimal-cons zero n digits = (48 + n % 10, digits, refl)
decimal-cons (suc fuel) n digits = elim (Bool-cases (ltb n 10)) [
  | inl e ↦ (48 + n % 10, digits, rw e refl)
  | inr e ↦ rw e (decimal-cons fuel (n / 10) ((48 + n % 10) ∷ digits))
]

parse_uint-decimal : (n : ℕ) → n < 2 ^ 64 → parse_uint (decimal n) ≡ some n
unfolding parse_uint value_from
parse_uint-decimal n h =
    let e = value_from-decimal n n [] (omega arith) in rw (e, lt→ltb n (2 ^ 64) h) refl

word-Stops : (word : List ℕ) → All is_word word → Stops is_space (word ++ [])
unfolding is_word is_space is_upper is_digit
word-Stops [] h = omega arith
word-Stops (c ∷ cs) h = ground (arith, h.0)

-- A number below 2^64 in decimal, with a unit of the table in upper or lower case or with none, reads
-- back as the number times the unit, modulo 2^64.
pub decimal_lem :
    (n : ℕ) (word : List ℕ) (unit : ℕ)
    → n < 2 ^ 64
    → All is_word word
    → Stops is_digit word
    → find_unit units (to_lower word) ≡ some unit
    → parse_byte_count_with_unit (decimal n ++ word) ≡ parsed (u64 (n * unit))
unfolding with_suffix scale
decimal_lem n word unit h w s e =
    let c = decimal-cons n n [] in
    let digits = subst (All is_digit) c.2 (decimal_from-All n n [] (omega arith)) in
    let whole = append-nil word in
    let r =
      parse_lem [] c.0 c.1 [] word [] (omega arith) digits (omega arith) w
        (subst (Stops is_digit) (sym whole) s) (word-Stops word w) (omega arith) in
    let uint = ap parse_uint (sym c.2) ∙ parse_uint-decimal n h in
    ap (λ t. parse_byte_count_with_unit (t ++ word)) c.2
    ∙ ap (λ t. parse_byte_count_with_unit ((c.0 ∷ c.1) ++ t)) (sym whole)
    ∙ r.1
    ∙ rw (uint, e) refl
