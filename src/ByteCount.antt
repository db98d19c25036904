-- ===== src/ByteCount.antt =====
-- common/byte_count_parser.go: byte counts with a unit.
-- A string is the list of its bytes. `FindStringSubmatch` is written out for the one expression of the
-- source, `(\d+)\s*(\w*)`, in which each part takes as much as it can: nothing that follows a part
-- needs a character that the part takes.
pub mod Texts
pub mod Parse
mod Tests
use qperf_go.Prelude.{
  ℕ, zero, suc, ◌+◌, ◌*◌, ◌-◌, ◌^◌, Bool, true, false, not, ◌&&◌, ◌||◌, Option, none, some, List,
  [], ◌∷◌, ◌++◌, if◌then◌else◌, ltb, leb, ◌==◌, u64, map,
}

-- `\d`, `\s` and `\w`.
unfoldable pub is_digit : ℕ → Bool
is_digit c = leb 48 c && leb c 57

unfoldable pub is_space : ℕ → Bool
is_space c = c == 32 || (c == 9 || (c == 10 || (c == 12 || c == 13)))

unfoldable pub is_upper : ℕ → Bool
is_upper c = leb 65 c && leb c 90

unfoldable pub is_word : ℕ → Bool
is_word c = is_digit c || (is_upper c || ((leb 97 c && leb c 122) || c == 95))

-- The longest start of a text whose characters pass a test, and what follows it.
unfoldable pub take_while : (ℕ → Bool) → List ℕ → List ℕ
take_while test [] = []
take_while test (c ∷ cs) = let rest = take_while test cs in if test c then c ∷ rest else []

unfoldable pub drop_while : (ℕ → Bool) → List ℕ → List ℕ
drop_while test [] = []
drop_while test (c ∷ cs) = let rest = drop_while test cs in if test c then rest else c ∷ cs

pub record Match : Type 0 where
  pub digits : List ℕ
  pub word : List ℕ

-- The leftmost match starts at the first digit.
unfoldable pub match_from : List ℕ → Option Match
match_from [] = none
match_from (c ∷ cs) = some (record {
  digits = take_while is_digit (c ∷ cs);
  word = take_while is_word (drop_while is_space (drop_while is_digit (c ∷ cs)));
})

unfoldable pub find_match : List ℕ → Option Match
find_match s = match_from (drop_while (λ c. not (is_digit c)) s)

-- The number that digits write, after those with the value `n`.
unfoldable pub value_from : ℕ → List ℕ → ℕ
value_from n [] = n
value_from n (c ∷ cs) = value_from (n * 10 + (c - 48)) cs

-- `strconv.ParseUint(s, 10, 64)` on digits: a value out of range is an error.
unfoldable pub parse_uint : List ℕ → Option ℕ
parse_uint s = if ltb (value_from 0 s) (2 ^ 64) then some (value_from 0 s) else none

unfoldable pub lower : ℕ → ℕ
lower c = if is_upper c then c + 32 else c

abbrev pub to_lower : List ℕ → List ℕ
to_lower s = map lower s

unfoldable pub same_text : List ℕ → List ℕ → Bool
same_text [] [] = true
same_text [] (d ∷ ds) = false
same_text (c ∷ cs) [] = false
same_text (c ∷ cs) (d ∷ ds) = let rest = same_text cs ds in c == d && rest

-- The cases of the switch, in its order, and what each multiplies by.
abbrev pub units : List (List ℕ × ℕ)
units =
    ([], 1)
    ∷ (98 ∷ [], 1)
    ∷ (107 ∷ 98 ∷ [], 1_000)
    ∷ (109 ∷ 98 ∷ [], 1_000_000)
    ∷ (103 ∷ 98 ∷ [], 1_000_000_000)
    ∷ (116 ∷ 98 ∷ [], 1_000_000_000_000)
    ∷ (112 ∷ 98 ∷ [], 1_000_000_000_000_000)
    ∷ (107 ∷ 105 ∷ 98 ∷ [], 2 ^ 10)
    ∷ (109 ∷ 105 ∷ 98 ∷ [], 2 ^ 20)
    ∷ (103 ∷ 105 ∷ 98 ∷ [], 2 ^ 30)
    ∷ (116 ∷ 105 ∷ 98 ∷ [], 2 ^ 40)
    ∷ (112 ∷ 105 ∷ 98 ∷ [], 2 ^ 50)
    ∷ []

unfoldable pub find_unit : List (List ℕ × ℕ) → List ℕ → Option ℕ
find_unit [] suffix = none
find_unit (u ∷ us) suffix =
    let rest = find_unit us suffix in if same_text u.0 suffix then some u.1 else rest

-- The three errors, and a number.
pub data Parsed : Type 0 where
  failed_to_parse : Parsed
  out_of_range : Parsed
  invalid_suffix : Parsed
  parsed : ℕ → Parsed

unfoldable pub scale : ℕ → Option ℕ → Parsed
scale number none = invalid_suffix
scale number (some unit) = parsed (u64 (number * unit))

unfoldable pub with_suffix : Option ℕ → List ℕ → Parsed
with_suffix none suffix = out_of_range
with_suffix (some number) suffix = scale number (find_unit units suffix)

-- The word of a match has no space to trim.
unfoldable pub parse_match : Option Match → Parsed
parse_match none = failed_to_parse
parse_match (some m) = with_suffix (parse_uint m.digits) (to_lower m.word)

unfoldable pub parse_byte_count_with_unit : List ℕ → Parsed
parse_byte_count_with_unit s = parse_match (find_match s)
