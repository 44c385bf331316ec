-- ===== src/Parser/Literal.antt =====
-- The numbers of a definition file: `visitExpression` of src/parser/definition_parser.cc, with
-- `std::stoll(value, nullptr, 0)` of the C++ library written out for texts without a sign or white
-- space, as a NUMBER of the grammar is. `std::stod` is a parameter, whose result is a bit pattern.
use binary_reader.Common.{
  ℕ, ◌+◌, ◌-◌, ◌*◌, ◌^◌, List, [], ◌∷◌, Bool, true, false, ◌&&◌, ◌||◌, Option, none, some, ltb, leb,
  ◌==◌, if◌then◌else◌, pos,
}
use mathlib.Core.Option
use binary_reader.Value.{Value, number, double_float, number_of_signed}

-- The value of a digit in bases up to 16.
unfoldable pub digit_value : ℕ → Option ℕ
digit_value c =
    if leb 48 c && leb c 57
    then some (c - 48)
    else if leb 97 c && leb c 102
    then some (c - 87)
    else if leb 65 c && leb c 70
    then some (c - 55)
    else none

abbrev pub digit_of : ℕ → ℕ → Option ℕ
digit_of base c = elim (digit_value c) [
  | none ↦ none
  | some d ↦ if ltb d base then some d else none
]

-- The digits up to the first character that is none; what follows is ignored.
unfoldable pub digits_loop : ℕ → List ℕ → ℕ → ℕ
unfolding digit_value
digits_loop base [] n = n
digits_loop base (c ∷ cs) n = elim (digit_of base c) [
  | none ↦ n
  | some d ↦ digits_loop base cs (n * base + d)
]

-- `std::invalid_argument` without a digit, `std::out_of_range` beyond a `long long`.
unfoldable pub read_digits : ℕ → List ℕ → Option ℕ
unfolding digit_value digits_loop
read_digits base [] = none
read_digits base (c ∷ cs) = elim (digit_of base c) [
  | none ↦ none
  | some d ↦ let n = digits_loop base cs d in if ltb n (2 ^ 63) then some n else none
]

abbrev pub starts_with_digit : ℕ → List ℕ → Bool
starts_with_digit base [] = false
starts_with_digit base (c ∷ cs) = elim (digit_of base c) [ none ↦ false | some d ↦ true ]

-- The base of the text behind a leading `0`, and where its digits start: a prefix `0x` that a digit
-- follows is for base 16, any other `0` for base 8.
unfoldable pub read_after_zero : List ℕ → Option ℕ
unfolding read_digits digit_value
read_after_zero [] = some 0
read_after_zero (c ∷ cs) =
    if ((c == 120) || (c == 88)) && starts_with_digit 16 cs
    then read_digits 16 cs
    else read_digits 8 (48 ∷ c ∷ cs)

unfoldable pub stoll : List ℕ → Option ℕ
unfolding read_after_zero read_digits digit_value
stoll [] = none
stoll (c ∷ cs) = if c == 48 then read_after_zero cs else read_digits 10 (c ∷ cs)

-- `find_first_of(".e") != npos`
abbrev pub has_point_or_e : List ℕ → Bool
has_point_or_e [] = false
has_point_or_e (c ∷ cs) = (c == 46) || (c == 101) || has_point_or_e cs

-- The value of the literal, or none where the library's function throws.
unfoldable pub literal_value : (List ℕ → Option ℕ) → List ℕ → Option Value
unfolding stoll number_of_signed
literal_value stod text =
    if has_point_or_e text
    then Option.map (λ bits. number (double_float bits)) (stod text)
    else Option.map (λ n. number (number_of_signed (pos n))) (stoll text)
