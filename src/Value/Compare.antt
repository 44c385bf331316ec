-- ===== src/Value/Compare.antt =====
-- include/binary_reader/value.h: the comparisons of `Value`, which are those of `std::variant`: by the
-- index of the alternative, then by its value. A `shared_ptr` compares by the address of the object.
use binary_reader.Common.{ℕ, Bool, true, false, not, ◌||◌, ltb, ◌==◌}
use binary_reader.Value.{Value, null, number, string, object}
use binary_reader.Value.Numbers.{Doubles, number_eq, number_lt}
use binary_reader.UtfString.{string_eq, string_lt}

module _ (double : Doubles) (address : ℕ → ℕ) where
  unfoldable pub value_eq : Value → Value → Bool
  unfolding number_eq string_eq
  value_eq null null = true
  value_eq (number m) (number n) = number_eq double m n
  value_eq (string s) (string t) = string_eq s t
  value_eq (object i) (object j) = address i == address j
  value_eq _ _ = false

  unfoldable pub value_lt : Value → Value → Bool
  unfolding number_lt string_lt
  value_lt null null = false
  value_lt null (number n) = true
  value_lt null (string t) = true
  value_lt null (object j) = true
  value_lt (number m) null = false
  value_lt (number m) (number n) = number_lt double m n
  value_lt (number m) (string t) = true
  value_lt (number m) (object j) = true
  value_lt (string s) null = false
  value_lt (string s) (number n) = false
  value_lt (string s) (string t) = string_lt s t
  value_lt (string s) (object j) = true
  value_lt (object i) null = false
  value_lt (object i) (number n) = false
  value_lt (object i) (string t) = false
  value_lt (object i) (object j) = ltb (address i) (address j)

  unfoldable pub value_ne : Value → Value → Bool
  unfolding value_eq
  value_ne a b = not (value_eq a b)

  unfoldable pub value_le : Value → Value → Bool
  unfolding value_eq value_lt
  value_le a b = value_eq a b || value_lt a b

  unfoldable pub value_ge : Value → Value → Bool
  unfolding value_lt
  value_ge a b = not (value_lt a b)

  unfoldable pub value_gt : Value → Value → Bool
  unfolding value_le
  value_gt a b = not (value_le a b)
