-- ===== src/Value/Numbers.antt =====
-- src/public/number.cc, include/binary_reader/number.h and src/util/templates.h: the comparisons and
-- the casts of `Number`. The arithmetic of `double` is a parameter, on bit patterns.
use binary_reader.Common.{
  ℕ, suc, ◌-◌, ◌%◌, ◌^◌, Bool, true, false, not, ◌&&◌, ◌||◌, ℤ, pos, negsuc, ltb, ◌==◌, ltb_ℤ,
  signed64, if◌then◌else◌, List, ◌∷◌, decimal,
}
use binary_reader.Value.{Number, unsigned_int, signed_int, double_float}

-- The casts from and to integers, and the comparisons. A cast of a value that does not fit is
-- undefined in C++, and may give any integer here.
pub record Doubles : Type 0 where
  pub of_integer : ℤ → ℕ
  pub to_unsigned : ℕ → ℕ
  pub to_signed : ℕ → ℤ
  pub is_finite : ℕ → Bool
  pub eq : ℕ → ℕ → Bool
  pub lt : ℕ → ℕ → Bool

abbrev pub eq_ℤ : ℤ → ℤ → Bool
eq_ℤ (pos m) (pos n) = m == n
eq_ℤ (negsuc m) (negsuc n) = m == n
eq_ℤ _ _ = false

-- `std::numeric_limits`
abbrev pub max_unsigned : ℕ
max_unsigned = 2 ^ 64 - 1

abbrev pub max_signed : ℕ
max_signed = 2 ^ 63 - 1

abbrev pub min_signed : ℤ
min_signed = negsuc (2 ^ 63 - 1)

-- `clamp_cast<uintmax_t>` and `clamp_cast<intmax_t>` of a 64-bit integer, which is always finite as a
-- `double`.
unfoldable pub clamp_unsigned : ℤ → ℕ
clamp_unsigned (pos n) =
    if ltb 0 n && ltb max_unsigned (n % 2 ^ 64) then max_unsigned else n % 2 ^ 64
clamp_unsigned (negsuc n) = if ltb_ℤ (negsuc n) (pos 0) then 0 else 2 ^ 64 - suc n

unfoldable pub clamp_signed : ℤ → ℤ
clamp_signed (pos n) = if ltb 0 n && ltb max_signed n then pos max_signed else signed64 n
clamp_signed (negsuc n) = if ltb_ℤ (negsuc n) min_signed then min_signed else negsuc n

abbrev pub is_negative : Number → Bool
is_negative (signed_int z) = true
is_negative _ = false

abbrev pub is_double : Number → Bool
is_double (double_float d) = true
is_double _ = false

module _ (double : Doubles) where
  abbrev zero_double : ℕ
  zero_double = double.of_integer (pos 0)

  -- The same casts of a `double`.
  unfoldable pub clamp_double_unsigned : ℕ → ℕ
  clamp_double_unsigned d =
      if double.lt zero_double d
        && (not (double.is_finite d) || ltb max_unsigned (double.to_unsigned d))
      then max_unsigned
      else if double.lt d zero_double
          && (not (double.is_finite d) || ltb_ℤ (double.to_signed d) (pos 0))
      then 0
      else double.to_unsigned d

  unfoldable pub clamp_double_signed : ℕ → ℤ
  clamp_double_signed d =
      if double.lt zero_double d
        && (not (double.is_finite d) || ltb max_signed (double.to_unsigned d))
      then pos max_signed
      else if double.lt d zero_double
          && (not (double.is_finite d) || ltb_ℤ (double.to_signed d) min_signed)
      then min_signed
      else double.to_signed d

  unfoldable pub as_unsigned : Number → ℕ
  unfolding clamp_unsigned clamp_double_unsigned
  as_unsigned (unsigned_int n) = clamp_unsigned (pos n)
  as_unsigned (signed_int z) = clamp_unsigned z
  as_unsigned (double_float d) = clamp_double_unsigned d

  unfoldable pub as_signed : Number → ℤ
  unfolding clamp_signed clamp_double_signed
  as_signed (unsigned_int n) = clamp_signed (pos n)
  as_signed (signed_int z) = clamp_signed z
  as_signed (double_float d) = clamp_double_signed d

  unfoldable pub as_double : Number → ℕ
  as_double (unsigned_int n) = double.of_integer (pos n)
  as_double (signed_int z) = double.of_integer z
  as_double (double_float d) = d

  -- `operator bool`
  unfoldable pub is_true : Number → Bool
  is_true (unsigned_int n) = not (n == 0)
  is_true (signed_int z) = not (eq_ℤ z (pos 0))
  is_true (double_float d) = not (double.eq d zero_double)

  -- `operator==` and `operator<`: an integer of the signed variant is negative.
  unfoldable pub number_eq : Number → Number → Bool
  number_eq (unsigned_int m) (unsigned_int n) = m == n
  number_eq (unsigned_int m) (signed_int z) = false
  number_eq (unsigned_int m) (double_float d) = double.eq (double.of_integer (pos m)) d
  number_eq (signed_int y) (unsigned_int n) = false
  number_eq (signed_int y) (signed_int z) = eq_ℤ y z
  number_eq (signed_int y) (double_float d) = double.eq (double.of_integer y) d
  number_eq (double_float c) (unsigned_int n) = double.eq c (double.of_integer (pos n))
  number_eq (double_float c) (signed_int z) = double.eq c (double.of_integer z)
  number_eq (double_float c) (double_float d) = double.eq c d

  unfoldable pub number_lt : Number → Number → Bool
  number_lt (unsigned_int m) (unsigned_int n) = ltb m n
  number_lt (unsigned_int m) (signed_int z) = false
  number_lt (unsigned_int m) (double_float d) = double.lt (double.of_integer (pos m)) d
  number_lt (signed_int y) (unsigned_int n) = true
  number_lt (signed_int y) (signed_int z) = ltb_ℤ y z
  number_lt (signed_int y) (double_float d) = double.lt (double.of_integer y) d
  number_lt (double_float c) (unsigned_int n) = double.lt c (double.of_integer (pos n))
  number_lt (double_float c) (signed_int z) = double.lt c (double.of_integer z)
  number_lt (double_float c) (double_float d) = double.lt c d

  unfoldable pub number_ne : Number → Number → Bool
  unfolding number_eq
  number_ne a b = not (number_eq a b)

  unfoldable pub number_le : Number → Number → Bool
  unfolding number_eq number_lt
  number_le a b = number_eq a b || number_lt a b

  unfoldable pub number_ge : Number → Number → Bool
  unfolding number_lt
  number_ge a b = not (number_lt a b)

  unfoldable pub number_gt : Number → Number → Bool
  unfolding number_le
  number_gt a b = not (number_le a b)

-- How a `std::ostream` writes an `intmax_t`.
unfoldable pub write_signed : ℤ → List ℕ
write_signed (pos n) = decimal n
write_signed (negsuc n) = b'-' ∷ decimal (suc n)

-- `operator<<`; `show_double` is how the stream writes a double.
unfoldable pub write_number : Doubles → (ℕ → List ℕ) → Number → List ℕ
unfolding write_signed as_double as_signed as_unsigned
write_number double show_double n =
    if is_double n
    then show_double (as_double double n)
    else if is_negative n
    then write_signed (as_signed double n)
    else decimal (as_unsigned double n)
