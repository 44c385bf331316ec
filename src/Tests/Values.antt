-- ===== src/Tests/Values.antt =====
-- The order of values and the equality of types, at inputs.
use binary_reader.Common.{ℕ, List, [], ◌∷◌, some, codes, ◌≡◌, refl, true, negsuc, arith}
use binary_reader.Error.Defs.{no_debug, debug_path}
use binary_reader.Options.{unsigned, ByteOrder}
use binary_reader.Value.{Value, number, string, object, signed_int}
use binary_reader.Value.Order.{below_zero}
use binary_reader.Value.Compare.{value_lt}
use binary_reader.Value.Laws.{
  exact_number, exact_string, exact_object, IsOrdered, value_lt-IsOrdered,
}
use binary_reader.TypeInfo.{TypeInfo, IntegerTypeInfo, integer, definition, end, field}
use binary_reader.TypeInfo.Typed.{whole, fields, none_left, one_more}
use binary_reader.TypeInfo.Equality.{type_info_eq}
use binary_reader.TypeInfo.Same.{Decides, without_debug}
use binary_reader.TypeInfo.Laws.{type_info_eq-Decides}
use binary_reader.Tests.Interfaces.{no_doubles}

abbrev below : Value
below = number (signed_int (negsuc 4))

abbrev text : Value
text = string (0x61 ∷ [])

abbrev itself : ℕ → ℕ
itself i = i

value_lt-IsOrdered_example :
    IsOrdered no_doubles itself (λ i j e. e) below text
    × (value_lt no_doubles itself below text ≡ true
        → value_lt no_doubles itself text (object 2) ≡ true
        → value_lt no_doubles itself below (object 2) ≡ true)
value_lt-IsOrdered_example =
    value_lt-IsOrdered no_doubles itself (λ i j e. e) below text (object 2)
      (exact_number (negsuc 4) (below_zero (omega arith))) (exact_string (0x61 ∷ []))
      (exact_object 2)

abbrev byte : IntegerTypeInfo
byte = record {
  debug = debug_path (codes "here");
  alias_name = codes "byte";
  size = record { pos = 8 };
  sign = unsigned;
  order = ByteOrder.unset;
}

abbrev one_byte : List ℕ → TypeInfo
one_byte name =
    definition no_debug (codes "t") (field no_debug name (integer byte) (some (object 3)) end)

type_info_eq-Decides_example :
    Decides
      (type_info_eq no_doubles itself (one_byte (codes "a")) (one_byte (codes "b")))
      (without_debug (one_byte (codes "a")) ≡ without_debug (one_byte (codes "b")))
type_info_eq-Decides_example =
    type_info_eq-Decides no_doubles itself (λ i j e. e)
      (fields (
        one_more
          (whole (record { bytes = 1; some_byte = omega arith; few = omega arith; width = refl }))
          none_left))
      (fields (
        one_more
          (whole (record { bytes = 1; some_byte = omega arith; few = omega arith; width = refl }))
          none_left))
      (exact_object 3, tt, tt) (exact_object 3, tt, tt)
