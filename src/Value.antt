-- ===== src/Value.antt =====
-- include/binary_reader/value.h and src/public/value.cc: the dynamically typed value, and the
-- `Number` that it may hold.
-- A `shared_ptr<FileObject>` is the number of the object.
pub mod Numbers
pub mod Order
pub mod Compare
pub mod Laws
use binary_reader.Common.{ℕ, List, Option, none, some, ℤ, pos, negsuc, codes}

-- The variant of `Number`, in its order; a double is its bit pattern.
pub data Number : Type 0 where
  unsigned_int : ℕ → Number
  signed_int : ℤ → Number
  double_float : ℕ → Number

-- `Number(value)` for an unsigned and for a signed integer.
unfoldable pub number_of_unsigned : ℕ → Number
number_of_unsigned n = unsigned_int n

unfoldable pub number_of_signed : ℤ → Number
number_of_signed (pos n) = unsigned_int n
number_of_signed (negsuc n) = signed_int (negsuc n)

pub data Value : Type 0 where
  null : Value
  number : Number → Value
  string : List ℕ → Value
  object : ℕ → Value

pub data ValueType : Type 0 where
  null number string object : ValueType

unfoldable pub value_type : Value → ValueType
value_type Value.null = ValueType.null
value_type (Value.number n) = ValueType.number
value_type (Value.string s) = ValueType.string
value_type (Value.object o) = ValueType.object

-- `operator<<` of `ValueType`.
unfoldable pub value_type_name : ValueType → List ℕ
value_type_name ValueType.null = codes "Null"
value_type_name ValueType.number = codes "Number"
value_type_name ValueType.string = codes "String"
value_type_name ValueType.object = codes "Object"

-- `std::get`, which throws where the value has another type.
unfoldable pub as_number : Value → Option Number
as_number (Value.number n) = some n
as_number _ = none

unfoldable pub as_string : Value → Option (List ℕ)
as_string (Value.string s) = some s
as_string _ = none

unfoldable pub as_object : Value → Option ℕ
as_object (Value.object o) = some o
as_object _ = none
