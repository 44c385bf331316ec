-- ===== src/TypeInfo/Same.antt =====
-- The equality of types is that of what they are without their places in the definition file.
use binary_reader.Common.{
  suc, codes, Option, none, some, Bool, true, false, ==_iff, str_eq_iff, ◌≡◌, refl, ap, ◌↔◌, ◌⊎◌,
  inl, inr, arith, Option-cases,
}
use binary_reader.Size.{Size, zero_size, add_assign, size_eq, bit_count}
use binary_reader.Error.Defs.{no_debug}
use binary_reader.Options.{Signedness, ByteOrder}
use binary_reader.Value.{Value}
use binary_reader.Value.Laws.{IsExact}
use binary_reader.TypeInfo.{
  IntegerTypeInfo, TypeInfo, Statements, integer, definition, end, field, untyped_field,
  type_definition, static_size, calculate_size,
}
use binary_reader.TypeInfo.Equality.{
  sign_eq, order_eq, optional_size_eq, base_equals, integer_equals, statement_count,
}

-- A type with no debug information in it.
abbrev mutual
  pub without_debug : TypeInfo → TypeInfo
  without_debug (integer i) = integer (record i { debug = no_debug })
  without_debug (definition d n ss) = definition no_debug n (all_without_debug ss)

  pub all_without_debug : Statements → Statements
  all_without_debug end = end
  all_without_debug (field d n t v ss) = field no_debug n (without_debug t) v (all_without_debug ss)
  all_without_debug (untyped_field d n v ss) = untyped_field no_debug n v (all_without_debug ss)
  all_without_debug (type_definition d n inner ss) =
      type_definition no_debug n (all_without_debug inner) (all_without_debug ss)

-- No literal in the type is a double.
abbrev pub IsExactLiteral : Option Value → Type 0
IsExactLiteral none = Unit {0}
IsExactLiteral (some v) = IsExact v

abbrev mutual
  pub HasExact : TypeInfo → Type 0
  HasExact (integer i) = Unit {0}
  HasExact (definition d n ss) = HaveExact ss

  pub HaveExact : Statements → Type 0
  HaveExact end = Unit {0}
  HaveExact (field d n t v ss) = IsExactLiteral v × HasExact t × HaveExact ss
  HaveExact (untyped_field d n v ss) = IsExactLiteral v × HaveExact ss
  HaveExact (type_definition d n inner ss) = HaveExact inner × HaveExact ss

-- The answer, which is there, says whether `P` holds.
abbrev pub Decides : Option Bool → Type 0 → Type 0
Decides o P = ((o ≡ some true) × P) ⊎ ((o ≡ some false) × (P → ⊥))

mutual
  unfolding static_size calculate_size

  static_size-without_debug : (t : TypeInfo) → static_size (without_debug t) ≡ static_size t
  static_size-without_debug (integer i) = refl
  static_size-without_debug (definition d n ss) = calculate_size-without_debug zero_size ss

  pub calculate_size-without_debug :
      (start : Size) (ss : Statements)
      → calculate_size start (all_without_debug ss) ≡ calculate_size start ss
  calculate_size-without_debug start end = refl
  calculate_size-without_debug start (field d n t v ss) =
      rw (static_size-without_debug t) (elim (Option-cases (static_size t)) [
        | inl unknown ↦ rw unknown refl
        | inr (s, known) ↦ rw known (calculate_size-without_debug (add_assign start s) ss)
      ])
  calculate_size-without_debug start (untyped_field d n v ss) = refl
  calculate_size-without_debug start (type_definition d n inner ss) =
      calculate_size-without_debug start ss

pub statement_count-without_debug :
    (ss : Statements) → statement_count (all_without_debug ss) ≡ statement_count ss
statement_count-without_debug end = refl
statement_count-without_debug (field d n t v ss) = ap suc (statement_count-without_debug ss)
statement_count-without_debug (untyped_field d n v ss) = ap suc (statement_count-without_debug ss)
statement_count-without_debug (type_definition d n inner ss) =
    ap suc (statement_count-without_debug ss)

sign_eq_iff : (a b : Signedness) → (sign_eq a b ≡ true) ↔ (a ≡ b)
sign_eq_iff a b = ground arith

order_eq_iff : (a b : ByteOrder) → (order_eq a b ≡ true) ↔ (a ≡ b)
order_eq_iff a b = ground arith

pub integer_equals_iff :
    (i j : IntegerTypeInfo)
    → (integer_equals i j ≡ true) ↔ (without_debug (integer i) ≡ without_debug (integer j))
unfolding integer_equals base_equals optional_size_eq size_eq bit_count
integer_equals_iff i j = ground (
  arith,
  sign_eq_iff i.sign j.sign,
  order_eq_iff i.order j.order,
  str_eq_iff i.alias_name j.alias_name,
  str_eq_iff (codes "integer") (codes "integer"),
  ==_iff i.size.pos j.size.pos,
)
