-- ===== src/TypeInfo/Equality.antt =====
-- `operator==` of the nodes of a definition: src/ast/ast_base.h, literal.cc, field_info.cc, type_info.h,
-- type_info.cc and type_definition.cc. The result is none where a null type is followed. The short cut
-- for a node and itself is not modelled.
use binary_reader.Common.{
  ℕ, suc, codes, List, Option, none, some, Bool, true, false, not, ◌&&◌, ◌||◌, ◌==◌, str_eq,
  if◌then◌else◌,
}
use binary_reader.Size.{Size, zero_size, size_eq}
use binary_reader.Options.{Signedness, ByteOrder}
use binary_reader.Value.{Value}
use binary_reader.Value.Numbers.{Doubles}
use binary_reader.Value.Compare.{value_eq}
use binary_reader.TypeInfo.{
  IntegerTypeInfo, TypeInfo, Statements, integer, definition, end, field, untyped_field,
  type_definition, calculate_size,
}

abbrev pub sign_eq : Signedness → Signedness → Bool
sign_eq Signedness.unset Signedness.unset = true
sign_eq Signedness.signed Signedness.signed = true
sign_eq Signedness.unsigned Signedness.unsigned = true
sign_eq _ _ = false

abbrev pub order_eq : ByteOrder → ByteOrder → Bool
order_eq ByteOrder.unset ByteOrder.unset = true
order_eq ByteOrder.big_endian ByteOrder.big_endian = true
order_eq ByteOrder.little_endian ByteOrder.little_endian = true
order_eq _ _ = false

-- `==` of `std::optional<Size>`.
unfoldable pub optional_size_eq : Option Size → Option Size → Bool
unfolding size_eq
optional_size_eq none none = true
optional_size_eq (some a) (some b) = size_eq a b
optional_size_eq _ _ = false

-- `TypeInfoBase::Equals`, on the names and the sizes.
unfoldable pub base_equals : List ℕ → List ℕ → Option Size → List ℕ → List ℕ → Option Size → Bool
unfolding optional_size_eq str_eq
base_equals alias base size alias' base' size' =
    str_eq alias alias' && (str_eq base base' && optional_size_eq size size')

-- `IntegerTypeInfo::Equals`
unfoldable pub integer_equals : IntegerTypeInfo → IntegerTypeInfo → Bool
unfolding base_equals
integer_equals i j =
    sign_eq i.sign j.sign
    && (order_eq i.order j.order
        && base_equals i.alias_name (codes "integer") (some i.size) j.alias_name (codes "integer")
            (some j.size))

abbrev pub statement_count : Statements → ℕ
statement_count end = 0
statement_count (field d n t v ss) = suc (statement_count ss)
statement_count (untyped_field d n v ss) = suc (statement_count ss)
statement_count (type_definition d n inner ss) = suc (statement_count ss)

-- `TypeDefinition::Equals`, up to the loop over the statements.
unfoldable pub definition_equals :
    List ℕ → Statements → List ℕ → Statements → Option Bool → Option Bool
unfolding base_equals calculate_size
definition_equals n ss m ts loop =
    if not (base_equals n n (calculate_size zero_size ss) m m (calculate_size zero_size ts))
      || not (statement_count ss == statement_count ts)
    then some false
    else loop

-- One round of that loop: `if (*statements_[i] != *other.statements_[i]) return false;`
abbrev pub and_then : Option Bool → Option Bool → Option Bool
and_then none rest = none
and_then (some true) rest = rest
and_then (some false) rest = some false

module _ (double : Doubles) (address : ℕ → ℕ) where
  -- `FieldInfo`'s `expected_`, and `Literal::Equals`.
  unfoldable pub expected_eq : Option Value → Option Value → Bool
  unfolding value_eq
  expected_eq none none = true
  expected_eq none (some w) = false
  expected_eq (some v) none = false
  expected_eq (some v) (some w) = value_eq double address v w

  -- `FieldInfo::Equals`, where `types` is `*type_ == *o->type_`.
  unfoldable pub field_equals :
      List ℕ → Option Value → List ℕ → Option Value → Option Bool → Option Bool
  unfolding expected_eq str_eq
  field_equals n v m w types =
      if not (expected_eq v w) then some false else if str_eq n m then types else some false

  -- `operator==` of two types, and the loop over two lists of statements. Nodes of different classes
  -- differ; past the end of the second list the behaviour is undefined.
  unfoldable mutual
    unfolding integer_equals definition_equals field_equals

    pub type_info_eq : TypeInfo → TypeInfo → Option Bool
    type_info_eq (integer i) (integer j) = some (integer_equals i j)
    type_info_eq (integer i) (definition e m ts) = some false
    type_info_eq (definition d n ss) (integer j) = some false
    type_info_eq (definition d n ss) (definition e m ts) =
        definition_equals n ss m ts (statements_eq ss ts)

    pub statements_eq : Statements → Statements → Option Bool
    statements_eq end ts = some true
    statements_eq (field d n t v ss) end = none
    statements_eq (field d n t v ss) (field e m u w ts) =
        and_then (field_equals n v m w (type_info_eq t u)) (statements_eq ss ts)
    statements_eq (field d n t v ss) (untyped_field e m w ts) =
        and_then (field_equals n v m w none) (statements_eq ss ts)
    statements_eq (field d n t v ss) (type_definition e m inner ts) = some false
    statements_eq (untyped_field d n v ss) end = none
    statements_eq (untyped_field d n v ss) (field e m u w ts) =
        and_then (field_equals n v m w none) (statements_eq ss ts)
    statements_eq (untyped_field d n v ss) (untyped_field e m w ts) =
        and_then (field_equals n v m w none) (statements_eq ss ts)
    statements_eq (untyped_field d n v ss) (type_definition e m inner ts) = some false
    statements_eq (type_definition d n inner ss) end = none
    statements_eq (type_definition d n inner ss) (field e m u w ts) = some false
    statements_eq (type_definition d n inner ss) (untyped_field e m w ts) = some false
    statements_eq (type_definition d n inner ss) (type_definition e m inner' ts) =
        and_then (definition_equals n inner m inner' (statements_eq inner inner'))
          (statements_eq ss ts)
