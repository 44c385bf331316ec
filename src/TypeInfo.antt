-- ===== src/TypeInfo.antt =====
-- src/ast/type_info.{h,cc}, field_info.{h,cc}, type_definition.{h,cc} and literal.{h,cc}: the types
-- of a definition file. A `shared_ptr` to an immutable node is the node; an assert is not modelled.
pub mod Typed
pub mod Equality
pub mod Same
pub mod Laws
use binary_reader.Common.{ℕ, List, [], ◌∷◌, Option, none, some, codes}
use binary_reader.Size.{Size, zero_size, from_bits, add_assign}
use binary_reader.Error.Defs.{DebugInfo, debug_path}
use binary_reader.Options.{
  OptionType, signedness, byte_order, Signedness, ByteOrder, signed, unsigned, Options,
  get_signedness, get_byte_order,
}
use binary_reader.Value.{Value}

pub record IntegerTypeInfo : Type 0 where
  pub debug : DebugInfo
  pub alias_name : List ℕ
  pub size : Size
  pub sign : Signedness
  pub order : ByteOrder

-- A statement of a type is a field, whose type may be null, or a type definition.
mutual
  pub data TypeInfo : Type 0 where
    integer : IntegerTypeInfo → TypeInfo
    definition : DebugInfo → List ℕ → Statements → TypeInfo

  pub data Statements : Type 0 where
    end : Statements
    field : DebugInfo → List ℕ → TypeInfo → Option Value → Statements → Statements
    untyped_field : DebugInfo → List ℕ → Option Value → Statements → Statements
    type_definition : DebugInfo → List ℕ → Statements → Statements → Statements

abbrev pub alias_name : TypeInfo → List ℕ
alias_name (integer i) = i.alias_name
alias_name (definition d n ss) = n

-- An integer type is called `integer`, a definition by its own name.
abbrev pub base_name : TypeInfo → List ℕ
base_name (integer i) = codes "integer"
base_name (definition d n ss) = n

abbrev pub debug_info : TypeInfo → DebugInfo
debug_info (integer i) = i.debug
debug_info (definition d n ss) = d

-- `static_size`, with `CalculateSize` for a definition: the sum over its fields, from `size`.
unfoldable mutual
  unfolding add_assign

  pub static_size : TypeInfo → Option Size
  static_size (integer i) = some i.size
  static_size (definition d n ss) = calculate_size zero_size ss

  pub calculate_size : Size → Statements → Option Size
  calculate_size size end = some size
  calculate_size size (field d n t v ss) = elim (static_size t) [
    | none ↦ none
    | some s ↦ calculate_size (add_assign size s) ss
  ]
  calculate_size size (untyped_field d n v ss) = none
  calculate_size size (type_definition d n inner ss) = calculate_size size ss

-- `GetBuiltInTypes`
built_in : List ℕ → ℕ → Signedness → TypeInfo
built_in id size sign = integer (record {
  debug = debug_path (codes "<builtin>");
  alias_name = id;
  size = from_bits size;
  sign = sign;
  order = ByteOrder.unset;
})

unfoldable pub built_in_types : List TypeInfo
unfolding built_in from_bits
built_in_types =
    built_in (codes "byte") 8 unsigned
    ∷ built_in (codes "sbyte") 8 signed
    ∷ built_in (codes "int8") 8 signed
    ∷ built_in (codes "uint8") 8 unsigned
    ∷ built_in (codes "int16") 16 signed
    ∷ built_in (codes "uint16") 16 unsigned
    ∷ built_in (codes "int32") 32 signed
    ∷ built_in (codes "uint32") 32 unsigned
    ∷ built_in (codes "int64") 64 signed
    ∷ built_in (codes "uint64") 64 unsigned
    ∷ []

-- `GetOptionTypes`
unfoldable pub get_option_types : TypeInfo → List OptionType
get_option_types (integer i) = signedness ∷ byte_order ∷ []
get_option_types (definition d n ss) = []

-- `Instantiate`
unfoldable pub instantiate : DebugInfo → Options → TypeInfo → TypeInfo
unfolding get_signedness get_byte_order
instantiate debug options (integer i) = integer (record i {
  debug = debug;
  sign = get_signedness options.signedness i.sign;
  order = get_byte_order options.byte_order i.order;
})
instantiate debug options (definition d n ss) = definition debug n ss
