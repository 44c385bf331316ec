-- ===== src/Parser/Scopes.antt =====
-- `Stack` of src/parser/definition_parser.cc: the types and the statements that the visitor has made.
use binary_reader.Common.{
  ℕ, List, [], ◌∷◌, map, Option, none, some, Bool, false, ◌||◌, str_eq, if◌then◌else◌,
}
use binary_reader.Error.Defs.{DebugInfo}
use binary_reader.Value.{Value}
use binary_reader.TypeInfo.{
  TypeInfo, Statements, definition, end, field, untyped_field, type_definition, built_in_types,
  get_option_types, instantiate,
}
use binary_reader.TypeInfo

-- A `TypeDefinition`, and the same as a type.
pub record TypeDefinition : Type 0 where
  pub debug : DebugInfo
  pub alias_name : List ℕ
  pub statements : Statements

abbrev pub as_type : TypeDefinition → TypeInfo
as_type d = definition d.debug d.alias_name d.statements

-- A `FieldInfo`; its type may be null.
pub record FieldInfo : Type 0 where
  pub debug : DebugInfo
  pub name : List ℕ
  pub type : Option TypeInfo
  pub expected : Option Value

-- `Stack`
pub record Stack : Type 0 where
  pub types : List TypeDefinition
  pub statements : Statements

abbrev pub new_stack : Stack
new_stack = record { types = []; statements = end }

-- A loop of `GetType`.
unfoldable pub find_type : List ℕ → List TypeInfo → Option TypeInfo
find_type name [] = none
find_type name (t ∷ ts) = if str_eq (TypeInfo.alias_name t) name then some t else find_type name ts

unfoldable pub get_type : List TypeDefinition → List ℕ → Option TypeInfo
unfolding find_type built_in_types
get_type types name = elim (find_type name (map (λ (d : TypeDefinition). as_type d) types)) [
  | some t ↦ some t
  | none ↦ find_type name built_in_types
]

-- Whether `FindMember` finds one.
unfoldable pub find_member : List ℕ → Statements → Bool
find_member name end = false
find_member name (field d n t v ss) = str_eq n name || find_member name ss
find_member name (untyped_field d n v ss) = str_eq n name || find_member name ss
find_member name (type_definition d n inner ss) = find_member name ss

-- `statements_.push_back(field)`
unfoldable pub push_statement : Statements → FieldInfo → Statements
push_statement end f = elim f.type [
  | none ↦ untyped_field f.debug f.name f.expected end
  | some t ↦ field f.debug f.name t f.expected end
]
push_statement (field d n t v ss) f = field d n t v (push_statement ss f)
push_statement (untyped_field d n v ss) f = untyped_field d n v (push_statement ss f)
push_statement (type_definition d n inner ss) f = type_definition d n inner (push_statement ss f)
