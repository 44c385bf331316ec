-- ===== src/FileObject.antt =====
-- include/binary_reader/file_object.h, src/public/file_object.cc and file_object_init.h: an object of
-- a file and its fields; Heap has the reading of their values. `impl_->init.type` is the list of
-- statements of the type definition, which is all that is read of it.
pub mod Layout
pub mod Names
pub mod Heap
pub mod Invariant
pub mod Fresh
pub mod Values
pub mod Fields
pub mod Fetch
pub mod Places
pub mod Located
pub mod Live
pub mod Kinds
use binary_reader.Common.{
  ℕ, suc, List, [], ◌∷◌, ◌++◌, map, length, Option, none, some, Bool, true, false, lookup, insert,
}
use binary_reader.Size.{Size, zero_size, add_assign}
use binary_reader.Error.Defs.{unknown, error, fields_must_be_static, no_debug}
use binary_reader.Error.Message.{error_info}
use binary_reader.Error.Collection.{add}
use binary_reader.Exec.{Exec, ok, failed, stuck, done}
use binary_reader.Value.{Value}
use binary_reader.TypeInfo.{
  TypeInfo, Statements, end, field, untyped_field, type_definition, static_size, debug_info,
}

-- The type is null where the object is made of test fields.
pub record ParsedFieldInfo : Type 0 where
  pub name : List ℕ
  pub type : Option TypeInfo
  pub offset : Size
  pub value : Option Value

pub record FileObject : Type 0 where
  pub type : Option Statements
  pub start_position : Size
  pub parsed_fields : List ParsedFieldInfo
  pub field_name_map : List (List ℕ × ℕ)

-- The loop of the constructor over `test_fields`, from the index `i` on.
unfoldable pub test_fields_loop : ℕ → List (List ℕ × Value) → FileObject → FileObject
unfolding insert
test_fields_loop i [] o = o
test_fields_loop i ((n, v) ∷ fields) o = test_fields_loop (suc i) fields (record o {
  parsed_fields =
      o.parsed_fields ++ record { name = n; type = none; offset = zero_size; value = some v } ∷ [];
  field_name_map = insert n i o.field_name_map;
})

-- `MakeFileObject`
unfoldable pub make_file_object : Option Statements → Size → List (List ℕ × Value) → FileObject
unfolding test_fields_loop
make_file_object type start test_fields =
    test_fields_loop 0 test_fields
      (record { type = type; start_position = start; parsed_fields = []; field_name_map = [] })

-- `GetFieldNames`, in the order of insertion.
unfoldable pub get_field_names : FileObject → List (List ℕ)
get_field_names o = map (λ p. p.0) o.field_name_map

unfoldable pub has_field : FileObject → List ℕ → Bool
unfolding lookup
has_field o name = elim (lookup name o.field_name_map) [ none ↦ false | some i ↦ true ]

-- `info.value.reset()`
abbrev pub without_value : ParsedFieldInfo → ParsedFieldInfo
without_value f = record f { value = none }

unfoldable pub clear_cache : FileObject → FileObject
clear_cache o = record o {
  parsed_fields = map (λ (f : ParsedFieldInfo). without_value f) o.parsed_fields;
}

-- `parsed_fields.push_back`, and the entry of the name map.
unfoldable pub push_field : List ℕ → TypeInfo → Size → FileObject → FileObject
unfolding insert
push_field name type offset o =
    let info : ParsedFieldInfo = record {
      name = name;
      type = some type;
      offset = offset;
      value = none;
    } in
    record o {
      parsed_fields = o.parsed_fields ++ info ∷ [];
      field_name_map = insert name (length o.parsed_fields) o.field_name_map;
    }

-- The loop of `ReparseObject`. A field without a type is a null pointer that the source follows:
-- the model is stuck there.
unfoldable pub reparse_loop : Statements → Size → Exec FileObject (Unit {0})
unfolding push_field static_size add_assign add error_info
reparse_loop end offset o e = done (ok tt) o e
reparse_loop (field d n t v ss) offset o e =
    let o' = push_field n t offset o in
    elim (static_size t) [
      | none ↦ done failed o' (add e (error_info (debug_info t) fields_must_be_static [] error 0))
      | some s ↦ reparse_loop ss (add_assign offset s) o' e
    ]
reparse_loop (untyped_field d n v ss) offset o e = done stuck o e
reparse_loop (type_definition d n inner ss) offset o e =
    done failed o (add e (error_info no_debug unknown [] error 0))

-- `ReparseObject`
unfoldable pub reparse_object : Exec FileObject (Unit {0})
unfolding reparse_loop
reparse_object o e = elim o.type [
  | none ↦ done (ok tt) o e
  | some ss ↦
      reparse_loop ss o.start_position (record o { parsed_fields = []; field_name_map = [] }) e
]
