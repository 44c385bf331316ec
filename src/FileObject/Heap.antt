-- ===== src/FileObject/Heap.antt =====
-- src/public/file_object.cc and src/ast/type_definition.cc: the values of the fields of the objects of
-- one file. The objects share the `BufferedFileReader` and are kept in a heap; a `shared_ptr` to one
-- is its index.
use binary_reader.Common.{ℕ, List, [], ◌∷◌, ◌++◌, length, get_elem?, set, none, some, lookup}
use binary_reader.Size.{Size, zero_size, add}
use binary_reader.Error.Collection.{no_errors}
use binary_reader.Exec.{Exec, Done, ok, failed, stuck, done, return, continue, ◌>>=◌, ◌>>◌}
use binary_reader.File.{FileReader}
use binary_reader.Buffered.{BufferedFileReader, position, seek}
use binary_reader.Value.{Value, null, object}
use binary_reader.TypeInfo.{TypeInfo, Statements, integer, definition, calculate_size}
use binary_reader.Integer.{read_integer}
use binary_reader.FileObject.{
  FileObject, ParsedFieldInfo, make_file_object, reparse_object, clear_cache,
}

pub record World (S : Type 0) : Type 0 where
  pub reader : BufferedFileReader S
  pub heap : List FileObject

-- `info.value = temp` for the field `index` of the object `id`.
abbrev pub cached : FileObject → ℕ → ParsedFieldInfo → Value → FileObject
cached o index f v = record o {
  parsed_fields = set o.parsed_fields index (record f { value = some v });
}

-- A call of the reader.
abbrev pub on_reader : {S A : Type 0} → Exec (BufferedFileReader S) A → Exec (World S) A
on_reader m w e = let r = m w.reader e in done r.outcome (record w { reader = r.state }) r.errors

module _ {S : Type 0} where
  -- A new object, whose index is the value.
  abbrev pub allocate : FileObject → Exec (World S) Value
  allocate o w e = done (ok (object (length w.heap))) (record w { heap = w.heap ++ o ∷ [] }) e

  unfoldable pub store_value : ℕ → ℕ → Value → Exec (World S) (Unit {0})
  store_value id index v w e = elim (get_elem? w.heap id) [
    | none ↦ done stuck w e
    | some o ↦ elim (get_elem? o.parsed_fields index) [
      | none ↦ done stuck w e
      | some f ↦ done (ok tt) (record w { heap = set w.heap id (cached o index f v) }) e
    ]
  ]

  -- `ReparseObject` and `ClearCache` of an object of the heap.
  unfoldable pub reparse : ℕ → Exec (World S) (Unit {0})
  unfolding reparse_object
  reparse id w e = elim (get_elem? w.heap id) [
    | none ↦ done stuck w e
    | some o ↦
        let r = reparse_object o e in
        done r.outcome (record w { heap = set w.heap id r.state }) r.errors
  ]

  unfoldable pub clear_values : ℕ → Exec (World S) (Unit {0})
  unfolding clear_cache
  clear_values id w e = elim (get_elem? w.heap id) [
    | none ↦ done stuck w e
    | some o ↦ done (ok tt) (record w { heap = set w.heap id (clear_cache o) }) e
  ]

module _ {S : Type 0} (file : FileReader S) where
  -- `TypeDefinition::ReadValue`, from the reparsed object on.
  unfoldable pub place_object : Statements → Size → FileObject → Exec (World S) Value
  unfolding calculate_size add seek
  place_object ss start o = allocate o >>= λ v.
      elim (calculate_size zero_size ss) as (λ _. Exec (World S) Value) [
        | none ↦ λ w e. done stuck w e
        | some s ↦ on_reader (seek file (add start s)) >> return v
      ]

  -- `TypeDefinition::ReadValue`
  unfoldable pub read_definition : Statements → Exec (World S) Value
  unfolding place_object make_file_object reparse_object position
  read_definition ss w e =
      let start = position w.reader in
      let r = reparse_object (make_file_object (some ss) start []) e in
      continue r.outcome w r.errors (λ _. place_object ss start r.state)

  -- `ReadValue`, by the class of the type.
  unfoldable pub read_value : TypeInfo → Exec (World S) Value
  unfolding read_definition read_integer
  read_value (integer i) = on_reader (read_integer file i)
  read_value (definition d n ss) = read_definition ss

  -- `EnsureField` for a field that is not cached. An object made of test fields has neither a file
  -- nor types: both are null pointers there.
  unfoldable pub load_field : ℕ → ℕ → ParsedFieldInfo → Exec (World S) (Unit {0})
  unfolding read_value store_value seek
  load_field id index f w e = elim f.type [
    | none ↦ done stuck w e
    | some t ↦
        (on_reader (seek file f.offset) >> (read_value t >>= λ v. store_value id index v)) w e
  ]

  -- `EnsureField`
  unfoldable pub ensure_field : ℕ → ℕ → Exec (World S) (Unit {0})
  unfolding load_field
  ensure_field id index w e = elim (get_elem? w.heap id) [
    | none ↦ done stuck w e
    | some o ↦ elim (get_elem? o.parsed_fields index) [
      | none ↦ done stuck w e
      | some f ↦ elim f.value [ some v ↦ done (ok tt) w e | none ↦ load_field id index f w e ]
    ]
  ]

  -- `*impl_->parsed_fields[index].value`
  unfoldable pub field_value : ℕ → ℕ → Exec (World S) Value
  field_value id index w e = elim (get_elem? w.heap id) [
    | none ↦ done stuck w e
    | some o ↦ elim (get_elem? o.parsed_fields index) [
      | none ↦ done stuck w e
      | some f ↦ elim f.value [ none ↦ done stuck w e | some v ↦ done (ok v) w e ]
    ]
  ]

  -- `GetFieldValue(name, value, errors)`
  unfoldable pub get_field_value : ℕ → List ℕ → Exec (World S) Value
  unfolding ensure_field field_value lookup
  get_field_value id name w e = elim (get_elem? w.heap id) [
    | none ↦ done stuck w e
    | some o ↦ elim (lookup name o.field_name_map) [
      | none ↦ done (ok null) w e
      | some index ↦ (ensure_field id index >> field_value id index) w e
    ]
  ]

  -- `GetFieldValue(name)`: null where it fails, and the errors are dropped.
  unfoldable pub get_field_or_null : ℕ → List ℕ → World S → Done (World S) Value
  unfolding get_field_value
  get_field_or_null id name w =
      let r = get_field_value id name w no_errors in
      elim r.outcome [
        | ok v ↦ done (ok v) r.state no_errors
        | failed ↦ done (ok null) r.state no_errors
        | stuck ↦ done stuck r.state no_errors
      ]
