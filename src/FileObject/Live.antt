-- ===== src/FileObject/Live.antt =====
-- `GetFieldValue` over a file whose reads and seeks never fail and that has the bytes of the field.
use binary_reader.Common.{
  ℕ, ◌+◌, ◌*◌, ◌/◌, ◌%◌, ◌≤◌, List, [], ◌∷◌, ◌++◌, length, get_elem?, drop, All, some, Option-cases,
  ◌≡◌, refl, sym, ap, subst, ◌∙◌, inl, inr, arith, lookup, some-eq, length-drop,
}
use binary_reader.Size.{Size, zero_size, add}
use binary_reader.Error.Collection.{ErrorCollection}
use binary_reader.Exec.{ok, failed, done, return, ◌>>=◌, Ensures}
use binary_reader.File.{FileReader, IsFile}
use binary_reader.Buffered.{position, seek}
use binary_reader.Buffered.Live.{Lasts, Lasts-bind, NeverFails, seek-Lasts}
use binary_reader.Value.{Value, object}
use binary_reader.TypeInfo.{TypeInfo, Statements, IntegerTypeInfo}
use binary_reader.TypeInfo.Typed.{IsTyped, AreTyped, whole, fields, IsWhole, calculate_size-Known}
use binary_reader.Integer.{read_integer}
use binary_reader.Integer.Bytes.{IsByte}
use binary_reader.Integer.Live.{read_integer-succeeds}
use binary_reader.FileObject.{FileObject, ParsedFieldInfo, make_file_object, reparse_object}
use binary_reader.FileObject.Heap.{
  World, on_reader, place_object, read_definition, read_value, store_value, load_field,
  ensure_field, field_value, get_field_value,
}
use binary_reader.FileObject.Fresh.{new_object-ObjectOk}
use binary_reader.FileObject.Invariant.{FieldOk}
use binary_reader.FileObject.Values.{WorldOk, Moved, seek-Moved, position-InRange}
use binary_reader.FileObject.Located.{Holds}

store_value-Lasts :
    {S : Type 0} (id index : ℕ) (v : Value) (w : World S) (e : ErrorCollection)
    → Lasts (store_value id index v w e).outcome
unfolding store_value
store_value-Lasts id index v w e = elim (Option-cases (get_elem? w.heap id)) [
  | inl absent ↦ rw (absent, store_value) (λ lost. absurd cc)
  | inr (o, there) ↦ elim (Option-cases (get_elem? o.parsed_fields index)) [
    | inl absent ↦ rw (there, store_value) (rw absent (λ lost. absurd cc))
    | inr (f, at) ↦ rw (there, store_value) (rw at (λ lost. absurd cc))
  ]
]

field_value-Lasts :
    {S : Type 0} (file : FileReader S) (id index : ℕ) (w : World S) (e : ErrorCollection)
    → Lasts (field_value file id index w e).outcome
unfolding field_value
field_value-Lasts file id index w e = elim (Option-cases (get_elem? w.heap id)) [
  | inl absent ↦ rw (absent, field_value) (λ lost. absurd cc)
  | inr (o, there) ↦ elim (Option-cases (get_elem? o.parsed_fields index)) [
    | inl absent ↦ rw (there, field_value) (rw absent (λ lost. absurd cc))
    | inr (f, at) ↦ elim (Option-cases f.value) [
      | inl empty ↦ rw (there, field_value) (rw at (rw empty (λ lost. absurd cc)))
      | inr (v, full) ↦ rw (there, field_value) (rw at (rw full (λ lost. absurd cc)))
    ]
  ]
]

module _ {S : Type 0} (file : FileReader S) (Valid : S → Type 0) (content : S → List ℕ)
    (lawful : IsFile file Valid content) (never : NeverFails file) (bytes : List ℕ)
    (all : All IsByte bytes) where
  seek_world-Lasts :
      (p : Size) (w : World S) (e : ErrorCollection) → Lasts (on_reader (seek file p) w e).outcome
  seek_world-Lasts p w e = seek-Lasts file Valid content lawful never p w.reader e

  place_object-Lasts :
      (ss : Statements) (p : Size) (o : FileObject) (w : World S) (e : ErrorCollection)
      → AreTyped ss
      → Lasts (place_object file ss p o w e).outcome
  unfolding place_object
  place_object-Lasts ss p o w e typed =
      let (s, known, even, small) = calculate_size-Known typed zero_size refl (omega arith) in
      let grown : World S = record w { heap = w.heap ++ o ∷ [] } in
      rw (known, place_object)
        (Lasts-bind (on_reader (seek file (add p s)) grown e) (λ _. return (object (length w.heap)))
          (seek_world-Lasts (add p s) grown e) (λ _ is lost. absurd cc))

  module _ (w : World S) (e : ErrorCollection) (v : WorldOk file Valid content lawful bytes w)
      (aligned : (position w.reader).pos % 8 ≡ 0) where
    abbrev here : Size
    here = position w.reader

    definition-Lasts : (ss : Statements) → AreTyped ss → Lasts (read_definition file ss w e).outcome
    unfolding read_definition
    definition-Lasts ss typed =
        let q = reparse_object (make_file_object (some ss) here []) e in
        let fact =
          new_object-ObjectOk bytes w.heap typed here e aligned
            (position-InRange file Valid content lawful bytes w.reader) in
        Lasts-bind (done q.outcome w q.errors) (λ _. place_object file ss here q.state)
          (λ lost. let clash : ok tt ≡ failed = sym fact.0 ∙ lost in absurd cc)
          (λ _ is. place_object-Lasts ss here q.state w q.errors typed)

    integer-Lasts :
        (i : IntegerTypeInfo)
        → IsWhole i
        → here.pos + i.size.pos ≤ 8 * length bytes
        → Lasts (on_reader (read_integer file i) w e).outcome
    integer-Lasts i k room lost =
        let (x, is, _) =
          read_integer-succeeds file Valid content lawful never i k.bytes w.reader e k.some_byte
            k.few k.width v.reader_ok aligned
            (omega (
              arith,
              room,
              k.width,
              aligned,
              ap (λ (l : List ℕ). length (drop (here.pos / 8) l)) v.content_is,
              length-drop (here.pos / 8) bytes,
            ))
            (subst (All IsByte) (sym v.content_is) all) in
        let clash : ok x ≡ failed = sym is ∙ lost in absurd cc

    read_value-Lasts :
        {t : TypeInfo}
        → IsTyped t
        → Holds (length bytes) t here
        → Lasts (read_value file t w e).outcome
    unfolding read_value
    read_value-Lasts (whole {i} k) room = integer-Lasts i k room
    read_value-Lasts (fields {d} {n} {ss} typed) room = definition-Lasts ss typed

  module _ (id index : ℕ) (w : World S) (e : ErrorCollection)
      (good : WorldOk file Valid content lawful bytes w) (o : FileObject)
      (there : get_elem? w.heap id ≡ some o) (f : ParsedFieldInfo)
      (at : get_elem? o.parsed_fields index ≡ some f) (t : TypeInfo) (typed : f.type ≡ some t)
      (room : Holds (length bytes) t f.offset) where
    before : FieldOk bytes w.heap f
    before = (good.heap_ok id o there).parts.fields index f at

    read_then_store :
        (w' : World S) (e : ErrorCollection)
        → Moved file Valid content lawful bytes w f.offset w'
        → Lasts ((read_value file t >>= λ v. store_value id index v) w' e).outcome
    read_then_store w' e moved =
        let r = read_value file t w' e in
        Lasts-bind r (λ v. store_value id index v)
          (read_value-Lasts w' e moved.0 (ap (λ (p : Size). p.pos % 8) moved.1 ∙ before.aligned)
            (subst IsTyped (some-eq (sym before.has_type ∙ typed)) before.typed)
            (subst (Holds (length bytes) t) (sym moved.1) room))
          (λ v is. store_value-Lasts id index v r.state r.errors)

    load_field-Lasts : Lasts (load_field file id index f w e).outcome
    unfolding load_field
    load_field-Lasts =
        let r = on_reader (seek file f.offset) w e in
        rw (typed, load_field)
          (Lasts-bind r (λ _. read_value file t >>= λ v. store_value id index v)
            (seek_world-Lasts f.offset w e)
            (λ u is. read_then_store r.state r.errors (
              subst (λ q. Ensures q (λ _. Moved file Valid content lawful bytes w f.offset r.state))
                is (seek-Moved file Valid content lawful bytes f.offset w e good before.in_range))))

    ensure_field-Lasts : Lasts (ensure_field file id index w e).outcome
    unfolding ensure_field
    ensure_field-Lasts = elim (Option-cases f.value) [
      | inl empty ↦ rw (there, ensure_field) (rw at (rw empty load_field-Lasts))
      | inr (v, full) ↦ rw (there, ensure_field) (rw at (rw full (λ lost. absurd cc)))
    ]

    -- A field that the file has the bytes of.
    pub get_field_value-Lasts :
        (name : List ℕ)
        → lookup name o.field_name_map ≡ some index
        → Lasts (get_field_value file id name w e).outcome
    unfolding get_field_value
    get_field_value-Lasts name known =
        rw (there, get_field_value)
          (rw known (
            Lasts-bind (ensure_field file id index w e) (λ _. field_value file id index)
              ensure_field-Lasts (λ u is. field_value-Lasts file id index _ _)))
