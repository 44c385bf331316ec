-- ===== src/FileObject/Fresh.antt =====
-- A new object keeps the invariant: `ReparseObject` of a type without null pointers.
use binary_reader.Common.{
  ℕ, ◌%◌, List, [], ◌∷◌, ◌++◌, length, get_elem?, none, some, ◌≡◌, refl, sym, ap, subst, ◌∙◌, arith,
  Bool-cases, inl, inr, some-eq, lookup, insert, lookup-insert, str_eq, str_eq_iff, str_eq_refl,
  if◌then◌else◌, get_elem?-append, get_elem?-append_new, get_elem?-append_cases,
}
use binary_reader.Size.{Size, InRange, add_assign}
use binary_reader.Error.Collection.{ErrorCollection}
use binary_reader.Exec.{ok}
use binary_reader.TypeInfo.{TypeInfo, Statements}
use binary_reader.TypeInfo.Typed.{
  IsTyped, AreTyped, none_left, one_more, static_size-Known, calculate_size-Known,
}
use binary_reader.FileObject.{
  FileObject, ParsedFieldInfo, push_field, reparse_loop, reparse_object, make_file_object,
  test_fields_loop,
}
use binary_reader.FileObject.Layout.{
  OnlyFields, reparse_field, LaidOut, Laid-LaidOut, reparse_object-Laid,
}
use binary_reader.FileObject.Names.{insert-Distinct}
use binary_reader.FileObject.Invariant.{FieldsOk, FieldOk, ObjectOk}

AreTyped-OnlyFields : {ss : Statements} → AreTyped ss → OnlyFields ss
AreTyped-OnlyFields none_left = tt
AreTyped-OnlyFields (one_more t rest) = AreTyped-OnlyFields rest

module _ (bytes : List ℕ) (heap : List FileObject) where
  -- One more field, at the end.
  push_field-FieldsOk :
      (n : List ℕ) (t : TypeInfo) (offset : Size) (o : FileObject)
      → IsTyped t
      → offset.pos % 8 ≡ 0
      → InRange offset
      → FieldsOk bytes heap o
      → FieldsOk bytes heap (push_field n t offset o)
  unfolding push_field
  push_field-FieldsOk n t offset o typed aligned range before = record {
    fields = λ i f at. elim (get_elem?-append_cases o.parsed_fields info i f at) [
      | inl old ↦ before.fields i f old
      | inr (last, is) ↦ subst (FieldOk bytes heap) (sym is) (record {
        type = t;
        has_type = refl;
        typed = typed;
        aligned = aligned;
        in_range = range;
        cached = λ v is. cc;
      })
    ];
    named = λ name i at. elim (Bool-cases (str_eq n name)) [
      | inl same ↦
          let last : i ≡ length o.parsed_fields = injected (rw same at (found name i at)) in
          (
            info,
            subst (λ k. get_elem? (o.parsed_fields ++ info ∷ []) k ≡ some info) (sym last)
                (get_elem?-append_new o.parsed_fields info),
            (str_eq_iff n name).0 same,
          )
      | inr other ↦
          let (f, there, is) = before.named name i (rw other at (found name i at)) in
          (f, get_elem?-append o.parsed_fields (info ∷ []) i f there, is)
    ];
    all_named = λ i f at. elim (get_elem?-append_cases o.parsed_fields info i f at) [
      | inl old ↦ still_named f.name (before.all_named i f old)
      | inr (last, is) ↦ (
        length o.parsed_fields,
        subst
            (λ m.
              lookup m (insert n (length o.parsed_fields) o.field_name_map)
              ≡ some (length o.parsed_fields))
            (ap (λ (g : ParsedFieldInfo). g.name) (sym is))
            (lookup-insert n n (length o.parsed_fields) o.field_name_map ∙ rw (str_eq_refl n) refl),
      )
    ];
    apart = insert-Distinct n (length o.parsed_fields) o.field_name_map before.apart;
  }
    where
      info : ParsedFieldInfo
      info = record { name = n; type = some t; offset = offset; value = none }

      found :
          (name : List ℕ) (i : ℕ)
          → lookup name (insert n (length o.parsed_fields) o.field_name_map) ≡ some i
          → (if str_eq n name then some (length o.parsed_fields) else lookup name o.field_name_map)
            ≡ some i
      found name i at = sym (lookup-insert n name (length o.parsed_fields) o.field_name_map) ∙ at

      still_named :
          (name : List ℕ)
          → (j : ℕ) × (lookup name o.field_name_map ≡ some j)
          → (j : ℕ) × (lookup name (insert n (length o.parsed_fields) o.field_name_map) ≡ some j)
      still_named name (j, was) = elim (Bool-cases (str_eq n name)) [
        | inl same ↦ (
          length o.parsed_fields,
          lookup-insert n name (length o.parsed_fields) o.field_name_map ∙ rw same refl,
        )
        | inr other ↦
            (j, lookup-insert n name (length o.parsed_fields) o.field_name_map ∙ rw other was)
      ]

      injected : {i : ℕ} → some (length o.parsed_fields) ≡ some i → i ≡ length o.parsed_fields
      injected h = cc

  -- `ReparseObject` of a type without null pointers.
  pub reparse_loop-FieldsOk :
      {ss : Statements}
      → AreTyped ss
      → (offset : Size) (o : FileObject) (e : ErrorCollection) → offset.pos % 8 ≡ 0
      → InRange offset
      → FieldsOk bytes heap o
      → let r = reparse_loop ss offset o e in
        (r.outcome ≡ ok tt)
        × (r.errors ≡ e)
        × FieldsOk bytes heap r.state
        × (r.state.type ≡ o.type)
        × (r.state.start_position ≡ o.start_position)
  unfolding reparse_loop add_assign push_field
  reparse_loop-FieldsOk none_left offset o e aligned range before = (refl, refl, before, refl, refl)
  reparse_loop-FieldsOk (one_more {d} {n} {t} {v} {ss} typed rest) offset o e aligned range before =
      let (s, known, even, small) = static_size-Known typed in
      subst
        (λ q.
          (q.outcome ≡ ok tt)
          × (q.errors ≡ e)
          × FieldsOk bytes heap q.state
          × (q.state.type ≡ o.type)
          × (q.state.start_position ≡ o.start_position))
        (sym (reparse_field d n t v ss offset s o e known))
        (reparse_loop-FieldsOk rest (add_assign offset s) (push_field n t offset o) e
          (omega (arith, aligned, even)) (omega arith)
          (push_field-FieldsOk n t offset o typed aligned range before))

  -- A new object of such a type.
  pub new_object-ObjectOk :
      {ss : Statements}
      → AreTyped ss
      → (start : Size) (e : ErrorCollection) → start.pos % 8 ≡ 0
      → InRange start
      → let r = reparse_object (make_file_object (some ss) start []) e in
        (r.outcome ≡ ok tt)
        × (r.errors ≡ e)
        × ObjectOk bytes heap r.state
        × (r.state.type ≡ some ss)
        × (r.state.start_position ≡ start)
  unfolding reparse_object make_file_object test_fields_loop lookup
  new_object-ObjectOk {ss} typed start e aligned range =
      let o = make_file_object (some ss) start [] in
      let (done_ok, same, parts, type, begin) =
        reparse_loop-FieldsOk typed start o e aligned range (record {
          fields = λ i f at. cc;
          named = λ name i at. cc;
          all_named = λ i f at. cc;
          apart = tt;
        }) in
      let (stop, sum, even, small) = calculate_size-Known typed start aligned range in
      let (_, _, laid) = reparse_object-Laid o ss stop e refl (AreTyped-OnlyFields typed) sum in
      (
        done_ok,
        same,
        record {
          parts = parts;
          layout = λ ss' is.
              let fs = (reparse_object o e).state.parsed_fields in
              let laid_out : LaidOut ss start fs = Laid-LaidOut ss start stop fs laid in
              subst (λ p. LaidOut ss' p fs) (sym begin)
                (subst (λ q. LaidOut q start fs) (some-eq (sym type ∙ is)) laid_out);
        },
        type,
        begin,
      )
