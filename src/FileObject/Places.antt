-- ===== src/FileObject/Places.antt =====
-- `GetFieldValue` told by the type of the object alone: where a field lies, and what the file holds
-- there.
use binary_reader.Common.{
  ℕ, zero, suc, List, [], ◌∷◌, get_elem?, lookup, All, Option, none, some, Option-cases, ◌≡◌, refl,
  sym, ap, subst, ◌∙◌, true, Bool-cases, ◌⊎◌, inl, inr, str_eq, str_eq_refl, str_eq_iff,
  if◌then◌else◌, some-eq, arith,
}
use binary_reader.Size.{Size, add_assign}
use binary_reader.Error.Collection.{ErrorCollection}
use binary_reader.Exec.{Ensures, Ensures-map}
use binary_reader.File.{FileReader, IsFile}
use binary_reader.Integer.Bytes.{IsByte}
use binary_reader.Value.{Value, null}
use binary_reader.TypeInfo.{
  TypeInfo, Statements, end, field, untyped_field, type_definition, static_size,
}
use binary_reader.FileObject.{FileObject, ParsedFieldInfo}
use binary_reader.FileObject.Layout.{LaidOut}
use binary_reader.FileObject.Heap.{World, get_field_value}
use binary_reader.FileObject.Invariant.{IsAt, Extends}
use binary_reader.FileObject.Values.{WorldOk}
use binary_reader.FileObject.Fetch.{Answers, Fetched, get_field_value-Fetched}
use binary_reader.Parser.Names.{Distinct, is_among, field_names}

-- The type and the place of the field of that name, in an object that starts at `offset`: behind the
-- sizes of the fields before it.
unfoldable pub place : List ℕ → Statements → Size → Option (TypeInfo × Size)
unfolding static_size add_assign
place name end offset = none
place name (field d n t v ss) offset =
    if str_eq n name
    then some (t, offset)
    else elim (static_size t) [ none ↦ none | some s ↦ place name ss (add_assign offset s) ]
place name (untyped_field d n v ss) offset = none
place name (type_definition d n inner ss) offset = place name ss offset

-- The list has the field.
abbrev pub At : List ParsedFieldInfo → ℕ → ParsedFieldInfo → Type 0
At fs i f = get_elem? fs i ≡ some f

pub is_among-field :
    (ss : Statements) (offset : Size) (fs : List ParsedFieldInfo) (i : ℕ) (f : ParsedFieldInfo)
    → LaidOut ss offset fs
    → At fs i f
    → is_among f.name (field_names ss) ≡ true
is_among-field end offset [] i f laid at = absurd cc
is_among-field end offset (g ∷ gs) i f laid at = absurd laid
is_among-field (field d n t v ss) offset [] i f laid at = absurd laid
is_among-field (field d n t v ss) offset (g ∷ gs) zero f (name, type, here, rest) at =
    let same : n ≡ f.name = sym name ∙ ap (λ (x : ParsedFieldInfo). x.name) (some-eq at) in
    rw same (rw (str_eq_refl f.name) refl)
is_among-field (field d n t v ss) offset (g ∷ gs) (suc i) f (name, type, here, (s, known, rest))
      at =
    rw (is_among-field ss (add_assign offset s) gs i f rest at) (ground (arith))
is_among-field (untyped_field d n v ss) offset fs i f laid at = absurd laid
is_among-field (type_definition d n inner ss) offset fs i f laid at = absurd laid

-- A field whose name no other field has lies where the type says.
place-field :
    (ss : Statements) (offset : Size) (fs : List ParsedFieldInfo) (i : ℕ) (f : ParsedFieldInfo)
    (t : TypeInfo)
    → LaidOut ss offset fs
    → Distinct (field_names ss)
    → At fs i f
    → f.type ≡ some t
    → place f.name ss offset ≡ some (t, f.offset)
unfolding place
place-field end offset [] i f t laid apart at typed = absurd cc
place-field end offset (g ∷ gs) i f t laid apart at typed = absurd laid
place-field (field d n u v ss) offset [] i f t laid apart at typed = absurd laid
place-field (field d n u v ss) offset (g ∷ gs) zero f t (name, type, here, rest) apart at typed =
    let same : g ≡ f = some-eq at in
    let named : str_eq n f.name ≡ true =
      (str_eq_iff n f.name).1 (sym name ∙ ap (λ (x : ParsedFieldInfo). x.name) same) in
    let its_type : u ≡ t = some-eq (sym type ∙ ap (λ (x : ParsedFieldInfo). x.type) same ∙ typed) in
    let its_place : offset ≡ f.offset = sym here ∙ ap (λ (x : ParsedFieldInfo). x.offset) same in
    rw named (rw (its_type, its_place) refl)
place-field (field d n u v ss) offset (g ∷ gs) (suc i) f t (name, type, here, (s, known, rest))
      (own, apart) at typed =
    let among = is_among-field ss (add_assign offset s) gs i f rest at in
    elim (Bool-cases (str_eq n f.name)) [
      | inl same ↦
          let clash : is_among n (field_names ss) ≡ true =
            subst (λ m. is_among m (field_names ss) ≡ true) (sym ((str_eq_iff n f.name).0 same))
              among in
          absurd cc
      | inr other ↦
          rw other (rw known (place-field ss (add_assign offset s) gs i f t rest apart at typed))
    ]
place-field (untyped_field d n v ss) offset fs i f t laid apart at typed = absurd laid
place-field (type_definition d n inner ss) offset fs i f t laid apart at typed = absurd laid

-- A name that has a place is that of a field.
place-cases :
    (name : List ℕ) (ss : Statements) (offset : Size) (fs : List ParsedFieldInfo)
    → LaidOut ss offset fs
    → (place name ss offset ≡ none)
      ⊎ ((i : ℕ) × (f : ParsedFieldInfo) × At fs i f × (f.name ≡ name))
unfolding place
place-cases name end offset fs laid = inl refl
place-cases name (field d n t v ss) offset [] laid = absurd laid
place-cases name (field d n t v ss) offset (g ∷ gs) (is_name, type, here, (s, known, rest)) =
    elim (Bool-cases (str_eq n name)) [
      | inl same ↦ inr (zero, g, refl, is_name ∙ (str_eq_iff n name).0 same)
      | inr other ↦ elim (place-cases name ss (add_assign offset s) gs rest) [
        | inl nowhere ↦ inl (rw other (rw known nowhere))
        | inr (i, f, at, named) ↦ inr (suc i, f, at, named)
      ]
    ]
place-cases name (untyped_field d n v ss) offset fs laid = absurd laid
place-cases name (type_definition d n inner ss) offset fs laid = absurd laid

module _ {S : Type 0} (file : FileReader S) (Valid : S → Type 0) (content : S → List ℕ)
    (lawful : IsFile file Valid content) (bytes : List ℕ) where
  -- What the value of a name is, by the place of the name.
  abbrev pub Says : Option (TypeInfo × Size) → List FileObject → Value → Type 0
  Says none heap v = v ≡ null
  Says (some (t, p)) heap v = IsAt bytes heap t p v

  module _ (all : All IsByte bytes) (id : ℕ) (name : List ℕ) (o : FileObject) (w : World S)
      (e : ErrorCollection) (good : WorldOk file Valid content lawful bytes w)
      (there : get_elem? w.heap id ≡ some o) (ss : Statements) (type : o.type ≡ some ss)
      (apart : Distinct (field_names ss)) where
    laid : LaidOut ss o.start_position o.parsed_fields
    laid = (good.heap_ok id o there).layout ss type

    missing-place : lookup name o.field_name_map ≡ none → place name ss o.start_position ≡ none
    missing-place absent = elim (place-cases name ss o.start_position o.parsed_fields laid) [
      | inl nowhere ↦ nowhere
      | inr (i, f, at, named) ↦
          let (j, found) = (good.heap_ok id o there).parts.all_named i f at in
          let clash : none ≡ some j =
            sym absent ∙ subst (λ m. lookup m o.field_name_map ≡ some j) named found in
          absurd cc
    ]

    Fetched-Says :
        (v : Value) (w' : World S)
        → Fetched file Valid content lawful bytes name o w v w'
        → Says (place name ss o.start_position) w'.heap v
    Fetched-Says v w' got = elim (Option-cases (lookup name o.field_name_map)) [
      | inl absent ↦
          subst (λ p. Says p w'.heap v) (sym (missing-place absent))
            (subst (λ k. Answers file Valid content lawful bytes k name o w'.heap v) absent
              got.answer)
      | inr (i, known) ↦
          let (f, t, at, named, typed, is_at) =
            subst (λ k. Answers file Valid content lawful bytes k name o w'.heap v) known
              got.answer in
          let placed = place-field ss o.start_position o.parsed_fields i f t laid apart at typed in
          subst (λ p. Says p w'.heap v) (sym placed ∙ ap (λ m. place m ss o.start_position) named)
            is_at
    ]

    -- In a good world, `GetFieldValue` of an object whose type has no field name twice ends. Where it
    -- succeeds the world is good, every object is still there with its type and its start, and the
    -- value is null if the type has no field of the name, else what the bytes of the file hold for the
    -- field's type behind the sizes of the fields before it.
    pub get_field_value-place :
        let r = get_field_value file id name w e in
        Ensures r.outcome (λ v.
          WorldOk file Valid content lawful bytes r.state
          × Extends w.heap r.state.heap
          × Says (place name ss o.start_position) r.state.heap v)
    get_field_value-place =
        let r = get_field_value file id name w e in
        Ensures-map {P = λ v. Fetched file Valid content lawful bytes name o w v r.state}
          {Q = λ v.
            WorldOk file Valid content lawful bytes r.state
            × Extends w.heap r.state.heap
            × Says (place name ss o.start_position) r.state.heap v}
          r.outcome (λ v got. (got.world_ok, got.extends, Fetched-Says v r.state got))
          (get_field_value-Fetched file Valid content lawful bytes all id name o w e good there)
