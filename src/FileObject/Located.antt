-- ===== src/FileObject/Located.antt =====
-- Where the fields of a type lie, told by the type alone, and whether the file holds them.
use binary_reader.Common.{
  ℕ, zero, suc, ◌+◌, ◌*◌, ◌≤◌, List, [], ◌∷◌, get_elem?, some, ◌≡◌, refl, sym, ap, subst, ◌∙◌, ◌⊎◌,
  inl, inr, Bool, true, false, Bool-cases, some-eq, str_eq, str_eq_iff, lookup,
}
use binary_reader.Size.{Size, add_assign}
use binary_reader.TypeInfo.{
  TypeInfo, Statements, integer, definition, end, field, untyped_field, type_definition,
  static_size,
}
use binary_reader.FileObject.{FileObject, ParsedFieldInfo, get_field_names}
use binary_reader.FileObject.Layout.{LaidOut}
use binary_reader.FileObject.Names.{keys, is_among-lookup, lookup-is_among}
use binary_reader.FileObject.Invariant.{ObjectOk}
use binary_reader.FileObject.Places.{is_among-field}
use binary_reader.Parser.Names.{Distinct, is_among, field_names}

-- An object that starts at `offset` has a field of that name and type there: behind the sizes of the
-- fields before it.
abbrev pub Located : Statements → Size → List ℕ → TypeInfo → Size → Type 0
Located end offset name t p = ⊥
Located (field d n u v ss) offset name t p =
    ((n ≡ name) × (u ≡ t) × (offset ≡ p))
    ⊎ ((s : Size) × (static_size u ≡ some s) × Located ss (add_assign offset s) name t p)
Located (untyped_field d n v ss) offset name t p = ⊥
Located (type_definition d n inner ss) offset name t p = Located ss offset name t p

-- All integers of the type, down to those of its fields, end within that many bytes.
abbrev mutual
  pub Holds : ℕ → TypeInfo → Size → Type 0
  Holds count (integer i) p = p.pos + i.size.pos ≤ 8 * count
  Holds count (definition d n ss) p = HoldsAll count ss p

  pub HoldsAll : ℕ → Statements → Size → Type 0
  HoldsAll count end p = Unit {0}
  HoldsAll count (field d n t v ss) p =
      Holds count t p × ((s : Size) → static_size t ≡ some s → HoldsAll count ss (add_assign p s))
  HoldsAll count (untyped_field d n v ss) p = Unit {0}
  HoldsAll count (type_definition d n inner ss) p = HoldsAll count ss p

pub Located-Holds :
    (count : ℕ) (ss : Statements) (offset : Size) (name : List ℕ) (t : TypeInfo) (p : Size)
    → HoldsAll count ss offset
    → Located ss offset name t p
    → Holds count t p
Located-Holds count end offset name t p h l = absurd l
Located-Holds count (field d n u v ss) offset name t p (first, rest) (inl (same, type, here)) =
    subst (Holds count t) here (subst (λ x. Holds count x offset) type first)
Located-Holds count (field d n u v ss) offset name t p (first, rest) (inr (s, known, l)) =
    Located-Holds count ss (add_assign offset s) name t p (rest s known) l
Located-Holds count (untyped_field d n v ss) offset name t p h l = absurd l
Located-Holds count (type_definition d n inner ss) offset name t p h l =
    Located-Holds count ss offset name t p h l

-- A field that is laid out lies where the type says.
pub LaidOut-Located :
    (ss : Statements) (offset : Size) (fs : List ParsedFieldInfo) (i : ℕ) (f : ParsedFieldInfo)
    (t : TypeInfo)
    → LaidOut ss offset fs
    → get_elem? fs i ≡ some f
    → f.type ≡ some t
    → Located ss offset f.name t f.offset
LaidOut-Located end offset [] i f t laid at typed = absurd cc
LaidOut-Located end offset (g ∷ gs) i f t laid at typed = absurd laid
LaidOut-Located (field d n u v ss) offset [] i f t laid at typed = absurd laid
LaidOut-Located (field d n u v ss) offset (g ∷ gs) zero f t (name, type, here, rest) at typed =
    let same : g ≡ f = some-eq at in
    inl (
      sym name ∙ ap (λ (x : ParsedFieldInfo). x.name) same,
      some-eq (sym type ∙ ap (λ (x : ParsedFieldInfo). x.type) same ∙ typed),
      sym here ∙ ap (λ (x : ParsedFieldInfo). x.offset) same,
    )
LaidOut-Located (field d n u v ss) offset (g ∷ gs) (suc i) f t (name, type, here, (s, known, rest))
      at typed =
    inr (s, known, LaidOut-Located ss (add_assign offset s) gs i f t rest at typed)
LaidOut-Located (untyped_field d n v ss) offset fs i f t laid at typed = absurd laid
LaidOut-Located (type_definition d n inner ss) offset fs i f t laid at typed = absurd laid

-- A name of the type is that of a field that is laid out, and the other way round.
field_of_name :
    (ss : Statements) (offset : Size) (fs : List ParsedFieldInfo) (name : List ℕ)
    → LaidOut ss offset fs
    → is_among name (field_names ss) ≡ true
    → (i : ℕ) × (f : ParsedFieldInfo) × (get_elem? fs i ≡ some f) × (f.name ≡ name)
field_of_name end offset fs name laid among = absurd cc
field_of_name (field d n t v ss) offset [] name laid among = absurd laid
field_of_name (field d n t v ss) offset (g ∷ gs) name (is_name, type, here, (s, known, rest))
      among =
    elim (Bool-cases (str_eq n name)) [
      | inl same ↦ (zero, g, refl, is_name ∙ (str_eq_iff n name).0 same)
      | inr other ↦
          let (i, f, at, named) =
            field_of_name ss (add_assign offset s) gs name rest (rw other at among) in
          (suc i, f, at, named)
    ]
field_of_name (untyped_field d n v ss) offset fs name laid among = absurd laid
field_of_name (type_definition d n inner ss) offset fs name laid among = absurd laid

-- The names are those of the type's fields, each once, in any order.
abbrev pub Covers : List (List ℕ) → Statements → Type 0
Covers names ss =
    Distinct names × ((name : List ℕ) → is_among name names ≡ is_among name (field_names ss))

both_ways : (a b : Bool) → (a ≡ true → b ≡ true) → (b ≡ true → a ≡ true) → a ≡ b
both_ways true b h k = sym (h refl)
both_ways false true h k = k refl
both_ways false false h k = refl

module _ (bytes : List ℕ) (heap : List FileObject) (o : FileObject) (ss : Statements)
    (fine : ObjectOk bytes heap o) (type : o.type ≡ some ss) where
  abbrev laid : LaidOut ss o.start_position o.parsed_fields
  laid = fine.layout ss type

  -- A name of the type is in the object's map.
  pub found_name :
      (name : List ℕ)
      → is_among name (field_names ss) ≡ true
      → (i : ℕ) × (lookup name o.field_name_map ≡ some i)
  found_name name among =
      let (i, f, at, named) = field_of_name ss o.start_position o.parsed_fields name laid among in
      subst (λ m. (j : ℕ) × (lookup m o.field_name_map ≡ some j)) named
        (fine.parts.all_named i f at)

  -- `GetFieldNames` of an object with a type, which keeps the invariant of objects, gives the names of
  -- the fields of the type, each once, and no other name.
  pub get_field_names-Covers : Covers (get_field_names o) ss
  unfolding get_field_names
  get_field_names-Covers = (
    fine.parts.apart,
    λ name.
        both_ways (is_among name (keys o.field_name_map)) (is_among name (field_names ss))
          (λ among.
            let (i, there) = lookup-is_among name o.field_name_map among in
            let (f, at, named) = fine.parts.named name i there in
            subst (λ m. is_among m (field_names ss) ≡ true) named
              (is_among-field ss o.start_position o.parsed_fields i f laid at))
          (λ among.
            let (i, there) = found_name name among in
            is_among-lookup name i o.field_name_map there),
  )
