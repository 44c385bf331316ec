-- ===== src/FileObject/Invariant.antt =====
-- What the objects of a file hold: the types and places of their fields, and values read from there.
use binary_reader.Common.{
  ℕ, ◌*◌, ◌/◌, ◌%◌, ◌≤◌, List, [], ◌∷◌, ◌++◌, length, get_elem?, set, drop, take, some, ◌≡◌, refl,
  sym, ap, subst, ◌∙◌, inl, inr, lookup, get_elem?-append, get_elem?-append_cases,
  get_elem?-set_self, get_elem?-set_cases, get_elem?-set_other,
}
use native.Mathlib.Decide.{ℕ_discrete}
use binary_reader.Size.{Size, InRange}
use binary_reader.Value.{Value, number, object}
use binary_reader.Integer.Bytes.{bytes_value}
use binary_reader.Integer.Sign.{two_complement}
use binary_reader.TypeInfo.{TypeInfo, Statements, integer, definition}
use binary_reader.TypeInfo.Typed.{IsTyped}
use binary_reader.FileObject.{FileObject, ParsedFieldInfo}
use binary_reader.FileObject.Layout.{LaidOut}
use binary_reader.FileObject.Names.{keys}
use binary_reader.Parser.Names.{Distinct}

module _ (bytes : List ℕ) where
  -- The bytes from a position on.
  abbrev pub from_position : Size → List ℕ
  from_position p = drop (p.pos / 8) bytes

  -- `v` is what the bytes hold for the type at the position: the number that they stand for, or an
  -- object of the heap that has the definition's statements and starts there.
  abbrev pub IsAt : List FileObject → TypeInfo → Size → Value → Type 0
  IsAt heap (integer i) p v =
      (n : ℕ) × (i.size.pos ≡ 8 * n)
      × (n ≤ length (from_position p))
      × (v
          ≡ number (two_complement i.sign (8 * n) (bytes_value i.order (take n (from_position p)))))
  IsAt heap (definition d name ss) p v =
      (id : ℕ) × (o : FileObject) × (v ≡ object id)
      × (get_elem? heap id ≡ some o)
      × (o.type ≡ some ss)
      × (o.start_position ≡ p)

  pub record FieldOk (heap : List FileObject) (f : ParsedFieldInfo) : Type 0 where
    pub type : TypeInfo
    pub has_type : f.type ≡ some type
    pub typed : IsTyped type
    pub aligned : f.offset.pos % 8 ≡ 0
    pub in_range : InRange f.offset
    pub cached : (v : Value) → f.value ≡ some v → IsAt heap type f.offset v

  -- The fields of an object, and its map of their names.
  pub record FieldsOk (heap : List FileObject) (o : FileObject) : Type 0 where
    pub fields :
        (i : ℕ) (f : ParsedFieldInfo) → get_elem? o.parsed_fields i ≡ some f → FieldOk heap f
    pub named :
        (name : List ℕ) (i : ℕ)
        → lookup name o.field_name_map ≡ some i
        → (f : ParsedFieldInfo) × (get_elem? o.parsed_fields i ≡ some f) × (f.name ≡ name)
    pub all_named :
        (i : ℕ) (f : ParsedFieldInfo)
        → get_elem? o.parsed_fields i ≡ some f
        → (j : ℕ) × (lookup f.name o.field_name_map ≡ some j)
    pub apart : Distinct (keys o.field_name_map)

  -- All fields of the object's type are there, one behind the other.
  pub record ObjectOk (heap : List FileObject) (o : FileObject) : Type 0 where
    pub parts : FieldsOk heap o
    pub layout : (ss : Statements) → o.type ≡ some ss → LaidOut ss o.start_position o.parsed_fields

  abbrev pub HeapOk : List FileObject → Type 0
  HeapOk heap = (id : ℕ) (o : FileObject) → get_elem? heap id ≡ some o → ObjectOk heap o

-- The objects that are there stay, with their types and their starts.
abbrev pub Extends : List FileObject → List FileObject → Type 0
Extends heap heap' =
    (id : ℕ) (o : FileObject)
    → get_elem? heap id ≡ some o
    → (o' : FileObject) × (get_elem? heap' id ≡ some o')
      × (o'.type ≡ o.type)
      × (o'.start_position ≡ o.start_position)

pub Extends-trans : (a b c : List FileObject) → Extends a b → Extends b c → Extends a c
Extends-trans a b c f g id o h =
    let (o', there, type, start) = f id o h in
    let (o'', there', type', start') = g id o' there in (o'', there', type' ∙ type, start' ∙ start)

pub append-Extends : (heap more : List FileObject) → Extends heap (heap ++ more)
append-Extends heap more id o h = (o, get_elem?-append heap more id o h, refl, refl)

pub set-Extends :
    (heap : List FileObject) (id : ℕ) (o o' : FileObject)
    → get_elem? heap id ≡ some o
    → o'.type ≡ o.type
    → o'.start_position ≡ o.start_position
    → Extends heap (set heap id o')
set-Extends heap id o o' at type start j p h = elim (ℕ_discrete id j) [
  | no apart ↦ (p, get_elem?-set_other heap id j o' apart ∙ h, refl, refl)
  | yes same ↦
      let which : o ≡ p = cc in
      (
        o',
        subst (λ (k : ℕ). get_elem? (set heap id o') k ≡ some o') same
            (get_elem?-set_self heap id o o' at),
        type ∙ ap (λ (q : FileObject). q.type) which,
        start ∙ ap (λ (q : FileObject). q.start_position) which,
      )
]

module _ (bytes : List ℕ) (heap heap' : List FileObject) (more : Extends heap heap') where
  pub IsAt-Extends :
      (t : TypeInfo) (p : Size) (v : Value) → IsAt bytes heap t p v → IsAt bytes heap' t p v
  IsAt-Extends (integer i) p v h = h
  IsAt-Extends (definition d name ss) p v (id, o, is, at, type, start) =
      let (o', at', type', start') = more id o at in (id, o', is, at', type' ∙ type, start' ∙ start)

  pub FieldOk-Extends : (f : ParsedFieldInfo) → FieldOk bytes heap f → FieldOk bytes heap' f
  FieldOk-Extends f h = record {
    type = h.type;
    has_type = h.has_type;
    typed = h.typed;
    aligned = h.aligned;
    in_range = h.in_range;
    cached = λ v is. IsAt-Extends h.type f.offset v (h.cached v is);
  }

  pub ObjectOk-Extends : (o : FileObject) → ObjectOk bytes heap o → ObjectOk bytes heap' o
  ObjectOk-Extends o h = record {
    parts = record {
      fields = λ i f at. FieldOk-Extends f (h.parts.fields i f at);
      named = h.parts.named;
      all_named = h.parts.all_named;
      apart = h.parts.apart;
    };
    layout = h.layout;
  }

module _ (bytes : List ℕ) (heap : List FileObject) where
  pub append-HeapOk :
      (o : FileObject) → HeapOk bytes heap → ObjectOk bytes heap o → HeapOk bytes (heap ++ o ∷ [])
  append-HeapOk o all new id p at = elim (get_elem?-append_cases heap o id p at) [
    | inl old ↦
        ObjectOk-Extends bytes heap (heap ++ o ∷ []) (append-Extends heap (o ∷ [])) p (all id p old)
    | inr (last, is) ↦
        ObjectOk-Extends bytes heap (heap ++ o ∷ []) (append-Extends heap (o ∷ [])) p
          (subst (ObjectOk bytes heap) (sym is) new)
  ]

  pub set-HeapOk :
      (id : ℕ) (o o' : FileObject)
      → HeapOk bytes heap
      → get_elem? heap id ≡ some o
      → o'.type ≡ o.type
      → o'.start_position ≡ o.start_position
      → ObjectOk bytes heap o'
      → HeapOk bytes (set heap id o')
  set-HeapOk id o o' all at type start new j p there =
      let grown = set-Extends heap id o o' at type start in
      elim (get_elem?-set_cases heap id j p o' there) [
        | inl (apart, old) ↦ ObjectOk-Extends bytes heap (set heap id o') grown p (all j p old)
        | inr (same, is) ↦
            ObjectOk-Extends bytes heap (set heap id o') grown p
              (subst (ObjectOk bytes heap) (sym is) new)
      ]
