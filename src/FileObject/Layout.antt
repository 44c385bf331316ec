-- ===== src/FileObject/Layout.antt =====
-- The layout that `ReparseObject` gives to the fields of an object.
use binary_reader.Common.{
  ℕ, zero, suc, get_elem?, set, some-eq, List, [], ◌∷◌, ◌++◌, append_assoc, append-nil, Option,
  none, some, Option-cases, inl, inr, ◌≡◌, refl, sym, ap, subst, ◌∙◌,
}
use binary_reader.Size.{Size, add_assign}
use binary_reader.Error.Defs.{DebugInfo}
use binary_reader.Value.{Value}
use binary_reader.Error.Collection.{ErrorCollection}
use binary_reader.Exec.{Done, ok, done}
use binary_reader.TypeInfo.{
  TypeInfo, Statements, end, field, untyped_field, type_definition, static_size, calculate_size,
}
use binary_reader.FileObject.{FileObject, ParsedFieldInfo, push_field, reparse_loop, reparse_object}

-- Every statement is a field that has a type.
abbrev pub OnlyFields : Statements → Type 0
OnlyFields end = Unit {0}
OnlyFields (field d n t v ss) = OnlyFields ss
OnlyFields (untyped_field d n v ss) = ⊥
OnlyFields (type_definition d n inner ss) = ⊥

-- Each field lies where the one before it ends, from `offset` to `stop`, with the name and the type
-- that its statement has, and no value yet.
abbrev pub Laid : Statements → Size → List ParsedFieldInfo → Size → Type 0
Laid end offset [] stop = offset ≡ stop
Laid (field d n t v ss) offset (f ∷ fs) stop =
    (f ≡ record { name = n; type = some t; offset = offset; value = none })
    × ((s : Size) × (static_size t ≡ some s) × Laid ss (add_assign offset s) fs stop)
Laid _ _ _ _ = ⊥

Reparsed :
    Statements → Size → Size → FileObject → ErrorCollection → Done FileObject (Unit {0}) → Type 0
Reparsed ss offset stop o e r =
    (r.outcome ≡ ok tt)
    × (r.errors ≡ e)
    × ((fs : List ParsedFieldInfo) × (r.state.parsed_fields ≡ o.parsed_fields ++ fs)
        × Laid ss offset fs stop)

lost : {s : Size} → none ≡ some s → ⊥
lost h = cc

pub reparse_field :
    (d : DebugInfo) (n : List ℕ) (t : TypeInfo) (v : Option Value) (ss : Statements)
    (offset s : Size) (o : FileObject) (e : ErrorCollection)
    → static_size t ≡ some s
    → reparse_loop (field d n t v ss) offset o e
      ≡ reparse_loop ss (add_assign offset s) (push_field n t offset o) e
unfolding reparse_loop
reparse_field d n t v ss offset s o e known = rw (known, reparse_loop) refl

reparse_loop-Reparsed :
    (ss : Statements) (offset stop : Size) (o : FileObject) (e : ErrorCollection)
    → OnlyFields ss
    → calculate_size offset ss ≡ some stop
    → Reparsed ss offset stop o e (reparse_loop ss offset o e)
unfolding Reparsed reparse_loop calculate_size push_field
reparse_loop-Reparsed end offset stop o e only sum =
    (refl, refl, ([], sym (append-nil o.parsed_fields), cc))
reparse_loop-Reparsed (field d n t v ss) offset stop o e only sum =
    elim (Option-cases (static_size t)) [
      | inl unknown ↦ absurd (lost (rw unknown at sum))
      | inr (s, known) ↦
          let info : ParsedFieldInfo = record {
            name = n;
            type = some t;
            offset = offset;
            value = none;
          } in
          let rest =
            reparse_loop-Reparsed ss (add_assign offset s) stop (push_field n t offset o) e only
              (rw known at sum) in
          subst (Reparsed (field d n t v ss) offset stop o e)
            (sym (reparse_field d n t v ss offset s o e known))
            (
              rest.0,
              rest.1,
              (
                info ∷ rest.2.0,
                rest.2.1 ∙ append_assoc o.parsed_fields (info ∷ []) rest.2.0,
                (refl, (s, known, rest.2.2)),
              ),
            )
    ]
reparse_loop-Reparsed (untyped_field d n v ss) offset stop o e only sum = absurd only
reparse_loop-Reparsed (type_definition d n inner ss) offset stop o e only sum = absurd only

abbrev cleared : FileObject → FileObject
cleared o = record o { parsed_fields = []; field_name_map = [] }

abbrev reparsed_as : FileObject → ErrorCollection → Option Statements → Done FileObject (Unit {0})
reparsed_as o e type = elim type [
  | none ↦ done (ok tt) o e
  | some ss ↦ reparse_loop ss o.start_position (cleared o) e
]

-- `ReparseObject` of an object whose type has only fields, all typed and of static size, succeeds and
-- reports nothing. Whatever the object held before, it then has the fields of the type, each where
-- the one before it ends, from the object's start on, with no value cached.
pub reparse_object-Laid :
    (o : FileObject) (ss : Statements) (stop : Size) (e : ErrorCollection)
    → o.type ≡ some ss
    → OnlyFields ss
    → calculate_size o.start_position ss ≡ some stop
    → let r = reparse_object o e in
      (r.outcome ≡ ok tt) × (r.errors ≡ e) × Laid ss o.start_position r.state.parsed_fields stop
unfolding reparse_object Reparsed
reparse_object-Laid o ss stop e typed only sum =
    let r = reparse_loop-Reparsed ss o.start_position stop (cleared o) e only sum in
    subst
      (λ q.
        (q.outcome ≡ ok tt) × (q.errors ≡ e) × Laid ss o.start_position q.state.parsed_fields stop)
      (sym (ap (reparsed_as o e) typed))
      (
        r.0,
        r.1,
        subst (λ (fs : List ParsedFieldInfo). Laid ss o.start_position fs stop) (sym r.2.1) r.2.2,
      )

-- The fields of a type from `offset` on, whatever their values.
abbrev pub LaidOut : Statements → Size → List ParsedFieldInfo → Type 0
LaidOut end offset [] = Unit {0}
LaidOut (field d n t v ss) offset (f ∷ fs) =
    (f.name ≡ n)
    × (f.type ≡ some t)
    × (f.offset ≡ offset)
    × ((s : Size) × (static_size t ≡ some s) × LaidOut ss (add_assign offset s) fs)
LaidOut _ _ _ = ⊥

pub Laid-LaidOut :
    (ss : Statements) (offset stop : Size) (fs : List ParsedFieldInfo)
    → Laid ss offset fs stop
    → LaidOut ss offset fs
Laid-LaidOut end offset stop [] h = tt
Laid-LaidOut end offset stop (f ∷ fs) h = h
Laid-LaidOut (field d n t v ss) offset stop [] h = h
Laid-LaidOut (field d n t v ss) offset stop (f ∷ fs) (is, (s, known, rest)) = (
  ap (λ (g : ParsedFieldInfo). g.name) is,
  ap (λ (g : ParsedFieldInfo). g.type) is,
  ap (λ (g : ParsedFieldInfo). g.offset) is,
  (s, known, Laid-LaidOut ss (add_assign offset s) stop fs rest),
)
Laid-LaidOut (untyped_field d n v ss) offset stop fs h = h
Laid-LaidOut (type_definition d n inner ss) offset stop fs h = h

-- A value that is stored moves no field.
pub set-LaidOut :
    (ss : Statements) (offset : Size) (fs : List ParsedFieldInfo) (i : ℕ) (f : ParsedFieldInfo)
    (v : Option Value)
    → get_elem? fs i ≡ some f
    → LaidOut ss offset fs
    → LaidOut ss offset (set fs i (record f { value = v }))
set-LaidOut end offset [] i f v at h = h
set-LaidOut end offset (g ∷ gs) i f v at h = absurd h
set-LaidOut (field d n t w ss) offset [] i f v at h = h
set-LaidOut (field d n t w ss) offset (g ∷ gs) zero f v at (name, type, here, rest) =
    let same : g ≡ f = some-eq at in
    (
      ap (λ (x : ParsedFieldInfo). x.name) (sym same) ∙ name,
      ap (λ (x : ParsedFieldInfo). x.type) (sym same) ∙ type,
      ap (λ (x : ParsedFieldInfo). x.offset) (sym same) ∙ here,
      rest,
    )
set-LaidOut (field d n t w ss) offset (g ∷ gs) (suc i) f v at (name, type, here, (s, known, rest)) =
    (name, type, here, (s, known, set-LaidOut ss (add_assign offset s) gs i f v at rest))
set-LaidOut (untyped_field d n w ss) offset fs i f v at h = absurd h
set-LaidOut (type_definition d n inner ss) offset fs i f v at h = absurd h
