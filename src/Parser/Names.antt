-- ===== src/Parser/Names.antt =====
-- The names of types and of fields, and what `GetType` and `FindMember` say of them.
use binary_reader.Common.{
  ℕ, ◌*◌, ◌<◌, ◌≤◌, some-eq, List, [], ◌∷◌, ◌++◌, map, All, Option, none, some, Option-cases, ◌≡◌,
  refl, sym, ap, subst, ◌∙◌, Bool, true, false, Bool-cases, ◌||◌, inl, inr, arith, str_eq,
  str_eq_iff,
}
use binary_reader.Size.{from_bits}
use binary_reader.TypeInfo.{
  IntegerTypeInfo, TypeInfo, Statements, integer, end, field, untyped_field, type_definition,
  alias_name, built_in_types,
}
use binary_reader.TypeInfo.Typed.{AreTyped, IsTyped, none_left, one_more, whole, fields}
use binary_reader.Parser.{
  TypeDefinition, as_type, FieldInfo, find_type, get_type, find_member, push_statement,
}

-- Whether a name is one of a list.
abbrev pub is_among : List ℕ → List (List ℕ) → Bool
is_among name [] = false
is_among name (n ∷ ns) = str_eq n name || is_among name ns

-- No name stands twice in the list.
abbrev pub Distinct : List (List ℕ) → Type 0
Distinct [] = Unit {0}
Distinct (n ∷ ns) = (is_among n ns ≡ false) × Distinct ns

abbrev pub type_names : List TypeDefinition → List (List ℕ)
type_names = map (λ (d : TypeDefinition). d.alias_name)

abbrev pub built_in_names : List (List ℕ)
built_in_names = map alias_name built_in_types

abbrev pub field_names : Statements → List (List ℕ)
field_names end = []
field_names (field d n t v ss) = n ∷ field_names ss
field_names (untyped_field d n v ss) = n ∷ field_names ss
field_names (type_definition d n inner ss) = field_names ss

either : (a b : Bool) → (a || b) ≡ false → (a ≡ false) × (b ≡ false)
either false b h = (refl, h)
either true b h = absurd cc

is_among-append :
    (name : List ℕ) (xs ys : List (List ℕ))
    → is_among name (xs ++ ys) ≡ (is_among name xs || is_among name ys)
is_among-append name [] ys = refl
is_among-append name (x ∷ xs) ys = ground (arith, is_among-append name xs ys)

str_eq_sym : (xs ys : List ℕ) → str_eq xs ys ≡ false → str_eq ys xs ≡ false
str_eq_sym xs ys h = elim (Bool-cases (str_eq ys xs)) [
  | inr other ↦ other
  | inl same ↦
      let back : str_eq xs ys ≡ true = (str_eq_iff xs ys).1 (sym ((str_eq_iff ys xs).0 same)) in
      absurd cc
]

-- A name that is new can stand anywhere.
pub Distinct-insert :
    (name : List ℕ) (xs ys : List (List ℕ))
    → is_among name xs ≡ false
    → is_among name ys ≡ false
    → Distinct (xs ++ ys)
    → Distinct (xs ++ name ∷ ys)
Distinct-insert name [] ys new_left new_right apart = (new_right, apart)
Distinct-insert name (x ∷ xs) ys new_left new_right (own, apart) =
    let (differs, new_left') = either (str_eq x name) (is_among name xs) new_left in
    let (own_left, own_right) =
      either (is_among x xs) (is_among x ys) (sym (is_among-append x xs ys) ∙ own) in
    let apart_too = str_eq_sym x name differs in
    (
      rw (is_among-append x xs (name ∷ ys)) (rw (own_left, own_right, apart_too) refl),
      Distinct-insert name xs ys new_left' new_right apart,
    )

pub find_type-is_among :
    (name : List ℕ) (ts : List TypeInfo)
    → find_type name ts ≡ none
    → is_among name (map alias_name ts) ≡ false
unfolding find_type
find_type-is_among name [] h = refl
find_type-is_among name (t ∷ ts) h = elim (Bool-cases (str_eq (alias_name t) name)) [
  | inl same ↦ absurd (let found : some t ≡ none = rw same at h in cc)
  | inr other ↦ rw other (find_type-is_among name ts (rw other at h))
]

pub find_member-is_among :
    (name : List ℕ) (ss : Statements) → find_member name ss ≡ is_among name (field_names ss)
unfolding find_member
find_member-is_among name end = refl
find_member-is_among name (field d n t v ss) =
    ap (λ b. str_eq n name || b) (find_member-is_among name ss)
find_member-is_among name (untyped_field d n v ss) =
    ap (λ b. str_eq n name || b) (find_member-is_among name ss)
find_member-is_among name (type_definition d n inner ss) = find_member-is_among name ss

names_of :
    (types : List TypeDefinition)
    → map alias_name (map (λ (d : TypeDefinition). as_type d) types) ≡ type_names types
names_of [] = refl
names_of (d ∷ ds) = ap (λ ns. d.alias_name ∷ ns) (names_of ds)

find_type-IsTyped :
    (name : List ℕ) (ts : List TypeInfo) (t : TypeInfo)
    → All IsTyped ts
    → find_type name ts ≡ some t
    → IsTyped t
unfolding find_type
find_type-IsTyped name [] t all h = absurd cc
find_type-IsTyped name (u ∷ us) t (first, rest) h = elim (Bool-cases (str_eq (alias_name u) name)) [
  | inl same ↦ subst IsTyped (some-eq (rw same at h)) first
  | inr other ↦ find_type-IsTyped name us t rest (rw other at h)
]

definitions-IsTyped :
    (types : List TypeDefinition)
    → All (λ (d : TypeDefinition). AreTyped d.statements) types
    → All IsTyped (map (λ (d : TypeDefinition). as_type d) types)
definitions-IsTyped [] all = tt
definitions-IsTyped (d ∷ ds) (first, rest) = (fields first, definitions-IsTyped ds rest)

integer-IsTyped :
    (i : IntegerTypeInfo) (n : ℕ) → 0 < n → n ≤ 8 → i.size.pos ≡ 8 * n → IsTyped (integer i)
integer-IsTyped i n some_byte few width =
    whole (record { bytes = n; some_byte = some_byte; few = few; width = width })

built_in-IsTyped : All IsTyped built_in_types
unfolding built_in_types from_bits
built_in-IsTyped =
    let one = λ (i : IntegerTypeInfo). integer-IsTyped i 1 (omega arith) (omega arith) in
    let two = λ (i : IntegerTypeInfo). integer-IsTyped i 2 (omega arith) (omega arith) in
    let four = λ (i : IntegerTypeInfo). integer-IsTyped i 4 (omega arith) (omega arith) in
    let eight = λ (i : IntegerTypeInfo). integer-IsTyped i 8 (omega arith) (omega arith) in
    (
      one _ refl,
      (
        one _ refl,
        (
          one _ refl,
          (
            one _ refl,
            (
              two _ refl,
              (two _ refl, (four _ refl, (four _ refl, (eight _ refl, (eight _ refl, tt))))),
            ),
          ),
        ),
      ),
    )

abbrev pub in_file : List ℕ → List TypeDefinition → Option TypeInfo
in_file name types = find_type name (map (λ (d : TypeDefinition). as_type d) types)

-- `GetType`, by what the first of its loops finds.
pub in_file_first :
    (types : List TypeDefinition) (name : List ℕ) (t : TypeInfo)
    → in_file name types ≡ some t
    → get_type types name ≡ some t
unfolding get_type
in_file_first types name t found = rw (found, get_type) refl

pub built_in_next :
    (types : List TypeDefinition) (name : List ℕ)
    → in_file name types ≡ none
    → get_type types name ≡ find_type name built_in_types
unfolding get_type
built_in_next types name absent = rw (absent, get_type) refl

-- A name that `GetType` does not find belongs to no type.
pub get_type-is_among :
    (types : List TypeDefinition) (name : List ℕ)
    → get_type types name ≡ none
    → (is_among name (type_names types) ≡ false) × (is_among name built_in_names ≡ false)
get_type-is_among types name h = elim (Option-cases (in_file name types)) [
  | inl absent ↦ (
    subst (λ ns. is_among name ns ≡ false) (names_of types)
        (find_type-is_among name (map (λ (d : TypeDefinition). as_type d) types) absent),
    find_type-is_among name built_in_types (sym (built_in_next types name absent) ∙ h),
  )
  | inr (t, found) ↦ absurd (let first = in_file_first types name t found in cc)
]

pub get_type-IsTyped :
    (types : List TypeDefinition) (name : List ℕ) (t : TypeInfo)
    → All (λ (d : TypeDefinition). AreTyped d.statements) types
    → get_type types name ≡ some t
    → IsTyped t
get_type-IsTyped types name t all h = elim (Option-cases (in_file name types)) [
  | inl absent ↦
      find_type-IsTyped name built_in_types t built_in-IsTyped
        (sym (built_in_next types name absent) ∙ h)
  | inr (u, found) ↦
      find_type-IsTyped name (map (λ (d : TypeDefinition). as_type d) types) t
        (definitions-IsTyped types all) (found ∙ sym (in_file_first types name u found) ∙ h)
]

pub push_statement-AreTyped :
    (ss : Statements) (f : FieldInfo) (t : TypeInfo)
    → AreTyped ss
    → f.type ≡ some t
    → IsTyped t
    → AreTyped (push_statement ss f)
unfolding push_statement
push_statement-AreTyped _ f t none_left is typed = rw is (one_more typed none_left)
push_statement-AreTyped _ f t (one_more first rest) is typed =
    one_more first (push_statement-AreTyped _ f t rest is typed)

pub field_names-push_statement :
    (ss : Statements) (f : FieldInfo)
    → field_names (push_statement ss f) ≡ field_names ss ++ f.name ∷ []
unfolding push_statement
field_names-push_statement end f = elim (Option-cases f.type) [
  | inl untyped ↦ rw untyped refl
  | inr (t, typed) ↦ rw typed refl
]
field_names-push_statement (field d n t v ss) f =
    ap (λ ns. n ∷ ns) (field_names-push_statement ss f)
field_names-push_statement (untyped_field d n v ss) f =
    ap (λ ns. n ∷ ns) (field_names-push_statement ss f)
field_names-push_statement (type_definition d n inner ss) f = field_names-push_statement ss f

find_type-alias_name :
    (name : List ℕ) (ts : List TypeInfo) (t : TypeInfo)
    → find_type name ts ≡ some t
    → alias_name t ≡ name
unfolding find_type
find_type-alias_name name [] t h = absurd cc
find_type-alias_name name (u ∷ us) t h = elim (Bool-cases (str_eq (alias_name u) name)) [
  | inl same ↦
      ap alias_name (sym (some-eq (rw same at h))) ∙ (str_eq_iff (alias_name u) name).0 same
  | inr other ↦ find_type-alias_name name us t (rw other at h)
]

-- The type that `GetType` finds has the name.
pub get_type-alias_name :
    (types : List TypeDefinition) (name : List ℕ) (t : TypeInfo)
    → get_type types name ≡ some t
    → alias_name t ≡ name
get_type-alias_name types name t h = elim (Option-cases (in_file name types)) [
  | inl absent ↦
      find_type-alias_name name built_in_types t (sym (built_in_next types name absent) ∙ h)
  | inr (u, found) ↦
      find_type-alias_name name (map (λ (d : TypeDefinition). as_type d) types) t
        (found ∙ sym (in_file_first types name u found) ∙ h)
]
