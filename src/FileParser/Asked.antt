-- ===== src/FileParser/Asked.antt =====
-- The type that a name asks for, told apart from how `ParseFile` looks for it.
use binary_reader.Common.{
  ℕ, List, [], ◌∷◌, Option-cases, some, some-eq, ◌≡◌, ◌≢◌, true, Bool-cases, ◌⊎◌, inl, inr, str_eq,
  str_eq_iff,
}
use mathlib.Core.List.{get_last?}
use binary_reader.Exec.{ok, stuck}
use binary_reader.Parser.{TypeDefinition}
use binary_reader.FileParser.{find_definition, choose_type}

abbrev IsLast : TypeDefinition → List TypeDefinition → Type 0
IsLast d [] = ⊥
IsLast d (t ∷ []) = t ≡ d
IsLast d (t ∷ u ∷ us) = IsLast d (u ∷ us)

abbrev IsFirstOf : List ℕ → TypeDefinition → List TypeDefinition → Type 0
IsFirstOf name d [] = ⊥
IsFirstOf name d (t ∷ ts) =
    ((t ≡ d) × (t.alias_name ≡ name)) ⊎ ((t.alias_name ≢ name) × IsFirstOf name d ts)

-- The last type for the empty name, and the first type of the name for any other.
abbrev pub IsAsked : List ℕ → TypeDefinition → List TypeDefinition → Type 0
IsAsked [] d types = IsLast d types
IsAsked (c ∷ cs) d types = IsFirstOf (c ∷ cs) d types

last_lem :
    (d : TypeDefinition) (types : List TypeDefinition) → get_last? types ≡ some d → IsLast d types
last_lem d [] h = absurd cc
last_lem d (t ∷ []) h = some-eq h
last_lem d (t ∷ u ∷ us) h = last_lem d (u ∷ us) h

first_lem :
    (name : List ℕ) (d : TypeDefinition) (types : List TypeDefinition)
    → find_definition name types ≡ some d
    → IsFirstOf name d types
unfolding find_definition
first_lem name d [] h = absurd cc
first_lem name d (t ∷ ts) h = elim (Bool-cases (str_eq t.alias_name name)) [
  | inl same ↦ inl (some-eq (rw same at h), (str_eq_iff t.alias_name name).0 same)
  | inr other ↦ inr (
    (λ e. let same : str_eq t.alias_name name ≡ true = (str_eq_iff t.alias_name name).1 e in cc),
    first_lem name d ts (rw other at h),
  )
]

last_chosen :
    (d : TypeDefinition) (types : List TypeDefinition)
    → choose_type [] types ≡ ok (some d)
    → get_last? types ≡ some d
unfolding choose_type
last_chosen d types h = elim (Option-cases (get_last? types)) [
  | inl none_there ↦
      absurd (let was : stuck ≡ ok (some d) = rw (choose_type, none_there) at h in cc)
  | inr (u, there) ↦ let was : ok (some u) ≡ ok (some d) = rw (choose_type, there) at h in cc
]

pub choose_type-IsAsked :
    (type : List ℕ) (d : TypeDefinition) (types : List TypeDefinition)
    → choose_type type types ≡ ok (some d)
    → IsAsked type d types
unfolding choose_type
choose_type-IsAsked [] d types h = last_lem d types (last_chosen d types h)
choose_type-IsAsked (c ∷ cs) d types h =
    first_lem (c ∷ cs) d types (let same : find_definition (c ∷ cs) types ≡ some d = cc in same)
