-- ===== src/Parser/Types.antt =====
-- The visit of a definition file, and `ParseDefinitionFile`.
use binary_reader.Common.{
  ℕ, List, [], ◌∷◌, ◌++◌, map, append_assoc, append-nil, All, Option, none, Option-cases, ◌≡◌, refl,
  sym, ap, subst, ◌∙◌, inl, inr,
}
use binary_reader.Error.Defs.{error, shadowing_type}
use binary_reader.Error.Collection.{ErrorCollection}
use binary_reader.Exec.{ok, bind_ok, done, ◌>>=◌}
use binary_reader.TypeInfo.{end}
use binary_reader.TypeInfo.Typed.{none_left}
use binary_reader.Parser.{
  TypeDefinition, Stack, get_type, add_error, visit_members, finish_definition,
  visit_type_definition, push_type, visit_main,
}
use binary_reader.Parser.Tree.{TypeDefinitionTree}
use binary_reader.Parser.Clean.{Passes, add_error-Passes}
use binary_reader.Parser.Names.{
  Distinct, field_names, type_names, built_in_names, get_type-is_among, Distinct-insert,
}
use binary_reader.Parser.Members.{AreFields, AreFields-more}
use binary_reader.Parser.Fields.{AllTyped, FieldReadable, StatementsOk, member_names, members_lem}

abbrev pub definition_names : List TypeDefinitionTree → List (List ℕ)
definition_names = map (λ (t : TypeDefinitionTree). t.identifier)

abbrev pub FileReadable : (List ℕ → Option ℕ) → List TypeDefinitionTree → Type 0
FileReadable stod = All (λ (t : TypeDefinitionTree). All (FieldReadable stod) t.type_members)

-- Types without null pointers, whose names are told apart from each other and the built-in ones, and
-- whose fields are told apart within each.
abbrev pub TypesOk : List TypeDefinition → Type 0
TypesOk types =
    All (λ (d : TypeDefinition). StatementsOk d.statements) types
    × Distinct (type_names types ++ built_in_names)

-- A type has the names of its definition and of the definition's fields.
abbrev pub IsNamed : TypeDefinition → TypeDefinitionTree → Type 0
IsNamed d ctx =
    (d.alias_name ≡ ctx.identifier) × (field_names d.statements ≡ member_names ctx.type_members)

abbrev pub AreNamed : List TypeDefinition → List TypeDefinitionTree → Type 0
AreNamed [] [] = Unit {0}
AreNamed [] (t ∷ ts) = ⊥
AreNamed (d ∷ ds) [] = ⊥
AreNamed (d ∷ ds) (t ∷ ts) = IsNamed d t × AreNamed ds ts

-- The fields of each type are those that its definition describes by the types, in order.
abbrev pub AreDescribed :
    List ℕ
    → (List ℕ → Option ℕ)
    → List TypeDefinition
    → List TypeDefinition
    → List TypeDefinitionTree
    → Type 0
AreDescribed path stod types [] [] = Unit {0}
AreDescribed path stod types (d ∷ ds) (t ∷ ts) =
    AreFields path stod types d.statements t.type_members × AreDescribed path stod types ds ts
AreDescribed path stod types _ _ = ⊥

abbrev pub between : List TypeDefinition → Stack
between types = record { types = types; statements = end }

TypesOk-AllTyped : (types : List TypeDefinition) → TypesOk types → AllTyped types
TypesOk-AllTyped types (all, apart) = go types all
  where
    go :
        (ts : List TypeDefinition)
        → All (λ (d : TypeDefinition). StatementsOk d.statements) ts
        → AllTyped ts
    go [] h = tt
    go (t ∷ ts) (first, rest) = (first.0, go ts rest)

All-snoc :
    (P : TypeDefinition → Type 0) (ts : List TypeDefinition) (t : TypeDefinition)
    → All P ts
    → P t
    → All P (ts ++ t ∷ [])
All-snoc P [] t all p = (p, tt)
All-snoc P (u ∷ us) t (first, rest) p = (first, All-snoc P us t rest p)

type_names-snoc :
    (ts : List TypeDefinition) (t : TypeDefinition)
    → type_names (ts ++ t ∷ []) ≡ type_names ts ++ t.alias_name ∷ []
type_names-snoc [] t = refl
type_names-snoc (u ∷ us) t = ap (λ ns. u.alias_name ∷ ns) (type_names-snoc us t)

-- One more type whose name is new.
push-TypesOk :
    (types : List TypeDefinition) (d : TypeDefinition)
    → get_type types d.alias_name ≡ none
    → StatementsOk d.statements
    → TypesOk types
    → TypesOk (types ++ d ∷ [])
push-TypesOk types d new h (all, apart) =
    let (new_left, new_right) = get_type-is_among types d.alias_name new in
    (
      All-snoc (λ (t : TypeDefinition). StatementsOk t.statements) types d all h,
      subst Distinct
          (sym (append_assoc (type_names types) (d.alias_name ∷ []) built_in_names)
            ∙ ap (λ ns. ns ++ built_in_names) (sym (type_names-snoc types d)))
          (Distinct-insert d.alias_name (type_names types) built_in_names new_left new_right apart),
    )

module _ (path : List ℕ) (stod : List ℕ → Option ℕ) where
  type_definition_lem :
      (ctx : TypeDefinitionTree) (types : List TypeDefinition) (e : ErrorCollection)
      → All (FieldReadable stod) ctx.type_members
      → (d : TypeDefinition) × (e' : ErrorCollection) × (visit_type_definition path stod ctx
            (between types)
            e
          ≡ done (ok d) (between types) e')
        × IsNamed d ctx
        × Passes e e' (
            (AllTyped types → StatementsOk d.statements)
            × AreFields path stod types d.statements ctx.type_members)
  unfolding visit_type_definition finish_definition
  type_definition_lem ctx types e readable =
      let (s', e', visited, pushed) =
        members_lem path stod ctx.identifier ctx.type_members (between types) e readable in
      (
        record {
          debug = record {
            file_path = path;
            line = ctx.start.line;
            column = ctx.start.char_position;
          };
          alias_name = ctx.identifier;
          statements = s'.statements;
        },
        e',
        bind_ok (visit_members path stod ctx.identifier ctx.type_members)
            (λ _. finish_definition path stod ctx) (between types) e visited
            (ap
              (λ ts.
                done
                  (ok (record {
                    debug = record {
                      file_path = path;
                      line = ctx.start.line;
                      column = ctx.start.char_position;
                    };
                    alias_name = ctx.identifier;
                    statements = s'.statements;
                  }))
                  (between ts) e')
              pushed.types),
        (refl, pushed.names),
        λ clean.
            let (clean0, then_ok) = pushed.statements clean in
            let (_, then_described) = pushed.described clean in
            (clean0, ((λ all. then_ok all (none_left, tt)), then_described [] tt)),
      )

  push_type-Passes :
      (ctx : TypeDefinitionTree) (d : TypeDefinition) (types : List TypeDefinition)
      (e : ErrorCollection)
      → (e' : ErrorCollection) × (push_type path stod ctx d (between types) e
          ≡ done (ok tt) (between (types ++ d ∷ [])) e')
        × Passes e e' (get_type types d.alias_name ≡ none)
  unfolding push_type
  push_type-Passes ctx d types e = elim (Option-cases (get_type types d.alias_name)) [
    | inl new ↦ (e, rw (new, push_type) refl, λ clean. (clean, new))
    | inr (t, known) ↦ (
      add_error path shadowing_type (d.alias_name ∷ []) ctx.start error e,
      rw (known, push_type) refl,
      add_error-Passes path shadowing_type (d.alias_name ∷ []) ctx.start e
          (get_type types d.alias_name ≡ none),
    )
  ]

  -- Definitions whose numbers are readable are visited to their end, and each gives a type.
  pub main_lem :
      (definitions : List TypeDefinitionTree) (types : List TypeDefinition) (e : ErrorCollection)
      → FileReadable stod definitions
      → (new : List TypeDefinition) × (e' : ErrorCollection) × (visit_main path stod definitions
            (between types)
            e
          ≡ done (ok tt) (between (types ++ new)) e')
        × AreNamed new definitions
        × Passes e e' (
            (TypesOk types → TypesOk (types ++ new))
            × AreDescribed path stod (types ++ new) new definitions)
  unfolding visit_main
  main_lem [] types e readable = (
    [],
    e,
    ap (λ ts. done (ok tt) (between ts) e) (sym (append-nil types)),
    tt,
    λ clean. (clean, ((λ h. subst TypesOk (sym (append-nil types)) h), tt)),
  )
  main_lem (ctx ∷ definitions) types e (first, rest) =
      let (d, e1, visited, is_named, passes) = type_definition_lem ctx types e first in
      let (e2, pushed, is_new) = push_type-Passes ctx d types e1 in
      let (new, e', ends, named, then_ok) = main_lem definitions (types ++ d ∷ []) e2 rest in
      let same : (types ++ d ∷ []) ++ new ≡ types ++ d ∷ new = append_assoc types (d ∷ []) new in
      (
        d ∷ new,
        e',
        bind_ok (visit_type_definition path stod ctx >>= (λ d. push_type path stod ctx d))
            (λ _. visit_main path stod definitions) (between types) e
            (bind_ok (visit_type_definition path stod ctx) (λ d. push_type path stod ctx d)
              (between types) e visited pushed)
            (ends ∙ ap (λ ts. done (ok tt) (between ts) e') same),
        (is_named, named),
        λ clean.
            let (clean2, (from_pushed, described_later)) = then_ok clean in
            let (clean1, no_shadow) = is_new clean2 in
            let (clean0, (ok_statements, described_here)) = passes clean1 in
            (
              clean0,
              (
                (λ h. subst TypesOk same (
                    from_pushed (
                      push-TypesOk types d no_shadow (ok_statements (TypesOk-AllTyped types h))
                        h))),
                (
                  AreFields-more path stod types (d ∷ new) d.statements ctx.type_members
                      described_here,
                  subst (λ ts. AreDescribed path stod ts new definitions) same described_later,
                ),
              ),
            ),
      )
