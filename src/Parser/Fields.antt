-- ===== src/Parser/Fields.antt =====
-- The visit of one type definition: `visitCompleteType`, `visitDataField`, `visitTypeDefinition`.
use binary_reader.Common.{
  ℕ, List, [], ◌∷◌, ◌++◌, map, append_assoc, append-nil, All, Option, none, some, Option-cases, ◌≡◌,
  refl, sym, ap, subst, ◌∙◌, true, false, Bool-cases, inl, inr, str_eq,
}
use binary_reader.Error.Defs.{error, unknown_type, shadowing_member, shadowing_type}
use binary_reader.Error.Collection.{ErrorCollection}
use binary_reader.Exec.{ok, done}
use binary_reader.Value.{Value}
use binary_reader.TypeInfo.{integer, definition, alias_name, TypeInfo, Statements, instantiate}
use binary_reader.TypeInfo.Typed.{AreTyped, IsTyped, whole, fields}
use binary_reader.Options.{Options}
use binary_reader.Error.Defs.{DebugInfo}
use binary_reader.Parser.{
  TypeDefinition, FieldInfo, Stack, get_type, find_member, push_statement, debug_of, add_error,
  build_options, visit_complete_type, visit_expression, visit_data_field, warn_name, check_name,
  push_member, visit_members,
}
use binary_reader.Parser.Tree.{CompleteTypeTree, ExpressionTree, DataFieldTree}
use binary_reader.Parser.Literal.{literal_value}
use binary_reader.Parser.Clean.{Passes, Clean, add_error-Passes, warning-Clean, build_options-Clean}
use binary_reader.Parser.Described.{IsDescribed, instantiate-IsDescribed}
use binary_reader.Parser.Members.{IsExpected, AreFields, push_statement-AreFields}
use binary_reader.Parser.Names.{
  get_type-alias_name, Distinct, field_names, get_type-IsTyped, find_member-is_among,
  Distinct-insert, push_statement-AreTyped, field_names-push_statement,
}

abbrev pub AllTyped : List TypeDefinition → Type 0
AllTyped = All (λ (d : TypeDefinition). AreTyped d.statements)

-- The numbers of a definition are within the range of their types.
abbrev pub IsReadable : (List ℕ → Option ℕ) → Option ExpressionTree → Type 0
IsReadable stod none = Unit {0}
IsReadable stod (some x) = (v : Value) × (literal_value stod x.number ≡ some v)

abbrev pub FieldReadable : (List ℕ → Option ℕ) → DataFieldTree → Type 0
FieldReadable stod ctx = IsReadable stod ctx.expression

-- The statements of a definition that has no errors so far.
abbrev pub StatementsOk : Statements → Type 0
StatementsOk ss = AreTyped ss × Distinct (field_names ss)

abbrev pub member_names : List DataFieldTree → List (List ℕ)
member_names = map (λ (m : DataFieldTree). m.identifier)

alias_name-instantiate :
    (d : DebugInfo) (o : Options) (t : TypeInfo) → alias_name (instantiate d o t) ≡ alias_name t
unfolding instantiate
alias_name-instantiate d o (integer i) = refl
alias_name-instantiate d o (definition e n ss) = refl

instantiate-IsTyped :
    (d : DebugInfo) (o : Options) {t : TypeInfo} → IsTyped t → IsTyped (instantiate d o t)
unfolding instantiate
instantiate-IsTyped d o (whole w) =
    whole (record { bytes = w.bytes; some_byte = w.some_byte; few = w.few; width = w.width })
instantiate-IsTyped d o (fields h) = fields h

-- What the members leave of the stack, and of the errors.
pub record Pushed (path : List ℕ) (stod : List ℕ → Option ℕ) (members : List DataFieldTree)
    (s s' : Stack) (e e' : ErrorCollection) : Type 0 where
  pub types : s'.types ≡ s.types
  pub names : field_names s'.statements ≡ field_names s.statements ++ member_names members
  pub statements :
      Passes e e' (AllTyped s.types → StatementsOk s.statements → StatementsOk s'.statements)
  pub described : Passes e e' (
      (before : List DataFieldTree)
      → AreFields path stod s.types s.statements before
      → AreFields path stod s.types s'.statements (before ++ members))

module _ (path : List ℕ) where
  -- The type is there, without null pointers, and has the name.
  abbrev pub HasTyped : List ℕ → Option TypeInfo → Type 0
  HasTyped name o = (t : TypeInfo) × (o ≡ some t) × IsTyped t × (alias_name t ≡ name)

  -- The type is there, and is one that the tree describes.
  abbrev pub HasDescribed : List TypeDefinition → CompleteTypeTree → Option TypeInfo → Type 0
  HasDescribed types ctx o = (t : TypeInfo) × (o ≡ some t) × IsDescribed path types ctx t

  unknown_type_lem :
      (types : List TypeDefinition) (ctx : CompleteTypeTree) (e : ErrorCollection)
      → get_type types ctx.identifier ≡ none
      → visit_complete_type path types ctx e
        ≡ (none, add_error path unknown_type (ctx.identifier ∷ []) ctx.start error e)
  unfolding visit_complete_type
  unknown_type_lem types ctx e unknown = rw (unknown, visit_complete_type) refl

  known_type_lem :
      (types : List TypeDefinition) (ctx : CompleteTypeTree) (e : ErrorCollection) (t : TypeInfo)
      → get_type types ctx.identifier ≡ some t
      → let r = build_options path t ctx.option_list e in
        visit_complete_type path types ctx e
        ≡ (some (instantiate (debug_of path ctx.start) r.0 t), r.1)
  unfolding visit_complete_type
  known_type_lem types ctx e t known = rw (known, visit_complete_type) refl

  complete_type-Passes :
      (types : List TypeDefinition) (ctx : CompleteTypeTree) (e : ErrorCollection)
      → let r = visit_complete_type path types ctx e in
        Passes e r.1 ((AllTyped types → HasTyped ctx.identifier r.0) × HasDescribed types ctx r.0)
  complete_type-Passes types ctx e = elim (Option-cases (get_type types ctx.identifier)) [
    | inl unknown ↦ rw (unknown_type_lem types ctx e unknown) (
        add_error-Passes path unknown_type (ctx.identifier ∷ []) ctx.start e
          ((AllTyped types → HasTyped ctx.identifier none) × HasDescribed types ctx none))
    | inr (t, known) ↦
        let r = build_options path t ctx.option_list e in
        rw (known_type_lem types ctx e t known) (λ clean. (
          build_options-Clean path t ctx.option_list e clean,
          (
            λ all. (
              instantiate (debug_of path ctx.start) r.0 t,
              refl,
              instantiate-IsTyped (debug_of path ctx.start) r.0
                  (get_type-IsTyped types ctx.identifier t all known),
              alias_name-instantiate (debug_of path ctx.start) r.0 t
                  ∙ get_type-alias_name types ctx.identifier t known,
            ),
            (
              instantiate (debug_of path ctx.start) r.0 t,
              refl,
              instantiate-IsDescribed path types ctx e t known
                  (get_type-alias_name types ctx.identifier t known) clean,
            ),
          ),
        ))
  ]

  module _ (stod : List ℕ → Option ℕ) where
    expression_lem :
        (x : Option ExpressionTree) (s : Stack) (e : ErrorCollection)
        → IsReadable stod x
        → (v : Option Value) × (visit_expression path stod x s e ≡ done (ok v) s e)
          × IsExpected path stod x v
    unfolding visit_expression
    expression_lem none s e readable = (none, refl, refl)
    expression_lem (some x) s e (v, known) =
        (some v, rw (known, visit_expression) refl, (v, known, refl))

    -- A field whose number is readable is visited to its end.
    data_field_lem :
        (ctx : DataFieldTree) (s : Stack) (e : ErrorCollection)
        → FieldReadable stod ctx
        → (f : FieldInfo) × (e' : ErrorCollection) × (visit_data_field path stod ctx s e
            ≡ done (ok f) s e')
          × (f.name ≡ ctx.identifier)
          × IsExpected path stod ctx.expression f.expected
          × Passes e e' (
              (AllTyped s.types → HasTyped ctx.complete_type.identifier f.type)
              × HasDescribed s.types ctx.complete_type f.type)
    unfolding visit_data_field
    data_field_lem ctx s e readable =
        let t = visit_complete_type path s.types ctx.complete_type e in
        let (v, read, expected) = expression_lem ctx.expression s t.1 readable in
        (
          record {
            debug = debug_of path ctx.start;
            name = ctx.identifier;
            type = t.0;
            expected = v;
          },
          t.1,
          rw (read, visit_data_field) refl,
          refl,
          expected,
          complete_type-Passes s.types ctx.complete_type e,
        )

    warn_name-Clean :
        (own : List ℕ) (ctx : DataFieldTree) (name : List ℕ) (s : Stack) (e : ErrorCollection)
        → Clean e (warn_name path stod own ctx name s e)
    unfolding warn_name
    warn_name-Clean own ctx name s e = elim (Option-cases (get_type s.types name)) [
      | inr (t, known) ↦
          rw (known, warn_name) (warning-Clean path shadowing_type (name ∷ []) ctx.start e)
      | inl unknown ↦ elim (Bool-cases (str_eq name own)) [
        | inl same ↦
            rw (unknown, warn_name)
              (rw same (warning-Clean path shadowing_type (name ∷ []) ctx.start e))
        | inr other ↦ rw (unknown, warn_name) (rw other (λ h. h))
      ]
    ]

    check_name-Passes :
        (own : List ℕ) (ctx : DataFieldTree) (name : List ℕ) (s : Stack) (e : ErrorCollection)
        → Passes e (check_name path stod own ctx name s e) (find_member name s.statements ≡ false)
    unfolding check_name
    check_name-Passes own ctx name s e = elim (Bool-cases (find_member name s.statements)) [
      | inl twice ↦
          rw twice (add_error-Passes path shadowing_member (name ∷ []) ctx.start e (true ≡ false))
      | inr new ↦ rw new (λ clean. (warn_name-Clean own ctx name s e clean, refl))
    ]

    push_statement-StatementsOk :
        (ss : Statements) (f : FieldInfo) (name : List ℕ)
        → find_member f.name ss ≡ false
        → HasTyped name f.type
        → StatementsOk ss
        → StatementsOk (push_statement ss f)
    push_statement-StatementsOk ss f name new (t, is, typed, named) (all, apart) = (
      push_statement-AreTyped ss f t all is typed,
      subst Distinct (sym (field_names-push_statement ss f)) (
          Distinct-insert f.name (field_names ss) [] (sym (find_member-is_among f.name ss) ∙ new)
            refl (subst Distinct (sym (append-nil (field_names ss))) apart)),
    )

    -- Members whose numbers are readable are visited to their end.
    pub members_lem :
        (own : List ℕ) (members : List DataFieldTree) (s : Stack) (e : ErrorCollection)
        → All (FieldReadable stod) members
        → (s' : Stack) × (e' : ErrorCollection) × (visit_members path stod own members s e
            ≡ done (ok tt) s' e')
          × Pushed path stod members s s' e e'
    unfolding visit_members push_member
    members_lem own [] s e readable = (
      s,
      e,
      refl,
      record {
        types = refl;
        names = sym (append-nil (field_names s.statements));
        statements = λ clean. (clean, λ all h. h);
        described = λ clean. (
          clean,
          λ before h. subst (AreFields path stod s.types s.statements) (sym (append-nil before)) h,
        );
      },
    )
    members_lem own (ctx ∷ members) s e (first, rest) =
        let (f, e1, visited, is_name, expected, passes) = data_field_lem ctx s e first in
        let s2 : Stack = record s { statements = push_statement s.statements f } in
        let e2 = check_name path stod own ctx f.name s e1 in
        let (s', e', ends, pushed) = members_lem own members s2 e2 rest in
        (
          s',
          e',
          rw (visited, visit_members) ends,
          record {
            types = pushed.types;
            names =
                pushed.names
                ∙ ap (λ ns. ns ++ member_names members)
                    (field_names-push_statement s.statements f
                      ∙ ap (λ n. field_names s.statements ++ n ∷ []) is_name)
                ∙ append_assoc (field_names s.statements) (ctx.identifier ∷ [])
                    (member_names members);
            statements = λ clean.
                let (clean2, then_ok) = pushed.statements clean in
                let (clean1, new) = check_name-Passes own ctx f.name s e1 clean2 in
                let (clean0, (typed, _)) = passes clean1 in
                (
                  clean0,
                  λ all h. then_ok all (
                      push_statement-StatementsOk s.statements f ctx.complete_type.identifier new
                        (typed all) h),
                );
            described = λ clean.
                let (clean2, then_described) = pushed.described clean in
                let (clean1, new) = check_name-Passes own ctx f.name s e1 clean2 in
                let (clean0, (_, (t, is, described))) = passes clean1 in
                (
                  clean0,
                  λ before h.
                      subst (AreFields path stod s.types s'.statements)
                        (append_assoc before (ctx ∷ []) members)
                        (then_described (before ++ ctx ∷ []) (
                          push_statement-AreFields path stod s.types s.statements before f ctx t h
                            is is_name described expected)),
                );
          },
        )
