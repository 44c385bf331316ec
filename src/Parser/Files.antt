-- ===== src/Parser/Files.antt =====
-- `ParseDefinitionFile`: what the types of a definition file without errors are.
use binary_reader.Common.{
  ℕ, List, [], ◌∷◌, All, Option, some, ◌≡◌, refl, true, Bool-cases, inl, inr, str_eq, if◌then◌else◌,
}
use binary_reader.Error.Defs.{DebugInfo, unknown, error, debug_path}
use binary_reader.Error.Message.{error_info, error_with_message}
use binary_reader.Error.Collection.{ErrorCollection, has_errors, add}
use binary_reader.Exec.{ok, failed, stuck, done, Outcome}
use binary_reader.Parser.{
  TypeDefinition, Stack, new_stack, visit_main, syntax_errors, visit_recovered,
  parse_definition_file,
}
use binary_reader.Parser.Tree.{
  TypeDefinitionTree, SyntaxError, Recovered, complete, incomplete, runtime_exception,
  GeneratedParser, Token, Parsed,
}
use binary_reader.Parser.Clean.{IsClean}
use binary_reader.TypeInfo.{built_in_types}
use binary_reader.Parser.Names.{Distinct, built_in_names}
use binary_reader.Parser.Types.{AreNamed, AreDescribed, FileReadable, TypesOk, main_lem, between}

-- The visitor meets no null pointer and no number out of range.
abbrev pub IsVisitable : (List ℕ → Option ℕ) → Recovered → Type 0
IsVisitable stod (complete definitions) = FileReadable stod definitions
IsVisitable stod incomplete = ⊥
IsVisitable stod (runtime_exception what) = Unit {0}

abbrev pub HasToken : SyntaxError → Type 0
HasToken x = (t : Token) × (x.token ≡ some t)

-- The types of a definition file: each is that of its definition, in order.
pub record Accepted (path : List ℕ) (stod : List ℕ → Option ℕ) (parsed : Parsed)
    (types : List TypeDefinition) : Type 0 where
  pub no_syntax_errors : parsed.syntax_errors ≡ []
  pub definitions : List TypeDefinitionTree
  pub tree : parsed.result ≡ complete definitions
  pub named : AreNamed types definitions
  pub types_ok : TypesOk types
  pub described : AreDescribed path stod types types definitions

built_in_apart : Distinct built_in_names
unfolding built_in_types str_eq
built_in_apart = (refl, (refl, (refl, (refl, (refl, (refl, (refl, (refl, (refl, (refl, tt))))))))))

reported :
    (e : ErrorCollection) (d : DebugInfo) (message : List ℕ)
    → IsClean (add e (error_with_message d unknown message error 0))
    → ⊥
unfolding add error_with_message has_errors
reported e d message h = cc

-- The call comes to an end, and where it fails it has left an error.
abbrev pub Reports : {A : Type 0} → Outcome A → ErrorCollection → (A → Type 0) → Type 0
Reports (ok a) e P = P a
Reports failed e P = has_errors e ≡ true
Reports stuck e P = ⊥

Reports-map :
    {A : Type 0} (P Q : A → Type 0) (o : Outcome A) (e : ErrorCollection)
    → ((a : A) → P a → Q a)
    → Reports o e P
    → Reports o e Q
Reports-map P Q (ok a) e f h = f a h
Reports-map P Q failed e f h = h
Reports-map P Q stuck e f h = h

module _ (path : List ℕ) where
  syntax_errors_lem :
      (xs : List SyntaxError) (e : ErrorCollection)
      → All HasToken xs
      → (e' : ErrorCollection) × (syntax_errors path xs tt e ≡ done (ok tt) tt e')
        × (IsClean e' → IsClean e × (xs ≡ []))
  unfolding syntax_errors
  syntax_errors_lem [] e h = (e, refl, λ clean. (clean, refl))
  syntax_errors_lem (x ∷ xs) e ((t, is), rest) =
      let debug : DebugInfo = record { file_path = path; line = x.line; column = t.start_index } in
      let e1 = add e (error_with_message debug unknown x.message error 0) in
      let (e', ends, then_clean) = syntax_errors_lem xs e1 rest in
      (
        e',
        rw (is, syntax_errors) ends,
        λ clean. absurd (reported e debug x.message (then_clean clean).0),
      )

  module _ (parser : GeneratedParser) (stod : List ℕ → Option ℕ) where
    what_reported :
        (e : ErrorCollection) (d : DebugInfo) (args : List (List ℕ))
        → has_errors (add e (error_info d unknown args error 0)) ≡ true
    unfolding add error_info has_errors
    what_reported e d args = refl

    ended :
        (definitions : List TypeDefinitionTree) (s : Stack) (e e' : ErrorCollection)
        → visit_main path stod definitions new_stack e ≡ done (ok tt) s e'
        → visit_recovered path parser stod (complete definitions) tt e
          ≡ (if has_errors e' then done failed tt e' else done (ok s.types) tt e')
    unfolding visit_recovered
    ended definitions s e e' ends = rw (ends, visit_recovered) refl

    visit_recovered_lem :
        (p : Recovered) (e : ErrorCollection)
        → IsVisitable stod p
        → let r = visit_recovered path parser stod p tt e in
          Reports r.outcome r.errors (λ types.
            IsClean e
            × IsClean r.errors
            × ((definitions : List TypeDefinitionTree) × (p ≡ complete definitions)
                × AreNamed types definitions
                × TypesOk types
                × AreDescribed path stod types types definitions))
    unfolding visit_recovered
    visit_recovered_lem incomplete e h = h
    visit_recovered_lem (runtime_exception what) e h = what_reported e (debug_path path) (what ∷ [])
    visit_recovered_lem (complete definitions) e h =
        let (new, e', ends, named, then_ok) = main_lem path stod definitions [] e h in
        elim (Bool-cases (has_errors e')) [
          | inl dirty ↦ rw (ended definitions (between new) e e' ends) (rw dirty dirty)
          | inr clean ↦
              let (clean0, (types_ok, have)) = then_ok clean in
              rw (ended definitions (between new) e e' ends) (
                rw clean
                  (clean0, clean, (definitions, refl, named, types_ok (tt, built_in_apart), have)))
        ]

    pub parse_definition_file-Accepted :
        (buffer : List ℕ) (e : ErrorCollection)
        → All HasToken (parser buffer).syntax_errors
        → IsVisitable stod (parser buffer).result
        → let r = parse_definition_file path parser stod buffer tt e in
          Reports r.outcome r.errors
            (λ types. IsClean e × IsClean r.errors × Accepted path stod (parser buffer) types)
    unfolding parse_definition_file
    parse_definition_file-Accepted buffer e tokens visitable =
        let parsed = parser buffer in
        let (e', ends, then_clean) = syntax_errors_lem parsed.syntax_errors e tokens in
        let r = visit_recovered path parser stod parsed.result tt e' in
        rw ends (
          Reports-map
            (λ types.
              IsClean e'
              × IsClean r.errors
              × ((definitions : List TypeDefinitionTree) × (parsed.result ≡ complete definitions)
                  × AreNamed types definitions
                  × TypesOk types
                  × AreDescribed path stod types types definitions))
            (λ types. IsClean e × IsClean r.errors × Accepted path stod parsed types) r.outcome
            r.errors
            (λ types (clean, after, (definitions, tree, named, types_ok, have)).
              let (before, none_reported) = then_clean clean in
              (
                before,
                after,
                record {
                  no_syntax_errors = none_reported;
                  definitions = definitions;
                  tree = tree;
                  named = named;
                  types_ok = types_ok;
                  described = have;
                },
              ))
            (visit_recovered_lem parsed.result e' visitable))
