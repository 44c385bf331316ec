-- ===== src/Parser.antt =====
-- src/parser/definition_parser.cc: the visitor that makes the types of a definition file from its
-- parse tree, and `ParseDefinitionFile`. The lexer and parser that ANTLR generates are a parameter,
-- and so is `std::stod`. An exception of `std::stoll` or `std::stod`, which nothing catches, is `stuck`.
pub mod Tree
mod Scopes
pub mod Literal
pub mod Clean
pub mod Names
pub mod Described
pub mod Members
pub mod Fields
pub mod Types
pub mod Files
use binary_reader.Common.{
  ℕ, List, [], ◌∷◌, ◌++◌, map, Option, none, some, Bool, true, false, ◌||◌, str_eq, if◌then◌else◌,
}
use binary_reader.Error.Defs.{DebugInfo, debug_path, ErrorKind, ErrorLevel}
use binary_reader.Error.Defs
use binary_reader.Error.Message.{error_info, error_with_message}
use binary_reader.Error.Collection.{ErrorCollection, has_errors}
use binary_reader.Error.Collection
use binary_reader.Exec.{Exec, Done, ok, failed, stuck, done, return, continue, ◌>>=◌, ◌>>◌}
use binary_reader.Options.{OptionType, Options, new_options, get_option_type}
use binary_reader.OptionSet.{
  OptionSet, new_option_set, is_unknown, add_static, build_static_options,
}
use binary_reader.UtfString.{from_utf8}
use binary_reader.Value.{Value}
use binary_reader.TypeInfo.{
  TypeInfo, Statements, definition, end, field, untyped_field, type_definition, built_in_types,
  get_option_types, instantiate,
}
use binary_reader.TypeInfo
use binary_reader.Parser.Tree.{
  Token, OptionTree, OptionListTree, last_option, and_option, CompleteTypeTree, ExpressionTree,
  DataFieldTree, TypeDefinitionTree, SyntaxError, Recovered, complete, incomplete,
  runtime_exception, GeneratedParser,
}
use binary_reader.Parser.Literal.{literal_value}
unfoldable pub use Scopes.*

-- The visitor, with the path of the definition file.
module _ (path : List ℕ) where
  -- `GetDebugInfo`
  abbrev pub debug_of : Token → DebugInfo
  debug_of t = record { file_path = path; line = t.line; column = t.char_position }

  -- `AddError`
  unfoldable pub add_error :
      ErrorKind → List (List ℕ) → Token → ErrorLevel → ErrorCollection → ErrorCollection
  add_error kind args token level e =
      Collection.add e (error_info (debug_of token) kind args level 0)

  unfoldable pub visit_option :
      OptionTree → ErrorCollection → (DebugInfo × OptionType × List ℕ) × ErrorCollection
  unfolding add_error get_option_type from_utf8
  visit_option ctx e = elim ctx.name [
    | none ↦ ((debug_of ctx.start, OptionType.unknown, from_utf8 ctx.expr), e)
    | some name ↦
        let type = get_option_type (from_utf8 name) in
        let e' =
          if is_unknown type
          then add_error Defs.unknown_option_type (name ∷ []) ctx.start Defs.error e
          else e in
        ((debug_of ctx.start, type, from_utf8 ctx.expr), e')
  ]

  -- `AddStatic` of one more option, whose result is not looked at.
  unfoldable pub push_option :
      OptionTree → OptionSet → ErrorCollection → OptionSet × ErrorCollection
  unfolding visit_option add_static
  push_option ctx options e =
      let ((debug, type, value), e') = visit_option ctx e in
      let r = add_static options debug type value e' in (r.1, r.2)

  unfoldable pub visit_option_list : OptionListTree → ErrorCollection → OptionSet × ErrorCollection
  unfolding push_option
  visit_option_list (last_option o) e = push_option o new_option_set e
  visit_option_list (and_option list o) e =
      let r = visit_option_list list e in push_option o r.0 r.1

  -- The options of a type that is found.
  unfoldable pub build_options :
      TypeInfo → Option OptionListTree → ErrorCollection → Options × ErrorCollection
  unfolding visit_option_list build_static_options get_option_types
  build_options t none e = (new_options, e)
  build_options t (some list) e =
      let set = visit_option_list list e in
      let r = build_static_options set.0 (get_option_types t) new_options set.1 in (r.1, r.2)

  -- `Instantiate` never gives null: the error after it is not reached.
  unfoldable pub visit_complete_type :
      List TypeDefinition → CompleteTypeTree → ErrorCollection → Option TypeInfo × ErrorCollection
  unfolding get_type add_error build_options instantiate
  visit_complete_type types ctx e = elim (get_type types ctx.identifier) [
    | none ↦ (none, add_error Defs.unknown_type (ctx.identifier ∷ []) ctx.start Defs.error e)
    | some t ↦
        let r = build_options t ctx.option_list e in
        (some (instantiate (debug_of ctx.start) r.0 t), r.1)
  ]

  module _ (stod : List ℕ → Option ℕ) where
    -- `visitExpression`, where there is an expression.
    unfoldable pub visit_expression : Option ExpressionTree → Exec Stack (Option Value)
    unfolding literal_value
    visit_expression none s e = done (ok none) s e
    visit_expression (some ctx) s e = elim (literal_value stod ctx.number) [
      | none ↦ done stuck s e
      | some v ↦ done (ok (some v)) s e
    ]

    unfoldable pub visit_data_field : DataFieldTree → Exec Stack FieldInfo
    unfolding visit_complete_type visit_expression
    visit_data_field ctx s e =
        let t = visit_complete_type s.types ctx.complete_type e in
        (visit_expression ctx.expression >>= λ v.
        return
          (record { debug = debug_of ctx.start; name = ctx.identifier; type = t.0; expected = v }))
          s t.1

    -- The warning of a field that has the name of a type.
    unfoldable pub warn_name :
        List ℕ → DataFieldTree → List ℕ → Stack → ErrorCollection → ErrorCollection
    unfolding add_error get_type
    warn_name own ctx name s e = elim (get_type s.types name) [
      | some t ↦ add_error Defs.shadowing_type (name ∷ []) ctx.start Defs.warning e
      | none ↦
          if str_eq name own
          then add_error Defs.shadowing_type (name ∷ []) ctx.start Defs.warning e
          else e
    ]

    -- The errors of a field's name.
    unfoldable pub check_name :
        List ℕ → DataFieldTree → List ℕ → Stack → ErrorCollection → ErrorCollection
    unfolding add_error find_member warn_name
    check_name own ctx name s e =
        if find_member name s.statements
        then add_error Defs.shadowing_member (name ∷ []) ctx.start Defs.error e
        else warn_name own ctx name s e

    -- The rest of the round of `visitTypeDefinition`'s loop.
    unfoldable pub push_member : List ℕ → DataFieldTree → FieldInfo → Exec Stack (Unit {0})
    unfolding check_name push_statement
    push_member own ctx f s e =
        done (ok tt) (record s { statements = push_statement s.statements f })
          (check_name own ctx f.name s e)

    unfoldable pub visit_members : List ℕ → List DataFieldTree → Exec Stack (Unit {0})
    unfolding visit_data_field push_member
    visit_members own [] = return tt
    visit_members own (ctx ∷ members) =
        visit_data_field ctx >>= (λ f. push_member own ctx f) >> visit_members own members

    -- The statements are moved out of the stack.
    unfoldable pub finish_definition : TypeDefinitionTree → Exec Stack TypeDefinition
    finish_definition ctx s e =
        done
          (ok (record {
            debug = debug_of ctx.start;
            alias_name = ctx.identifier;
            statements = s.statements;
          }))
          (record s { statements = end }) e

    unfoldable pub visit_type_definition : TypeDefinitionTree → Exec Stack TypeDefinition
    unfolding visit_members finish_definition
    visit_type_definition ctx =
        visit_members ctx.identifier ctx.type_members >> finish_definition ctx

    -- The rest of the round of `visitMain`'s loop.
    unfoldable pub push_type : TypeDefinitionTree → TypeDefinition → Exec Stack (Unit {0})
    unfolding add_error get_type
    push_type ctx d s e =
        let e' = elim (get_type s.types d.alias_name) as (λ _. ErrorCollection) [
          | none ↦ e
          | some t ↦ add_error Defs.shadowing_type (d.alias_name ∷ []) ctx.start Defs.error e
        ] in
        done (ok tt) (record s { types = s.types ++ d ∷ [] }) e'

    -- `visitMain`. The types that it gives to the caller are those that it adds to the stack.
    unfoldable pub visit_main : List TypeDefinitionTree → Exec Stack (Unit {0})
    unfolding visit_type_definition push_type
    visit_main [] = return tt
    visit_main (ctx ∷ definitions) =
        visit_type_definition ctx >>= (λ d. push_type ctx d) >> visit_main definitions

  -- `syntaxError` for each syntax error; the token may be null, and the code follows it.
  unfoldable pub syntax_errors : List SyntaxError → Exec (Unit {0}) (Unit {0})
  syntax_errors [] s e = done (ok tt) s e
  syntax_errors (x ∷ xs) s e = elim x.token [
    | none ↦ done stuck s e
    | some t ↦
        let debug : DebugInfo = record {
          file_path = path;
          line = x.line;
          column = t.start_index;
        } in
        syntax_errors xs s
          (Collection.add e (error_with_message debug Defs.unknown x.message Defs.error 0))
  ]

  module _ (parser : GeneratedParser) (stod : List ℕ → Option ℕ) where
    -- What follows the call of `main()`, whose errors have been reported.
    unfoldable pub visit_recovered : Recovered → Exec (Unit {0}) (List TypeDefinition)
    unfolding visit_main
    visit_recovered (runtime_exception what) u e =
        done failed u
          (Collection.add e (error_info (debug_path path) Defs.unknown (what ∷ []) Defs.error 0))
    visit_recovered incomplete u e = done stuck u e
    visit_recovered (complete definitions) u e =
        let r = visit_main stod definitions new_stack e in
        continue r.outcome u r.errors
          (λ _ _ e'. if has_errors e' then done failed u e' else done (ok r.state.types) u e')

    -- `ParseDefinitionFile`, with an empty vector of definitions.
    unfoldable pub parse_definition_file : List ℕ → Exec (Unit {0}) (List TypeDefinition)
    unfolding syntax_errors visit_recovered
    parse_definition_file buffer =
        let parsed = parser buffer in
        syntax_errors parsed.syntax_errors >> visit_recovered parsed.result
