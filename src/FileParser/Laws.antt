-- ===== src/FileParser/Laws.antt =====
-- `FileParser` from the definition file to the fields of a binary file.
use binary_reader.Common.{
  ℕ, List, [], All, Option, none, some, ◌≡◌, refl, true, false, Bool-cases, inl, inr,
}
use mathlib.Core.Option
use binary_reader.Error.Defs.{debug_path, no_types, error}
use binary_reader.Error.Message.{error_info}
use binary_reader.Error.Collection.{ErrorCollection, no_errors, has_errors, add}
use binary_reader.Exec.{Done, Outcome, ok, failed, stuck}
use binary_reader.Parser.{TypeDefinition, parse_definition_file}
use binary_reader.Parser.Tree.{GeneratedParser}
use binary_reader.Parser.Clean.{IsClean}
use binary_reader.Parser.Files.{
  IsVisitable, HasToken, Accepted, Reports, parse_definition_file-Accepted,
}
use binary_reader.FileParser.{
  FileSystem, FileParserOptions, FileParser, Returned, give_back, is_empty, with_file_system,
  create_from_definition,
}

-- A call that failed left an error in the caller's collection, where there is one.
abbrev pub Complained : Option ErrorCollection → Type 0
Complained none = Unit {0}
Complained (some e) = has_errors e ≡ true

abbrev pub Answered : {A : Type 0} → Outcome A → Option ErrorCollection → (A → Type 0) → Type 0
Answered (ok a) e P = P a
Answered failed e P = Complained e
Answered stuck e P = ⊥

give_back-Complained :
    (errors : Option ErrorCollection) (e : ErrorCollection)
    → has_errors e ≡ true
    → Complained (give_back errors e)
give_back-Complained none e h = tt
give_back-Complained (some before) e h = h

no_types-has_errors :
    (path : List ℕ) (e : ErrorCollection)
    → has_errors (add e (error_info (debug_path path) no_types [] error 0)) ≡ true
unfolding add error_info has_errors
no_types-has_errors path e = refl

-- A parser whose types are those of the definition file, of which there is at least one.
pub record Built {S : Type 0} (default : FileSystem S) (parser : GeneratedParser)
    (stod : List ℕ → Option ℕ) (def path : List ℕ) (options : FileParserOptions S)
    (p : FileParser S) : Type 0 where
  pub accepted : Accepted path stod (parser def) p.definitions
  pub some_type : is_empty p.definitions ≡ false
  pub kept_options : p.options ≡ with_file_system default options

module _ {S : Type 0} (default : FileSystem S) (parser : GeneratedParser) (stod : List ℕ → Option ℕ)
    (def path : List ℕ) (options : FileParserOptions S) (errors : Option ErrorCollection) where
  abbrev result : Returned (FileParser S)
  result = create_from_definition default parser stod def path options errors

  abbrev parsed : Done (Unit {0}) (List TypeDefinition)
  parsed = parse_definition_file path parser stod def tt (Option.get_or errors no_errors)

  parsed_lem :
      (o : Outcome (List TypeDefinition))
      → parsed.outcome ≡ o
      → Reports o parsed.errors (λ types.
        IsClean (Option.get_or errors no_errors)
        × IsClean parsed.errors
        × Accepted path stod (parser def) types)
      → Answered result.outcome result.errors (Built default parser stod def path options)
  unfolding create_from_definition
  parsed_lem stuck is h = absurd h
  parsed_lem failed is h =
      rw (is, create_from_definition) (give_back-Complained errors parsed.errors h)
  parsed_lem (ok types) is (before, after, accepted) = elim (Bool-cases (is_empty types)) [
    | inl none_there ↦
        rw (is, create_from_definition)
          (rw none_there (
            give_back-Complained errors
              (add parsed.errors (error_info (debug_path path) no_types [] error 0))
              (no_types-has_errors path parsed.errors)))
    | inr some_there ↦
        rw (is, create_from_definition)
          (rw some_there
            (record { accepted = accepted; some_type = some_there; kept_options = refl }))
  ]

  -- A definition whose syntax errors all have a token, whose tree has no node missing and whose numbers
  -- are in range gives a parser with at least one type, whose types are those that the definitions
  -- describe, in order, with the fields, the field types and the options of each; or null, with an error
  -- in the caller's collection, where there is one.
  pub create_from_definition-Built :
      All HasToken (parser def).syntax_errors
      → IsVisitable stod (parser def).result
      → Answered result.outcome result.errors (Built default parser stod def path options)
  create_from_definition-Built tokens visitable = parsed_lem parsed.outcome refl (
      parse_definition_file-Accepted path parser stod def (Option.get_or errors no_errors) tokens
        visitable)
