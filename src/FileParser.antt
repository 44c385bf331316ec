-- ===== src/FileParser.antt =====
-- src/public/file_parser.cc: `FileParser`, from the definition file to the object of a binary file. A
-- file system is its `Open`; what opens is a reader with the operations `file`. A null
-- `ErrorCollection*` is `none`.
pub mod Asked
pub mod Laws
pub mod Objects
pub mod Program
pub mod Overloads
use binary_reader.Common.{
  ℕ, List, [], ◌∷◌, ◌++◌, map, Option, none, some, Bool, true, false, str_eq, if◌then◌else◌,
}
use mathlib.Core.Option
use mathlib.Core.List.{get_last?}
use binary_reader.Error.Defs.{debug_path, ErrorKind, cannot_open, no_types, unknown_type, error}
use binary_reader.Error.Message.{error_info}
use binary_reader.Error.Collection.{ErrorCollection, no_errors, add}
use binary_reader.Exec.{Exec, Done, Outcome, ok, failed, stuck, done, continue}
use binary_reader.File.{FileReader, read_fully}
use binary_reader.Buffered.{new_buffered}
use binary_reader.Value.{Value, as_object}
use binary_reader.Parser.{TypeDefinition, as_type, parse_definition_file}
use binary_reader.Parser.Tree.{GeneratedParser}
use binary_reader.FileObject.Heap.{World, read_value}

-- `FileSystem`
pub record FileSystem (S : Type 0) : Type 0 where
  pub open_path : List ℕ → Option S

-- `FileParserOptions`, whose `Impl` is empty.
pub record FileParserOptions (S : Type 0) : Type 0 where
  pub file_system : Option (FileSystem S)

-- `FileParser::Impl`
pub record FileParser (S : Type 0) : Type 0 where
  pub options : FileParserOptions S
  pub definitions : List TypeDefinition

-- What a call returns, where `failed` is null, and the caller's errors after it.
pub record Returned (A : Type 0) : Type 0 where
  pub outcome : Outcome A
  pub errors : Option ErrorCollection

abbrev pub returned : {A : Type 0} → Outcome A → Option ErrorCollection → Returned A
returned o e = record { outcome = o; errors = e }

-- `if (errors) errors->Add({{path}, kind, args})`
abbrev pub add_if :
    Option ErrorCollection → List ℕ → ErrorKind → List (List ℕ) → Option ErrorCollection
add_if errors path kind args =
    Option.map (λ e. add e (error_info (debug_path path) kind args error 0)) errors

-- The errors of a call that was given a collection of its own where the caller gave none.
abbrev pub give_back : Option ErrorCollection → ErrorCollection → Option ErrorCollection
give_back none e = none
give_back (some before) e = some e

abbrev pub is_empty : List TypeDefinition → Bool
is_empty [] = true
is_empty (d ∷ ds) = false

abbrev pub with_file_system :
    {S : Type 0} → FileSystem S → FileParserOptions S → FileParserOptions S
with_file_system default options = elim options.file_system [
  | none ↦ record { file_system = some default }
  | some fs ↦ options
]

-- `ParseFile`'s choice of the type: the last one, or the first of the name.
unfoldable pub find_definition : List ℕ → List TypeDefinition → Option TypeDefinition
find_definition type [] = none
find_definition type (d ∷ ds) = if str_eq d.alias_name type then some d else find_definition type ds

-- `definitions.back()` of no definition is undefined; a parser has one.
unfoldable pub choose_type : List ℕ → List TypeDefinition → Outcome (Option TypeDefinition)
unfolding find_definition
choose_type [] definitions = elim (get_last? definitions) [ none ↦ stuck | some d ↦ ok (some d) ]
choose_type (c ∷ cs) definitions = ok (find_definition (c ∷ cs) definitions)

unfoldable pub get_type_names : {S : Type 0} → FileParser S → List (List ℕ)
get_type_names p = map (λ (d : TypeDefinition). d.alias_name) p.definitions

module _ {S : Type 0} (default : FileSystem S) (parser : GeneratedParser)
    (stod : List ℕ → Option ℕ) where
  -- `CreateFromDefinition`
  unfoldable pub create_from_definition :
      List ℕ → List ℕ → FileParserOptions S → Option ErrorCollection → Returned (FileParser S)
  unfolding parse_definition_file
  create_from_definition def path options errors =
      let r = parse_definition_file path parser stod def tt (Option.get_or errors no_errors) in
      elim r.outcome as (λ _. Returned (FileParser S)) [
        | stuck ↦ returned stuck (give_back errors r.errors)
        | failed ↦ returned failed (give_back errors r.errors)
        | ok definitions ↦
            if is_empty definitions
            then returned failed
                (give_back errors (add r.errors (error_info (debug_path path) no_types [] error 0)))
            else returned
                (ok (record {
                  options = with_file_system default options;
                  definitions = definitions;
                }))
                (give_back errors r.errors)
      ]

  module _ (file : FileReader S) where
    -- `ReadFully(&buffer, errors)`. A read that fails adds to `errors`: a null pointer is followed.
    unfoldable pub read_definition_file : ℕ → S → Option ErrorCollection → Returned (List ℕ)
    unfolding read_fully
    read_definition_file fuel s none =
        elim (read_fully file fuel s no_errors).outcome as (λ _. Returned (List ℕ)) [
          | ok bytes ↦ returned (ok bytes) none
          | failed ↦ returned stuck none
          | stuck ↦ returned stuck none
        ]
    read_definition_file fuel s (some e) =
        let r = read_fully file fuel s e in returned r.outcome (some r.errors)

    -- `CreateFromFile`. The fuel is that of `ReadFully`.
    unfoldable pub create_from_file :
        ℕ → List ℕ → FileParserOptions S → Option ErrorCollection → Returned (FileParser S)
    unfolding read_definition_file create_from_definition
    create_from_file fuel path options errors =
        let opt = with_file_system default options in
        elim ((Option.get_or opt.file_system default).open_path path)
          as (λ _. Returned (FileParser S)) [
            | none ↦ returned failed (add_if errors path cannot_open (path ∷ []))
            | some s ↦
                let r = read_definition_file fuel s errors in
                elim r.outcome as (λ _. Returned (FileParser S)) [
                  | stuck ↦ returned stuck r.errors
                  | failed ↦ returned failed r.errors
                  | ok bytes ↦ create_from_definition bytes path opt r.errors
                ]
          ]

-- An object, and the world in which it lives.
abbrev pub Opened : Type 0 → Type 0
Opened S = ℕ × World S

module _ {S : Type 0} (file : FileReader S) where
  -- `def->ReadValue(reader, &val, errors)` with a new reader, and `val.as_object()`.
  unfoldable pub read_object : TypeDefinition → S → ErrorCollection → Done (Unit {0}) (Opened S)
  unfolding read_value as_object
  read_object d s e =
      let r = read_value file (as_type d) (record { reader = new_buffered s; heap = [] }) e in
      elim r.outcome [
        | failed ↦ done failed tt r.errors
        | stuck ↦ done stuck tt r.errors
        | ok v ↦ elim (as_object v) [
          | none ↦ done stuck tt r.errors
          | some id ↦ done (ok (id, r.state)) tt r.errors
        ]
      ]

  -- `ParseFile(reader, path, type, errors)`
  unfoldable pub parse_reader :
      FileParser S → S → List ℕ → List ℕ → Option ErrorCollection → Returned (Opened S)
  unfolding choose_type read_object
  parse_reader p s path type errors =
      elim (choose_type type p.definitions) as (λ _. Returned (Opened S)) [
        | stuck ↦ returned stuck errors
        | failed ↦ returned failed errors
        | ok none ↦ returned failed (add_if errors path unknown_type (type ∷ []))
        | ok (some d) ↦
            let r = read_object d s (Option.get_or errors no_errors) in
            returned r.outcome (give_back errors r.errors)
      ]

  -- `ParseFile(path, type, errors)`. The options of a parser have a file system.
  unfoldable pub parse_file :
      FileParser S → List ℕ → List ℕ → Option ErrorCollection → Returned (Opened S)
  unfolding parse_reader
  parse_file p path type errors = elim p.options.file_system as (λ _. Returned (Opened S)) [
    | none ↦ returned stuck errors
    | some fs ↦ elim (fs.open_path path) as (λ _. Returned (Opened S)) [
      | none ↦ returned failed (add_if errors path cannot_open (path ∷ []))
      | some s ↦ parse_reader p s path type errors
    ]
  ]
