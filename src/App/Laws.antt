-- ===== src/App/Laws.antt =====
-- How `main` ends.
use binary_reader.Common.{
  ℕ, ◌^◌, ◌<◌, List, [], ◌++◌, length, All, Option, Option-cases, none, some, ◌≡◌, refl, sym, ap,
  subst, ◌⊎◌, inl, inr,
}
use binary_reader.Size.{zero_size}
use binary_reader.Error.Collection.{ErrorCollection, no_errors, clear}
use binary_reader.Exec.{Outcome, ok, failed, stuck, Done, Ensures, Ensures-map}
use binary_reader.File.{FileReader, IsFile}
use binary_reader.Buffered.Live.{NeverFails}
use binary_reader.Integer.Bytes.{IsByte}
use binary_reader.Value.Numbers.{Doubles}
use binary_reader.Parser.{TypeDefinition}
use binary_reader.Parser.Tree.{GeneratedParser}
use binary_reader.Parser.Fields.{StatementsOk}
use binary_reader.Parser.Files.{IsVisitable, HasToken, Accepted}
use binary_reader.FileObject.Located.{Covers, HoldsAll}
use binary_reader.FileParser.{
  FileSystem, FileParserOptions, FileParser, Returned, Opened, choose_type, create_from_file,
  parse_reader, parse_file,
}
use binary_reader.FileParser.Asked.{IsAsked, choose_type-IsAsked}
use binary_reader.FileParser.Laws.{Answered, Built, create_from_definition-Built}
use binary_reader.FileParser.Objects.{IsReady, Built-IsReady, OpenedAs, Parsed, parse_reader-Parsed}
use binary_reader.FileParser.Program.{create_from_file-create_from_definition}
use binary_reader.Json.{Output, default_json_options}
use binary_reader.Json.Document.{Document, Members, names, render, depth_fields, ShowsAll}
use binary_reader.Json.Laws.{dump_json_object-Dumped}
use binary_reader.App.{
  Arguments, Exit, exit, CommandLine, new_command_line, parse, collected, messages_of,
  dump_and_exit, parse_and_exit, run, main, return_0,
}

-- A reader that was just opened: at the start of a file of bytes.
pub record IsFresh {S : Type 0} (file : FileReader S) (Valid : S → Type 0) (content : S → List ℕ)
    (s : S) : Type 0 where
  pub valid : Valid s
  pub at_start : file.position s ≡ 0
  pub of_bytes : All IsByte (content s)
  pub small : length (content s) < 2 ^ 60

module _ {S : Type 0} (double : Doubles) (show_double : ℕ → List ℕ) (default : FileSystem S)
    (parser : GeneratedParser) (stod : List ℕ → Option ℕ) (file : FileReader S) (Valid : S → Type 0)
    (content : S → List ℕ) (lawful : IsFile file Valid content) (never : NeverFails file)
    (opens : (path : List ℕ) (s : S)
      → default.open_path path ≡ some s
      → IsFresh file Valid content s)
    (read_fuel depth_fuel : ℕ) (definition input type : List ℕ) where
  abbrev plain : FileParserOptions S
  plain = record { file_system = none }

  abbrev cmd : CommandLine S
  cmd = record {
    definition_path = definition;
    binary_path = input;
    type_name = type;
    parser_options = plain;
    json_options = default_json_options;
  }

  -- `CreateFromFile` of the definition file.
  abbrev pub created : Returned (FileParser S)
  created = create_from_file default parser stod file read_fuel definition plain (some no_errors)

  -- `ParseFile` of the binary file, with the errors cleared.
  abbrev pub opened : FileParser S → Returned (Opened S)
  opened p = parse_file file p input type (some (clear (collected created.errors)))

  -- The definition file is short enough for the fuel, its syntax errors all have a token, its tree has
  -- no node missing and its numbers are in range.
  abbrev pub IsGood : Type 0
  IsGood =
      (s : S)
      → default.open_path definition ≡ some s
      → (length (content s) < read_fuel)
        × All HasToken (parser (content s)).syntax_errors
        × IsVisitable stod (parser (content s)).result

  -- The binary file has all bytes of an object of the type that is chosen, and the type is not nested
  -- deeper than the fuel.
  abbrev pub Fits : Type 0
  Fits =
      (s : S) (p : FileParser S) (d : TypeDefinition)
      → default.open_path input ≡ some s
      → created.outcome ≡ ok p
      → choose_type type p.definitions ≡ ok (some d)
      → HoldsAll (length (content s)) d.statements zero_size
        × (depth_fields d.statements < depth_fuel)

  -- The run fails, with nothing on the output: one of the two calls failed.
  pub record Fails (x : Exit) : Type 0 where
    pub code : x.code ≡ 1
    pub nothing : x.output ≡ []
    pub why :
        (created.outcome ≡ failed)
        ⊎ ((p : FileParser S) × (created.outcome ≡ ok p) × ((opened p).outcome ≡ failed))

  -- The types of the parser are those that the definition file describes.
  abbrev pub IsOfFile : FileParser S → Type 0
  IsOfFile p =
      (s : S) × (default.open_path definition ≡ some s)
      × Accepted definition stod (parser (content s)) p.definitions

  -- The run succeeds: the output is the text of a document that shows what the binary file holds for
  -- the type.
  pub record Succeeds (x : Exit) : Type 0 where
    pub code : x.code ≡ 0
    pub file_parser : FileParser S
    pub made : created.outcome ≡ ok file_parser
    pub of_file : IsOfFile file_parser
    pub reader : S
    pub found : default.open_path input ≡ some reader
    pub chosen : TypeDefinition
    pub is_asked : IsAsked type chosen file_parser.definitions
    pub is_chosen : choose_type type file_parser.definitions ≡ ok (some chosen)
    pub statements_ok : StatementsOk chosen.statements
    pub members : Members
    pub covers : Covers (names members) chosen.statements
    pub shown : ShowsAll (content reader) chosen.statements zero_size members
    pub output :
        x.output ≡ render double show_double default_json_options 0 (Document.object members)

  abbrev pub Ends : Option Exit → Type 0
  Ends r = (x : Exit) × (r ≡ some x) × (Fails x ⊎ Succeeds x)

  module _ (good : IsGood) (fits : Fits) where
    abbrev Usable : FileParser S → Type 0
    Usable p = IsReady p × (p.options.file_system ≡ some default) × IsOfFile p

    Answered-Usable :
        (r : Returned (FileParser S)) (s : S)
        → default.open_path definition ≡ some s
        → Answered r.outcome r.errors (
            Built default parser stod
              (content s)
              definition
              (record { file_system = some default }))
        → Ensures r.outcome Usable
    Answered-Usable r s found h = by_outcome r.outcome r.errors h
      where
        by_outcome :
            (o : Outcome (FileParser S)) (e : Option ErrorCollection)
            → Answered o e (
                Built default parser stod
                  (content s)
                  definition
                  (record { file_system = some default }))
            → Ensures o Usable
        by_outcome stuck e h = absurd h
        by_outcome failed e h = tt
        by_outcome (ok p) e built = (
          Built-IsReady p default parser stod (content s) definition
              (record { file_system = some default }) built,
          ap (λ (o : FileParserOptions S). o.file_system) built.kept_options,
          (s, found, built.accepted),
        )

    created-Usable : Ensures created.outcome Usable
    created-Usable = elim (Option-cases (default.open_path definition)) [
      | inl closed ↦
          let fails : created.outcome ≡ failed =
            unfold create_from_file in rw (closed, create_from_file) refl in
          rw fails tt
      | inr (s, found) ↦
          let (room, tokens, visitable) = good s found in
          elim (create_from_file-create_from_definition default parser stod file Valid content
            lawful definition plain no_errors read_fuel s found (opens definition s found).valid
            room) [
              | inl fails ↦ rw fails tt
              | inr (e, same) ↦
                  subst (λ (r : Returned (FileParser S)). Ensures r.outcome Usable) (sym same)
                    (Answered-Usable _ s found (
                      create_from_definition-Built default parser stod (content s) definition
                        (record { file_system = some default }) (some e) tokens visitable))
            ]
    ]

    module _ (p : FileParser S) (made : created.outcome ≡ ok p) (usable : Usable p) where
      abbrev given : Option ErrorCollection
      given = some (clear (collected created.errors))

      -- The object that a file opens as.
      record IsOpened (r : Opened S) : Type 0 where
        reader : S
        found : default.open_path input ≡ some reader
        definition_of : TypeDefinition
        chosen : choose_type type p.definitions ≡ ok (some definition_of)
        statements_ok : StatementsOk definition_of.statements
        opened_as : OpenedAs file Valid content lawful (content reader) definition_of r

      opened-IsOpened : Ensures (opened p).outcome IsOpened
      unfolding parse_file
      opened-IsOpened = elim (Option-cases (default.open_path input)) [
        | inl closed ↦
            let fails : (opened p).outcome ≡ failed = rw (usable.1, parse_file) (rw closed refl) in
            rw fails tt
        | inr (s, found) ↦
            let fresh = opens input s found in
            let same : opened p ≡ parse_reader file p s input type given =
              rw (usable.1, parse_file) (rw found refl) in
            subst (λ (r : Returned (Opened S)). Ensures r.outcome IsOpened) (sym same)
              (Ensures-map
                {P = Parsed file Valid content lawful (content s) fresh.of_bytes s fresh.valid refl
                  fresh.small fresh.at_start p input type given}
                {Q = IsOpened} (parse_reader file p s input type given).outcome
                (λ r got. record {
                  reader = s;
                  found = found;
                  definition_of = got.definition;
                  chosen = got.chosen;
                  statements_ok = got.statements_ok;
                  opened_as = got.opened;
                })
                (parse_reader-Parsed file Valid content lawful (content s) fresh.of_bytes s
                  fresh.valid refl fresh.small fresh.at_start p input type given usable.0))
      ]

      dump-Ends :
          (r : Opened S) (messages : List ℕ)
          → IsOpened r
          → (x : Exit) × (dump_and_exit double show_double default parser stod file read_fuel
                depth_fuel cmd r messages
              ≡ some x)
            × Succeeds x
      unfolding dump_and_exit
      dump-Ends (id, world) messages got =
          let d = got.definition_of in
          let (room, shallow) = fits got.reader p d got.found made got.chosen in
          let o = got.opened_as in
          let dumped =
            dump_json_object-Dumped double show_double file Valid content lawful
              (content got.reader) default_json_options never
              (opens input got.reader got.found).of_bytes depth_fuel id 0 d.statements zero_size
              (record { world = world; text = [] }) no_errors o.world_ok
              (o.root, o.there, o.type, o.start) room shallow in
          let after = dumped.writes.after in
          (
            exit 0 after.text messages,
            ap (λ (q : Done (Output S) (Unit {0})). return_0 q.outcome q.state.text messages)
                dumped.writes.runs,
            record {
              code = refl;
              file_parser = p;
              made = made;
              of_file = usable.2;
              reader = got.reader;
              found = got.found;
              chosen = d;
              is_asked = choose_type-IsAsked type d p.definitions got.chosen;
              is_chosen = got.chosen;
              statements_ok = got.statements_ok;
              members = dumped.members;
              covers = dumped.covers;
              shown = dumped.shown;
              output = dumped.writes.written;
            },
          )

      abbrev from_parser : List ℕ → Option Exit
      from_parser messages =
          parse_and_exit double show_double default parser stod file read_fuel depth_fuel cmd p
            (collected created.errors) messages

      opened_lem :
          (o : Outcome (Opened S)) (messages : List ℕ)
          → (opened p).outcome ≡ o
          → Ensures o IsOpened
          → Ends (from_parser messages)
      unfolding parse_and_exit
      opened_lem stuck messages is h = absurd h
      opened_lem failed messages is h = (
        exit 1 [] (messages ++ messages_of (opened p).errors),
        rw (is, parse_and_exit) refl,
        inl (record { code = refl; nothing = refl; why = inr (p, made, is) }),
      )
      opened_lem (ok r) messages is h =
          let (x, same, fine) = dump-Ends r (messages ++ messages_of (opened p).errors) h in
          (x, rw (is, parse_and_exit) same, inr fine)

    made_lem :
        (o : Outcome (FileParser S))
        → created.outcome ≡ o
        → Ensures o Usable
        → Ends (run double show_double default parser stod file read_fuel depth_fuel cmd)
    unfolding run
    made_lem stuck is h = absurd h
    made_lem failed is h = (
      exit 1 [] (messages_of created.errors),
      rw (is, run) refl,
      inl (record { code = refl; nothing = refl; why = inl is }),
    )
    made_lem (ok p) is h =
        let (x, same, fine) =
          opened_lem p is h (opened p).outcome (messages_of created.errors) refl
            (opened-IsOpened p is h) in
        (x, rw (is, run) same, fine)

    -- The program, given the paths of a definition file and of a binary file and a type name, ends: over
    -- files whose reads and seeks never fail and which are at the start of a file of fewer than 2 ^ 60
    -- bytes when they open, with a definition file whose syntax errors all have a token, whose tree has
    -- no node missing and whose numbers are in range, where the binary file has all bytes of the type
    -- that is chosen, and with fuel for the definition file and for the depth of the type. Either it
    -- returns 1 with nothing on the output, and there was no parser or no object; or it returns 0, the
    -- types are those that the definition file describes, the chosen one is the last for the empty name
    -- and the first of the name given for any other, and the output is the JSON text, with integers as
    -- decimal numerals, of a document with the names of the type's fields, each once, in which each name
    -- has what the bytes of the file hold for a field of that name.
    pub main-Ends : Ends (
        main double show_double default parser stod file read_fuel depth_fuel
          (Arguments.values definition input type))
    unfolding main parse new_command_line
    main-Ends = made_lem created.outcome refl created-Usable
