-- ===== src/FileParser/Overloads.antt =====
-- include/binary_reader/file_parser.h: the overloads of `CreateFromFile`, `CreateFromDefinition` and
-- `ParseFile`, which fill in an empty path or type, plain options and a null `ErrorCollection*`.
use binary_reader.Common.{ℕ, List, [], Option, none, some, Option-cases, ◌≡◌, refl, inl, inr}
use binary_reader.Error.Collection.{ErrorCollection, no_errors}
use binary_reader.Exec.{Outcome, ok, failed, stuck}
use binary_reader.File.{FileReader}
use binary_reader.Parser.{TypeDefinition}
use binary_reader.Parser.Tree.{GeneratedParser}
use binary_reader.FileParser.{
  FileSystem, FileParserOptions, FileParser, Returned, Opened, choose_type, create_from_definition,
  create_from_file, parse_reader, parse_file,
}

-- `FileParserOptions{}`, and a copy of options.
unfoldable pub plain_options : {S : Type 0} → FileParserOptions S
plain_options = record { file_system = none }

unfoldable pub copy_options : {S : Type 0} → FileParserOptions S → FileParserOptions S
copy_options other = record { file_system = other.file_system }

-- `options`
unfoldable pub options_of : {S : Type 0} → FileParser S → FileParserOptions S
options_of p = p.options

module _ {S : Type 0} (default : FileSystem S) (parser : GeneratedParser)
    (stod : List ℕ → Option ℕ) where
  unfoldable pub create_with_options : List ℕ → FileParserOptions S → Returned (FileParser S)
  unfolding create_from_definition
  create_with_options def options = create_from_definition default parser stod def [] options none

  unfoldable pub create_with_definition : List ℕ → Returned (FileParser S)
  unfolding create_from_definition plain_options
  create_with_definition def = create_from_definition default parser stod def [] plain_options none

  unfoldable pub create_with_errors : List ℕ → ErrorCollection → Returned (FileParser S)
  unfolding create_from_definition plain_options
  create_with_errors def e =
      create_from_definition default parser stod def [] plain_options (some e)

  unfoldable pub create_with_options_and_errors :
      List ℕ → FileParserOptions S → ErrorCollection → Returned (FileParser S)
  unfolding create_from_definition
  create_with_options_and_errors def options e =
      create_from_definition default parser stod def [] options (some e)

  unfoldable pub create_with_path : List ℕ → List ℕ → Returned (FileParser S)
  unfolding create_from_definition plain_options
  create_with_path def path = create_from_definition default parser stod def path plain_options none

  unfoldable pub create_with_path_and_options :
      List ℕ → List ℕ → FileParserOptions S → Returned (FileParser S)
  unfolding create_from_definition
  create_with_path_and_options def path options =
      create_from_definition default parser stod def path options none

  unfoldable pub create_with_path_and_errors :
      List ℕ → List ℕ → ErrorCollection → Returned (FileParser S)
  unfolding create_from_definition plain_options
  create_with_path_and_errors def path e =
      create_from_definition default parser stod def path plain_options (some e)

  module _ (file : FileReader S) (fuel : ℕ) where
    unfoldable pub create_from_path : List ℕ → Returned (FileParser S)
    unfolding create_from_file plain_options
    create_from_path path = create_from_file default parser stod file fuel path plain_options none

    unfoldable pub create_from_file_with_options :
        List ℕ → FileParserOptions S → Returned (FileParser S)
    unfolding create_from_file
    create_from_file_with_options path options =
        create_from_file default parser stod file fuel path options none

    unfoldable pub create_from_file_with_errors : List ℕ → ErrorCollection → Returned (FileParser S)
    unfolding create_from_file plain_options
    create_from_file_with_errors path e =
        create_from_file default parser stod file fuel path plain_options (some e)

module _ {S : Type 0} (file : FileReader S) (p : FileParser S) where
  unfoldable pub parse_path : List ℕ → Returned (Opened S)
  unfolding parse_file
  parse_path path = parse_file file p path [] none

  unfoldable pub parse_path_with_errors : List ℕ → ErrorCollection → Returned (Opened S)
  unfolding parse_file
  parse_path_with_errors path e = parse_file file p path [] (some e)

  unfoldable pub parse_path_with_type : List ℕ → List ℕ → Returned (Opened S)
  unfolding parse_file
  parse_path_with_type path type = parse_file file p path type none

  unfoldable pub parse_only_reader : S → Returned (Opened S)
  unfolding parse_reader
  parse_only_reader reader = parse_reader file p reader [] [] none

  unfoldable pub parse_reader_with_errors : S → ErrorCollection → Returned (Opened S)
  unfolding parse_reader
  parse_reader_with_errors reader e = parse_reader file p reader [] [] (some e)

  unfoldable pub parse_reader_with_type : S → List ℕ → Returned (Opened S)
  unfolding parse_reader
  parse_reader_with_type reader type = parse_reader file p reader [] type none

  unfoldable pub parse_reader_with_path : S → List ℕ → List ℕ → Returned (Opened S)
  unfolding parse_reader
  parse_reader_with_path reader path type = parse_reader file p reader path type none

  unfoldable pub parse_reader_with_type_and_errors :
      S → List ℕ → ErrorCollection → Returned (Opened S)
  unfolding parse_reader
  parse_reader_with_type_and_errors reader type e = parse_reader file p reader [] type (some e)

  module _ (path type : List ℕ) where
    reader_outcome :
        (s : S) (o : Outcome (Option TypeDefinition))
        → choose_type type p.definitions ≡ o
        → (parse_reader file p s path type none).outcome
          ≡ (parse_reader file p s path type (some no_errors)).outcome
    unfolding parse_reader
    reader_outcome s stuck is = rw (is, parse_reader) refl
    reader_outcome s failed is = rw (is, parse_reader) refl
    reader_outcome s (ok none) is = rw (is, parse_reader) refl
    reader_outcome s (ok (some d)) is = rw (is, parse_reader) refl

    -- `ParseFile` gives the same with a null `ErrorCollection*` as with an empty collection.
    parse_file_null_errors :
        (parse_file file p path type none).outcome
        ≡ (parse_file file p path type (some no_errors)).outcome
    unfolding parse_file
    parse_file_null_errors = elim (Option-cases p.options.file_system) [
      | inl absent ↦ rw (absent, parse_file) refl
      | inr (fs, there) ↦ elim (Option-cases (fs.open_path path)) [
        | inl closed ↦ rw (there, parse_file) (rw closed refl)
        | inr (s, found) ↦
            rw (there, parse_file)
              (rw found (reader_outcome s (choose_type type p.definitions) refl))
      ]
    ]
