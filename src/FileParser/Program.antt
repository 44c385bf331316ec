-- ===== src/FileParser/Program.antt =====
-- The whole way: a definition file, a parser, a binary file, an object, and the value of a field.
use binary_reader.Common.{
  ℕ, ◌^◌, ◌<◌, List, length, All, Option, some, ◌≡◌, refl, subst, ◌⊎◌, inl, inr,
}
use mathlib.Core.Option
use binary_reader.Size.{zero_size}
use binary_reader.Error.Collection.{ErrorCollection}
use binary_reader.Exec.{Outcome, ok, failed, stuck, Ensures}
use binary_reader.File.{FileReader, IsFile, read_fully}
use binary_reader.File.ReadFully.{Gives, read_fully-Gives}
use binary_reader.Integer.Bytes.{IsByte}
use binary_reader.FileObject.Heap.{get_field_value}
use binary_reader.FileObject.Places.{place, Says}
use binary_reader.Parser.{TypeDefinition}
use binary_reader.Parser.Tree.{GeneratedParser}
use binary_reader.Parser.Files.{IsVisitable, HasToken}
use binary_reader.FileParser.{
  FileSystem, FileParserOptions, FileParser, Returned, with_file_system, choose_type,
  create_from_definition, read_definition_file, create_from_file, Opened, parse_reader,
}
use binary_reader.FileParser.Laws.{Answered, Built, create_from_definition-Built}
use binary_reader.FileParser.Objects.{IsReady, Built-IsReady, parsed_field}

module _ {S : Type 0} (default : FileSystem S) (parser : GeneratedParser) (stod : List ℕ → Option ℕ)
    (file : FileReader S) (Valid : S → Type 0) (content : S → List ℕ)
    (lawful : IsFile file Valid content) where
  module _ (def path : List ℕ) (options : FileParserOptions S) (errors : Option ErrorCollection)
      (tokens : All HasToken (parser def).syntax_errors)
      (visitable : IsVisitable stod (parser def).result) (p : FileParser S)
      (created : (create_from_definition default parser stod def path options errors).outcome
        ≡ ok p) where
    ready : IsReady p
    ready =
        let result = create_from_definition default parser stod def path options errors in
        Built-IsReady p default parser stod def path options (
          subst (λ o. Answered o result.errors (Built default parser stod def path options)) created
            (create_from_definition-Built default parser stod def path options errors tokens
              visitable))

    -- With a parser that was made of a definition whose tree has no node missing and whose numbers
    -- are in range, and an object that it gives for a reader at the start of a file of bytes,
    -- `GetFieldValue` of the object ends. A value that it gives is null if the definition of the
    -- object's type has no field of the name, else what the bytes of the file hold for the type of the
    -- field behind the sizes of the fields before it.
    pub get_field_value-create_from_definition :
        (bytes : List ℕ)
        → All IsByte bytes
        → (s : S) → Valid s
        → content s ≡ bytes
        → length bytes < 2 ^ 60
        → file.position s ≡ 0
        → (file_path type : List ℕ) (file_errors : Option ErrorCollection) (r : Opened S)
        → (parse_reader file p s file_path type file_errors).outcome ≡ ok r
        → (name : List ℕ) (e : ErrorCollection)
        → (d : TypeDefinition) × (choose_type type p.definitions ≡ ok (some d))
          × (let q = get_field_value file r.0 name r.1 e in
              Ensures q.outcome (λ v.
                Says file Valid content lawful bytes
                  (place name d.statements zero_size)
                  q.state.heap
                  v))
    get_field_value-create_from_definition bytes all s valid content_is small at_start file_path
          type file_errors r parsed name e =
        parsed_field file Valid content lawful bytes all s valid content_is small at_start p
          file_path type file_errors r ready parsed name e

  module _ (path : List ℕ) (options : FileParserOptions S) (e : ErrorCollection) (fuel : ℕ) (s : S)
      (opens : (Option.get_or (with_file_system default options).file_system default).open_path path
        ≡ some s)
      (valid : Valid s) (room : length (content s) < fuel) where
    abbrev opt : FileParserOptions S
    opt = with_file_system default options

    abbrev from_file : Returned (FileParser S)
    from_file = create_from_file default parser stod file fuel path options (some e)

    abbrev AsDefinition : Returned (FileParser S) → Type 0
    AsDefinition r =
        (r.outcome ≡ failed)
        ⊎ ((e' : ErrorCollection) × (r
              ≡ create_from_definition default parser stod (content s) path opt (some e')))

    read_lem :
        (o : Outcome (List ℕ))
        → (read_fully file fuel s e).outcome ≡ o
        → Gives (content s) o
        → AsDefinition from_file
    unfolding create_from_file read_definition_file
    read_lem stuck is h = absurd h
    read_lem failed is h = inl (rw (opens, create_from_file) (rw is refl))
    read_lem (ok bytes) is h =
        inr ((read_fully file fuel s e).errors, rw (opens, create_from_file) (rw is (rw h refl)))

    -- `CreateFromFile` of a file that opens, with a collection for its errors and more fuel than it has bytes, fails to read it, or
    -- does as `CreateFromDefinition` with the whole content of the file.
    pub create_from_file-create_from_definition : AsDefinition from_file
    create_from_file-create_from_definition =
        read_lem (read_fully file fuel s e).outcome refl
          (read_fully-Gives file Valid content lawful fuel s e valid room)
