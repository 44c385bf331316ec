-- ===== src/Tests/Run.antt =====
-- A run of the program on a definition of two fields and a file of three bytes.
use binary_reader.Common.{
  ℕ, List, [], none, some, codes, Option, ap, ◌≡◌, refl, sym, ◌∙◌, subst, arith, ◌<◌, str_eq,
  length, some-eq,
}
use mathlib.Core.Option
use binary_reader.TypeInfo.{end, static_size}
use binary_reader.Error.Defs.{no_debug}
use binary_reader.Size.{Size, zero_size, add_assign, from_bits}
use binary_reader.Error.Collection.{no_errors, has_errors}
use binary_reader.Exec.{ok}
use binary_reader.File.Memory.{
  MemoryFileReader, memory_file, memory_seek, memory_read, memory_file-IsFile, IsValid,
}
use binary_reader.Buffered.{read_file}
use binary_reader.Parser.Files.{IsVisitable}
use binary_reader.Parser.{TypeDefinition}
use binary_reader.FileParser.{FileParser, create_from_file, choose_type}
use binary_reader.FileObject.Located.{HoldsAll}
use binary_reader.Json.Document.{depth_fields}
use binary_reader.App.{Arguments, Exit, exit, main}
use binary_reader.Json.Grammar.{IsJson}
use binary_reader.Json.Plain.{HavePlainNames}
use binary_reader.App.Valid.{main-IsJson}
use binary_reader.App.Laws.{Ends, IsFresh, main-Ends}
use binary_reader.Tests.{three_bytes, three_bytes-IsValid, three_bytes-IsByte, contents}
use binary_reader.Tests.Interfaces.{no_doubles, memory_file-NeverFails}
use binary_reader.Tests.Program.{pair_parser, no_stod, one_file, pair-IsVisitable, value_or, plain}

abbrev pub no_text : ℕ → List ℕ
no_text d = []

pair_run :
    main no_doubles no_text one_file pair_parser no_stod memory_file 4 1 (Arguments.values [] [] [])
    ≡ some (exit 0 (codes "{\n  \"a\": 255,\n  \"b\": 65027\n}\n") [])
unfolding main has_errors str_eq memory_seek memory_read read_file
pair_run = refl

pub ok-eq {ℓ} : {A : Type ℓ} {a b : A} → ok a ≡ ok b → a ≡ b
ok-eq h = cc

one_file-IsFresh :
    (path : List ℕ) (s : MemoryFileReader)
    → one_file.open_path path ≡ some s
    → IsFresh memory_file IsValid contents s
one_file-IsFresh path s h = subst (IsFresh memory_file IsValid contents) (some-eq h) (record {
  valid = three_bytes-IsValid;
  at_start = refl;
  of_bytes = three_bytes-IsByte;
  small = omega arith;
})

abbrev made : FileParser MemoryFileReader
made =
    value_or
      (create_from_file one_file pair_parser no_stod memory_file 4 [] plain
        (some no_errors)).outcome
      (record { options = plain; definitions = [] })

abbrev pub no_definition : TypeDefinition
no_definition = record { debug = no_debug; alias_name = []; statements = end }

abbrev chosen : TypeDefinition
chosen = Option.get_or (value_or (choose_type [] made.definitions) none) no_definition

is_made :
    (create_from_file one_file pair_parser no_stod memory_file 4 [] plain (some no_errors)).outcome
    ≡ ok made
unfolding create_from_file has_errors str_eq memory_read memory_seek
is_made = refl

is_chosen : choose_type [] made.definitions ≡ ok (some chosen)
unfolding create_from_file choose_type has_errors str_eq memory_read memory_seek
is_chosen = refl

chosen-HoldsAll : HoldsAll 3 chosen.statements zero_size × (depth_fields chosen.statements < 1)
unfolding create_from_file choose_type static_size from_bits add_assign has_errors str_eq
    memory_read memory_seek
chosen-HoldsAll = (
  (
    omega arith,
    λ s known. (
      omega (arith, ap (λ (q : Option Size). (Option.get_or q zero_size).pos) known),
      λ t known_too. tt,
    ),
  ),
  omega arith,
)

-- The type that is chosen is the one of the definition.
picked :
    (p : FileParser MemoryFileReader) (d : TypeDefinition)
    → (create_from_file one_file pair_parser no_stod memory_file 4 [] plain
        (some no_errors)).outcome
      ≡ ok p
    → choose_type [] p.definitions ≡ ok (some d)
    → chosen ≡ d
picked p d is picks =
    let same_parser : made ≡ p = ok-eq (sym is_made ∙ is) in
    some-eq (
      ok-eq (
        sym is_chosen
        ∙ ap (λ (q : FileParser MemoryFileReader). choose_type [] q.definitions) same_parser
        ∙ picks))

made-Fits :
    (s : MemoryFileReader) (p : FileParser MemoryFileReader) (d : TypeDefinition)
    → one_file.open_path [] ≡ some s
    → (create_from_file one_file pair_parser no_stod memory_file 4 [] plain
        (some no_errors)).outcome
      ≡ ok p
    → choose_type [] p.definitions ≡ ok (some d)
    → HoldsAll (length (contents s)) d.statements zero_size × (depth_fields d.statements < 1)
made-Fits s p d found is picks =
    let same_file : three_bytes ≡ s = some-eq found in
    subst
      (λ q. HoldsAll (length (contents q)) d.statements zero_size × (depth_fields d.statements < 1))
      same_file
      (subst (λ c. HoldsAll 3 c.statements zero_size × (depth_fields c.statements < 1))
        (picked p d is picks) chosen-HoldsAll)

made-IsGood :
    (s : MemoryFileReader)
    → one_file.open_path [] ≡ some s
    → (length (contents s) < 4) × (Unit {0}) × IsVisitable no_stod (pair_parser (contents s)).result
made-IsGood s found =
    subst
      (λ (q : MemoryFileReader).
        (length (contents q) < 4)
        × (Unit {0})
        × IsVisitable no_stod (pair_parser (contents q)).result)
      (some-eq found) (omega arith, tt, pair-IsVisitable)

main-Ends_example :
    Ends no_doubles no_text one_file pair_parser no_stod memory_file IsValid contents
      memory_file-IsFile memory_file-NeverFails one_file-IsFresh 4 1 [] [] []
      (main no_doubles no_text one_file pair_parser no_stod memory_file 4 1
        (Arguments.values [] [] []))
main-Ends_example =
    main-Ends no_doubles no_text one_file pair_parser no_stod memory_file IsValid contents
      memory_file-IsFile memory_file-NeverFails one_file-IsFresh 4 1 [] [] [] made-IsGood made-Fits

chosen-Plain : HavePlainNames chosen.statements
unfolding create_from_file choose_type has_errors str_eq memory_seek memory_read
chosen-Plain = ((refl, tt), tt, ((refl, tt), tt, tt))

main-IsJson_example :
    (x : Exit) × (main no_doubles no_text one_file pair_parser no_stod memory_file 4 1
        (Arguments.values [] [] [])
      ≡ some x)
    × (x.code ≡ 0 → IsJson x.output)
main-IsJson_example =
    main-IsJson no_doubles no_text one_file pair_parser no_stod memory_file IsValid contents
      memory_file-IsFile memory_file-NeverFails one_file-IsFresh 4 1 [] [] [] made-IsGood made-Fits
      (λ p d is picks.
        subst (λ (c : TypeDefinition). HavePlainNames c.statements) (picked p d is picks)
          chosen-Plain)
