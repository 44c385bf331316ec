-- ===== src/Tests/Program.antt =====
-- A definition file of two fields, a binary file of three bytes, and the theorems on both.
use binary_reader.Common.{
  ℕ, List, [], ◌∷◌, Option, none, some, codes, ◌≡◌, refl, arith, str_eq, subst,
}
use binary_reader.Size.{zero_size}
use binary_reader.Error.Collection.{no_errors, has_errors}
use binary_reader.Exec.{Outcome, ok, failed, stuck, done, Ensures}
use binary_reader.File.Memory.{
  MemoryFileReader, memory_file, memory_seek, memory_read, memory_file-IsFile, IsValid,
}
use binary_reader.Buffered.{new_buffered, read_file, position}
use binary_reader.Value.{number, unsigned_int, as_string}
use binary_reader.FileObject.Heap.{get_field_value, read_value}
use binary_reader.FileObject.Places.{place, Says, get_field_value-place}
use binary_reader.Parser.{TypeDefinition, as_type, parse_definition_file}
use binary_reader.Parser.Tree.{
  GeneratedParser, Token, TypeDefinitionTree, DataFieldTree, complete, last_option,
}
use binary_reader.Parser.Files.{IsVisitable}
use binary_reader.FileParser.{
  FileSystem, FileParser, FileParserOptions, Opened, Returned, create_from_definition, parse_reader,
  choose_type,
}
use binary_reader.FileParser.Laws.{Answered, Built, create_from_definition-Built}
use binary_reader.FileParser.Objects.{IsReady, Built-IsReady, parse_reader-Parsed}
use binary_reader.FileParser.Objects
use binary_reader.FileObject.Fetch.{get_field_value-get_field_value}
use binary_reader.FileObject.Values.{WorldOk, HasRead, read_value-HasRead}
use binary_reader.FileObject.Invariant.{Extends}
use binary_reader.Options.{Signedness, signed, parse_option, set_option}
use binary_reader.Utf8.{decode, decode_loop, decode_round, get_num_bytes, read_sequence, to_utf16}
use binary_reader.TypeInfo.{Statements, field, integer}
use binary_reader.TypeInfo.Typed.{fields}
use binary_reader.FileParser.Program.{get_field_value-create_from_definition}
use binary_reader.Tests.{three_bytes, three_bytes-IsValid, three_bytes-IsByte, contents}

abbrev here : Token
here = record { line = 1; char_position = 0; start_index = 0 }

abbrev member : List ℕ → List ℕ → DataFieldTree
member type name = record {
  start = here;
  identifier = name;
  complete_type = record { start = here; identifier = type; option_list = none };
  expression = none;
}

-- type pair { uint8 a; uint16 b; }
abbrev pair_tree : TypeDefinitionTree
pair_tree = record {
  start = here;
  identifier = codes "pair";
  type_members = member (codes "uint8") (codes "a") ∷ member (codes "uint16") (codes "b") ∷ [];
}

abbrev pub pair_parser : GeneratedParser
pair_parser def = record { syntax_errors = []; result = complete (pair_tree ∷ []) }

abbrev pub no_stod : List ℕ → Option ℕ
no_stod text = none

pub pair-IsVisitable : IsVisitable no_stod (pair_parser []).result
pair-IsVisitable = ((tt, (tt, tt)), tt)

-- type word { uint16[signed] a; }
abbrev word_tree : TypeDefinitionTree
word_tree = record {
  start = here;
  identifier = codes "word";
  type_members =
      record {
        start = here;
        identifier = codes "a";
        complete_type = record {
          start = here;
          identifier = codes "uint16";
          option_list =
              some (last_option (record { start = here; name = none; expr = codes "signed" }));
        };
        expression = none;
      }
      ∷ [];
}

abbrev word_parser : GeneratedParser
word_parser def = record { syntax_errors = []; result = complete (word_tree ∷ []) }

abbrev signs : Statements → List Signedness
signs (field d n (integer i) v ss) = i.sign ∷ signs ss
signs _ = []

abbrev signs_of : Outcome (List TypeDefinition) → List Signedness
signs_of (ok (d ∷ ds)) = signs d.statements
signs_of _ = []

-- The field is signed, although its type is not.
word_is_signed :
    signs_of (parse_definition_file [] word_parser no_stod [] tt no_errors).outcome ≡ signed ∷ []
unfolding parse_definition_file has_errors str_eq parse_option as_string decode decode_loop
    decode_round get_num_bytes read_sequence to_utf16 set_option
word_is_signed = refl

abbrev no_files : FileSystem MemoryFileReader
no_files = record { open_path = λ path. none }

abbrev pub plain : FileParserOptions MemoryFileReader
plain = record { file_system = none }

abbrev created : Returned (FileParser MemoryFileReader)
created = create_from_definition no_files pair_parser no_stod [] [] plain none

create_from_definition-Built_example :
    Answered created.outcome created.errors (Built no_files pair_parser no_stod [] [] plain)
create_from_definition-Built_example =
    create_from_definition-Built no_files pair_parser no_stod [] [] plain none tt pair-IsVisitable

abbrev pub value_or : {A : Type 0} → Outcome A → A → A
value_or (ok a) b = a
value_or failed b = b
value_or stuck b = b

abbrev pub the_parser : FileParser MemoryFileReader
the_parser = value_or created.outcome (record { options = plain; definitions = [] })

is_created : created.outcome ≡ ok the_parser
unfolding create_from_definition has_errors str_eq
is_created = refl

abbrev parsed : Returned (Opened MemoryFileReader)
parsed = parse_reader memory_file the_parser three_bytes [] [] none

abbrev pub the_object : Opened MemoryFileReader
the_object = value_or parsed.outcome (0, record { reader = new_buffered three_bytes; heap = [] })

is_parsed : parsed.outcome ≡ ok the_object
unfolding create_from_definition parse_reader has_errors str_eq memory_seek
is_parsed = refl

get_field_value-create_from_definition_example :
    (d : TypeDefinition) × (choose_type [] the_parser.definitions ≡ ok (some d))
    × (let q = get_field_value memory_file the_object.0 (codes "b") the_object.1 no_errors in
        Ensures q.outcome (λ v.
          Says memory_file IsValid contents memory_file-IsFile
            (contents three_bytes)
            (place (codes "b") d.statements zero_size)
            q.state.heap
            v))
get_field_value-create_from_definition_example =
    get_field_value-create_from_definition no_files pair_parser no_stod memory_file IsValid contents
      memory_file-IsFile [] [] plain none tt pair-IsVisitable the_parser is_created
      (contents three_bytes) three_bytes-IsByte three_bytes three_bytes-IsValid refl (omega arith)
      refl [] [] none the_object is_parsed (codes "b") no_errors

-- The value that comes out.
value_of_b :
    (get_field_value memory_file the_object.0 (codes "b") the_object.1 no_errors).outcome
    ≡ ok (number (unsigned_int 0xfe03))
unfolding create_from_definition parse_reader get_field_value has_errors str_eq memory_seek
    memory_read read_file
value_of_b = refl

parser-IsReady : IsReady the_parser
parser-IsReady = Built-IsReady the_parser no_files pair_parser no_stod [] [] plain (
    subst (λ o. Answered o created.errors (Built no_files pair_parser no_stod [] [] plain))
      is_created create_from_definition-Built_example)

abbrev pub Given : Opened MemoryFileReader → Type 0
Given =
    Objects.Parsed memory_file IsValid contents memory_file-IsFile (contents three_bytes)
      three_bytes-IsByte three_bytes three_bytes-IsValid refl (omega arith) refl the_parser [] []
      none

parse_reader-Parsed_example : Ensures parsed.outcome Given
parse_reader-Parsed_example =
    parse_reader-Parsed memory_file IsValid contents memory_file-IsFile (contents three_bytes)
      three_bytes-IsByte three_bytes three_bytes-IsValid refl (omega arith) refl the_parser [] []
      none parser-IsReady

pub object-Given : Given the_object
object-Given = subst (λ o. Ensures o Given) is_parsed parse_reader-Parsed_example

get_field_value-place_example :
    let q = get_field_value memory_file the_object.0 (codes "b") the_object.1 no_errors in
    let g = object-Given in
    Ensures q.outcome (λ v.
      WorldOk memory_file IsValid contents memory_file-IsFile (contents three_bytes) q.state
      × Extends the_object.1.heap q.state.heap
      × Says memory_file IsValid contents memory_file-IsFile
          (contents three_bytes)
          (place (codes "b") g.definition.statements g.opened.root.start_position)
          q.state.heap
          v)
get_field_value-place_example =
    let g = object-Given in
    get_field_value-place memory_file IsValid contents memory_file-IsFile (contents three_bytes)
      three_bytes-IsByte the_object.0 (codes "b") g.opened.root the_object.1 no_errors
      g.opened.world_ok g.opened.there g.definition.statements g.opened.type g.statements_ok.1

get_field_value-get_field_value_example :
    let q = get_field_value memory_file the_object.0 (codes "b") the_object.1 no_errors in
    Ensures q.outcome (λ v.
      get_field_value memory_file the_object.0 (codes "b") q.state no_errors
      ≡ done (ok v) q.state no_errors)
get_field_value-get_field_value_example =
    let g = object-Given in
    get_field_value-get_field_value memory_file IsValid contents memory_file-IsFile
      (contents three_bytes) three_bytes-IsByte the_object.0 (codes "b") g.opened.root the_object.1
      no_errors g.opened.world_ok g.opened.there no_errors

read_value-HasRead_example :
    let d = object-Given.definition in
    let r = read_value memory_file (as_type d) the_object.1 no_errors in
    Ensures r.outcome (λ x.
      HasRead memory_file IsValid contents memory_file-IsFile
        (contents three_bytes)
        (as_type d)
        (position the_object.1.reader)
        the_object.1
        x
        r.state)
unfolding create_from_definition parse_reader has_errors str_eq memory_seek
read_value-HasRead_example =
    read_value-HasRead memory_file IsValid contents memory_file-IsFile (contents three_bytes)
      three_bytes-IsByte the_object.1 no_errors object-Given.opened.world_ok refl
      (fields object-Given.statements_ok.0)

-- A file system with the definition in one file.
abbrev pub one_file : FileSystem MemoryFileReader
one_file = record { open_path = λ path. some three_bytes }
