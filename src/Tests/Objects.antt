-- ===== src/Tests/Objects.antt =====
-- The object of a file of three bytes: its names and its JSON text.
use binary_reader.Common.{
  [], Option, none, some, codes, ◌≡◌, refl, sym, ap, ◌∙◌, ◌<◌, subst, arith, str_eq, some-eq,
}
use mathlib.Core.Option
use binary_reader.Size.{zero_size, Size, add_assign, from_bits}
use binary_reader.TypeInfo.{static_size}
use binary_reader.Error.Collection.{no_errors, has_errors}
use binary_reader.Exec.{ok}
use binary_reader.File.Memory.{MemoryFileReader, memory_file, memory_file-IsFile, IsValid}
use binary_reader.Parser.{TypeDefinition}
use binary_reader.FileParser.{create_from_definition, choose_type}
use binary_reader.FileObject.{get_field_names}
use binary_reader.FileObject.Located.{HoldsAll, Covers, get_field_names-Covers}
use binary_reader.Json.{Output, dump_json_object, default_json_options}
use binary_reader.Json.Document.{depth_fields}
use binary_reader.Json.Values.{Dumped}
use binary_reader.Json.Laws.{dump_json_object-Dumped}
use binary_reader.Tests.{three_bytes, three_bytes-IsByte, contents}
use binary_reader.Tests.Interfaces.{no_doubles, memory_file-NeverFails}
use binary_reader.Tests.Program.{the_object, the_parser, object-Given, value_or}
use binary_reader.Tests.Run.{no_text, no_definition, ok-eq}

get_field_names-Covers_example :
    Covers (get_field_names object-Given.opened.root) object-Given.definition.statements
get_field_names-Covers_example =
    let g = object-Given in
    get_field_names-Covers (contents three_bytes) the_object.1.heap g.opened.root
      g.definition.statements (g.opened.world_ok.heap_ok the_object.0 g.opened.root g.opened.there)
      g.opened.type

abbrev chosen : TypeDefinition
chosen = Option.get_or (value_or (choose_type [] the_parser.definitions) none) no_definition

is_chosen : choose_type [] the_parser.definitions ≡ ok (some chosen)
unfolding create_from_definition choose_type has_errors str_eq
is_chosen = refl

chosen-HoldsAll : HoldsAll 3 chosen.statements zero_size × (depth_fields chosen.statements < 1)
unfolding create_from_definition choose_type static_size from_bits add_assign has_errors str_eq
chosen-HoldsAll = (
  (
    omega arith,
    λ s known. (
      omega (arith, ap (λ (q : Option Size). (Option.get_or q zero_size).pos) known),
      λ t known_too. tt,
    ),
  ),
  omega arith,
)

definition-HoldsAll :
    HoldsAll 3 object-Given.definition.statements zero_size
    × (depth_fields object-Given.definition.statements < 1)
definition-HoldsAll =
    subst
      (λ (d : TypeDefinition). HoldsAll 3 d.statements zero_size × (depth_fields d.statements < 1))
      (some-eq (ok-eq (sym is_chosen ∙ object-Given.chosen))) chosen-HoldsAll

abbrev before : Output MemoryFileReader
before = record { world = the_object.1; text = codes "-> " }

dump_json_object-Dumped_example :
    Dumped no_doubles no_text memory_file IsValid contents memory_file-IsFile
      (contents three_bytes)
      default_json_options
      (dump_json_object no_doubles no_text memory_file default_json_options 1 the_object.0 4)
      object-Given.definition.statements
      zero_size
      4
      before
      no_errors
dump_json_object-Dumped_example =
    let g = object-Given in
    dump_json_object-Dumped no_doubles no_text memory_file IsValid contents memory_file-IsFile
      (contents three_bytes) default_json_options memory_file-NeverFails three_bytes-IsByte 1
      the_object.0 4 g.definition.statements zero_size before no_errors g.opened.world_ok
      (g.opened.root, g.opened.there, g.opened.type, g.opened.start) definition-HoldsAll.0
      definition-HoldsAll.1
