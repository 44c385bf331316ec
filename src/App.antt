-- ===== src/App.antt =====
-- src/app/command_line.{h,cc} and src/app/main.cc: the command line program. The arguments as TCLAP
-- parses them, the standard streams and the fuels are parameters.
pub mod Laws
pub mod Valid
use binary_reader.Common.{ℕ, List, [], ◌∷◌, ◌++◌, Option, none, some, codes, Bool, true, false}
use mathlib.Core.Option
use binary_reader.Error.Defs.{ErrorInfo}
use binary_reader.Error.Print.{print_error}
use binary_reader.Error.Collection.{ErrorCollection, no_errors, clear}
use binary_reader.Exec.{Outcome, ok, failed, stuck}
use binary_reader.File.{FileReader}
use binary_reader.Value.Numbers.{Doubles}
use binary_reader.Parser.Tree.{GeneratedParser}
use binary_reader.FileObject.Heap.{World}
use binary_reader.FileParser.{
  FileSystem, FileParserOptions, FileParser, Returned, Opened, create_from_file, parse_file,
}
use binary_reader.Json.{JsonOptions, Output, default_json_options, dump_json_object}

-- What `cmd.parse` and the arguments give: the values of `-f`, `-i` and `-t`, an exception with its
-- `error()` and `argId()`, or the end of the process, as for `--help`.
pub data Arguments : Type 0 where
  values : List ℕ → List ℕ → List ℕ → Arguments
  arg_exception : List ℕ → List ℕ → Arguments
  exits : ℕ → List ℕ → List ℕ → Arguments

-- How the process ends: the code, and what it wrote to `std::cout` and to `std::cerr`.
pub record Exit : Type 0 where
  pub code : ℕ
  pub output : List ℕ
  pub messages : List ℕ

abbrev pub exit : ℕ → List ℕ → List ℕ → Exit
exit c out err = record { code = c; output = out; messages = err }

pub record CommandLine (S : Type 0) : Type 0 where
  pub definition_path : List ℕ
  pub binary_path : List ℕ
  pub type_name : List ℕ
  pub parser_options : FileParserOptions S
  pub json_options : JsonOptions

-- `CommandLine cmd;`
unfoldable pub new_command_line : {S : Type 0} → CommandLine S
unfolding default_json_options
new_command_line = record {
  definition_path = [];
  binary_path = [];
  type_name = [];
  parser_options = record { file_system = none };
  json_options = default_json_options;
}

-- `CommandLine::Parse`: the result, and what it writes; or how the process ends in it.
pub data Started (S : Type 0) : Type 0 where
  parsed : Bool → CommandLine S → List ℕ → Started S
  ended : Exit → Started S

unfoldable pub parse : {S : Type 0} → CommandLine S → Arguments → Started S
parse cmd (values definition input type) =
    parsed true (record cmd { definition_path = definition; binary_path = input; type_name = type })
      []
parse cmd (arg_exception error id) =
    parsed false cmd (codes "FATAL ERROR: " ++ (error ++ (codes " for arg " ++ (id ++ codes "\n"))))
parse cmd (exits code out err) = ended (exit code out err)

-- `for (auto& err : errors) std::cerr << err << "\n";`
unfoldable pub write_errors : List ErrorInfo → List ℕ
unfolding print_error
write_errors [] = []
write_errors (e ∷ es) = print_error e ++ (codes "\n" ++ write_errors es)

-- `errors`, which the calls get a pointer to.
abbrev pub collected : Option ErrorCollection → ErrorCollection
collected errors = Option.get_or errors no_errors

abbrev pub messages_of : Option ErrorCollection → List ℕ
messages_of errors = write_errors (collected errors).errors

-- `return 0;`, where the call before it ends.
abbrev pub return_0 : Outcome (Unit {0}) → List ℕ → List ℕ → Option Exit
return_0 (ok _) out err = some (exit 0 out err)
return_0 failed out err = none
return_0 stuck out err = none

module _ {S : Type 0} (double : Doubles) (show_double : ℕ → List ℕ) (default : FileSystem S)
    (parser : GeneratedParser) (stod : List ℕ → Option ℕ) (file : FileReader S)
    (read_fuel depth_fuel : ℕ) where
  -- `main` from `DumpJsonObject` on; none where that does not end.
  unfoldable pub dump_and_exit : CommandLine S → Opened S → List ℕ → Option Exit
  unfolding dump_json_object
  dump_and_exit cmd (id, world) messages =
      let d =
        dump_json_object double show_double file cmd.json_options depth_fuel id 0
          (record { world = world; text = [] }) no_errors in
      return_0 d.outcome d.state.text messages

  -- `main` from `ParseFile` on.
  unfoldable pub parse_and_exit :
      CommandLine S → FileParser S → ErrorCollection → List ℕ → Option Exit
  unfolding parse_file dump_and_exit write_errors clear
  parse_and_exit cmd p errors messages =
      let r = parse_file file p cmd.binary_path cmd.type_name (some (clear errors)) in
      let all = messages ++ messages_of r.errors in
      elim r.outcome [
        | stuck ↦ none
        | failed ↦ some (exit 1 [] all)
        | ok opened ↦ dump_and_exit cmd opened all
      ]

  -- `main` from `CreateFromFile` on.
  unfoldable pub run : CommandLine S → Option Exit
  unfolding create_from_file parse_and_exit write_errors
  run cmd =
      let r =
        create_from_file default parser stod file read_fuel cmd.definition_path cmd.parser_options
          (some no_errors) in
      elim r.outcome [
        | stuck ↦ none
        | failed ↦ some (exit 1 [] (messages_of r.errors))
        | ok p ↦ parse_and_exit cmd p (collected r.errors) (messages_of r.errors)
      ]

  -- `main`
  unfoldable pub main : Arguments → Option Exit
  unfolding parse new_command_line run
  main arguments = elim (parse new_command_line arguments) [
    | ended e ↦ some e
    | parsed done_ok cmd out ↦ elim done_ok [ true ↦ run cmd | false ↦ some (exit 1 out []) ]
  ]
