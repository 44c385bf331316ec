-- ===== src/App/Valid.antt =====
-- The output of `main` is JSON.
use binary_reader.Common.{ℕ, List, Option, some, ◌≡◌, ◌∙◌, sym, subst, inl, inr, arith}
use binary_reader.Exec.{ok}
use binary_reader.File.{FileReader, IsFile}
use binary_reader.Buffered.Live.{NeverFails}
use binary_reader.Size.{zero_size}
use binary_reader.Value.Numbers.{Doubles}
use binary_reader.Parser.{TypeDefinition}
use binary_reader.Parser.Tree.{GeneratedParser}
use binary_reader.FileParser.{FileSystem, FileParser, choose_type}
use binary_reader.Json.{default_json_options}
use binary_reader.Json.Document.{object}
use binary_reader.Json.Grammar.{IsJson}
use binary_reader.Json.Valid.{render-IsJson}
use binary_reader.Json.Plain.{HavePlainNames, shown-AreWritable}
use binary_reader.App.{Arguments, Exit, main}
use binary_reader.App.Laws.{IsFresh, IsGood, Fits, created, Succeeds, main-Ends}

module _ {S : Type 0} (double : Doubles) (show_double : ℕ → List ℕ) (default : FileSystem S)
    (parser : GeneratedParser) (stod : List ℕ → Option ℕ) (file : FileReader S) (Valid : S → Type 0)
    (content : S → List ℕ) (lawful : IsFile file Valid content) (never : NeverFails file)
    (opens : (path : List ℕ) (s : S)
      → default.open_path path ≡ some s
      → IsFresh file Valid content s)
    (read_fuel depth_fuel : ℕ) (definition input type : List ℕ)
    (good : IsGood double show_double default parser stod file Valid content lawful never opens
      read_fuel depth_fuel definition input type)
    (fits : Fits double show_double default parser stod file Valid content lawful never opens
      read_fuel depth_fuel definition input type) where
  -- The names of the fields of the type that is chosen, and of their types, need no escapes.
  abbrev pub Plain : Type 0
  Plain =
      (p : FileParser S) (d : TypeDefinition)
      → (created double show_double default parser stod file Valid content lawful never opens
          read_fuel depth_fuel definition input type).outcome
        ≡ ok p
      → choose_type type p.definitions ≡ ok (some d)
      → HavePlainNames d.statements

  Succeeds-IsJson :
      (x : Exit)
      → Plain
      → Succeeds double show_double default parser stod file Valid content lawful never opens
          read_fuel depth_fuel definition input type x
      → IsJson x.output
  Succeeds-IsJson x plain h =
      let bytes_ok = (opens input h.reader h.found).of_bytes in
      subst IsJson (sym h.output) (
        render-IsJson double show_double default_json_options 0 (object h.members) (
          shown-AreWritable (content h.reader) bytes_ok h.chosen.statements zero_size h.members
            h.shown h.statements_ok.0 (plain h.file_parser h.chosen h.made h.is_chosen)))

  -- A run of the program under the conditions of `main-Ends`, with a type whose fields' names need no
  -- escapes in JSON, ends, and where it returns 0 its output is a text of the JSON grammar.
  pub main-IsJson :
      Plain
      → (x : Exit) × (main double show_double default parser stod file read_fuel depth_fuel
            (Arguments.values definition input type)
          ≡ some x)
        × (x.code ≡ 0 → IsJson x.output)
  main-IsJson plain =
      let (x, same, ends) =
        main-Ends double show_double default parser stod file Valid content lawful never opens
          read_fuel depth_fuel definition input type good fits in
      (
        x,
        same,
        λ fine. elim ends [
          | inl fails ↦
              let clash : ◌≡◌ {A = ℕ} 1 0 = sym fails.code ∙ fine in absurd (omega (arith, clash))
          | inr succeeds ↦ Succeeds-IsJson x plain succeeds
        ],
      )
