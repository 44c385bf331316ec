-- ===== src/Json.antt =====
-- include/binary_reader/json.h and src/public/json.cc: an object of a file written as JSON. The output
-- stream is the text that it has so far.
pub mod Document
pub mod Writes
pub mod Values
pub mod Rounds
pub mod Laws
pub mod Grammar
pub mod Valid
pub mod Plain
use binary_reader.Common.{
  ℕ, zero, suc, ◌+◌, ◌%◌, ◌^◌, List, [], ◌∷◌, ◌++◌, get_elem?, none, some, Bool, true, false, not,
  ◌&&◌, ◌==◌, codes, if◌then◌else◌,
}
use binary_reader.Error.Collection.{ErrorCollection}
use binary_reader.Exec.{Exec, ok, stuck, done, return, continue, ◌>>=◌, ◌>>◌}
use binary_reader.File.{FileReader}
use binary_reader.Value.{Value, null, number, string, object}
use binary_reader.Value.Numbers.{Doubles, write_number}
use binary_reader.UtfString.{as_utf8}
use binary_reader.FileObject.{get_field_names}
use binary_reader.FileObject.Heap.{World, get_field_or_null}

-- `JsonOptions`, whose `Impl` is empty.
pub record JsonOptions : Type 0 where
  pub pretty : Bool
  pub indent : ℕ

unfoldable pub default_json_options : JsonOptions
default_json_options = record { pretty = true; indent = 2 }

-- `std::string(count, ' ')`
unfoldable pub spaces : ℕ → List ℕ
spaces zero = []
spaces (suc n) = b' ' ∷ spaces n

-- The sum of two `size_t`.
unfoldable pub deeper : ℕ → ℕ → ℕ
deeper indent more = (indent + more) % 2 ^ 64

pub record Output (S : Type 0) : Type 0 where
  pub world : World S
  pub text : List ℕ

module _ {S : Type 0} where
  -- `os << text`
  abbrev pub write : List ℕ → Exec (Output S) (Unit {0})
  write text o e = done (ok tt) (record o { text = o.text ++ text }) e

  abbrev pub write_if : Bool → List ℕ → Exec (Output S) (Unit {0})
  write_if c text = write (if c then text else [])

module _ {S : Type 0} (double : Doubles) (show_double : ℕ → List ℕ) (file : FileReader S)
    (opts : JsonOptions) where
  -- `GetFieldValue(name)`
  unfoldable pub fetch : ℕ → List ℕ → Exec (Output S) Value
  unfolding get_field_or_null
  fetch id name o e =
      let r = get_field_or_null file id name o.world in
      done r.outcome (record o { world = r.state }) e

  -- `DumpJsonValue`, with `DumpJsonObject` for an object.
  unfoldable pub dump_json_value :
      (ℕ → ℕ → Exec (Output S) (Unit {0})) → Value → ℕ → Exec (Output S) (Unit {0})
  unfolding write_number as_utf8
  dump_json_value dump null indent = write (codes "null")
  dump_json_value dump (number n) indent = write (write_number double show_double n)
  dump_json_value dump (string s) indent = write (codes "\"" ++ (as_utf8 s ++ codes "\""))
  dump_json_value dump (object id) indent = dump id indent

  -- The loop of `DumpJsonObject` over the names. The value is `first`.
  unfoldable pub dump_fields :
      (ℕ → ℕ → Exec (Output S) (Unit {0})) → ℕ → ℕ → Bool → List (List ℕ) → Exec (Output S) Bool
  unfolding fetch dump_json_value spaces deeper
  dump_fields dump id indent first [] = return first
  dump_fields dump id indent first (name ∷ names) = do
    write_if (not first) (codes ",")
    write_if opts.pretty (codes "\n" ++ spaces (deeper indent opts.indent))
    write (codes "\"" ++ (name ++ codes "\":"))
    write_if opts.pretty (codes " ")
    value ← fetch id name
    dump_json_value dump value (deeper indent opts.indent)
    dump_fields dump id indent false names

  -- `DumpJsonObject`. The fuel bounds how deep the objects are nested.
  unfoldable pub dump_json_object : ℕ → ℕ → ℕ → Exec (Output S) (Unit {0})
  unfolding dump_fields get_field_names
  dump_json_object zero id indent o e = done stuck o e
  dump_json_object (suc fuel) id indent o e = elim (get_elem? o.world.heap id) [
    | none ↦ done stuck o e
    | some obj ↦
        (do
          write (codes "{")
          first ← dump_fields (dump_json_object fuel) id indent true (get_field_names obj)
          write_if (not first && opts.pretty) (codes "\n" ++ spaces indent)
          write (codes "}")
          write_if (opts.pretty && (indent == 0)) (codes "\n"))
          o e
  ]
