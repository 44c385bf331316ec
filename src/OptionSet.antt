-- ===== src/OptionSet.antt =====
-- src/ast/option_set.h and src/ast/option_set.cc: the options that a definition file gives for one
-- type, and how they become an `Options`.
pub mod Laws
use binary_reader.Common.{ℕ, Bool, true, false, not, ◌&&◌, List, [], ◌∷◌, ◌++◌, if◌then◌else◌}
use binary_reader.Error.Defs.{DebugInfo, ErrorKind, ErrorLevel, ErrorInfo}
use binary_reader.Error.Defs
use binary_reader.Error.Message.{error_info}
use binary_reader.Error.Collection.{ErrorCollection}
use binary_reader.Error.Collection
use binary_reader.Options.{
  OptionType, unknown, signedness, byte_order, AnyOption, ParseResult, success, invalid_value_type,
  unknown_string, ambiguous, Options, parse_option, set_option, option_type_name, contains, is_none,
  type_eq,
}
use binary_reader.Value.{Value, as_string, string, number, null, object}
use binary_reader.UtfString.{as_utf8}

pub record OptionValue : Type 0 where
  pub debug : DebugInfo
  pub type : OptionType
  pub static_value : List ℕ

pub record OptionSet : Type 0 where
  pub options : List OptionValue
  pub option_types : List OptionType

-- `OptionSet()`
abbrev pub new_option_set : OptionSet
new_option_set = record { options = []; option_types = [] }

-- An error of the level `Error`, at offset 0, added to the collection.
unfoldable pub report : ErrorCollection → DebugInfo → ErrorKind → List (List ℕ) → ErrorCollection
report errors debug kind args = Collection.add errors (error_info debug kind args Defs.error 0)

-- `value.as_string().AsUtf8()`, where the value is a string.
text_of : Value → List ℕ
text_of (string s) = as_utf8 s
text_of _ = []

abbrev pub is_unknown : OptionType → Bool
is_unknown t = type_eq t unknown

-- After a successful parse: the check of the type, and `SetOption`.
unfoldable pub store_option :
    DebugInfo
    → List OptionType
    → OptionType
    → AnyOption
    → Options
    → ErrorCollection
    → Bool × Options × ErrorCollection
unfolding report
store_option debug valid real_type real_value options errors =
    let stored = set_option options real_type real_value in
    if not (is_none valid) && not (contains valid real_type)
    then (
      false,
      options,
      report errors debug Defs.option_invalid_for_type (option_type_name real_type ∷ []),
    )
    else if stored.0
    then (true, stored.1, errors)
    else (false, options, report errors debug Defs.unknown [])

-- The `switch` on the result of the parse.
unfoldable pub add_parsed :
    ParseResult
    → OptionType
    → Value
    → DebugInfo
    → List OptionType
    → Options
    → ErrorCollection
    → Bool × Options × ErrorCollection
unfolding store_option text_of
add_parsed (success t a) type value debug valid options errors =
    store_option debug valid t a options errors
add_parsed invalid_value_type type value debug valid options errors = (
  false,
  options,
  if is_unknown type
      then report errors debug Defs.option_must_be_string []
      else report errors debug Defs.option_must_be_string_typed (option_type_name type ∷ []),
)
add_parsed unknown_string type value debug valid options errors = (
  false,
  options,
  if is_unknown type
      then report errors debug Defs.unknown_option_value (text_of value ∷ [])
      else report errors debug Defs.unknown_option_value_typed
          (text_of value ∷ option_type_name type ∷ []),
)
add_parsed ambiguous type value debug valid options errors =
    (false, options, report errors debug Defs.ambiguous_option (text_of value ∷ []))

-- `AddOption`: an option without a type is looked for among the valid ones.
unfoldable pub add_option :
    OptionType
    → Value
    → DebugInfo
    → List OptionType
    → Options
    → ErrorCollection
    → Bool × Options × ErrorCollection
unfolding add_parsed
add_option type value debug valid options errors =
    let types = if is_unknown type then valid else type ∷ [] in
    add_parsed (parse_option types (as_string value)) type value debug valid options errors

-- `AddStatic`
unfoldable pub add_static :
    OptionSet
    → DebugInfo
    → OptionType
    → List ℕ
    → ErrorCollection
    → Bool × OptionSet × ErrorCollection
unfolding report
add_static set debug type value errors =
    let entry : OptionValue = record { debug = debug; type = type; static_value = value } in
    let appended = set.options ++ entry ∷ [] in
    if is_unknown type
    then (true, record set { options = appended }, errors)
    else if contains set.option_types type
    then (false, set, report errors debug Defs.duplicate_option (option_type_name type ∷ []))
    else (true, record { options = appended; option_types = type ∷ set.option_types }, errors)

-- The loop of `BuildStaticOptions`, with `ret`.
unfoldable pub build_loop :
    List OptionValue
    → List OptionType
    → Bool
    → Options
    → ErrorCollection
    → Bool × Options × ErrorCollection
unfolding add_option
build_loop [] valid ret options errors = (ret, options, errors)
build_loop (opt ∷ opts) valid ret options errors =
    let (added, options', errors') =
      add_option opt.type (string opt.static_value) opt.debug valid options errors in
    build_loop opts valid (added && ret) options' errors'

unfoldable pub build_static_options :
    OptionSet → List OptionType → Options → ErrorCollection → Bool × Options × ErrorCollection
unfolding build_loop
build_static_options set valid options errors = build_loop set.options valid true options errors
