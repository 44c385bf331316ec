-- ===== src/Error/Message.antt =====
-- The message table of src/public/error.cc and the formatting of a message. `snprintf` is used
-- with `%s` alone, so it copies the format and puts the next argument for each `%s`.
use binary_reader.Common.{
  ℕ, zero, suc, List, [], ◌∷◌, ◌++◌, Option, none, some, codes, ◌==◌, leb, if◌then◌else◌,
}
use mathlib.Core.Option
use binary_reader.Error.Defs.{ErrorKind, ErrorLevel, DebugInfo, ErrorInfo, kind_code}
use binary_reader.Error.Defs

-- The number of `%` in a format. `none` is the `throw`, on a `%` that no `s` follows.
unfoldable pub format_args : List ℕ → Option ℕ
format_args [] = some 0
format_args (c ∷ []) = if c == b'%' then none else some 0
format_args (c ∷ d ∷ rest) =
    let later = format_args (d ∷ rest) in
    if c == b'%' then (if d == b's' then Option.map suc later else none) else later

pub record MessageInfo : Type 0 where
  pub kind : ErrorKind
  pub format_count : ℕ
  pub format : List ℕ

-- The `constexpr` constructor; a format that makes it throw does not compile.
abbrev message_info : ErrorKind → List ℕ → MessageInfo
unfolding format_args
message_info kind format = record {
  kind = kind;
  format_count = Option.get_or (format_args format) 0;
  format = format;
}

-- `kDefaultMessages`, the first entry and the others.
unfoldable pub unknown_message : MessageInfo
unfolding format_args
unknown_message = message_info Defs.unknown (codes "Unknown error")

unfoldable pub default_messages : List MessageInfo
unfolding unknown_message format_args
default_messages =
    unknown_message
    ∷ message_info Defs.cannot_open (codes "Cannot open file '%s'")
    ∷ message_info Defs.io_error (codes "Unknown IO error: errno=%s")
    ∷ message_info Defs.shadowing_type (codes "Shadowing existing type '%s'")
    ∷ message_info Defs.shadowing_member (codes "Shadowing existing member '%s'")
    ∷ message_info Defs.unknown_type (codes "Unknown type '%s'")
    ∷ message_info Defs.no_types (codes "No types in definition file")
    ∷ message_info Defs.option_must_be_string (codes "Option values must be a string")
    ∷ message_info Defs.option_must_be_string_typed
        (codes "Option values must be a string for option '%s'")
    ∷ message_info Defs.unknown_option_value (codes "Unknown option value '%s'")
    ∷ message_info Defs.unknown_option_value_typed
        (codes "Unknown option value '%s' for option '%s'")
    ∷ message_info Defs.ambiguous_option (codes "Ambiguous option value '%s'")
    ∷ message_info Defs.duplicate_option (codes "Option '%s' set multiple times")
    ∷ message_info Defs.option_invalid_for_type (codes "Option '%s' is not valid for this type")
    ∷ message_info Defs.unknown_option_type (codes "Unknown option '%s'")
    ∷ message_info Defs.unexpected_end_of_stream (codes "Unexpected end of stream")
    ∷ message_info Defs.little_endian_align (codes "Little endian numbers must be byte aligned")
    ∷ message_info Defs.fields_must_be_static (codes "Fields must have a static size")
    ∷ []

-- An argument is passed as a `char*`, and ends at its first NUL.
unfoldable pub c_str : List ℕ → List ℕ
c_str [] = []
c_str (c ∷ cs) = if c == 0 then [] else c ∷ c_str cs

-- `snprintf(format, args...)`; arguments that the format does not ask for are ignored.
-- The case of a missing argument is undefined in C; `format_helper` never lets it happen.
unfoldable pub sprintf : List ℕ → List (List ℕ) → List ℕ
sprintf [] args = []
sprintf (c ∷ []) args = c ∷ []
sprintf (c ∷ d ∷ rest) [] = c ∷ sprintf (d ∷ rest) []
sprintf (c ∷ d ∷ rest) (a ∷ args) =
    let replaced = c_str a ++ sprintf rest args in
    let copied = c ∷ sprintf (d ∷ rest) (a ∷ args) in if c == b'%' then replaced else copied

-- `FormatHelper<N>::Format`: exactly N arguments, with "" for those that are not given. The last
-- parameter collects them.
unfoldable pub format_helper : ℕ → List ℕ → List (List ℕ) → List (List ℕ) → List ℕ
unfolding sprintf
format_helper zero format cur args = sprintf format args
format_helper (suc n) format [] args = format_helper n format [] (args ++ [] ∷ [])
format_helper (suc n) format (a ∷ cur) args = format_helper n format cur (args ++ a ∷ [])

internal_error : List ℕ
internal_error = codes "!!INTERNAL ERROR: Cannot construct error message"

unfoldable pub format_message : MessageInfo → List (List ℕ) → List ℕ
unfolding format_helper internal_error
format_message message args =
    if leb message.format_count 4
    then format_helper message.format_count message.format args []
    else internal_error

-- The loop of `DefaultErrorMessage`, with its fall-back to the first entry.
unfoldable pub find_message : ErrorKind → List MessageInfo → MessageInfo
unfolding unknown_message kind_code
find_message kind [] = unknown_message
find_message kind (m ∷ ms) = if kind_code m.kind == kind_code kind then m else find_message kind ms

unfoldable pub default_error_message : ErrorKind → List (List ℕ) → List ℕ
unfolding format_message find_message default_messages
default_error_message kind args = format_message (find_message kind default_messages) args

-- `ErrorInfo{debug, kind, args, level, offset}`, which computes its message.
unfoldable pub error_info : DebugInfo → ErrorKind → List (List ℕ) → ErrorLevel → ℕ → ErrorInfo
unfolding default_error_message
error_info debug kind args level offset = record {
  debug = debug;
  message = default_error_message kind args;
  kind = kind;
  level = level;
  offset = offset;
}

-- `ErrorInfo{debug, kind, message, level, offset}`, which is given one.
unfoldable pub error_with_message : DebugInfo → ErrorKind → List ℕ → ErrorLevel → ℕ → ErrorInfo
error_with_message debug kind message level offset = record {
  debug = debug;
  message = message;
  kind = kind;
  level = level;
  offset = offset;
}
