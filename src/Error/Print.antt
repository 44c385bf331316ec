-- ===== src/Error/Print.antt =====
-- `operator<<` of `ErrorLevel` and `ErrorInfo` (src/public/error.cc): the text that is written.
use binary_reader.Common.{
  ℕ, List, [], ◌∷◌, ◌++◌, codes, decimal, Bool, true, false, ◌==◌, if◌then◌else◌,
}
use binary_reader.Error.Defs.{ErrorLevel, error, warning, info, ErrorInfo}

unfoldable pub print_level : ErrorLevel → List ℕ
print_level error = codes "error"
print_level warning = codes "warning"
print_level info = codes "info"

abbrev is_empty : List ℕ → Bool
is_empty [] = true
is_empty (c ∷ cs) = false

unfoldable pub print_error : ErrorInfo → List ℕ
unfolding print_level decimal
print_error e =
    let tail = print_level e.level ++ (codes ": " ++ e.message) in
    if is_empty e.debug.file_path
    then tail
    else if e.debug.line == 0
    then e.debug.file_path ++ (codes ": " ++ tail)
    else if e.debug.column == 0
    then e.debug.file_path ++ (codes ":" ++ (decimal e.debug.line ++ (codes ": " ++ tail)))
    else e.debug.file_path
      ++ (codes ":"
          ++ (decimal e.debug.line
              ++ (codes ":" ++ (decimal e.debug.column ++ (codes ": " ++ tail)))))
