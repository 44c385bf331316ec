-- ===== src/Error/Collection.antt =====
-- include/binary_reader/error_collection.h and src/public/error_collection.cc. A caller's null
-- `ErrorCollection*` is not a state of the collection; see the components that allow one.
use binary_reader.Common.{ℕ, List, [], ◌∷◌, ◌++◌, Bool, true, false, ◌||◌, Option, length}
use mathlib.Core.List.{head?, get_last?}
use binary_reader.Error.Defs.{ErrorLevel, error, warning, info, ErrorInfo}

pub record ErrorCollection : Type 0 where
  pub errors : List ErrorInfo
  pub has_error : Bool

abbrev pub no_errors : ErrorCollection
no_errors = record { errors = []; has_error = false }

abbrev pub is_error : ErrorLevel → Bool
is_error error = true
is_error warning = false
is_error info = false

-- `Add`
unfoldable pub add : ErrorCollection → ErrorInfo → ErrorCollection
add c e = record { errors = c.errors ++ e ∷ []; has_error = is_error e.level || c.has_error }

-- `AddAllFrom`
unfoldable pub add_all_from : ErrorCollection → ErrorCollection → ErrorCollection
add_all_from c other = record {
  errors = c.errors ++ other.errors;
  has_error = c.has_error || other.has_error;
}

unfoldable pub clear : ErrorCollection → ErrorCollection
clear c = record { errors = []; has_error = false }

unfoldable pub has_errors : ErrorCollection → Bool
has_errors c = c.has_error

unfoldable pub size : ErrorCollection → ℕ
size c = length c.errors

unfoldable pub is_empty : ErrorCollection → Bool
is_empty c = elim c.errors [ [] ↦ true | _ ∷ _ ↦ false ]

-- `front` and `back`; on an empty collection they are undefined.
unfoldable pub front : ErrorCollection → Option ErrorInfo
front c = head? c.errors

unfoldable pub back : ErrorCollection → Option ErrorInfo
back c = get_last? c.errors
