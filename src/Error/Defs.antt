-- ===== src/Error/Defs.antt =====
-- The enumerations and structures of include/binary_reader/error.h. A `std::string` is the list of
-- its bytes.
use binary_reader.Common.{ℕ, List, []}

pub data ErrorLevel : Type 0 where
  error warning info : ErrorLevel

pub data ErrorKind : Type 0 where
  unknown cannot_open io_error : ErrorKind
  shadowing_type shadowing_member unknown_type no_types : ErrorKind
  option_must_be_string option_must_be_string_typed : ErrorKind
  unknown_option_value unknown_option_value_typed : ErrorKind
  ambiguous_option duplicate_option option_invalid_for_type unknown_option_type : ErrorKind
  unexpected_end_of_stream little_endian_align : ErrorKind
  fields_must_be_static : ErrorKind

-- The value of the enumerator.
unfoldable pub kind_code : ErrorKind → ℕ
kind_code unknown = 0
kind_code cannot_open = 1
kind_code io_error = 2
kind_code shadowing_type = 6000
kind_code shadowing_member = 6001
kind_code unknown_type = 6002
kind_code no_types = 6003
kind_code option_must_be_string = 8000
kind_code option_must_be_string_typed = 8001
kind_code unknown_option_value = 8002
kind_code unknown_option_value_typed = 8003
kind_code ambiguous_option = 8004
kind_code duplicate_option = 8005
kind_code option_invalid_for_type = 8006
kind_code unknown_option_type = 8007
kind_code unexpected_end_of_stream = 10000
kind_code little_endian_align = 10001
kind_code fields_must_be_static = 12000

-- A line or column of 0 means that it is not known.
pub record DebugInfo : Type 0 where
  pub file_path : List ℕ
  pub line : ℕ
  pub column : ℕ

-- `DebugInfo{}` and `DebugInfo{path}`.
abbrev pub no_debug : DebugInfo
no_debug = record { file_path = []; line = 0; column = 0 }

abbrev pub debug_path : List ℕ → DebugInfo
debug_path path = record { file_path = path; line = 0; column = 0 }

pub record ErrorInfo : Type 0 where
  pub debug : DebugInfo
  pub message : List ℕ
  pub kind : ErrorKind
  pub level : ErrorLevel
  pub offset : ℕ

-- `ErrorInfo()`
abbrev pub empty_error : ErrorInfo
empty_error = record { debug = no_debug; message = []; kind = unknown; level = error; offset = 0 }
