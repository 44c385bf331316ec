-- ===== src/Lib.antt =====
-- A model of binary-reader, a C++ library that reads binary files as a definition file describes.
--
-- The parts and the files that model them:
--   Size (include/binary_reader/size.h): positions in bits, in a `uint64_t` that wraps.
--   Error (include/binary_reader/error.h, error_collection.h; src/public/error.cc,
--     error_collection.cc): errors, their messages and printing, and the collection that every
--     operation that may fail adds to.
--   Utf8 (src/public/codecs.cc): `Utf8Converter`, a decoder that takes its input in chunks and keeps
--     a sequence that is cut off, and the encoder. `stuck` in `Status` is the model's own.
--   UtfString (include/binary_reader/utf_string.h; src/public/utf_string.cc, codecs.cc): strings of
--     UTF-16 units and their order, the codec collection.
--   Options, OptionSet (src/public/options.cc, src/ast/option_set.cc): the options of a type, and how
--     the strings of a definition file become their values.
--   Value (include/binary_reader/value.h, number.h; src/public/number.cc; src/util/templates.h): what
--     a field of a file may hold, its order, and the comparisons and casts of numbers.
--   Pointer (include/binary_reader/cloneable_unique_ptr.h): owning pointers in a memory of cells.
--   File (include/binary_reader/file_system.h, src/public/file_system.cc): the interface `FileReader`
--     as a record of operations, with its documented behaviour as the record `IsFile` of laws, and
--     `ReadFully`. File.Memory (src/util/memory_file_system.cc) and File.Stdio
--     (src/public/file_system.cc) fill the interface.
--   Buffered (src/util/buffered_file_reader.cc): `BufferedFileReader` over any such reader.
--   TypeInfo (src/ast): the types of a definition file, their sizes and their equality.
--   FileObject (src/public/file_object.cc, src/ast/type_definition.cc): an object of a file, the layout
--     of its fields, and their values. The objects of one file share its reader and are kept in a
--     heap, since a field may hold an object; `World` is the reader with the heap.
--   Parser (src/parser/definition_parser.cc, src/parser/AntlrBinary.g4): the visitor that makes types of the
--     parse tree of a definition file.
--   FileParser (include/binary_reader/file_parser.h, src/public/file_parser.cc): from a definition
--     file and a binary file to an object.
--   Integer (src/ast/type_info.cc): `IntegerTypeInfo::ReadValue` over a `BufferedFileReader`.
--   Json (include/binary_reader/json.h, src/public/json.cc): an object written as JSON. Json.Document
--     has the documents, their text, and which of them show what a file holds for a type; Json.Grammar has
--     the grammar of RFC 8259, for the part of it that is written.
--   App (src/app/main.cc, command_line.cc): the program, from its arguments to its exit code and what
--     it writes.
-- Common has the shared lists, words, bits and tests; Exec has calls that may fail: a function that
-- takes and returns the state and the `ErrorCollection`. Tests has runs at concrete inputs.
--
-- Correspondence: an operation has the name of the C++ function in snake case. A `bool` result with
-- output parameters is an `Outcome`: `ok` with the outputs, `failed`, or `stuck`, which stands for
-- fuel that ran out, for a null pointer that the code follows, or for an exception that nothing
-- catches. A `std::string` is the list of its bytes. Pointers into a buffer are the list of the
-- bytes from there on.
--
-- Fuel: `decode_loop` gets the number of bytes kept and given, plus one, since a round takes a byte;
-- `ensure_buffer` the size of the buffer plus two, since a read adds a byte or ends the loop;
-- `read_fully` takes its fuel as an argument, one more than the file's bytes; `byte_loop` two more
-- than the bytes of the integer; `dump_json_object` and `main` take the fuel for nested objects as an
-- argument, one more than `depth_fields` of the type.
--
-- Bounds: the theorems on `Buffered` are for files of fewer than 2 ^ 60 bytes, whose positions in
-- bits do not wrap, and for requests of at most 2 ^ 12 bits; the program requests at most 64.
--
-- Parameters: the lexer and parser that ANTLR generates give a parse tree and the syntax errors that
-- their listener is told of. Where error recovery leaves a node out that the visitor asks for, the
-- model is stuck; the theorems on the parser are for trees in which none is missing. `std::stod`, the
-- arithmetic of `double` and the default file system are parameters too, and so are the functions of
-- stdio, with the laws that C documents; that a read that fails leaves the position within the file is
-- a hypothesis of its own, since C leaves it open. A lexer error has no token, which the error listener
-- follows: the model is stuck there too, and the theorems on the parser are for syntax errors with one.
--
-- `std::unordered_map` does not say in which order it gives its keys; the model gives the names of
-- fields in the order of insertion, and the theorems on JSON only say that each name is there once.
-- The arguments as TCLAP parses them, the way a stream writes a `double`, and the addresses by which
-- the variant of `Value` compares objects are parameters as well.
--
-- Not modelled: asserts; failures of the output streams and of memory; the printing of sizes; the short
-- cut by which a node of a definition equals itself, which for types as in the theorem on their equality
-- gives what the comparison gives; hashes.
pub mod Common
pub mod Size
pub mod Error
pub mod Utf8
pub mod UtfString
pub mod Options
pub mod Value
pub mod Pointer
pub mod OptionSet
pub mod Exec
pub mod File
pub mod Buffered
pub mod TypeInfo
pub mod FileObject
pub mod Parser
pub mod FileParser
pub mod Integer
pub mod Json
pub mod App
mod Tests
