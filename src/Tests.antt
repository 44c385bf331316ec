-- ===== src/Tests.antt =====
-- Runs of the definitions at small inputs, and the theorems applied to them.
mod Program
mod Interfaces
mod Run
mod Objects
mod Values
use binary_reader.Common.{
  All, ℕ, ◌≡◌, ◌≢◌, ◌↔◌, refl, arith, true, false, List, [], ◌∷◌, ◌++◌, ◌⊎◌, none, some, codes,
  if◌then◌else◌, str_eq, ◌-◌, ◌≤◌, ◌^◌, ◌>>>◌, ◌+◌, ◌*◌, ◌/◌, ◌%◌, inl,
}
use binary_reader.Size.{
  Size, sub, add, sub_assign, add_assign, from_bytes_and_offset, byte_count, bit_offset,
}
use binary_reader.Size.Laws.{from_bytes_and_offset-byte_count, sub-add, sub_assign-eq-sub_iff}
use binary_reader.Error.Defs.{empty_error, no_debug, unknown_type}
use binary_reader.Error.Collection.{no_errors, add_all_from}
use binary_reader.Error.Collection.{add as add_error}
use binary_reader.Error.Message.{default_error_message, default_messages, MessageInfo}
use binary_reader.Error.Laws.{
  IsConsistent, IsEntry, render, default_error_message-eq-render, add-IsConsistent,
  add_all_from-IsConsistent,
}
use binary_reader.Exec.{ok, Ensures, failed}
use binary_reader.File.Memory.{MemoryFileReader, memory_file, memory_file-IsFile, IsValid}
use binary_reader.File.ReadFully.{Gives, read_fully-Gives}
use binary_reader.File.{read_fully}
use binary_reader.Buffered.{
  BufferedFileReader, position, seek, make_room, ensure_buffer, get_buffer, new_buffered,
  buffer_size,
}
use binary_reader.Buffered.Invariant.{
  buffer_size_bounds, Inv, At, new_buffered-Inv, seek-At, make_room-At,
}
use binary_reader.Buffered.Laws.{ensure_buffer-At, ensure_buffer-Filled, Filled}
use binary_reader.Buffered.Window.{Shows, get_buffer-Shows}
use binary_reader.Options.{
  parse_option, success, unknown_string, cast_byte_order, option_data, set_option, get_option,
  OptionType, AnyOption, byte_order, signed, big_endian, Options, new_options, default_options,
  any_byte_order, check_option_data,
}
use binary_reader.Options.Laws.{meaning, allowed, parse_option-meaning, set_option-parse_option}
use binary_reader.OptionSet.{OptionSet, OptionValue, add_option, build_static_options}
use binary_reader.OptionSet.Laws.{
  Refused, resolve, resolve_all, add_option-resolve, build_static_options-resolve_all,
}
use binary_reader.TypeInfo.{IntegerTypeInfo, Statements, integer, field, end, calculate_size}
use binary_reader.FileObject.{FileObject, reparse_object}
use binary_reader.Integer.Laws.{Reads, read_integer-Reads, read_integer-failed}
use binary_reader.Integer.{read_integer, last_bits, sign_extend}
use binary_reader.Integer.Sign.{two_complement, sign_extend-two_complement}
use binary_reader.Value.{string, number}
use binary_reader.Integer.Last.{last_bits-eq_iff}
use binary_reader.Integer.Bytes.{IsByte}
use binary_reader.Utf8.{
  Status, stuck, DecodeResult, result, is_pair, decode_loop, decode_round, get_num_bytes,
  new_converter, decode, encode,
}
use binary_reader.Utf8.RoundTrip.{decode-encode, encode_even_plane}
use binary_reader.Utf8.Stream.{IsPartial, view, decode-ne-stuck, decode_chunks}

-- A file of three bytes and a reader at its start.
abbrev pub three_bytes : MemoryFileReader
three_bytes = record { buffer = 0xff ∷ 0xfe ∷ 0x03 ∷ []; pos = 0 }

pub three_bytes-IsValid : IsValid three_bytes
three_bytes-IsValid = record { within = omega arith; fits = omega arith }

abbrev reader : BufferedFileReader MemoryFileReader
reader = new_buffered three_bytes

abbrev pub contents : MemoryFileReader → List ℕ
contents r = r.buffer

reader-Inv : Inv memory_file IsValid contents memory_file-IsFile reader
reader-Inv =
    new_buffered-Inv memory_file IsValid contents memory_file-IsFile three_bytes three_bytes-IsValid
      (omega arith) refl

pub three_bytes-IsByte : All IsByte (contents three_bytes)
three_bytes-IsByte = (omega arith, (omega arith, (omega arith, tt)))

abbrev int16 : IntegerTypeInfo
int16 = record {
  debug = no_debug;
  alias_name = codes "int16";
  size = record { pos = 16 };
  sign = signed;
  order = big_endian;
}

read_integer-Reads_example :
    let r = read_integer memory_file int16 reader no_errors in
    Ensures r.outcome
      (λ v. Reads memory_file IsValid contents memory_file-IsFile int16 2 reader v r.state)
unfolding position
read_integer-Reads_example =
    read_integer-Reads memory_file IsValid contents memory_file-IsFile int16 2 reader no_errors
      (omega arith) (omega arith) refl reader-Inv three_bytes-IsByte refl

last_bits-eq_iff_example :
    ((byte : ℕ) → IsByte byte → last_bits 4 2 0 byte ≡ byte >>> 4) ↔ (◌≡◌ {A = ℕ} 4 4)
last_bits-eq_iff_example = last_bits-eq_iff 4 2 (omega arith) (omega arith) (omega arith)

sign_extend-two_complement_example :
    sign_extend signed 16 0xfffe ≡ number (two_complement signed 16 0xfffe)
sign_extend-two_complement_example =
    sign_extend-two_complement signed 16 0xfffe (omega arith) (omega arith) (omega arith)

seek-At_example :
    let r = seek memory_file (record { pos = 12 }) reader no_errors in
    Ensures r.outcome (λ _.
      At memory_file IsValid contents memory_file-IsFile
        (record { pos = 12 })
        (contents three_bytes)
        r.state)
seek-At_example =
    seek-At memory_file IsValid contents memory_file-IsFile (record { pos = 12 }) reader no_errors
      reader-Inv (omega arith)

ensure_buffer-At_example :
    let r = ensure_buffer memory_file (record { pos = 16 }) reader no_errors in
    Ensures r.outcome (λ _.
      At memory_file IsValid contents memory_file-IsFile
        (position reader)
        (contents three_bytes)
        r.state
      × Filled memory_file IsValid contents memory_file-IsFile (record { pos = 16 }) r.state)
ensure_buffer-At_example =
    ensure_buffer-At memory_file IsValid contents memory_file-IsFile (record { pos = 16 }) reader
      no_errors reader-Inv (omega arith)

make_room-At_example :
    At memory_file IsValid contents memory_file-IsFile
      (position reader)
      (contents three_bytes)
      (make_room (record { pos = 16 }) reader)
    × ((make_room (record { pos = 16 }) reader).buffer_offset.pos + 16 ≤ buffer_size * 8)
make_room-At_example =
    make_room-At memory_file IsValid contents memory_file-IsFile (record { pos = 16 }) reader
      reader-Inv (omega arith)

-- The reader once the whole file is in its buffer.
abbrev filled : BufferedFileReader MemoryFileReader
filled = record {
  reader = record { buffer = 0xff ∷ 0xfe ∷ 0x03 ∷ []; pos = 3 };
  buffer = 0xff ∷ 0xfe ∷ 0x03 ∷ [];
  start_position = record { pos = 0 };
  buffer_offset = record { pos = 8 };
}

filled-Inv : Inv memory_file IsValid contents memory_file-IsFile filled
filled-Inv = record {
  valid = record { within = omega arith; fits = omega arith };
  small = omega arith;
  aligned = refl;
  start_in = omega arith;
  holds = refl;
  behind = refl;
  offset_le = omega arith;
  capped = omega (arith, buffer_size_bounds);
}

filled-Filled : Filled memory_file IsValid contents memory_file-IsFile (record { pos = 16 }) filled
filled-Filled = inl (omega arith)

ensure_buffer-Filled_example :
    let r = ensure_buffer memory_file (record { pos = 1 }) filled no_errors in
    Ensures r.outcome
      (λ _. Filled memory_file IsValid contents memory_file-IsFile (record { pos = 16 }) r.state)
ensure_buffer-Filled_example =
    ensure_buffer-Filled memory_file IsValid contents memory_file-IsFile (record { pos = 16 })
      (record { pos = 1 }) filled no_errors filled-Inv (omega arith) filled-Filled

get_buffer-Shows_example :
    let r = get_buffer memory_file filled no_errors in
    Ensures r.outcome (λ bytes.
      Shows memory_file IsValid contents memory_file-IsFile
        (((position filled).pos % 8 + 16 + 7) / 8)
        filled
        bytes
        r.state)
get_buffer-Shows_example =
    get_buffer-Shows memory_file IsValid contents memory_file-IsFile (record { pos = 16 }) filled
      no_errors filled-Inv filled-Filled

read_fully-Gives_example :
    Gives (contents three_bytes) (read_fully memory_file 4 three_bytes no_errors).outcome
read_fully-Gives_example =
    read_fully-Gives memory_file IsValid contents memory_file-IsFile 4 three_bytes no_errors
      three_bytes-IsValid (omega arith)

abbrev one_bit : Size
one_bit = record { pos = 1 }

abbrev two_bits : Size
two_bits = record { pos = 2 }

sub_assign-eq-sub_iff_example :
    (sub_assign two_bits one_bit ≡ sub two_bits one_bit)
    ↔ ((◌≡◌ {A = ℕ} 1 0) ⊎ (◌≡◌ {A = ℕ} 1 (2 ^ 63)))
sub_assign-eq-sub_iff_example = sub_assign-eq-sub_iff two_bits one_bit (omega arith) (omega arith)

default_error_message-eq-render_example :
    (m : MessageInfo) × IsEntry m default_messages
    × (m.kind ≡ unknown_type)
    × (default_error_message unknown_type (codes "foo" ∷ codes "bar" ∷ [])
        ≡ render m.format (codes "foo" ∷ codes "bar" ∷ []))
default_error_message-eq-render_example =
    default_error_message-eq-render unknown_type (codes "foo" ∷ codes "bar" ∷ [])

parse_option-meaning_example :
    parse_option (byte_order ∷ []) (some (codes "network")) ≡ (elim (meaning (codes "network")) [
      | some (t, a) ↦ if allowed (byte_order ∷ []) t then success t a else unknown_string
      | none ↦ unknown_string
    ])
parse_option-meaning_example = parse_option-meaning (byte_order ∷ []) (codes "network")

network_parsed :
    parse_option [] (some (codes "network")) ≡ success byte_order (any_byte_order big_endian)
unfolding parse_option str_eq cast_byte_order option_data
network_parsed = refl

set_option-parse_option_example :
    (allowed [] byte_order ≡ true)
    × ((set_option new_options byte_order (any_byte_order big_endian)).0 ≡ true)
    × (get_option
          (set_option new_options byte_order (any_byte_order big_endian)).1
          byte_order
          default_options
        ≡ any_byte_order big_endian)
set_option-parse_option_example =
    set_option-parse_option [] (codes "network") byte_order (any_byte_order big_endian) new_options
      default_options network_parsed

decode-encode_example :
    decode new_converter (encode (0x41 ∷ 0xe9 ∷ 0xd800 ∷ 0xdc00 ∷ []) []).1 [] empty_error
    ≡ result Status.success [] ([] ++ (0x41 ∷ 0xe9 ∷ 0xd800 ∷ 0xdc00 ∷ [])) empty_error
unfolding is_pair
decode-encode_example = decode-encode (0x41 ∷ 0xe9 ∷ 0xd800 ∷ 0xdc00 ∷ []) [] empty_error (
  omega arith,
  ground arith,
  (omega arith, ground arith, (omega arith, (λ _. refl), (omega arith, tt))),
)

encode_even_plane_example :
    encode (0xd840 ∷ 0xdc00 ∷ []) [] ≡ encode ((0xd840 - 64) ∷ 0xdc00 ∷ []) []
unfolding is_pair
encode_even_plane_example = encode_even_plane 0xd840 0xdc00 [] [] refl refl

decode-ne-stuck_example : (decode new_converter (0xe2 ∷ 0x82 ∷ []) [] empty_error).status ≢ stuck
decode-ne-stuck_example = decode-ne-stuck new_converter (0xe2 ∷ 0x82 ∷ []) [] empty_error tt

abbrev first_chunk : DecodeResult
first_chunk = decode new_converter (0xe2 ∷ 0x82 ∷ []) [] empty_error

first_chunk_succeeds : first_chunk.status ≡ Status.success
unfolding decode decode_loop decode_round get_num_bytes
first_chunk_succeeds = refl

decode_chunks_example :
    IsPartial first_chunk.converter.temp
    × (view (decode first_chunk.converter (0xac ∷ []) first_chunk.output empty_error)
        ≡ view (decode new_converter ((0xe2 ∷ 0x82 ∷ []) ++ (0xac ∷ [])) [] empty_error))
decode_chunks_example =
    decode_chunks new_converter (0xe2 ∷ 0x82 ∷ []) (0xac ∷ []) [] empty_error empty_error
      empty_error tt first_chunk_succeeds

abbrev network_option : OptionValue
network_option = record { debug = no_debug; type = byte_order; static_value = codes "network" }

abbrev option_set : OptionSet
option_set = record { options = network_option ∷ []; option_types = byte_order ∷ [] }

add_option-resolve_example :
    let r = add_option byte_order (string (codes "network")) no_debug [] new_options no_errors in
    ((t : OptionType) × (a : AnyOption) × (resolve byte_order (codes "network") [] ≡ some (t, a))
      × (r ≡ (true, (set_option new_options t a).1, no_errors)))
    ⊎ ((resolve byte_order (codes "network") [] ≡ none)
        × Refused byte_order (codes "network") no_debug [] new_options no_errors r)
add_option-resolve_example =
    add_option-resolve byte_order (codes "network") no_debug [] new_options no_errors

build_static_options-resolve_all_example :
    let r = build_static_options option_set [] new_options no_errors in
    ((o' : Options) × (resolve_all option_set.options [] new_options ≡ some o')
      × (r ≡ (true, o', no_errors)))
    ⊎ ((resolve_all option_set.options [] new_options ≡ none)
        × (r.0 ≡ false)
        × (r.2.has_error ≡ true))
build_static_options-resolve_all_example =
    build_static_options-resolve_all option_set [] new_options no_errors

-- The table of options has no type twice and no name twice within a type.
option_data_checked : check_option_data ≡ true
unfolding check_option_data str_eq
option_data_checked = refl

abbrev uint32 : IntegerTypeInfo
uint32 = record int16 { size = record { pos = 32 } }

read_integer-failed_example : (read_integer memory_file uint32 reader no_errors).outcome ≡ failed
unfolding position
read_integer-failed_example =
    read_integer-failed memory_file IsValid contents memory_file-IsFile uint32 4 reader no_errors
      (omega arith) (omega arith) refl reader-Inv three_bytes-IsByte refl (omega arith)

-- A type of two fields, and an object of it at the second byte.
abbrev two_fields : Statements
two_fields =
    field no_debug (codes "a") (integer int16) none
      (field no_debug (codes "b") (integer uint32) none end)

abbrev object_of_two : FileObject
object_of_two = record {
  type = some two_fields;
  start_position = record { pos = 8 };
  parsed_fields = [];
  field_name_map = [];
}

two_fields_end : calculate_size (record { pos = 8 }) two_fields ≡ some (record { pos = 56 })
unfolding calculate_size add_assign
two_fields_end = refl
