-- ===== src/Integer.antt =====
-- `IntegerTypeInfo::ReadValue` of src/ast/type_info.cc: the bits of an integer at the position of a
-- reader, as a value.
pub mod Bytes
pub mod Laws
pub mod Sign
pub mod Last
pub mod Live
use binary_reader.Common.{
  ℕ, zero, suc, ◌+◌, ◌-◌, ◌*◌, ◌/◌, ◌%◌, ◌^◌, min, bit_and, bit_or, Bool, true, false, ◌&&◌, ◌||◌,
  not, List, [], ◌∷◌, Option, none, some, length, get_or, if◌then◌else◌, ltb, ◌==◌, u8, u64, sub64,
  ◌<<<◌, ◌>>>◌, signed64,
}
use binary_reader.Size.{Size, from_bits, bit_count, bit_offset, byte_count}
use binary_reader.Error.Defs.{
  ErrorInfo, ErrorKind, unexpected_end_of_stream, little_endian_align, error, empty_error,
}
use binary_reader.Error.Message.{error_info}
use binary_reader.Error.Collection.{ErrorCollection, add}
use binary_reader.Exec.{
  Exec, Done, Outcome, ok, failed, stuck, done, return, fail_with, continue, get_state, ◌>>=◌, ◌>>◌,
}
use binary_reader.File.{FileReader}
use binary_reader.Buffered.{BufferedFileReader, position, ensure_buffer, get_buffer, skip}
use binary_reader.Options.{Signedness, signed, ByteOrder, little_endian}
use binary_reader.Value.{Value, number, number_of_unsigned, number_of_signed}
use binary_reader.TypeInfo.{IntegerTypeInfo}

abbrev pub is_little : ByteOrder → Bool
is_little little_endian = true
is_little _ = false

abbrev pub is_signed : Signedness → Bool
is_signed signed = true
is_signed _ = false

-- One round of the loop over whole bytes.
unfoldable pub add_byte : ByteOrder → ℕ → ℕ → ℕ → ℕ
add_byte order index value byte =
    if is_little order
    then bit_or value (u64 (byte <<< (8 * index)))
    else bit_or (u64 (value <<< 8)) byte

-- The `for` over whole bytes, on fuel; it gives the value and the index that it ends with. A byte
-- outside `buffer` is not read: the caller has checked its length.
unfoldable pub byte_loop : ℕ → ByteOrder → List ℕ → ℕ → ℕ → ℕ → ℕ → Option (ℕ × ℕ)
unfolding add_byte
byte_loop zero order buffer count final_bits index value = none
byte_loop (suc fuel) order buffer count final_bits index value =
    let rest =
      byte_loop fuel order buffer count final_bits (suc index)
        (add_byte order index value (get_or buffer index 0)) in
    if ltb index (sub64 count 1) || (index == sub64 count 1 && final_bits == 0)
    then rest
    else some (value, index)

-- The bits of the first byte, where the integer does not start with it.
unfoldable pub first_bits : ℕ → ℕ → ℕ → ℕ
first_bits offset size byte = bit_and byte (2 ^ (8 - offset) - 1) >>> (8 - min (size + offset) 8)

-- The bits of the last byte. The source shifts by `final_bits`, not by the bits that are left over.
unfoldable pub last_bits : ℕ → ℕ → ℕ → ℕ → ℕ
last_bits final_bits count value byte =
    if not (final_bits == 0) && not (count == 1)
    then bit_or (u64 (value <<< final_bits)) (byte >>> final_bits)
    else value

-- The number of bits that the last byte holds, and the number of bytes touched.
abbrev pub final_bits : ℕ → ℕ → ℕ
final_bits offset size = u64 (offset + size) % 8

abbrev pub bytes_touched : ℕ → ℕ → ℕ
bytes_touched offset size = u64 (offset + size) / 8 + (if final_bits offset size == 0 then 0 else 1)

-- The `uint64_t` that is read out of `buffer`.
unfoldable pub raw_value : ByteOrder → ℕ → ℕ → List ℕ → Option ℕ
unfolding byte_loop first_bits last_bits
raw_value order offset size buffer =
    let count = bytes_touched offset size in
    let last = final_bits offset size in
    let skip_first = not (offset == 0) in
    let value = if skip_first then first_bits offset size (get_or buffer 0 0) else 0 in
    let index = if skip_first then 1 else 0 in
    elim (byte_loop (count + 2) order buffer count last index value) [
      | none ↦ none
      | some (v, i) ↦ some (last_bits last count v (get_or buffer i 0))
    ]

-- The `Number` of it: a negative one has its high bits filled.
unfoldable pub sign_extend : Signedness → ℕ → ℕ → Value
unfolding number_of_signed number_of_unsigned
sign_extend sign size value =
    if is_signed sign && not (bit_and value (u64 (1 <<< (size - 1))) == 0)
    then number (
        number_of_signed (
          signed64
            (if size == 64 then value else bit_or value (2 ^ 64 - 1 - sub64 (u64 (1 <<< size)) 1))))
    else number (number_of_unsigned value)

module _ {S : Type 0} (file : FileReader S) where
  -- `ReadValue`, from where the bytes are there.
  unfoldable pub finish : IntegerTypeInfo → ℕ → List ℕ → Exec (BufferedFileReader S) Value
  unfolding raw_value sign_extend bit_count from_bits skip
  finish t offset buffer b e = elim (raw_value t.order offset (bit_count t.size) buffer) [
    | none ↦ done stuck b e
    | some v ↦
        (skip file (from_bits (bit_count t.size))
            >> return (sign_extend t.sign (bit_count t.size) v))
          b e
  ]

  -- `ReadValue`, behind the check of the alignment.
  unfoldable pub read_bits : IntegerTypeInfo → ℕ → Exec (BufferedFileReader S) Value
  unfolding finish bit_count ensure_buffer get_buffer add error_info
  read_bits t offset =
      ensure_buffer file t.size
      >> (get_buffer file >>= λ buffer.
          if ltb (length buffer) (bytes_touched offset (bit_count t.size))
          then fail_with (λ c. add c (error_info t.debug unexpected_end_of_stream [] error 0))
          else finish t offset buffer)

  -- The test of the alignment, for a reader at bit `offset` of a byte.
  abbrev pub misaligned : IntegerTypeInfo → ℕ → Bool
  misaligned t offset =
      is_little t.order && (not (offset == 0) || not (final_bits offset (bit_count t.size) == 0))

  unfoldable pub read_integer : IntegerTypeInfo → Exec (BufferedFileReader S) Value
  unfolding read_bits position bit_offset byte_count bit_count add error_info
  read_integer t start e =
      let offset = bit_offset (position start) in
      if misaligned t offset
      then fail_with
          (λ c.
            add c (error_info t.debug little_endian_align [] error (byte_count (position start))))
          start e
      else read_bits t offset start e
