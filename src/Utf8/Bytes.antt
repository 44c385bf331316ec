-- ===== src/Utf8/Bytes.antt =====
-- The bit tests of the converter, as arithmetic on bytes.
use binary_reader.Common.{
  ℕ, ◌+◌, ◌*◌, ◌/◌, ◌≤◌, ◌<◌, bit_and, ◌≡◌, refl, arith, Bool, true, ◌&&◌, ◌==◌, holds_under,
  holds_under-true,
}
use binary_reader.Utf8.{get_num_bytes}

-- The high bits that each test of the converter keeps.
abbrev high_bits : ℕ → Bool
high_bits x =
    (bit_and x 0x80 == x / 128 * 128)
    && (bit_and x 0xe0 == x / 32 * 32)
    && (bit_and x 0xf0 == x / 16 * 16)
    && (bit_and x 0xf8 == x / 8 * 8)
    && (bit_and x 0xc0 == x / 64 * 64)

high_bits_table : holds_under high_bits 256 ≡ true
unfolding holds_under
high_bits_table = refl

record HighBits (x : ℕ) : Type 0 where
  one : bit_and x 0x80 ≡ x / 128 * 128
  two : bit_and x 0xc0 ≡ x / 64 * 64
  three : bit_and x 0xe0 ≡ x / 32 * 32
  four : bit_and x 0xf0 ≡ x / 16 * 16
  five : bit_and x 0xf8 ≡ x / 8 * 8

byte-HighBits : (x : ℕ) → x < 256 → HighBits x
byte-HighBits x h = ground (arith, holds_under-true high_bits 256 x h high_bits_table)

pub bit_and_top_two : (x : ℕ) → x < 256 → bit_and x 0xc0 ≡ x / 64 * 64
bit_and_top_two x h = (byte-HighBits x h).two

-- The length of a sequence by its first byte.
pub get_num_bytes_one : (x : ℕ) → x < 0x80 → get_num_bytes x ≡ 1
unfolding get_num_bytes
get_num_bytes_one x h = ground (arith, byte-HighBits x (omega arith))

pub get_num_bytes_two : (x : ℕ) → x < 32 → get_num_bytes (0xc0 + x) ≡ 2
unfolding get_num_bytes
get_num_bytes_two x h = ground (arith, byte-HighBits (0xc0 + x) (omega arith))

pub get_num_bytes_three : (x : ℕ) → x < 16 → get_num_bytes (0xe0 + x) ≡ 3
unfolding get_num_bytes
get_num_bytes_three x h = ground (arith, byte-HighBits (0xe0 + x) (omega arith))

pub get_num_bytes_four : (x : ℕ) → x < 8 → get_num_bytes (0xf0 + x) ≡ 4
unfolding get_num_bytes
get_num_bytes_four x h = ground (arith, byte-HighBits (0xf0 + x) (omega arith))

pub get_num_bytes-le : (x : ℕ) → get_num_bytes x ≤ 4
unfolding get_num_bytes
get_num_bytes-le x = ground arith
