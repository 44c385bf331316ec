-- ===== src/Size.antt =====
-- include/binary_reader/size.h: a size or position in a file, as a count of bits in a `uint64_t`.
-- `Size` is its field `pos_`; every operation keeps the wrap of the 64-bit arithmetic.
use binary_reader.Common.{
  ℕ, ◌+◌, ◌-◌, ◌*◌, ◌/◌, ◌%◌, ◌^◌, ◌<◌, Bool, u64, u8, sub64, ltb, leb, ◌==◌, not,
}
pub mod Laws

pub record Size : Type 0 where
  pub pos : ℕ

-- `Size()`
abbrev pub zero_size : Size
zero_size = record { pos = 0 }

unfoldable pub from_bytes : ℕ → Size
from_bytes bytes = record { pos = u64 (bytes * 8) }

unfoldable pub from_bytes_and_offset : ℕ → ℕ → Size
from_bytes_and_offset bytes bit_offset = record { pos = u64 (u64 (bytes * 8) + bit_offset) }

unfoldable pub from_bits : ℕ → Size
from_bits bits = record { pos = u64 bits }

-- `operator+`, and `operator+=`, which stores the same sum.
unfoldable pub add : Size → Size → Size
add a b = record { pos = u64 (a.pos + b.pos) }

unfoldable pub add_assign : Size → Size → Size
add_assign a b = record { pos = u64 (a.pos + b.pos) }

unfoldable pub sub : Size → Size → Size
sub a b = record { pos = sub64 a.pos b.pos }

-- `operator-=`. The source adds here.
unfoldable pub sub_assign : Size → Size → Size
sub_assign a b = record { pos = u64 (a.pos + b.pos) }

unfoldable pub bit_count : Size → ℕ
bit_count s = s.pos

unfoldable pub bit_offset : Size → ℕ
bit_offset s = u8 (s.pos % 8)

unfoldable pub byte_count : Size → ℕ
byte_count s = s.pos / 8

unfoldable pub clip_to_byte : Size → Size
clip_to_byte s = record { pos = sub64 s.pos (s.pos % 8) }

unfoldable pub size_eq : Size → Size → Bool
unfolding bit_count
size_eq a b = bit_count a == bit_count b

unfoldable pub size_ne : Size → Size → Bool
unfolding bit_count
size_ne a b = not (bit_count a == bit_count b)

unfoldable pub size_gt : Size → Size → Bool
unfolding bit_count
size_gt a b = ltb (bit_count b) (bit_count a)

unfoldable pub size_ge : Size → Size → Bool
unfolding bit_count
size_ge a b = leb (bit_count b) (bit_count a)

unfoldable pub size_lt : Size → Size → Bool
unfolding bit_count
size_lt a b = ltb (bit_count a) (bit_count b)

unfoldable pub size_le : Size → Size → Bool
unfolding bit_count
size_le a b = leb (bit_count a) (bit_count b)

-- A value that a `uint64_t` holds.
abbrev pub InRange : Size → Type 0
InRange s = s.pos < 2 ^ 64
