-- ===== src/Size/Laws.antt =====
-- The arithmetic of `Size`.
use binary_reader.Common.{◌^◌, ◌≡◌, ◌↔◌, ◌⊎◌, arith}
use binary_reader.Size.{
  Size, from_bytes_and_offset, add, sub, sub_assign, bit_offset, byte_count, InRange,
}

-- A size in range is the bytes that it counts and the bits beyond them.
pub from_bytes_and_offset-byte_count :
    (s : Size) → InRange s → from_bytes_and_offset (byte_count s) (bit_offset s) ≡ s
unfolding from_bytes_and_offset byte_count bit_offset
from_bytes_and_offset-byte_count s h = ground arith

-- `operator-` undoes `operator+` on sizes in range, whether or not the sum wraps.
pub sub-add : (a b : Size) → InRange a → InRange b → sub (add a b) b ≡ a
unfolding add sub
sub-add a b ha hb = ground arith

-- `operator-=` stores a - b only where b is a multiple of 2 ^ 63 bits, so for b = 0 in practice.
pub sub_assign-eq-sub_iff :
    (a b : Size)
    → InRange a
    → InRange b
    → (sub_assign a b ≡ sub a b) ↔ ((b.pos ≡ 0) ⊎ (b.pos ≡ 2 ^ 63))
unfolding sub_assign sub
sub_assign-eq-sub_iff a b ha hb = ground arith
