-- ===== src/Utf8/Pairs.antt =====
-- Surrogate pairs: `combine` of the encoder against `to_utf16` of the decoder.
use binary_reader.Common.{
  ℕ, ◌+◌, ◌-◌, ◌*◌, ◌/◌, ◌%◌, ◌<◌, bit_or, ◌≡◌, refl, arith, Bool, true, [], ◌∷◌, ◌==◌,
  if◌then◌else◌, bit_and_mask, bit_or_field, bit_or_high, holds_under, holds_under-true,
}
use binary_reader.Utf8.{to_utf16, is_pair, combine}

-- A unit that the encoder writes on its own comes back, unless it is 0xffff.
pub to_utf16_unit : (a : ℕ) → a < 0xffff → to_utf16 a ≡ a ∷ []
unfolding to_utf16
to_utf16_unit a h = ground arith

-- The bit 2 ^ 16 of a high surrogate's part: set for the planes 2, 4, ..., 16.
abbrev pub IsEvenPlane : ℕ → Type 0
IsEvenPlane a = a / 64 % 2 ≡ 1

abbrev pub IsOddPlane : ℕ → Type 0
IsOddPlane a = a / 64 % 2 ≡ 0

bit_or_64 : ℕ → Bool
bit_or_64 x = if x / 64 % 2 == 0 then bit_or x 64 == x + 64 else bit_or x 64 == x

bit_or_64_table : holds_under bit_or_64 1024 ≡ true
unfolding holds_under bit_or_64
bit_or_64_table = refl

combine_lem :
    (a b : ℕ) → is_pair a b ≡ true → combine a b ≡ bit_or (a - 0xd800) 64 * 1024 + (b - 0xdc00)
unfolding is_pair combine
combine_lem a b h =
    ground
      (arith, bit_and_mask 10 a, bit_and_mask 10 b, bit_or_high 10 (a - 0xd800) 64 (b - 0xdc00))

pub combine_pair :
    (a b : ℕ)
    → is_pair a b ≡ true
    → IsOddPlane a
    → combine a b ≡ 0x10000 + (a - 0xd800) * 1024 + (b - 0xdc00)
unfolding is_pair bit_or_64
combine_pair a b h odd =
    ground (arith, combine_lem a b h, bit_or_64_table, holds_under-true bit_or_64 1024 (a - 0xd800))

-- In an even plane the `|` loses the carry of 0x10000.
pub combine_even :
    (a b : ℕ)
    → is_pair a b ≡ true
    → IsEvenPlane a
    → combine a b ≡ (a - 0xd800) * 1024 + (b - 0xdc00)
unfolding is_pair bit_or_64
combine_even a b h even =
    ground (arith, combine_lem a b h, bit_or_64_table, holds_under-true bit_or_64 1024 (a - 0xd800))

pub to_utf16_pair :
    (a b : ℕ)
    → is_pair a b ≡ true
    → to_utf16 (0x10000 + (a - 0xd800) * 1024 + (b - 0xdc00)) ≡ a ∷ b ∷ []
unfolding is_pair to_utf16
to_utf16_pair a b h = ground (
  arith,
  bit_and_mask 10 ((a - 0xd800) * 1024 + (b - 0xdc00)),
  bit_or_field 10 54 (a - 0xd800),
  bit_or_field 10 55 (b - 0xdc00),
)
