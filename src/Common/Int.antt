-- ===== src/Common/Int.antt =====
-- Signed integers over the native numbers, under the library's names, and the two's complement
-- reading of a 64-bit word.
use Prim.Native.Nat.{ℕ, suc, ◌+◌, ◌-◌, ◌^◌, ◌≤◌, ◌<◌}
use mathlib.Core.Bool.{Bool}
use binary_reader.Common.Tests.{ltb, if◌then◌else◌}

-- `negsuc n` is -(n + 1).
pub data ℤ : Type 0 where
  pos : ℕ → ℤ
  negsuc : ℕ → ℤ

abbrev pub pos_part : ℤ → ℕ
pos_part (pos n) = n
pos_part (negsuc n) = 0

abbrev pub neg_part : ℤ → ℕ
neg_part (pos n) = 0
neg_part (negsuc n) = suc n

infix 50 ◌≤ℤ◌ ◌<ℤ◌
abbrev pub ◌≤ℤ◌ : ℤ → ℤ → Type 0
a ≤ℤ b = pos_part a + neg_part b ≤ pos_part b + neg_part a

abbrev pub ◌<ℤ◌ : ℤ → ℤ → Type 0
a <ℤ b = pos_part a + neg_part b < pos_part b + neg_part a

abbrev pub ltb_ℤ : ℤ → ℤ → Bool
ltb_ℤ a b = ltb (pos_part a + neg_part b) (pos_part b + neg_part a)

-- `static_cast<int64_t>` of a `uint64_t`.
abbrev pub signed64 : ℕ → ℤ
signed64 w = if ltb w (2 ^ 63) then pos w else negsuc (2 ^ 64 - w - 1)
