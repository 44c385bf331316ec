-- ===== src/Common/Decimal.antt =====
-- How a `std::ostream` writes an unsigned integer: decimal, with no leading zero.
use Prim.Native.Nat.{ℕ, zero, suc, ◌+◌, ◌/◌, ◌%◌}
use mathlib.Core.List.{List, [], ◌∷◌}
use binary_reader.Common.Tests.{ltb, if◌then◌else◌}

-- The digits of `n` in front of `acc`; a `uint64_t` has at most 20.
unfoldable pub digits_before : ℕ → ℕ → List ℕ → List ℕ
digits_before zero n acc = acc
digits_before (suc fuel) n acc =
    let rest = digits_before fuel (n / 10) ((b'0' + n % 10) ∷ acc) in
    if ltb n 10 then (b'0' + n) ∷ acc else rest

unfoldable pub decimal : ℕ → List ℕ
unfolding digits_before
decimal n = digits_before 20 n []
