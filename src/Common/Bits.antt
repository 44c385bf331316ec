-- ===== src/Common/Bits.antt =====
-- `&` with a low mask and `|` of disjoint fields, as arithmetic.
use Prim.Native.Nat.{
  ℕ, zero, suc, ◌+◌, ◌-◌, ◌*◌, ◌/◌, ◌%◌, ◌^◌, ◌≤◌, ◌<◌, min, max, bit_and, bit_or,
}
use Prim.Native.Nat.{digits, bit_and-bitwise, bit_or-bitwise}
use mathlib.Core.Path.{◌≡◌, refl, ap, ap₂, ◌∙◌}
use mathlib.Core.Bool.{Bool, true, ◌&&◌}
use native.Mathlib.Omega.{arith}
use native.Mathlib.Nat.{add-suc, pow-suc, one-le-pow}

-- Fuel beyond the first number is never used.
module _ (z : ℕ → ℕ) (f : ℕ → ℕ → ℕ) where
  digits-suc : (n a b : ℕ) → a ≤ n → digits z f (suc n) a b ≡ digits z f n a b
  digits-suc zero zero b h = refl
  digits-suc zero (suc a) b h = absurd (omega arith)
  digits-suc (suc n) zero b h = refl
  digits-suc (suc n) (suc a) b h = omega (arith, digits-suc n (suc a / 2) (b / 2) (omega arith))

  digits_excess : (d n m a b : ℕ) → m ≡ n + d → a ≤ n → digits z f m a b ≡ digits z f n a b
  digits_excess zero n m a b e h = ground arith
  digits_excess (suc d) n zero a b e h = absurd (omega arith)
  digits_excess (suc d) n (suc m) a b e h =
      omega (arith, digits-suc m a b (omega arith), digits_excess d n m a b (omega arith) h)

  digits_unroll :
      (a b : ℕ)
      → digits z f (suc a) (suc a) b
        ≡ digits z f (suc a / 2) (suc a / 2) (b / 2) * 2 + f (suc a % 2) (b % 2)
  digits_unroll a b =
      let half : ℕ = suc a / 2 in
      omega (arith, digits_excess (a - half) half a half (b / 2) (omega arith) (omega arith))

and_unroll : (a b : ℕ) → bit_and a b ≡ bit_and (a / 2) (b / 2) * 2 + min (a % 2) (b % 2)
and_unroll zero b = omega (arith, bit_and-bitwise 0 b, bit_and-bitwise 0 (b / 2))
and_unroll (suc a) b = omega (
  arith,
  bit_and-bitwise (suc a) b,
  bit_and-bitwise (suc a / 2) (b / 2),
  digits_unroll (λ y. zero) min a b,
)

or_unroll : (a b : ℕ) → bit_or a b ≡ bit_or (a / 2) (b / 2) * 2 + max (a % 2) (b % 2)
or_unroll zero b = omega (arith, bit_or-bitwise 0 b, bit_or-bitwise 0 (b / 2))
or_unroll (suc a) b = omega (
  arith,
  bit_or-bitwise (suc a) b,
  bit_or-bitwise (suc a / 2) (b / 2),
  digits_unroll (λ y. y) max a b,
)

and_zero : (n a : ℕ) → a ≤ n → bit_and a 0 ≡ 0
and_zero n zero h = omega (arith, bit_and-bitwise 0 0)
and_zero zero (suc a) h = absurd (omega arith)
and_zero (suc n) (suc a) h =
    omega (arith, and_unroll (suc a) 0, and_zero n (suc a / 2) (omega arith))

or_zero : (n a : ℕ) → a ≤ n → bit_or a 0 ≡ a
or_zero n zero h = omega (arith, bit_or-bitwise 0 0)
or_zero zero (suc a) h = absurd (omega arith)
or_zero (suc n) (suc a) h = omega (arith, or_unroll (suc a) 0, or_zero n (suc a / 2) (omega arith))

doubled : (q k : ℕ) → q * 2 ^ suc k ≡ q * 2 ^ k * 2
doubled q k = omega (arith, ap (λ (t : ℕ). q * t) (pow-suc 2 k))

pub bit_and_field : (k q r : ℕ) → r < 2 ^ k → bit_and (q * 2 ^ k + r) (2 ^ k - 1) ≡ r
bit_and_field zero q r h = ground (arith, and_zero (q * 1 + r) (q * 1 + r))
bit_and_field (suc k) q r h = ground (
  arith,
  and_unroll (q * 2 ^ suc k + r) (2 ^ suc k - 1),
  doubled q k,
  pow-suc 2 k,
  one-le-pow k 2,
  bit_and_field k q (r / 2) (omega (arith, pow-suc 2 k)),
)

-- A mask of `k` ones is the remainder by `2 ^ k`.
pub bit_and_mask : (k a : ℕ) → bit_and a (2 ^ k - 1) ≡ a % 2 ^ k
bit_and_mask k a = ground (arith, one-le-pow k 2, bit_and_field k (a / 2 ^ k) (a % 2 ^ k))

-- A field of `k` low bits, joined to the bits above it.
pub bit_or_field : (k q r : ℕ) → r < 2 ^ k → bit_or (q * 2 ^ k) r ≡ q * 2 ^ k + r
bit_or_field zero q r h = ground (arith, or_zero q q)
bit_or_field (suc k) q r h = ground (
  arith,
  or_unroll (q * 2 ^ suc k) r,
  doubled q k,
  bit_or_field k q (r / 2) (omega (arith, pow-suc 2 k)),
)

-- A test of all numbers under a small bound, from the bound down, and what it shows of each.
unfoldable pub holds_under : (ℕ → Bool) → ℕ → Bool
holds_under test zero = true
holds_under test (suc bound) = holds_under test bound && test bound

pub holds_under-true :
    (test : ℕ → Bool) (bound n : ℕ) → n < bound → holds_under test bound ≡ true → test n ≡ true
unfolding holds_under
holds_under-true test zero n small all = absurd (omega arith)
holds_under-true test (suc bound) n small all = ground (arith, holds_under-true test bound n)

-- `|` leaves the `k` low bits of one side alone where the other has none.
pub bit_or_high :
    (k x p r : ℕ) → r < 2 ^ k → bit_or (x * 2 ^ k) (p * 2 ^ k + r) ≡ bit_or x p * 2 ^ k + r
bit_or_high zero x p r h =
    let bare : bit_or (x * 2 ^ 0) (p * 2 ^ 0 + r) ≡ bit_or x p =
      ap₂ bit_or (omega arith) (omega arith) in
    omega (arith, bare)
bit_or_high (suc k) x p r h = ground (
  arith,
  or_unroll (x * 2 ^ suc k) (p * 2 ^ suc k + r),
  doubled x k,
  doubled p k,
  doubled (bit_or x p) k,
  bit_or_high k x p (r / 2) (omega (arith, pow-suc 2 k)),
)

or_zero_left : (n b : ℕ) → b ≤ n → bit_or 0 b ≡ b
or_zero_left n zero h = omega (arith, bit_or-bitwise 0 0)
or_zero_left zero (suc b) h = absurd (omega arith)
or_zero_left (suc n) (suc b) h =
    omega (arith, or_unroll 0 (suc b), or_zero_left n (suc b / 2) (omega arith))

-- A field of `k` low bits, with the bits above it joined to it.
pub bit_or_field_left : (k q r : ℕ) → r < 2 ^ k → bit_or r (q * 2 ^ k) ≡ q * 2 ^ k + r
bit_or_field_left zero q r h = ground (arith, or_zero_left q q)
bit_or_field_left (suc k) q r h = ground (
  arith,
  or_unroll r (q * 2 ^ suc k),
  doubled q k,
  bit_or_field_left k q (r / 2) (omega (arith, pow-suc 2 k)),
)

-- The bit of weight `2 ^ k`.
pub bit_and_bit : (k q r : ℕ) → r < 2 ^ k → bit_and (q * 2 ^ k + r) (2 ^ k) ≡ (q % 2) * 2 ^ k
bit_and_bit zero q r h =
    ground (arith, and_unroll (q * 1 + r) 1, and_zero ((q * 1 + r) / 2) ((q * 1 + r) / 2))
bit_and_bit (suc k) q r h = ground (
  arith,
  and_unroll (q * 2 ^ suc k + r) (2 ^ suc k),
  doubled q k,
  doubled (q % 2) k,
  pow-suc 2 k,
  bit_and_bit k q (r / 2) (omega (arith, pow-suc 2 k)),
)

pub pow_add : (a b : ℕ) → 2 ^ (a + b) ≡ 2 ^ a * 2 ^ b
pow_add a zero = let bare : a + 0 ≡ a = omega arith in ap (λ (n : ℕ). 2 ^ n) bare ∙ omega arith
pow_add a (suc b) =
    let here : 2 ^ (a + suc b) ≡ 2 ^ (a + b) * 2 =
      ap (λ (n : ℕ). 2 ^ n) (add-suc a b) ∙ pow-suc 2 (a + b) in
    omega (arith, here, pow_add a b, doubled (2 ^ a) b)
