-- ===== src/Value/Order.antt =====
-- The integers that `Number` holds: their order, and the casts.
use binary_reader.Common.{
  ℕ, ◌^◌, ◌<◌, true, ℤ, pos, negsuc, pos_part, ltb_ℤ, ◌<ℤ◌, ◌≤ℤ◌, if◌then◌else◌, ◌≡◌, ◌↔◌, refl, ap,
  arith, ==_iff,
}
use binary_reader.Value.{Number, unsigned_int, signed_int}
use binary_reader.Value.Numbers.{
  Doubles, max_signed, as_unsigned, as_signed, number_eq, number_lt, number_le, number_ge,
  number_gt,
}

-- A number that holds an integer: at least 0 as unsigned, and a negative one as signed.
pub data Holds : Number → ℤ → Type 0 where
  at_least_zero : {n : ℕ} → n < 2 ^ 64 → Holds (unsigned_int n) (pos n)
  below_zero : {n : ℕ} → n < 2 ^ 63 → Holds (signed_int (negsuc n)) (negsuc n)

module _ (double : Doubles) where
  -- What the comparisons and the casts say of numbers that hold the integers `x` and `y`.
  pub record Agrees (a b : Number) (x y : ℤ) : Type 0 where
    pub eq : (number_eq double a b ≡ true) ↔ (x ≡ y)
    pub lt : (number_lt double a b ≡ true) ↔ (x <ℤ y)
    pub le : (number_le double a b ≡ true) ↔ (x ≤ℤ y)
    pub ge : (number_ge double a b ≡ true) ↔ (y ≤ℤ x)
    pub gt : (number_gt double a b ≡ true) ↔ (y <ℤ x)

  -- The comparisons of numbers that hold integers are those of the integers, also between the signed
  -- and the unsigned variant.
  pub number_lt-Agrees : (a b : Number) (x y : ℤ) → Holds a x → Holds b y → Agrees a b x y
  unfolding number_eq number_lt number_le number_ge number_gt
  number_lt-Agrees _ _ _ _ (at_least_zero {n = m} h) (at_least_zero {n = n} k) = record {
    eq = (λ e. ap pos ((==_iff m n).0 e), λ e. (==_iff m n).1 (ap pos_part e));
    lt = (λ e. ground arith, λ e. ground arith);
    le = (λ e. ground arith, λ e. ground arith);
    ge = (λ e. ground arith, λ e. ground arith);
    gt = (λ e. ground arith, λ e. ground arith);
  }
  number_lt-Agrees _ _ _ _ (at_least_zero {n = m} h) (below_zero {n = n} k) = record {
    eq = (λ e. absurd cc, λ e. absurd cc);
    lt = (λ e. absurd cc, λ e. absurd (omega arith));
    le = (λ e. absurd cc, λ e. absurd (omega arith));
    ge = (λ e. omega arith, λ e. refl);
    gt = (λ e. omega arith, λ e. refl);
  }
  number_lt-Agrees _ _ _ _ (below_zero {n = m} h) (at_least_zero {n = n} k) = record {
    eq = (λ e. absurd cc, λ e. absurd cc);
    lt = (λ e. omega arith, λ e. refl);
    le = (λ e. omega arith, λ e. refl);
    ge = (λ e. absurd cc, λ e. absurd (omega arith));
    gt = (λ e. absurd cc, λ e. absurd (omega arith));
  }
  number_lt-Agrees _ _ _ _ (below_zero {n = m} h) (below_zero {n = n} k) = record {
    eq = (λ e. ap negsuc ((==_iff m n).0 e), λ e. (==_iff m n).1 (cc));
    lt = (λ e. ground arith, λ e. ground arith);
    le = (λ e. ground arith, λ e. ground arith);
    ge = (λ e. ground arith, λ e. ground arith);
    gt = (λ e. ground arith, λ e. ground arith);
  }

  -- `as_signed` of a number that holds an integer is the integer, or the greatest signed one where it
  -- is greater; `as_unsigned` is the integer, or 0 where it is negative.
  pub as_signed-Holds :
      (a : Number) (x : ℤ)
      → Holds a x
      → (as_signed double a ≡ (if ltb_ℤ (pos max_signed) x then pos max_signed else x))
        × (as_unsigned double a ≡ pos_part x)
  unfolding as_signed as_unsigned
  as_signed-Holds _ _ (at_least_zero {n = n} h) = (ground arith, ground arith)
  as_signed-Holds _ _ (below_zero {n = n} h) = (ground arith, ground arith)
