-- ===== src/FileObject/Kinds.antt =====
-- The kind of the values that fields have.
use binary_reader.Common.{
  ℕ, suc, ◌-◌, ◌*◌, ◌^◌, ◌≤◌, ◌<◌, List, length, length-take, take, All, All-take, All-drop, ◌≡◌,
  sym, ap, subst, ◌∙◌, inl, inr, ◌&&◌, leb, leb→le, Bool-cases, ℤ, pos, negsuc, arith, ◌/◌,
}
use native.Mathlib.Nat.{pow-suc, pow-le-pow_right}
use binary_reader.Size.{Size}
use binary_reader.Options.{Signedness}
use binary_reader.Integer.{is_signed}
use binary_reader.Integer.Bytes.{IsByte, bytes_value, bytes_value_bound}
use binary_reader.Integer.Sign.{two_complement}
use binary_reader.Value.{Value, Number, number, object}
use binary_reader.Value.Order.{Holds, at_least_zero, below_zero}
use binary_reader.TypeInfo.{TypeInfo, integer, definition}
use binary_reader.TypeInfo.Typed.{IsTyped, whole, fields}
use binary_reader.FileObject.{FileObject}
use binary_reader.FileObject.Invariant.{IsAt, from_position}

-- The reading of a value in two's complement is a number of 64 bits in the alternative of its sign.
two_complement-Holds :
    (sign : Signedness) (n v : ℕ)
    → 0 < n
    → n ≤ 8
    → v < 2 ^ (8 * n)
    → (z : ℤ) × Holds (two_complement sign (8 * n) v) z
two_complement-Holds sign n v some_byte few small =
    let top : suc (8 * n - 1) ≡ 8 * n = omega arith in
    let double : 2 ^ (8 * n) ≡ 2 ^ (8 * n - 1) * 2 =
      ap (λ (k : ℕ). 2 ^ k) (sym top) ∙ pow-suc 2 (8 * n - 1) in
    let bounded : 2 ^ (8 * n) ≤ 2 ^ 64 = pow-le-pow_right (omega arith) {j = 64} (omega arith) in
    elim (Bool-cases (is_signed sign && leb (2 ^ (8 * n - 1)) v)) [
      | inl below ↦
          let above : 2 ^ (8 * n - 1) ≤ v = leb→le (2 ^ (8 * n - 1)) v (ground arith) in
          rw below (
            negsuc (2 ^ (8 * n) - 1 - v),
            below_zero (omega (arith, double, bounded, above, small)),
          )
      | inr positive ↦ rw positive (pos v, at_least_zero (omega (arith, bounded, small)))
    ]

-- A number of 64 bits for an integer type, and an object for a definition.
abbrev pub HasKind : TypeInfo → Value → Type 0
HasKind (integer i) v = (n : Number) × (z : ℤ) × (v ≡ number n) × Holds n z
HasKind (definition d n ss) v = (id : ℕ) × (v ≡ object id)

module _ (bytes : List ℕ) (all : All IsByte bytes) where
  pub IsAt-HasKind :
      (heap : List FileObject) {t : TypeInfo} (p : Size) (v : Value)
      → IsTyped t
      → IsAt bytes heap t p v
      → HasKind t v
  IsAt-HasKind heap {t} p v (whole {i} k) (n, width, there, is) =
      let from = from_position bytes p in
      let long : length (take n from) ≡ n = omega (arith, length-take n from, there) in
      let small : bytes_value i.order (take n from) < 2 ^ (8 * n) =
        subst (λ (m : ℕ). bytes_value i.order (take n from) < 2 ^ (8 * m)) long
          (bytes_value_bound i.order (take n from) (omega (arith, long, width, k.width, k.few))
            (All-take IsByte n from (All-drop IsByte (p.pos / 8) bytes all))) in
      let (z, holds) =
        two_complement-Holds i.sign n (bytes_value i.order (take n from))
          (omega (arith, width, k.width, k.some_byte)) (omega (arith, width, k.width, k.few))
          small in
      (two_complement i.sign (8 * n) (bytes_value i.order (take n from)), z, is, holds)
  IsAt-HasKind heap {t} p v (fields h) (id, o, is, there, type, start) = (id, is)
