-- ===== src/Value/Laws.antt =====
-- The order of values.
use binary_reader.Common.{
  ℕ, List, ◌≡◌, refl, ap, ◌↔◌, sym, subst, Bool, true, not, ◌||◌, inl, inr, arith, ==_iff, OneOf,
  OneOf-numbers, ℤ, ◌<ℤ◌,
}
use binary_reader.Value.{Value, Number, null, number, string, object}
use binary_reader.Value.Numbers.{Doubles, number_eq, number_lt}
use binary_reader.Value.Order.{Holds, at_least_zero, below_zero, number_lt-Agrees}
use binary_reader.UtfString.Order.{string_lt-OneOf, string_lt_trans, string_eq_iff}
use binary_reader.Value.Compare.{value_eq, value_lt, value_le, value_gt, value_ge}

-- A value that holds no double; the numbers are as their constructors make them.
pub data IsExact : Value → Type 0 where
  exact_null : IsExact null
  exact_number : {n : Number} (z : ℤ) → Holds n z → IsExact (number n)
  exact_string : (s : List ℕ) → IsExact (string s)
  exact_object : (i : ℕ) → IsExact (object i)

le-OneOf : (l e g : Bool) → OneOf l e g → (e || l) ≡ not g
le-OneOf l e g (inl (p, q, r)) = rw (p, q, r) refl
le-OneOf l e g (inr (inl (p, q, r))) = rw (p, q, r) refl
le-OneOf l e g (inr (inr (p, q, r))) = rw (p, q, r) refl

gt-OneOf : (l e g : Bool) → OneOf l e g → not (e || l) ≡ g
gt-OneOf l e g (inl (p, q, r)) = rw (p, q, r) refl
gt-OneOf l e g (inr (inl (p, q, r))) = rw (p, q, r) refl
gt-OneOf l e g (inr (inr (p, q, r))) = rw (p, q, r) refl

same_number : (a b : Number) (x y : ℤ) → Holds a x → Holds b y → x ≡ y → a ≡ b
same_number _ _ _ _ (at_least_zero h) (at_least_zero k) e = ground arith
same_number _ _ _ _ (at_least_zero h) (below_zero k) e = absurd cc
same_number _ _ _ _ (below_zero h) (at_least_zero k) e = absurd cc
same_number _ _ _ _ (below_zero h) (below_zero k) e = cc

module _ (double : Doubles) (address : ℕ → ℕ) where
  number_lt-OneOf :
      (a b : Number) (x y : ℤ)
      → Holds a x
      → Holds b y
      → OneOf (number_lt double a b) (number_eq double a b) (number_lt double b a)
  unfolding number_lt number_eq
  number_lt-OneOf _ _ _ _ (at_least_zero {n = m} h) (at_least_zero {n = n} k) = OneOf-numbers m n
  number_lt-OneOf _ _ _ _ (at_least_zero h) (below_zero k) = inr (inr (refl, refl, refl))
  number_lt-OneOf _ _ _ _ (below_zero h) (at_least_zero k) = inl (refl, refl, refl)
  number_lt-OneOf _ _ _ _ (below_zero {n = m} h) (below_zero {n = n} k) = elim (OneOf-numbers n m) [
    | inl (p, q, r) ↦ inl (ground arith, ground arith, ground arith)
    | inr (inl (p, q, r)) ↦ inr (inl (ground arith, ground arith, ground arith))
    | inr (inr (p, q, r)) ↦ inr (inr (ground arith, ground arith, ground arith))
  ]

  -- Of two values without doubles, either one is less or they are equal.
  value_lt-OneOf :
      (a b : Value)
      → IsExact a
      → IsExact b
      → OneOf
          (value_lt double address a b)
          (value_eq double address a b)
          (value_lt double address b a)
  unfolding value_lt value_eq
  value_lt-OneOf _ _ exact_null exact_null = inr (inl (refl, refl, refl))
  value_lt-OneOf _ _ exact_null (exact_number y k) = inl (refl, refl, refl)
  value_lt-OneOf _ _ exact_null (exact_string t) = inl (refl, refl, refl)
  value_lt-OneOf _ _ exact_null (exact_object j) = inl (refl, refl, refl)
  value_lt-OneOf _ _ (exact_number x h) exact_null = inr (inr (refl, refl, refl))
  value_lt-OneOf _ _ (exact_number {n = m} x h) (exact_number {n = n} y k) =
      number_lt-OneOf m n x y h k
  value_lt-OneOf _ _ (exact_number x h) (exact_string t) = inl (refl, refl, refl)
  value_lt-OneOf _ _ (exact_number x h) (exact_object j) = inl (refl, refl, refl)
  value_lt-OneOf _ _ (exact_string s) exact_null = inr (inr (refl, refl, refl))
  value_lt-OneOf _ _ (exact_string s) (exact_number y k) = inr (inr (refl, refl, refl))
  value_lt-OneOf _ _ (exact_string s) (exact_string t) = string_lt-OneOf s t
  value_lt-OneOf _ _ (exact_string s) (exact_object j) = inl (refl, refl, refl)
  value_lt-OneOf _ _ (exact_object i) exact_null = inr (inr (refl, refl, refl))
  value_lt-OneOf _ _ (exact_object i) (exact_number y k) = inr (inr (refl, refl, refl))
  value_lt-OneOf _ _ (exact_object i) (exact_string t) = inr (inr (refl, refl, refl))
  value_lt-OneOf _ _ (exact_object i) (exact_object j) = OneOf-numbers (address i) (address j)

  value_lt_trans :
      (a b c : Value)
      → IsExact a
      → IsExact b
      → IsExact c
      → value_lt double address a b ≡ true
      → value_lt double address b c ≡ true
      → value_lt double address a c ≡ true
  unfolding value_lt
  value_lt_trans _ _ _ (exact_number {n = l} x h) (exact_number {n = m} y k)
        (exact_number {n = n} z g) p q =
      let first : x <ℤ y = (number_lt-Agrees double l m x y h k).lt.0 p in
      let second : y <ℤ z = (number_lt-Agrees double m n y z k g).lt.0 q in
      (number_lt-Agrees double l n x z h g).lt.1 (omega arith)
  value_lt_trans _ _ _ (exact_string s) (exact_string t) (exact_string u) p q =
      string_lt_trans s t u p q
  value_lt_trans _ _ _ (exact_object i) (exact_object j) (exact_object k) p q = ground arith
  value_lt_trans _ _ _ x y z p q = ground arith

  pub value_eq_refl : (a : Value) → IsExact a → value_eq double address a a ≡ true
  unfolding value_eq
  value_eq_refl _ exact_null = refl
  value_eq_refl _ (exact_number {n} z h) = (number_lt-Agrees double n n z z h h).eq.1 refl
  value_eq_refl _ (exact_string s) = (string_eq_iff s s).1 refl
  value_eq_refl _ (exact_object i) = (==_iff (address i) (address i)).1 refl

  module _ (apart : (i j : ℕ) → address i ≡ address j → i ≡ j) where
    pub value_eq→eq :
        (a b : Value) → IsExact a → IsExact b → value_eq double address a b ≡ true → a ≡ b
    unfolding value_eq
    value_eq→eq _ _ (exact_number {n = m} x h) (exact_number {n = n} y k) p =
        ap number (same_number m n x y h k ((number_lt-Agrees double m n x y h k).eq.0 p))
    value_eq→eq _ _ (exact_string s) (exact_string t) p = ap string ((string_eq_iff s t).0 p)
    value_eq→eq _ _ (exact_object i) (exact_object j) p =
        ap object (apart i j ((==_iff (address i) (address j)).0 p))
    value_eq→eq _ _ exact_null exact_null p = refl
    value_eq→eq _ _ x y p = absurd cc

    -- What the comparisons say of two values.
    pub record IsOrdered (a b : Value) : Type 0 where
      pub one_of :
          OneOf
            (value_lt double address a b)
            (value_eq double address a b)
            (value_lt double address b a)
      pub same : (value_eq double address a b ≡ true) ↔ (a ≡ b)
      pub le_is : value_le double address a b ≡ not (value_lt double address b a)
      pub ge_is : value_ge double address a b ≡ value_le double address b a
      pub gt_is : value_gt double address a b ≡ value_lt double address b a

    -- Values without doubles are ordered totally, where different objects have different addresses:
    -- `<` holds one way or the other or `==` does, which it does of a value and itself only; the other
    -- comparisons follow from these two, and `<` is transitive.
    pub value_lt-IsOrdered :
        (a b c : Value)
        → IsExact a
        → IsExact b
        → IsExact c
        → IsOrdered a b
          × (value_lt double address a b ≡ true
              → value_lt double address b c ≡ true
              → value_lt double address a c ≡ true)
    unfolding value_le value_ge value_gt
    value_lt-IsOrdered a b c x y z =
        let one = value_lt-OneOf a b x y in
        let other = value_lt-OneOf b a y x in
        (
          record {
            one_of = one;
            same = (
              value_eq→eq a b x y,
              λ e. subst (λ q. value_eq double address a q ≡ true) e (value_eq_refl a x),
            );
            le_is =
                le-OneOf (value_lt double address a b) (value_eq double address a b)
                  (value_lt double address b a) one;
            ge_is = sym (
                le-OneOf (value_lt double address b a) (value_eq double address b a)
                  (value_lt double address a b) other);
            gt_is =
                gt-OneOf (value_lt double address a b) (value_eq double address a b)
                  (value_lt double address b a) one;
          },
          value_lt_trans a b c x y z,
        )
