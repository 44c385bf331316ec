-- ===== src/UtfString/Order.antt =====
-- The order of strings.
use binary_reader.Common.{
  ℕ, List, [], ◌∷◌, ◌≡◌, refl, ◌↔◌, true, inl, inr, arith, str_eq, str_eq_iff, ltb, ◌==◌, OneOf,
  OneOf-then, OneOf-numbers,
}
use binary_reader.UtfString.{string_eq, string_lt}

swapped : (x y : ℕ) → (y == x) ≡ (x == y)
swapped x y = ground arith

pub string_lt-OneOf : (a b : List ℕ) → OneOf (string_lt a b) (string_eq a b) (string_lt b a)
unfolding string_lt string_eq str_eq
string_lt-OneOf [] [] = inr (inl (refl, refl, refl))
string_lt-OneOf [] (y ∷ ys) = inl (refl, refl, refl)
string_lt-OneOf (x ∷ xs) [] = inr (inr (refl, refl, refl))
string_lt-OneOf (x ∷ xs) (y ∷ ys) = rw (swapped x y) (
    OneOf-then (ltb x y) (x == y) (ltb y x) (string_lt xs ys) (string_eq xs ys) (string_lt ys xs)
      (OneOf-numbers x y) (string_lt-OneOf xs ys))

pub string_lt_trans :
    (a b c : List ℕ) → string_lt a b ≡ true → string_lt b c ≡ true → string_lt a c ≡ true
unfolding string_lt
string_lt_trans [] [] c h k = absurd cc
string_lt_trans [] (y ∷ ys) [] h k = absurd cc
string_lt_trans [] (y ∷ ys) (z ∷ zs) h k = refl
string_lt_trans (x ∷ xs) [] c h k = absurd cc
string_lt_trans (x ∷ xs) (y ∷ ys) [] h k = absurd cc
string_lt_trans (x ∷ xs) (y ∷ ys) (z ∷ zs) h k = ground (arith, string_lt_trans xs ys zs)

pub string_eq_iff : (a b : List ℕ) → (string_eq a b ≡ true) ↔ (a ≡ b)
unfolding string_eq
string_eq_iff a b = str_eq_iff a b
