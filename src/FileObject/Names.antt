-- ===== src/FileObject/Names.antt =====
-- The names of an object's fields: the keys of `field_name_map`.
use binary_reader.Common.{
  ℕ, List, [], ◌∷◌, map, some, ◌≡◌, refl, ◌∙◌, true, false, Bool-cases, ◌||◌, inl, inr, arith,
  lookup, insert, str_eq, str_eq_iff,
}
use binary_reader.Parser.Names.{Distinct, is_among}

abbrev pub keys : List (List ℕ × ℕ) → List (List ℕ)
keys = map (λ p. p.0)

is_among-insert :
    (k n : List ℕ) (i : ℕ) (m : List (List ℕ × ℕ))
    → is_among n (keys (insert k i m)) ≡ (str_eq k n || is_among n (keys m))
unfolding insert
is_among-insert k n i [] = refl
is_among-insert k n i ((j, w) ∷ m) =
    ground (arith, str_eq_iff j k, str_eq_iff j n, str_eq_iff k n, is_among-insert k n i m)

-- The keys of a map stay apart.
pub insert-Distinct :
    (k : List ℕ) (i : ℕ) (m : List (List ℕ × ℕ))
    → Distinct (keys m)
    → Distinct (keys (insert k i m))
unfolding insert
insert-Distinct k i [] apart = (refl, tt)
insert-Distinct k i ((j, w) ∷ m) (own, apart) = elim (Bool-cases (str_eq j k)) [
  | inl same ↦ rw same (own, apart)
  | inr other ↦
      let back : str_eq k j ≡ false = ground (arith, str_eq_iff j k, str_eq_iff k j) in
      rw other (is_among-insert k j i m ∙ rw back own, insert-Distinct k i m apart)
]

-- A name is a key where the map has it.
pub is_among-lookup :
    (n : List ℕ) (i : ℕ) (m : List (List ℕ × ℕ)) → lookup n m ≡ some i → is_among n (keys m) ≡ true
unfolding lookup
is_among-lookup n i [] h = absurd cc
is_among-lookup n i ((j, w) ∷ m) h = ground (arith, is_among-lookup n i m)

pub lookup-is_among :
    (n : List ℕ) (m : List (List ℕ × ℕ))
    → is_among n (keys m) ≡ true
    → (i : ℕ) × (lookup n m ≡ some i)
unfolding lookup
lookup-is_among n [] h = absurd cc
lookup-is_among n ((j, w) ∷ m) h = elim (Bool-cases (str_eq j n)) [
  | inl same ↦ (w, rw same refl)
  | inr other ↦ let (i, there) = lookup-is_among n m (rw other at h) in (i, rw other there)
]
