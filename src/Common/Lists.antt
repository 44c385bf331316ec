-- ===== src/Common/Lists.antt =====
-- Lists measured and indexed by native numbers, under the library's names; byte strings.
use Prim.Native.Nat.{ℕ, zero, suc, ◌+◌, ◌-◌, ◌≤◌, ◌<◌, min}
use Prim.Native.Nat.add
use Prim.Native.Char.{code}
use Prim.Native.String.{String}
use mathlib.Core.Path.{◌≡◌, refl, sym, ap, ◌∙◌}
use mathlib.Core.Logic.{◌↔◌, ◌≢◌, ◌⊎◌, inl, inr}
use mathlib.Core.Bool.{Bool, true, false, ◌&&◌}
use mathlib.Core.List.{List, [], ◌∷◌, ◌++◌}
use mathlib.Core.Option.{Option, none, some}
use native.Mathlib.Omega.{arith}
use binary_reader.Common.Tests.{◌==◌, ltb, if◌then◌else◌}

module _ {ℓ} {A : Type ℓ} where
  abbrev pub length : List A → ℕ
  length [] = 0
  length (x ∷ xs) = suc (length xs)

  abbrev pub get_elem? : List A → ℕ → Option A
  get_elem? [] i = none
  get_elem? (x ∷ xs) zero = some x
  get_elem? (x ∷ xs) (suc i) = get_elem? xs i

  abbrev pub get_or : List A → ℕ → A → A
  get_or [] i d = d
  get_or (x ∷ xs) zero d = x
  get_or (x ∷ xs) (suc i) d = get_or xs i d

  abbrev pub set : List A → ℕ → A → List A
  set [] i v = []
  set (x ∷ xs) zero v = v ∷ xs
  set (x ∷ xs) (suc i) v = x ∷ set xs i v

  abbrev pub take : ℕ → List A → List A
  take zero xs = []
  take (suc n) [] = []
  take (suc n) (x ∷ xs) = x ∷ take n xs

  abbrev pub drop : ℕ → List A → List A
  drop zero xs = xs
  drop (suc n) [] = []
  drop (suc n) (x ∷ xs) = drop n xs

  pub length-append : (xs ys : List A) → length (xs ++ ys) ≡ length xs + length ys
  length-append [] ys = omega arith
  length-append (x ∷ xs) ys = omega (arith, length-append xs ys)

  pub length-take : (n : ℕ) (xs : List A) → length (take n xs) ≡ min n (length xs)
  length-take zero xs = omega arith
  length-take (suc n) [] = omega arith
  length-take (suc n) (x ∷ xs) = omega (arith, length-take n xs)

  pub length-drop : (n : ℕ) (xs : List A) → length (drop n xs) ≡ length xs - n
  length-drop zero xs = omega arith
  length-drop (suc n) [] = omega arith
  length-drop (suc n) (x ∷ xs) = omega (arith, length-drop n xs)

  drop-nil : (n : ℕ) → drop n [] ≡ []
  drop-nil zero = refl
  drop-nil (suc n) = refl

  pub drop-drop : (m n : ℕ) (xs : List A) → drop m (drop n xs) ≡ drop (n + m) xs
  drop-drop m zero xs = ground arith
  drop-drop m (suc n) [] = drop-nil m ∙ sym (drop-nil (suc n + m))
  drop-drop m (suc n) (x ∷ xs) = rw (add.suc n m) (drop-drop m n xs)

-- A predicate on every element.
abbrev pub All {ℓ κ} : {A : Type ℓ} → (A → Type κ) → List A → Type κ
All P [] = Unit
All P (x ∷ xs) = P x × All P xs

-- The code points of a literal: its bytes, where it is ASCII.
abbrev pub codes : String → List ℕ
codes String.[] = []
codes (String.◌∷◌ c s) = code c ∷ codes s

-- `==` of strings, by code unit.
unfoldable pub str_eq : List ℕ → List ℕ → Bool
str_eq [] [] = true
str_eq [] (y ∷ ys) = false
str_eq (x ∷ xs) [] = false
str_eq (x ∷ xs) (y ∷ ys) = (x == y) && str_eq xs ys

str_eq→eq : (xs ys : List ℕ) → str_eq xs ys ≡ true → xs ≡ ys
unfolding str_eq
str_eq→eq [] [] h = refl
str_eq→eq [] (y ∷ ys) h = cc
str_eq→eq (x ∷ xs) [] h = cc
str_eq→eq (x ∷ xs) (y ∷ ys) h = ground (arith, str_eq→eq xs ys)

pub str_eq_refl : (xs : List ℕ) → str_eq xs xs ≡ true
unfolding str_eq
str_eq_refl [] = refl
str_eq_refl (x ∷ xs) = ground (arith, str_eq_refl xs)

pub str_eq_iff : (xs ys : List ℕ) → (str_eq xs ys ≡ true) ↔ (xs ≡ ys)
str_eq_iff xs ys = (str_eq→eq xs ys, λ e. rw e (str_eq_refl ys))

module _ {ℓ} {A : Type ℓ} where
  pub get_or-append :
      (xs ys : List A) (i : ℕ) (d : A)
      → get_or (xs ++ ys) i d
        ≡ (if ltb i (length xs) then get_or xs i d else get_or ys (i - length xs) d)
  get_or-append [] ys i d = ground arith
  get_or-append (x ∷ xs) ys zero d = ground arith
  get_or-append (x ∷ xs) ys (suc i) d = ground (arith, get_or-append xs ys i d)

  pub drop-append : (n : ℕ) (xs ys : List A) → n ≤ length xs → drop n (xs ++ ys) ≡ drop n xs ++ ys
  drop-append zero xs ys h = refl
  drop-append (suc n) [] ys h = absurd (omega arith)
  drop-append (suc n) (x ∷ xs) ys h = drop-append n xs ys (omega arith)

  pub drop-append_past :
      (n : ℕ) (xs ys : List A) → length xs ≤ n → drop n (xs ++ ys) ≡ drop (n - length xs) ys
  drop-append_past n [] ys h = ground arith
  drop-append_past zero (x ∷ xs) ys h = absurd (omega arith)
  drop-append_past (suc n) (x ∷ xs) ys h = ground (arith, drop-append_past n xs ys)

  take-nil : (n : ℕ) → take {A = A} n [] ≡ []
  take-nil zero = refl
  take-nil (suc n) = refl

  pub take-append_drop : (m n : ℕ) (xs : List A) → take m xs ++ take n (drop m xs) ≡ take (m + n) xs
  take-append_drop zero n xs = ground arith
  take-append_drop (suc m) n [] = take-nil n ∙ sym (take-nil (suc m + n))
  take-append_drop (suc m) n (x ∷ xs) =
      rw (add.suc m n) (ap (λ (t : List A). x ∷ t) (take-append_drop m n xs))

  pub take_all : (n : ℕ) (xs : List A) → length xs ≤ n → take n xs ≡ xs
  take_all n [] h = take-nil n
  take_all zero (x ∷ xs) h = absurd (omega arith)
  take_all (suc n) (x ∷ xs) h = ap (λ (t : List A). x ∷ t) (take_all n xs (omega arith))

  pub drop-take : (m n : ℕ) (xs : List A) → drop m (take (m + n) xs) ≡ take n (drop m xs)
  drop-take zero n xs = ground arith
  drop-take (suc m) n [] = rw (take-nil (suc m + n), take-nil n) refl
  drop-take (suc m) n (x ∷ xs) = rw (add.suc m n) (drop-take m n xs)

-- A suffix begins with the element that it starts at.
pub drop_here {ℓ} :
    {A : Type ℓ} (i : ℕ) (xs : List A) (d : A)
    → i < length xs
    → drop i xs ≡ get_or xs i d ∷ drop (suc i) xs
drop_here i [] d h = absurd (omega arith)
drop_here zero (x ∷ xs) d h = refl
drop_here (suc i) (x ∷ xs) d h = drop_here i xs d (omega arith)

pub take-take {ℓ} : {A : Type ℓ} (m n : ℕ) (xs : List A) → m ≤ n → take m (take n xs) ≡ take m xs
take-take zero n xs h = refl
take-take (suc m) zero xs h = absurd (omega arith)
take-take (suc m) (suc n) [] h = refl
take-take (suc m) (suc n) (x ∷ xs) h = ap (λ (t : List _). x ∷ t) (take-take m n xs (omega arith))

pub All-take {ℓ κ} :
    {A : Type ℓ} (P : A → Type κ) (n : ℕ) (xs : List A) → All P xs → All P (take n xs)
All-take P zero xs h = tt
All-take P (suc n) [] h = h
All-take P (suc n) (x ∷ xs) h = (h.0, All-take P n xs h.1)

pub All-drop {ℓ κ} :
    {A : Type ℓ} (P : A → Type κ) (n : ℕ) (xs : List A) → All P xs → All P (drop n xs)
All-drop P zero xs h = h
All-drop P (suc n) [] h = h
All-drop P (suc n) (x ∷ xs) h = All-drop P n xs h.1

module _ {ℓ} {A : Type ℓ} where
  pub get_elem?-append :
      (xs ys : List A) (i : ℕ) (x : A) → get_elem? xs i ≡ some x → get_elem? (xs ++ ys) i ≡ some x
  get_elem?-append [] ys i x h = cc
  get_elem?-append (y ∷ xs) ys zero x h = h
  get_elem?-append (y ∷ xs) ys (suc i) x h = get_elem?-append xs ys i x h

  pub get_elem?-append_new : (xs : List A) (y : A) → get_elem? (xs ++ y ∷ []) (length xs) ≡ some y
  get_elem?-append_new [] y = refl
  get_elem?-append_new (x ∷ xs) y = get_elem?-append_new xs y

  -- What stands in an extended list stood there, or is the new element.
  pub get_elem?-append_cases :
      (xs : List A) (y : A) (i : ℕ) (x : A)
      → get_elem? (xs ++ y ∷ []) i ≡ some x
      → (get_elem? xs i ≡ some x) ⊎ ((i ≡ length xs) × (x ≡ y))
  get_elem?-append_cases [] y zero x h = inr (refl, cc)
  get_elem?-append_cases [] y (suc i) x h = cc
  get_elem?-append_cases (z ∷ xs) y zero x h = inl h
  get_elem?-append_cases (z ∷ xs) y (suc i) x h = elim (get_elem?-append_cases xs y i x h) [
    | inl old ↦ inl old
    | inr (at, new) ↦ inr (omega (arith, at), new)
  ]

  pub get_elem?-set_self :
      (xs : List A) (i : ℕ) (x y : A) → get_elem? xs i ≡ some x → get_elem? (set xs i y) i ≡ some y
  get_elem?-set_self [] i x y h = cc
  get_elem?-set_self (z ∷ xs) zero x y h = refl
  get_elem?-set_self (z ∷ xs) (suc i) x y h = get_elem?-set_self xs i x y h

  -- What stands in an updated list stood there, or is the new element at its index.
  pub get_elem?-set_cases :
      (xs : List A) (i j : ℕ) (x y : A)
      → get_elem? (set xs i y) j ≡ some x
      → ((i ≢ j) × (get_elem? xs j ≡ some x)) ⊎ ((i ≡ j) × (x ≡ y))
  get_elem?-set_cases [] i j x y h = cc
  get_elem?-set_cases (z ∷ xs) zero zero x y h = inr (refl, cc)
  get_elem?-set_cases (z ∷ xs) zero (suc j) x y h = inl ((λ e. omega (arith, e)), h)
  get_elem?-set_cases (z ∷ xs) (suc i) zero x y h = inl ((λ e. omega (arith, e)), h)
  get_elem?-set_cases (z ∷ xs) (suc i) (suc j) x y h = elim (get_elem?-set_cases xs i j x y h) [
    | inl (apart, old) ↦ inl ((λ e. apart (omega (arith, e))), old)
    | inr (at, new) ↦ inr (omega (arith, at), new)
  ]

  pub get_elem?-set_other :
      (xs : List A) (i j : ℕ) (y : A) → i ≢ j → get_elem? (set xs i y) j ≡ get_elem? xs j
  get_elem?-set_other [] i j y h = refl
  get_elem?-set_other (z ∷ xs) zero zero y h = absurd (h refl)
  get_elem?-set_other (z ∷ xs) zero (suc j) y h = refl
  get_elem?-set_other (z ∷ xs) (suc i) zero y h = refl
  get_elem?-set_other (z ∷ xs) (suc i) (suc j) y h =
      get_elem?-set_other xs i j y (λ e. h (ap suc e))

  pub length-set : (xs : List A) (i : ℕ) (y : A) → length (set xs i y) ≡ length xs
  length-set [] i y = refl
  length-set (z ∷ xs) zero y = refl
  length-set (z ∷ xs) (suc i) y = ap suc (length-set xs i y)
