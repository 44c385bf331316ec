-- ===== src/Common/Assoc.antt =====
-- A `std::unordered_map<std::string, V>` as an association list. Its iteration order is not
-- specified in C++; the list keeps the order of insertion.
use mathlib.Core.Path.{◌≡◌, refl}
use mathlib.Core.List.{List, [], ◌∷◌}
use mathlib.Core.Option.{Option, none, some}
use Prim.Native.Nat.{ℕ}
use native.Mathlib.Omega.{arith}
use binary_reader.Common.Tests.{if◌then◌else◌}
use binary_reader.Common.Lists.{str_eq, str_eq_iff}

module _ {ℓ} {V : Type ℓ} where
  -- `find`
  unfoldable pub lookup : List ℕ → List (List ℕ × V) → Option V
  lookup k [] = none
  lookup k ((j, v) ∷ m) = if str_eq j k then some v else lookup k m

  -- `m[k] = v`
  unfoldable pub insert : List ℕ → V → List (List ℕ × V) → List (List ℕ × V)
  insert k v [] = (k, v) ∷ []
  insert k v ((j, w) ∷ m) = if str_eq j k then (j, v) ∷ m else (j, w) ∷ insert k v m

  -- `emplace(k, v)`, which keeps the value of a key that is there.
  unfoldable pub emplace : List ℕ → V → List (List ℕ × V) → List (List ℕ × V)
  emplace k v [] = (k, v) ∷ []
  emplace k v ((j, w) ∷ m) = if str_eq j k then (j, w) ∷ m else (j, w) ∷ emplace k v m

  pub lookup-insert :
      (k j : List ℕ) (v : V) (m : List (List ℕ × V))
      → lookup j (insert k v m) ≡ (if str_eq k j then some v else lookup j m)
  unfolding lookup insert
  lookup-insert k j v [] = refl
  lookup-insert k j v ((i, w) ∷ m) =
      ground (arith, str_eq_iff k j, str_eq_iff i k, str_eq_iff i j, lookup-insert k j v m)

  pub lookup-emplace :
      (k j : List ℕ) (v : V) (m : List (List ℕ × V))
      → lookup j (emplace k v m) ≡ (elim (lookup k m) [
        | some w ↦ lookup j m
        | none ↦ if str_eq k j then some v else lookup j m
      ])
  unfolding lookup emplace
  lookup-emplace k j v [] = refl
  lookup-emplace k j v ((i, w) ∷ m) =
      ground (arith, str_eq_iff k j, str_eq_iff i k, str_eq_iff i j, lookup-emplace k j v m)
