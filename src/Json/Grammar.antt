-- ===== src/Json/Grammar.antt =====
-- The part of the JSON grammar of RFC 8259 that objects, numbers and null need, and that the text of
-- a document is in it.
use binary_reader.Common.{
  ℕ, zero, suc, ◌+◌, ◌*◌, ◌/◌, ◌%◌, ◌^◌, ◌≤◌, ◌<◌, List, [], ◌∷◌, ◌++◌, All, ◌≡◌, Bool, true, not,
  ◌&&◌, ◌||◌, ◌==◌, ltb, leb, codes, arith, Bool-cases, inl, inr, decimal, digits_before,
}
use native.Mathlib.Nat.{pow-suc}

-- ws
abbrev pub is_blank : ℕ → Bool
is_blank c = c == b' ' || (c == b'\n' || (c == b'\r' || c == b'\t'))

abbrev pub IsBlank : List ℕ → Type 0
IsBlank = All (λ c. is_blank c ≡ true)

-- A character that stands for itself in a string.
abbrev pub is_plain : ℕ → Bool
is_plain c = leb 0x20 c && (not (c == 0x22) && not (c == 0x5c))

abbrev pub IsPlain : List ℕ → Type 0
IsPlain = All (λ c. is_plain c ≡ true)

-- int, and number without a fraction or an exponent
abbrev pub IsDigit : ℕ → Type 0
IsDigit c = (b'0' ≤ c) × (c ≤ b'9')

pub data IsInt : List ℕ → Type 0 where
  zero_alone : IsInt (b'0' ∷ [])
  digits : (d : ℕ) (ds : List ℕ) → b'1' ≤ d → d ≤ b'9' → All IsDigit ds → IsInt (d ∷ ds)

pub data IsNumber : List ℕ → Type 0 where
  plain_int : {t : List ℕ} → IsInt t → IsNumber t
  minus_int : {t : List ℕ} → IsInt t → IsNumber (b'-' ∷ t)

mutual
  -- value
  pub data IsValue : List ℕ → Type 0 where
    null_value : IsValue (codes "null")
    number_value : {t : List ℕ} → IsNumber t → IsValue t
    empty_object : (w : List ℕ) → IsBlank w → IsValue (codes "{" ++ (w ++ codes "}"))
    object_value :
        (t w : List ℕ) → IsMembers t → IsBlank w → IsValue (codes "{" ++ (t ++ (w ++ codes "}")))

  -- member *( value-separator member )
  pub data IsMembers : List ℕ → Type 0 where
    one_member : {t : List ℕ} → IsMember t → IsMembers t
    more_members : {s t : List ℕ} → IsMember s → IsMembers t → IsMembers (s ++ (codes "," ++ t))

  -- string name-separator value, with blanks round each
  pub data IsMember : List ℕ → Type 0 where
    pair :
        (a name b v c : List ℕ)
        → IsBlank a
        → IsPlain name
        → IsBlank b
        → IsValue v
        → IsBlank c
        → IsMember (a ++ ((codes "\"" ++ (name ++ codes "\":")) ++ (b ++ (v ++ c))))

-- JSON-text
pub data IsJson : List ℕ → Type 0 where
  json : (v c : List ℕ) → IsValue v → IsBlank c → IsJson (v ++ c)

digits_before-IsInt :
    (fuel n : ℕ) (acc : List ℕ)
    → n < 10 ^ fuel
    → 0 < n
    → All IsDigit acc
    → IsInt (digits_before fuel n acc)
unfolding digits_before
digits_before-IsInt zero n acc small some_digit all = absurd (omega arith)
digits_before-IsInt (suc fuel) n acc small some_digit all = elim (Bool-cases (ltb n 10)) [
  | inl last ↦ rw last (digits (b'0' + n) acc (ground arith) (ground arith) all)
  | inr more ↦
      let scale : 10 ^ suc fuel ≡ 10 ^ fuel * 10 = pow-suc 10 fuel in
      let many : 10 ≤ n = ground arith in
      rw more (
        digits_before-IsInt fuel (n / 10) ((b'0' + n % 10) ∷ acc) (omega (arith, scale, small))
          (omega (arith, many)) ((omega arith, omega arith), all))
]

pub decimal-IsInt : (n : ℕ) → n < 10 ^ 20 → IsInt (decimal n)
unfolding decimal digits_before
decimal-IsInt zero small = zero_alone
decimal-IsInt (suc n) small = digits_before-IsInt 20 (suc n) [] small (omega arith) tt
