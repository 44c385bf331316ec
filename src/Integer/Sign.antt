-- ===== src/Integer/Sign.antt =====
-- The sign of an integer that was read, against two's complement.
use binary_reader.Common.{
  ℕ, zero, suc, ◌+◌, ◌-◌, ◌*◌, ◌^◌, ◌≤◌, ◌<◌, ◌≡◌, refl, sym, ap, ◌∙◌, arith, Bool-cases, true,
  false, ◌&&◌, inl, inr, bit_and, bit_or, bit_and_bit, bit_or_field_left, pow_add, if◌then◌else◌,
  ltb, leb, leb→le, ◌==◌, u64, sub64, signed64, negsuc,
}
use binary_reader.Options.{Signedness}
use binary_reader.Value.{
  Number, number, unsigned_int, signed_int, number_of_signed, number_of_unsigned,
}
use binary_reader.Integer.{is_signed, sign_extend}
use native.Mathlib.Nat.{pow-suc, pow-le-pow_right, one-le-pow}

-- The number that `size` bits with the value `v` stand for.
abbrev pub two_complement : Signedness → ℕ → ℕ → Number
two_complement sign size v =
    if is_signed sign && leb (2 ^ (size - 1)) v
    then signed_int (negsuc (2 ^ size - 1 - v))
    else unsigned_int v

top_clear : (k v : ℕ) → v < 2 ^ k → bit_and v (2 ^ k) ≡ 0
top_clear k v lt =
    let split : 0 * 2 ^ k + v ≡ v = omega arith in
    ap (λ (x : ℕ). bit_and x (2 ^ k)) (sym split) ∙ bit_and_bit k 0 v lt ∙ omega arith

top_set : (k v : ℕ) → 2 ^ k ≤ v → v < 2 ^ suc k → bit_and v (2 ^ k) ≡ 2 ^ k
top_set k v le lt =
    let split : 1 * 2 ^ k + (v - 2 ^ k) ≡ v = omega arith in
    ap (λ (x : ℕ). bit_and x (2 ^ k)) (sym split)
    ∙ bit_and_bit k 1 (v - 2 ^ k) (omega (arith, pow-suc 2 k))
    ∙ omega arith

filled :
    (k v : ℕ)
    → k < 63
    → v < 2 ^ suc k
    → bit_or v (2 ^ 64 - 1 - sub64 (u64 (1 * 2 ^ suc k)) 1) ≡ 2 ^ 64 - 2 ^ suc k + v
filled k v small lt =
    let p : ℕ = 2 ^ suc k in
    let q : ℕ = 2 ^ (63 - k) - 1 in
    let split : q + 1 ≡ 2 ^ (63 - k) = omega (arith, one-le-pow (63 - k) 2) in
    let whole : (q + 1) * p ≡ 2 ^ 64 =
      ap (λ (x : ℕ). x * p) split ∙ sym (pow_add (63 - k) (suc k)) ∙ exponent (omega arith) in
    let bounded : p ≤ 2 ^ 63 = pow-le-pow_right (omega arith) {j = 63} (omega arith) in
    let mask : 2 ^ 64 - 1 - sub64 (u64 (1 * p)) 1 ≡ q * p =
      omega (arith, whole, bounded, one-le-pow (suc k) 2) in
    ap (bit_or v) mask ∙ bit_or_field_left (suc k) q v lt ∙ omega (arith, whole)
  where
    exponent : {n : ℕ} → n ≡ 64 → 2 ^ n ≡ 2 ^ 64
    exponent e = ap (λ (n : ℕ). 2 ^ n) e

negative :
    (w : ℕ) → 2 ^ 63 ≤ w → number_of_signed (signed64 w) ≡ signed_int (negsuc (2 ^ 64 - w - 1))
unfolding number_of_signed
negative w h = let big : ltb w (2 ^ 63) ≡ false = ground arith in rw big refl

abbrev stored : ℕ → ℕ → ℕ
stored k v = if suc k == 64 then v else bit_or v (2 ^ 64 - 1 - sub64 (u64 (1 * 2 ^ suc k)) 1)

stored_lem : (k v : ℕ) → k < 64 → v < 2 ^ suc k → stored k v ≡ 2 ^ 64 - 2 ^ suc k + v
stored_lem k v le lt = elim (Bool-cases (suc k == 64)) [
  | inl full ↦ let top : k ≡ 63 = ground arith in rw full (rw top omega arith)
  | inr part ↦ rw part (filled k v (ground arith) lt)
]

sign_bit : (k : ℕ) → k < 64 → u64 (1 * 2 ^ (suc k - 1)) ≡ 2 ^ k
sign_bit k lt =
    let same : suc k - 1 ≡ k = omega arith in
    let bounded : 2 ^ k ≤ 2 ^ 63 = pow-le-pow_right (omega arith) {j = 63} (omega arith) in
    rw same (omega arith)

-- For a value that fits in `size` bits, 1 to 64, the stored number is its two's complement reading
-- in a signed type and the value itself in any other.
pub sign_extend-two_complement :
    (sign : Signedness) (size v : ℕ)
    → 0 < size
    → size ≤ 64
    → v < 2 ^ size
    → sign_extend sign size v ≡ number (two_complement sign size v)
unfolding sign_extend number_of_signed number_of_unsigned
sign_extend-two_complement sign zero v more le lt = absurd (omega arith)
sign_extend-two_complement sign (suc k) v more le lt = elim (Bool-cases (is_signed sign)) [
  | inr h ↦ rw h refl
  | inl h ↦ rw h (elim (Bool-cases (leb (2 ^ k) v)) [
    | inl high ↦
        let set = top_set k v (ground arith) lt in
        let size : suc k - 1 ≡ k = omega arith in
        let test : (bit_and v (2 ^ k) == 0) ≡ false = ground (arith, set, one-le-pow k 2) in
        rw (sign_bit k le, test, size, high)
          (ap number (
            ap (λ (w : ℕ). number_of_signed (signed64 w)) (stored_lem k v le lt)
            ∙ negative (2 ^ 64 - 2 ^ suc k + v)
                (omega (arith, pow-suc 2 k, bounded, leb→le (2 ^ k) v high))
            ∙ ap (λ (n : ℕ). signed_int (negsuc n)) (omega (arith, bounded))))
    | inr low ↦
        let clear = top_clear k v (ground arith) in
        let size : suc k - 1 ≡ k = omega arith in
        let test : (bit_and v (2 ^ k) == 0) ≡ true = ground (arith, clear) in
        rw (sign_bit k le, test, size, low) refl
  ])
]
  where
    bounded : 2 ^ suc k ≤ 2 ^ 64
    bounded = pow-le-pow_right (omega arith) {j = 64} (omega arith)
