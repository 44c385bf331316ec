-- ===== src/Integer/Bytes.antt =====
-- The loop over the whole bytes of an integer, against the usual reading of bytes as a number.
use binary_reader.Common.{
  ℕ, zero, suc, ◌+◌, ◌*◌, ◌^◌, ◌≤◌, ◌<◌, ◌≡◌, refl, subst, ap, ◌∙◌, arith, Bool-cases, true, false,
  ◌&&◌, ◌||◌, List, [], ◌∷◌, some, length, get_or, take, drop, inl, inr, All, bit_or, bit_or_field,
  drop_here, bit_or_field_left, pow_add, if◌then◌else◌, ltb, ◌==◌, sub64,
}
use binary_reader.Options.{ByteOrder}
use binary_reader.Integer.{is_little, add_byte, byte_loop}
use native.Mathlib.Nat.{pow-le-pow_right, mul-le-mul_right}

-- Most significant byte first, after the value `v`.
abbrev pub big : ℕ → List ℕ → ℕ
big v [] = v
big v (b ∷ bs) = big (v * 2 ^ 8 + b) bs

-- Least significant byte first.
abbrev pub little : List ℕ → ℕ
little [] = 0
little (b ∷ bs) = b + 2 ^ 8 * little bs

-- What the bytes stand for in an order. An order that is not set is read as big endian.
abbrev pub bytes_value : ByteOrder → List ℕ → ℕ
bytes_value order bs = if is_little order then little bs else big 0 bs

abbrev pub IsByte : ℕ → Type 0
IsByte b = b < 2 ^ 8

scale : (i : ℕ) → i ≤ 7 → (2 ^ (8 * suc i) ≡ 2 ^ (8 * i) * 2 ^ 8) × (2 ^ (8 * i) ≤ 2 ^ 56)
scale i h = (
  ap (λ (n : ℕ). 2 ^ n) (omega arith) ∙ pow_add (8 * i) 8,
  pow-le-pow_right (omega arith) {j = 56} (omega arith),
)

-- A round keeps what is read below the weight of the next byte.
add_byte-big :
    (i v b : ℕ)
    → i ≤ 7
    → v < 2 ^ (8 * i)
    → IsByte b
    → (order : ByteOrder) → is_little order ≡ false
    → add_byte order i v b ≡ v * 2 ^ 8 + b
unfolding add_byte
add_byte-big i v b le lt byte order h =
    rw h (ap (λ (x : ℕ). bit_or x b) (omega (arith, (scale i le).1)) ∙ bit_or_field 8 v b byte)

add_byte-little :
    (i v b : ℕ)
    → i ≤ 7
    → v < 2 ^ (8 * i)
    → IsByte b
    → (order : ByteOrder) → is_little order ≡ true
    → add_byte order i v b ≡ v + b * 2 ^ (8 * i)
unfolding add_byte
add_byte-little i v b le lt byte order h = rw h (
    ap (bit_or v) (omega (arith, (scale i le).1, mul-le-mul_right (2 ^ (8 * i)) byte))
    ∙ bit_or_field_left (8 * i) b v lt
    ∙ omega arith)

-- The rounds over a list of bytes, from an index and a value on.
pub rounds : ByteOrder → ℕ → ℕ → List ℕ → ℕ
rounds order i v [] = v
rounds order i v (b ∷ bs) = rounds order (suc i) (add_byte order i v b) bs

rounds-big :
    (bs : List ℕ) (i v : ℕ) (order : ByteOrder)
    → i + length bs ≤ 8
    → v < 2 ^ (8 * i)
    → All IsByte bs
    → is_little order ≡ false
    → rounds order i v bs ≡ big v bs
unfolding rounds
rounds-big [] i v order le lt all h = refl
rounds-big (b ∷ bs) i v order le lt (byte, all) h =
    let one = add_byte-big i v b (omega arith) lt byte order h in
    rw one (
      rounds-big bs (suc i) (v * 2 ^ 8 + b) order (omega arith)
        (omega (arith, (scale i (omega arith)).0)) all h)

rounds-little :
    (bs : List ℕ) (i v : ℕ) (order : ByteOrder)
    → i + length bs ≤ 8
    → v < 2 ^ (8 * i)
    → All IsByte bs
    → is_little order ≡ true
    → rounds order i v bs ≡ v + little bs * 2 ^ (8 * i)
unfolding rounds
rounds-little [] i v order le lt all h = omega arith
rounds-little (b ∷ bs) i v order le lt (byte, all) h =
    let one = add_byte-little i v b (omega arith) lt byte order h in
    let up = (scale i (omega arith)).0 in
    rw one (
      rounds-little bs (suc i) (v + b * 2 ^ (8 * i)) order (omega arith)
        (omega (arith, up, mul-le-mul_right (2 ^ (8 * i)) byte)) all h
      ∙ omega (arith, ap (λ (t : ℕ). little bs * t) up))

pub rounds_value :
    (bs : List ℕ) (order : ByteOrder)
    → length bs ≤ 8
    → All IsByte bs
    → rounds order 0 0 bs ≡ bytes_value order bs
rounds_value bs order le all = elim (Bool-cases (is_little order)) [
  | inl h ↦ rw h (rounds-little bs 0 0 order (omega arith) (omega arith) all h ∙ omega arith)
  | inr h ↦ rw h (rounds-big bs 0 0 order (omega arith) (omega arith) all h)
]

big_bound :
    (bs : List ℕ) (i v : ℕ)
    → i + length bs ≤ 8
    → v < 2 ^ (8 * i)
    → All IsByte bs
    → big v bs < 2 ^ (8 * (i + length bs))
big_bound [] i v le lt all =
    let bare : i ≡ i + 0 = omega arith in subst (λ (n : ℕ). v < 2 ^ (8 * n)) bare lt
big_bound (b ∷ bs) i v le lt (byte, all) =
    let shift : suc i + length bs ≡ i + suc (length bs) = omega arith in
    subst (λ (n : ℕ). big (v * 2 ^ 8 + b) bs < 2 ^ (8 * n)) shift
      (big_bound bs (suc i) (v * 2 ^ 8 + b) (omega arith) (omega (arith, (scale i (omega arith)).0))
        all)

little_bound : (bs : List ℕ) → length bs ≤ 8 → All IsByte bs → little bs < 2 ^ (8 * length bs)
little_bound [] le all = omega arith
little_bound (b ∷ bs) le (byte, all) =
    omega (arith, little_bound bs (omega arith) all, (scale (length bs) (omega arith)).0)

pub bytes_value_bound :
    (order : ByteOrder) (bs : List ℕ)
    → length bs ≤ 8
    → All IsByte bs
    → bytes_value order bs < 2 ^ (8 * length bs)
bytes_value_bound order bs le all = elim (Bool-cases (is_little order)) [
  | inl h ↦ rw h (little_bound bs le all)
  | inr h ↦
      let bare : 0 + length bs ≡ length bs = omega arith in
      rw h (
        subst (λ (n : ℕ). big 0 bs < 2 ^ (8 * n)) bare
          (big_bound bs 0 0 (omega arith) (omega arith) all))
]

module _ (order : ByteOrder) (buffer : List ℕ) (n : ℕ) (some_byte : 0 < n) (few : n ≤ 8)
    (there : n ≤ length buffer) where
  loop_end : (fuel v : ℕ) → byte_loop (suc fuel) order buffer n 0 n v ≡ some (v, n)
  unfolding byte_loop
  loop_end fuel v = rw (stop) refl
    where
      stop : (ltb n (sub64 n 1) || ((n == sub64 n 1) && true)) ≡ false
      stop = ground arith

  loop_round :
      (fuel i v : ℕ)
      → i < n
      → byte_loop (suc fuel) order buffer n 0 i v
        ≡ byte_loop fuel order buffer n 0 (suc i) (add_byte order i v (get_or buffer i 0))
  unfolding byte_loop
  loop_round fuel i v lt = rw (go) refl
    where
      go : (ltb i (sub64 n 1) || ((i == sub64 n 1) && true)) ≡ true
      go = ground arith

  -- The loop goes over the `n` bytes, and ends behind them.
  pub byte_loop-rounds :
      (k fuel i v : ℕ)
      → i + k ≡ n
      → k < fuel
      → byte_loop fuel order buffer n 0 i v ≡ some (rounds order i v (take k (drop i buffer)), n)
  unfolding rounds
  byte_loop-rounds k zero i v at lt = absurd (omega arith)
  byte_loop-rounds zero (suc fuel) i v at lt =
      let last : i ≡ n = omega arith in rw last (loop_end fuel v)
  byte_loop-rounds (suc k) (suc fuel) i v at lt =
      let inside : i < n = omega arith in
      rw (drop_here i buffer 0 (omega arith)) (
        loop_round fuel i v inside
        ∙ byte_loop-rounds k fuel (suc i) (add_byte order i v (get_or buffer i 0)) (omega arith)
            (omega arith))
