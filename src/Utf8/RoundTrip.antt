-- ===== src/Utf8/RoundTrip.antt =====
-- Decoding what `Encode` wrote.
use binary_reader.Common.{
  ℕ, zero, suc, ◌+◌, ◌-◌, ◌/◌, ◌%◌, ◌^◌, ◌≤◌, ◌<◌, ◌≡◌, sym, ap, ◌∙◌, arith, true, false,
  Bool-cases, inl, inr, List, [], ◌∷◌, ◌++◌, append-nil, append_assoc, length, length-append, ◌==◌,
}
use binary_reader.Error.Defs.{ErrorInfo}
use binary_reader.Utf8.{
  success, result, new_converter, decode_round, to_utf16, decode_loop, decode, is_pair, combine,
  put_code_point, encode_units, encode,
}
use binary_reader.Utf8.Sequences.{put-Taken, width}
use binary_reader.Utf8.Pairs.{
  to_utf16_unit, to_utf16_pair, combine_pair, combine_even, IsOddPlane, IsEvenPlane,
}

-- What survives encoding and decoding: units other than 0xffff, and pairs outside the even planes.
abbrev pub Representable : List ℕ → Type 0
Representable [] = Unit
Representable (a ∷ []) = (a < 0xffff) × Unit {0}
Representable (a ∷ b ∷ rest) =
    (a < 0xffff) × ((is_pair a b ≡ true) → IsOddPlane a) × Representable (b ∷ rest)

length-put_pos : (cp : ℕ) → 0 < length (put_code_point cp)
unfolding put_code_point
length-put_pos cp = ground arith

combine_lt : (a b : ℕ) → is_pair a b ≡ true → IsOddPlane a → combine a b < 2 ^ 21
unfolding is_pair
combine_lt a b h odd = ground (arith, combine_pair a b h odd)

le-combine : (a b : ℕ) → is_pair a b ≡ true → 0x10000 ≤ combine a b
unfolding is_pair
le-combine a b h = elim (Bool-cases (a / 64 % 2 == 0)) [
  | inl odd ↦ ground (arith, combine_pair a b h)
  | inr even ↦ ground (arith, combine_even a b h)
]

length-put_pair : (cp : ℕ) → 0x10000 ≤ cp → 2 ≤ length (put_code_point cp)
unfolding put_code_point
length-put_pair cp h = ground arith

Representable-rest : (a : ℕ) (rest : List ℕ) → Representable (a ∷ rest) → Representable rest
Representable-rest a [] h = tt
Representable-rest a (b ∷ rest) h = h.2

encode_units_last : (a : ℕ) → encode_units (a ∷ []) ≡ put_code_point a ++ encode_units []
unfolding encode_units
encode_units_last a = sym (append-nil _)

encode_units_pair :
    (a b : ℕ) (s : List ℕ)
    → is_pair a b ≡ true
    → encode_units (a ∷ b ∷ s) ≡ put_code_point (combine a b) ++ encode_units s
unfolding encode_units
encode_units_pair a b s h = rw h

encode_units_single :
    (a b : ℕ) (s : List ℕ)
    → is_pair a b ≡ false
    → encode_units (a ∷ b ∷ s) ≡ put_code_point a ++ encode_units (b ∷ s)
unfolding encode_units
encode_units_single a b s h = rw h

-- The units of one code point, followed by the rest of the text.
module _ (e : ErrorInfo) where
  abbrev Decodes : List ℕ → Type 0
  Decodes s =
      (fuel offset : ℕ) (output : List ℕ)
      → length s < fuel
      → decode_loop fuel [] (encode_units s) offset output e ≡ result success [] (output ++ s) e

  Decodes-put :
      (cp : ℕ) (units s : List ℕ)
      → cp < 2 ^ 21
      → to_utf16 cp ≡ units
      → 0 < length units
      → Decodes s
      → (fuel offset : ℕ) (output : List ℕ) → length units + length s < fuel
      → decode_loop fuel [] (put_code_point cp ++ encode_units s) offset output e
        ≡ result success [] (output ++ (units ++ s)) e
  Decodes-put cp units s hcp hu pos ih zero offset output h = absurd (omega arith)
  Decodes-put cp units s hcp hu pos ih (suc fuel) offset output h =
      let taken = put-Taken fuel cp (encode_units s) offset output e (width cp hcp) in
      taken.1
      ∙ ih fuel taken.0 (output ++ to_utf16 cp) (omega arith)
      ∙ ap (λ (t : List ℕ). result success [] t e)
          (append_assoc output (to_utf16 cp) s ∙ ap (λ (t : List ℕ). output ++ (t ++ s)) hu)

  decode_loop-encode_units : (s : List ℕ) → Representable s → Decodes s
  decode_loop-encode_units [] h zero offset output hf = absurd (omega arith)
  decode_loop-encode_units [] h (suc fuel) offset output hf =
      unfold decode_loop decode_round encode_units in
      ap (λ (t : List ℕ). result success [] t e) (sym (append-nil output))
  decode_loop-encode_units (a ∷ []) h fuel offset output hf = rw (encode_units_last a) (
      Decodes-put a (a ∷ []) [] (omega arith) (to_utf16_unit a h.0) (omega arith)
        (decode_loop-encode_units [] tt) fuel offset output hf)
  decode_loop-encode_units (a ∷ b ∷ s) h fuel offset output hf = elim (Bool-cases (is_pair a b)) [
    | inl pair ↦ rw (encode_units_pair a b s pair) (
        Decodes-put (combine a b) (a ∷ b ∷ []) s (combine_lt a b pair (h.1 pair))
          (ap to_utf16 (combine_pair a b pair (h.1 pair)) ∙ to_utf16_pair a b pair) (omega arith)
          (decode_loop-encode_units s (Representable-rest b s h.2)) fuel offset output
          (omega arith))
    | inr single ↦ rw (encode_units_single a b s single) (
        Decodes-put a (a ∷ []) (b ∷ s) (omega arith) (to_utf16_unit a h.0) (omega arith)
          (decode_loop-encode_units (b ∷ s) h.2) fuel offset output (omega arith))
  ]

length-le-encode_units : (s : List ℕ) → length s ≤ length (encode_units s)
length-le-encode_units [] = omega arith
length-le-encode_units (a ∷ []) =
    rw (encode_units_last a)
      (omega (arith, length-append (put_code_point a) (encode_units []), length-put_pos a))
length-le-encode_units (a ∷ b ∷ s) = elim (Bool-cases (is_pair a b)) [
  | inl pair ↦ rw (encode_units_pair a b s pair) (
      omega (
        arith,
        length-append (put_code_point (combine a b)) (encode_units s),
        length-put_pair (combine a b) (le-combine a b pair),
        length-le-encode_units s,
      ))
  | inr single ↦ rw (encode_units_single a b s single) (
      omega (
        arith,
        length-append (put_code_point a) (encode_units (b ∷ s)),
        length-put_pos a,
        length-le-encode_units (b ∷ s),
      ))
]

-- A fresh converter decodes what `Encode` wrote for a representable text to that text, and is
-- left with no partial sequence.
pub decode-encode :
    (s output : List ℕ) (e : ErrorInfo)
    → Representable s
    → decode new_converter (encode s []).1 output e ≡ result success [] (output ++ s) e
unfolding decode encode
decode-encode s output e h =
    decode_loop-encode_units e s h _ 0 output (omega (arith, length-le-encode_units s))

-- Two texts that differ in the plane of a pair: an even plane is written as the odd one below it.
pub encode_even_plane :
    (a b : ℕ) (rest output : List ℕ)
    → is_pair a b ≡ true
    → IsEvenPlane a
    → encode (a ∷ b ∷ rest) output ≡ encode ((a - 64) ∷ b ∷ rest) output
unfolding encode is_pair
encode_even_plane a b rest output h even =
    let below : is_pair (a - 64) b ≡ true = unfold is_pair in ground arith in
    let same : combine a b ≡ combine (a - 64) b =
      ground (arith, combine_even a b h even, combine_pair (a - 64) b below) in
    rw (encode_units_pair a b rest h, encode_units_pair (a - 64) b rest below, same)
