-- ===== src/Utf8/Sequences.antt =====
-- One sequence of the converter, read and written, in plain arithmetic.
use binary_reader.Common.{
  ℕ, suc, ◌+◌, ◌*◌, ◌/◌, ◌%◌, ◌^◌, ◌≤◌, ◌<◌, ◌≡◌, refl, ap, ◌∙◌, arith, List, [], ◌∷◌, ◌++◌, length,
  get_or, drop, bit_and_mask, bit_or_field,
}
use native.Mathlib.Decide.{dec_lt}
use binary_reader.Error.Defs.{ErrorInfo}
use binary_reader.Utf8.{
  code_point, get_num_bytes, decode_round, again, read_rest, read_sequence, to_utf16, decode_loop,
  put_code_point,
}
use binary_reader.Utf8.Bytes.{
  bit_and_top_two, get_num_bytes_one, get_num_bytes_two, get_num_bytes_three, get_num_bytes_four,
}

-- One round of the loop on a sequence that the buffer holds whole.
decode_loop_round :
    (fuel : ℕ) (x : ℕ) (rest : List ℕ) (offset : ℕ) (output : List ℕ) (e : ErrorInfo) (n cp : ℕ)
    → get_num_bytes x ≡ suc n
    → suc n ≤ length (x ∷ rest)
    → read_sequence x (suc n) [] (x ∷ rest) ≡ code_point cp
    → decode_loop (suc fuel) [] (x ∷ rest) offset output e
      ≡ decode_loop fuel [] (drop n rest) (offset + suc n) (output ++ to_utf16 cp) e
unfolding decode_loop
decode_loop_round fuel x rest offset output e n cp hn len hr = rw (round, decode_loop)
  where
    round :
        decode_round [] (x ∷ rest) offset output e
        ≡ again (drop n rest) (offset + suc n) (output ++ to_utf16 cp)
    round = unfold decode_round in rw (hn, hr) (ground arith)

-- A byte of a sequence that carries the six bits of `y`.
next_byte :
    (left i : ℕ) (rest : List ℕ) (cp y : ℕ)
    → get_or rest i 0 ≡ 128 + y
    → y < 64
    → cp < 2 ^ 26
    → read_rest (suc left) i [] rest cp ≡ read_rest left (i + 1) [] rest (cp * 64 + y)
unfolding read_rest
next_byte left i rest cp y at hy hcp =
    ground (arith, bit_and_top_two (128 + y), bit_and_mask 6 (128 + y), bit_or_field 6 cp y)

-- The whole sequences of two, three and four bytes.
read_one : (x : ℕ) (rest : List ℕ) → x < 128 → read_sequence x 1 [] rest ≡ code_point x
unfolding read_sequence read_rest
read_one x rest h = rw (bit_and_mask 7 x) (ground arith)

read_two :
    (x y : ℕ) (rest : List ℕ)
    → x < 32
    → y < 64
    → read_sequence (192 + x) 2 [] ((192 + x) ∷ (128 + y) ∷ rest) ≡ code_point (x * 64 + y)
unfolding read_sequence
read_two x y rest hx hy =
    let all = (192 + x) ∷ (128 + y) ∷ rest in
    rw (bit_and_mask 6 (192 + x)) (
      rw (next_byte 0 1 all ((192 + x) % 64) y refl hy (omega arith))
        (unfold read_rest in ground arith))

read_three :
    (x y z : ℕ) (rest : List ℕ)
    → x < 16
    → y < 64
    → z < 64
    → read_sequence (224 + x) 3 [] ((224 + x) ∷ (128 + y) ∷ (128 + z) ∷ rest)
      ≡ code_point ((x * 64 + y) * 64 + z)
unfolding read_sequence
read_three x y z rest hx hy hz =
    let all = (224 + x) ∷ (128 + y) ∷ (128 + z) ∷ rest in
    rw (bit_and_mask 5 (224 + x)) (
      rw
        (
          next_byte 1 1 all ((224 + x) % 32) y refl hy (omega arith),
          next_byte 0 2 all ((224 + x) % 32 * 64 + y) z refl hz (omega arith),
        )
        (unfold read_rest in ground arith))

read_four :
    (x y z w : ℕ) (rest : List ℕ)
    → x < 8
    → y < 64
    → z < 64
    → w < 64
    → read_sequence (240 + x) 4 [] ((240 + x) ∷ (128 + y) ∷ (128 + z) ∷ (128 + w) ∷ rest)
      ≡ code_point (((x * 64 + y) * 64 + z) * 64 + w)
unfolding read_sequence
read_four x y z w rest hx hy hz hw =
    let all = (240 + x) ∷ (128 + y) ∷ (128 + z) ∷ (128 + w) ∷ rest in
    rw (bit_and_mask 4 (240 + x)) (
      rw
        (
          next_byte 2 1 all ((240 + x) % 16) y refl hy (omega arith),
          next_byte 1 2 all ((240 + x) % 16 * 64 + y) z refl hz (omega arith),
          next_byte 0 3 all (((240 + x) % 16 * 64 + y) * 64 + z) w refl hw (omega arith),
        )
        (unfold read_rest in ground arith))

-- What the encoder writes for a code point, in plain arithmetic.
put_one : (cp : ℕ) → cp < 0x80 → put_code_point cp ≡ cp ∷ []
unfolding put_code_point
put_one cp h = ground arith

put_two :
    (cp : ℕ) → 0x80 ≤ cp → cp < 0x800 → put_code_point cp ≡ (192 + cp / 64) ∷ (128 + cp % 64) ∷ []
unfolding put_code_point
put_two cp h k =
    ground (arith, bit_and_mask 6 cp, bit_or_field 5 6 (cp / 64), bit_or_field 6 2 (cp % 64))

put_three :
    (cp : ℕ)
    → 0x800 ≤ cp
    → cp < 0x10000
    → put_code_point cp ≡ (224 + cp / 4096) ∷ (128 + cp / 64 % 64) ∷ (128 + cp % 64) ∷ []
unfolding put_code_point
put_three cp h k = ground (
  arith,
  bit_and_mask 6 cp,
  bit_and_mask 6 (cp / 64),
  bit_or_field 4 14 (cp / 4096),
  bit_or_field 6 2 (cp / 64 % 64),
  bit_or_field 6 2 (cp % 64),
)

put_four :
    (cp : ℕ)
    → 0x10000 ≤ cp
    → cp < 2 ^ 21
    → put_code_point cp
      ≡ (240 + cp / 2 ^ 18) ∷ (128 + cp / 4096 % 64) ∷ (128 + cp / 64 % 64) ∷ (128 + cp % 64) ∷ []
unfolding put_code_point
put_four cp h k = ground (
  arith,
  bit_and_mask 6 cp,
  bit_and_mask 6 (cp / 64),
  bit_and_mask 6 (cp / 4096),
  bit_or_field 3 30 (cp / 2 ^ 18),
  bit_or_field 6 2 (cp / 4096 % 64),
  bit_or_field 6 2 (cp / 64 % 64),
  bit_or_field 6 2 (cp % 64),
)

pub data Width (cp : ℕ) : Type 0 where
  one_byte : cp < 0x80 → Width cp
  two_bytes : 0x80 ≤ cp → cp < 0x800 → Width cp
  three_bytes : 0x800 ≤ cp → cp < 0x10000 → Width cp
  four_bytes : 0x10000 ≤ cp → cp < 2 ^ 21 → Width cp

pub width : (cp : ℕ) → cp < 2 ^ 21 → Width cp
width cp h = elim (dec_lt cp 0x80) [
  | yes p ↦ one_byte p
  | no p ↦ elim (dec_lt cp 0x800) [
    | yes q ↦ two_bytes (omega arith) q
    | no q ↦ elim (dec_lt cp 0x10000) [
      | yes r ↦ three_bytes (omega arith) r
      | no r ↦ four_bytes (omega arith) h
    ]
  ]
]

-- One round takes a written code point off the buffer and appends its units.
module _ (fuel : ℕ) (cp : ℕ) (rest : List ℕ) (offset : ℕ) (output : List ℕ) (e : ErrorInfo) where
  abbrev pub Taken : Type 0
  Taken =
      (o : ℕ) × (decode_loop (suc fuel) [] (put_code_point cp ++ rest) offset output e
        ≡ decode_loop fuel [] rest o (output ++ to_utf16 cp) e)

  pub put-Taken : Width cp → Taken
  put-Taken (one_byte h) = (
    offset + 1,
    rw (put_one cp h) (
        decode_loop_round fuel cp rest offset output e 0 cp (get_num_bytes_one cp h) (omega arith)
          (read_one cp (cp ∷ rest) h)),
  )
  put-Taken (two_bytes h k) = (
    offset + 2,
    rw (put_two cp h k) (
        decode_loop_round fuel (192 + cp / 64) ((128 + cp % 64) ∷ rest) offset output e 1 cp
          (get_num_bytes_two (cp / 64) (omega arith)) (omega arith)
          (read_two (cp / 64) (cp % 64) rest (omega arith) (omega arith)
            ∙ ap code_point (omega arith))),
  )
  put-Taken (three_bytes h k) = (
    offset + 3,
    rw (put_three cp h k) (
        decode_loop_round fuel (224 + cp / 4096) ((128 + cp / 64 % 64) ∷ (128 + cp % 64) ∷ rest)
          offset output e 2 cp (get_num_bytes_three (cp / 4096) (omega arith)) (omega arith)
          (read_three (cp / 4096) (cp / 64 % 64) (cp % 64) rest (omega arith) (omega arith)
              (omega arith)
            ∙ ap code_point (omega arith))),
  )
  put-Taken (four_bytes h k) = (
    offset + 4,
    rw (put_four cp h k) (
        decode_loop_round fuel (240 + cp / 2 ^ 18)
          ((128 + cp / 4096 % 64) ∷ (128 + cp / 64 % 64) ∷ (128 + cp % 64) ∷ rest) offset output e 3
          cp (get_num_bytes_four (cp / 2 ^ 18) (omega arith)) (omega arith)
          (read_four (cp / 2 ^ 18) (cp / 4096 % 64) (cp / 64 % 64) (cp % 64) rest (omega arith)
              (omega arith) (omega arith) (omega arith)
            ∙ ap code_point (omega arith))),
  )
