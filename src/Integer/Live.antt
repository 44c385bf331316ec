-- ===== src/Integer/Live.antt =====
-- `IntegerTypeInfo::ReadValue` over a file whose reads and seeks never fail.
use binary_reader.Common.{
  ℕ, ◌+◌, ◌*◌, ◌/◌, ◌%◌, ◌≤◌, ◌<◌, ◌≡◌, ap, subst, arith, false, inl, inr, List, [], ap₂, drop,
  Option-cases, length, All, ltb, if◌then◌else◌,
}
use binary_reader.Size.{Size, from_bits, bit_count, bit_offset}
use binary_reader.Error.Defs.{error, unexpected_end_of_stream}
use binary_reader.Error.Message.{error_info}
use binary_reader.Error.Collection.{ErrorCollection}
use binary_reader.Error.Collection.{add as add_error}
use binary_reader.Exec.{Exec, Outcome-cases, ok, fail_with, return, ◌>>=◌, Ensures}
use binary_reader.File.{FileReader, IsFile}
use binary_reader.Buffered.{BufferedFileReader, position, ensure_buffer, get_buffer, skip}
use binary_reader.Buffered.Invariant.{Inv, At}
use binary_reader.Buffered.Laws.{Filled, ensure_buffer-At}
use binary_reader.Buffered.Window.{ahead, Shows, get_buffer-Shows}
use binary_reader.Buffered.Live.{
  Lasts, Lasts-bind, NeverFails, ensure_buffer-Lasts, get_buffer-Lasts, skip-Lasts,
}
use binary_reader.Value.{Value}
use binary_reader.TypeInfo.{IntegerTypeInfo}
use binary_reader.Integer.{
  bytes_touched, raw_value, sign_extend, finish, read_bits, misaligned, read_integer,
}
use binary_reader.Integer.Bytes.{IsByte}
use binary_reader.Integer.Laws.{Reads, read_integer-Reads}

module _ {S : Type 0} (file : FileReader S) (Valid : S → Type 0) (content : S → List ℕ)
    (lawful : IsFile file Valid content) (never : NeverFails file) (t : IntegerTypeInfo) (n : ℕ)
    (start : BufferedFileReader S) (e : ErrorCollection) (some_byte : 0 < n) (few : n ≤ 8)
    (width : t.size.pos ≡ 8 * n) (v : Inv file Valid content lawful start)
    (aligned : (position start).pos % 8 ≡ 0)
    (there : n ≤ length (ahead file Valid content lawful start)) where
  finish-Lasts :
      (buffer : List ℕ) (b : BufferedFileReader S) (e : ErrorCollection)
      → Lasts (finish file t 0 buffer b e).outcome
  unfolding finish
  finish-Lasts buffer b e = elim (Option-cases (raw_value t.order 0 (bit_count t.size) buffer)) [
    | inl none_there ↦ rw (none_there, finish) (λ lost. absurd cc)
    | inr (w, known) ↦
        rw (known, finish)
          (Lasts-bind (skip file (from_bits (bit_count t.size)) b e)
            (λ _. return (sign_extend t.sign (bit_count t.size) w))
            (skip-Lasts file Valid content lawful never (from_bits (bit_count t.size)) b e)
            (λ _ is lost. absurd cc))
  ]

  abbrev checked : List ℕ → Exec (BufferedFileReader S) Value
  checked buffer =
      if ltb (length buffer) (bytes_touched 0 (bit_count t.size))
      then fail_with (λ c. add_error c (error_info t.debug unexpected_end_of_stream [] error 0))
      else finish file t 0 buffer

  -- Enough bytes are shown.
  checked-Lasts :
      (buffer : List ℕ) (b : BufferedFileReader S) (e : ErrorCollection)
      → n ≤ length buffer
      → Lasts (checked buffer b e).outcome
  unfolding bit_count
  checked-Lasts buffer b e long =
      let fine : ltb (length buffer) (bytes_touched 0 (bit_count t.size)) ≡ false =
        ground (arith, width) in
      rw fine (finish-Lasts buffer b e)

  read_bits-Lasts : Lasts (read_bits file t 0 start e).outcome
  unfolding read_bits
  read_bits-Lasts =
      let r = ensure_buffer file t.size start e in
      Lasts-bind r (λ _. get_buffer file >>= checked)
        (ensure_buffer-Lasts file Valid content lawful never t.size start e)
        (λ _ is.
          let (was, full) =
            subst
              (λ o. Ensures o (λ _.
                At file Valid content lawful (position start) (content start.reader) r.state
                × Filled file Valid content lawful t.size r.state))
              is
              (ensure_buffer-At file Valid content lawful t.size start e v
                (omega (arith, width, few))) in
          let q = get_buffer file r.state r.errors in
          Lasts-bind q checked (get_buffer-Lasts file Valid content lawful never r.state r.errors)
            (λ buffer is_buffer.
              let shows =
                subst
                  (λ o. Ensures o (λ bytes.
                    Shows file Valid content lawful
                      (((position r.state).pos % 8 + t.size.pos + 7) / 8) r.state bytes q.state))
                  is_buffer
                  (get_buffer-Shows file Valid content lawful t.size r.state r.errors was.0 full) in
              checked-Lasts buffer q.state q.errors (
                omega (
                  arith,
                  shows.enough,
                  ap (λ (p : Size). p.pos) was.1,
                  aligned,
                  width,
                  there,
                  ap₂ (λ (p : Size) (l : List ℕ). length (drop (p.pos / 8) l)) was.1 was.2,
                ))))

  read_integer-Lasts : Lasts (read_integer file t start e).outcome
  unfolding read_integer bit_offset bit_count
  read_integer-Lasts =
      let offset : bit_offset (position start) ≡ 0 = omega (arith, aligned) in
      let fits : misaligned file t 0 ≡ false = ground (arith, width) in
      rw (offset, fits) read_bits-Lasts

  -- `ReadValue` of an integer type of `n` bytes, 1 to 8, by a reader that keeps its invariant and
  -- stands at the first bit of a byte, over a file of bytes whose reads and seeks never fail and that
  -- has `n` bytes from there on, succeeds, with the number that the bytes stand for.
  pub read_integer-succeeds :
      All IsByte (content start.reader)
      → let r = read_integer file t start e in
        (x : Value) × (r.outcome ≡ ok x) × Reads file Valid content lawful t n start x r.state
  read_integer-succeeds bytes =
      let r = read_integer file t start e in
      let reads =
        read_integer-Reads file Valid content lawful t n start e some_byte few width v bytes
          aligned in
      elim (Outcome-cases r.outcome) [
        | inl (x, is) ↦ (
          x,
          is,
          subst (λ o. Ensures o (λ y. Reads file Valid content lawful t n start y r.state)) is
              reads,
        )
        | inr (inl lost) ↦ absurd (read_integer-Lasts lost)
        | inr (inr out) ↦ absurd (
            subst (λ o. Ensures o (λ y. Reads file Valid content lawful t n start y r.state)) out
              reads)
      ]
