-- ===== src/Integer/Laws.antt =====
-- `IntegerTypeInfo::ReadValue` of a whole number of bytes, against the bytes of the file.
use binary_reader.Common.{
  ℕ, ◌+◌, ◌*◌, ◌/◌, ◌%◌, ◌^◌, ◌≤◌, ◌<◌, ◌≡◌, refl, sym, ap, ap₂, subst, ◌∙◌, arith, Bool-cases,
  false, inl, inr, List, [], Option, none, some, length, take, drop, get_or, All, All-take,
  All-drop, take-take, length-take, if◌then◌else◌, ltb,
}
use binary_reader.Size.{Size, from_bits, bit_count, bit_offset, add}
use binary_reader.Error.Defs.{error, unexpected_end_of_stream}
use binary_reader.Error.Message.{error_info}
use binary_reader.Error.Collection.{ErrorCollection}
use binary_reader.Error.Collection.{add as add_error}
use binary_reader.Exec.{
  Exec, Done, stuck, failed, Outcome-cases, return, fail_with, ◌>>◌, ◌>>=◌, Ensures, Ensures-bind,
  done,
}
use binary_reader.File.{FileReader, IsFile}
use binary_reader.Buffered.{BufferedFileReader, position, ensure_buffer, get_buffer, skip}
use binary_reader.Buffered.Invariant.{size_path, Inv, At}
use binary_reader.Buffered.Laws.{Filled, ensure_buffer-At, skip-At}
use binary_reader.Buffered.Window.{ahead, Shows, get_buffer-Shows}
use binary_reader.Options.{ByteOrder}
use binary_reader.Value.{Value, number}
use binary_reader.TypeInfo.{IntegerTypeInfo}
use binary_reader.Integer.{
  byte_loop, last_bits, final_bits, bytes_touched, raw_value, sign_extend, finish, read_bits,
  misaligned, read_integer,
}
use binary_reader.Integer.Bytes.{
  bytes_value_bound, IsByte, bytes_value, rounds_value, byte_loop-rounds,
}
use binary_reader.Integer.Sign.{two_complement, sign_extend-two_complement}

touched : (n : ℕ) → n ≤ 8 → bytes_touched 0 (8 * n) ≡ n
touched n h = ground arith

final : (n : ℕ) → n ≤ 8 → final_bits 0 (8 * n) ≡ 0
final n h = omega arith

abbrev joined : List ℕ → ℕ → ℕ → Option (ℕ × ℕ) → Option ℕ
joined buffer count last o = elim o [
  | none ↦ none
  | some (v, i) ↦ some (last_bits last count v (get_or buffer i 0))
]

abbrev parts : ByteOrder → List ℕ → ℕ → ℕ → Option ℕ
parts order buffer count last =
    joined buffer count last (byte_loop (count + 2) order buffer count last 0 0)

-- From the first bit of a byte on, whole bytes are read as the order says.
raw_value_whole :
    (order : ByteOrder) (n : ℕ) (buffer : List ℕ)
    → 0 < n
    → n ≤ 8
    → n ≤ length buffer
    → All IsByte buffer
    → raw_value order 0 (8 * n) buffer ≡ some (bytes_value order (take n buffer))
unfolding raw_value last_bits
raw_value_whole order n buffer pos few there all =
    let loop =
      byte_loop-rounds order buffer n pos few there n (n + 2) 0 0 (omega arith) (omega arith) in
    ap₂ (parts order buffer) (touched n few) (final n few)
    ∙ ap (joined buffer n 0) loop
    ∙ ap some (
        rounds_value (take n buffer) order (omega (arith, length-take n buffer))
          (All-take IsByte n buffer all))

module _ {S : Type 0} (file : FileReader S) (Valid : S → Type 0) (content : S → List ℕ)
    (lawful : IsFile file Valid content) where
  -- What a successful read of the integer type `t`, of `n` bytes, at the position of `b` gives: the
  -- file has the `n` bytes, the value is the number that they stand for in the type's order and
  -- sign, and the reader of the same file stands behind them.
  pub record Reads (t : IntegerTypeInfo) (n : ℕ) (b : BufferedFileReader S) (v : Value)
      (b' : BufferedFileReader S) : Type 0 where
    pub there : n ≤ length (ahead file Valid content lawful b)
    pub value :
        v
        ≡ number (
            two_complement t.sign
              (8 * n)
              (bytes_value t.order (take n (ahead file Valid content lawful b))))
    pub behind : At file Valid content lawful (add (position b) t.size) (content b.reader) b'

  module _ (t : IntegerTypeInfo) (n : ℕ) (start : BufferedFileReader S) (e : ErrorCollection)
      (pos : 0 < n) (few : n ≤ 8) (width : t.size.pos ≡ 8 * n)
      (v : Inv file Valid content lawful start) (bytes : All IsByte (content start.reader))
      (aligned : (position start).pos % 8 ≡ 0) where
    abbrev read_number : Value
    read_number = number (
        two_complement t.sign (8 * n)
          (bytes_value t.order (take n (ahead file Valid content lawful start))))

    -- What follows the bytes, by the size and the value that was read.
    abbrev next :
        BufferedFileReader S
        → ErrorCollection
        → ℕ
        → Size
        → Option ℕ
        → Done (BufferedFileReader S) Value
    next b e s z o = elim o [
      | none ↦ done stuck b e
      | some v ↦ (skip file z >> return (sign_extend t.sign s v)) b e
    ]

    module _ (buffer : List ℕ) (b : BufferedFileReader S)
        (shows : Shows file Valid content lawful n start buffer b) (there : n ≤ length buffer) where
      shown : take n buffer ≡ take n (ahead file Valid content lawful start)
      shown =
          ap (take n) shows.bytes_ahead
          ∙ take-take n (length buffer) (ahead file Valid content lawful start) there

      shown_bytes : All IsByte buffer
      shown_bytes = subst (All IsByte) (sym shows.bytes_ahead) (
          All-take IsByte (length buffer) (ahead file Valid content lawful start)
            (All-drop IsByte ((position start).pos / 8) (content start.reader) bytes))

      raw_read :
          raw_value t.order 0 (8 * n) buffer
          ≡ some (bytes_value t.order (take n (ahead file Valid content lawful start)))
      raw_read =
          raw_value_whole t.order n buffer pos few there shown_bytes
          ∙ ap (λ (l : List ℕ). some (bytes_value t.order l)) shown

      below : bytes_value t.order (take n buffer) < 2 ^ (8 * n)
      below =
          let count : length (take n buffer) ≡ n = omega (arith, length-take n buffer) in
          subst (λ (k : ℕ). bytes_value t.order (take n buffer) < 2 ^ (8 * k)) count
            (bytes_value_bound t.order (take n buffer) (omega arith)
              (All-take IsByte n buffer shown_bytes))

      finish_lem :
          (e : ErrorCollection)
          → finish file t 0 buffer b e ≡ (skip file t.size >> return read_number) b e
      unfolding finish bit_count from_bits
      finish_lem e =
          let same : from_bits (8 * n) ≡ t.size = size_path (omega (arith, width)) in
          ap (λ (s : ℕ). next b e s (from_bits s) (raw_value t.order 0 s buffer)) width
          ∙ ap₂ (next b e (8 * n)) same raw_read
          ∙ ap (λ (v : Value). (skip file t.size >> return v) b e)
              (sign_extend-two_complement t.sign (8 * n)
                (bytes_value t.order (take n (ahead file Valid content lawful start))) (omega arith)
                (omega arith)
                (subst (λ (l : List ℕ). bytes_value t.order l < 2 ^ (8 * n)) shown below))

      finish-Reads :
          (e : ErrorCollection)
          → let r = finish file t 0 buffer b e in Ensures r.outcome (λ v. Reads t n start v r.state)
      unfolding add
      finish-Reads e = rw (finish_lem e) (
          Ensures-bind (λ v q. Reads t n start v q.state) (skip file t.size b e)
            (λ _. return read_number)
            (skip-At file Valid content lawful t.size b e shows.inv (omega arith))
            (λ _ at. record {
              there = omega (
                arith,
                ap (length {A = ℕ}) shows.bytes_ahead,
                length-take (length buffer) (ahead file Valid content lawful start),
              );
              value = refl;
              behind =
                  (at.0, at.1 ∙ ap (λ (p : Size). add p t.size) shows.stays, at.2 ∙ shows.kept);
            }))

    -- What is done with the bytes that `GetBuffer` gives.
    abbrev checked : List ℕ → Exec (BufferedFileReader S) Value
    checked buffer =
        if ltb (length buffer) (bytes_touched 0 (bit_count t.size))
        then fail_with (λ c. add_error c (error_info t.debug unexpected_end_of_stream [] error 0))
        else finish file t 0 buffer

    checked-Reads :
        (buffer : List ℕ) (b : BufferedFileReader S) (e : ErrorCollection)
        → Shows file Valid content lawful n start buffer b
        → let r = checked buffer b e in Ensures r.outcome (λ v. Reads t n start v r.state)
    unfolding bit_count
    checked-Reads buffer b e shows =
        let need : bytes_touched 0 (bit_count t.size) ≡ n =
          ap (bytes_touched 0) width ∙ touched n few in
        elim (Bool-cases (ltb (length buffer) n)) [
          | inl short ↦ rw (need, short) tt
          | inr long ↦ rw (need, long) (finish-Reads buffer b shows (ground arith) e)
        ]

    -- Bytes that are shown after the buffer was filled are those at the start.
    Shows-start :
        (b : BufferedFileReader S) (buffer : List ℕ) (b' : BufferedFileReader S)
        → At file Valid content lawful (position start) (content start.reader) b
        → Shows file Valid content lawful (((position b).pos % 8 + t.size.pos + 7) / 8) b buffer b'
        → Shows file Valid content lawful n start buffer b'
    Shows-start b buffer b' was shows =
        let here : ahead file Valid content lawful b ≡ ahead file Valid content lawful start =
          ap₂ (λ (p : Size) (l : List ℕ). drop (p.pos / 8) l) was.1 was.2 in
        record {
          inv = shows.inv;
          stays = shows.stays ∙ was.1;
          kept = shows.kept ∙ was.2;
          bytes_ahead = shows.bytes_ahead ∙ ap (take (length buffer)) here;
          enough = omega (
            arith,
            shows.enough,
            ap (length {A = ℕ}) here,
            ap (λ (p : Size). p.pos) was.1,
            aligned,
            width,
          );
        }

    got-Reads :
        (b : BufferedFileReader S) (e : ErrorCollection)
        → At file Valid content lawful (position start) (content start.reader) b
        → Filled file Valid content lawful t.size b
        → let r = (get_buffer file >>= checked) b e in
          Ensures r.outcome (λ v. Reads t n start v r.state)
    got-Reads b e was full =
        let r = get_buffer file b e in
        Ensures-bind
          {P = λ buffer.
            Shows file Valid content lawful (((position b).pos % 8 + t.size.pos + 7) / 8) b buffer
              r.state}
          (λ v q. Reads t n start v q.state) r checked
          (get_buffer-Shows file Valid content lawful t.size b e was.0 full)
          (λ buffer shows.
            checked-Reads buffer r.state r.errors (Shows-start b buffer r.state was shows))

    read_bits-Reads :
        let r = read_bits file t 0 start e in Ensures r.outcome (λ v. Reads t n start v r.state)
    unfolding read_bits
    read_bits-Reads =
        let r = ensure_buffer file t.size start e in
        let small : t.size.pos ≤ 2 ^ 12 = omega (arith, width, few) in
        Ensures-bind
          {P = λ _.
            At file Valid content lawful (position start) (content start.reader) r.state
            × Filled file Valid content lawful t.size r.state}
          (λ v q. Reads t n start v q.state) r (λ _. get_buffer file >>= checked)
          (ensure_buffer-At file Valid content lawful t.size start e v small)
          (λ _ k. got-Reads r.state r.errors k.0 k.1)

    -- `ReadValue` of an integer type of `n` bytes, 1 to 8, by a reader that keeps its invariant and
    -- stands at the first bit of a byte, over a file of bytes, ends. Where it succeeds, the file has
    -- the `n` bytes, the value is the number that they stand for in the type's byte order and sign,
    -- and the reader stands behind them in the same file.
    pub read_integer-Reads :
        let r = read_integer file t start e in Ensures r.outcome (λ v. Reads t n start v r.state)
    unfolding read_integer bit_offset bit_count
    read_integer-Reads =
        let offset : bit_offset (position start) ≡ 0 = omega (arith, aligned) in
        let fits : misaligned file t 0 ≡ false = ground (arith, width) in
        rw (offset, fits) read_bits-Reads

    -- Under the same conditions, a file that ends before the `n` bytes makes `ReadValue` fail.
    pub read_integer-failed :
        length (ahead file Valid content lawful start) < n
        → (read_integer file t start e).outcome ≡ failed
    read_integer-failed short =
        let r = read_integer file t start e in
        elim (Outcome-cases r.outcome) [
          | inl (v, got) ↦ absurd (
              omega (
                arith,
                short,
                (subst (λ o. Ensures o (λ v. Reads t n start v r.state)) got
                    read_integer-Reads).there,
              ))
          | inr (inl lost) ↦ lost
          | inr (inr out) ↦
              absurd
                (subst (λ o. Ensures o (λ v. Reads t n start v r.state)) out read_integer-Reads)
        ]
