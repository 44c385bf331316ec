-- ===== src/Buffered/Window.antt =====
-- `GetBuffer`: what it points at, against the bytes of the file at the position.
use binary_reader.Common.{
  ℕ, ◌+◌, ◌-◌, ◌/◌, ◌%◌, ◌^◌, ◌≤◌, min, ◌≡◌, sym, ap, ap₂, subst, ◌∙◌, arith, List, length, take,
  drop, length-drop, drop-take, drop-drop,
}
use binary_reader.Size.{Size, from_bits, byte_count}
use binary_reader.Error.Collection.{ErrorCollection}
use binary_reader.Exec.{Ensures, Ensures-map, Ensures-bind, Ensures-both, ok, done}
use binary_reader.File.{FileReader, IsFile}
use binary_reader.Buffered.{
  BufferedFileReader, used, position, ensure_buffer, available, get_buffer,
}
use binary_reader.Buffered.Invariant.{Inv, At, position_lem}
use binary_reader.Buffered.Laws.{Filled, ensure_buffer-At, ensure_buffer-Filled}

one_bit : (from_bits 1).pos ≤ 2 ^ 12
unfolding from_bits
one_bit = omega arith

module _ {S : Type 0} (file : FileReader S) (Valid : S → Type 0) (content : S → List ℕ)
    (lawful : IsFile file Valid content) where
  -- The bytes of the file from the position on.
  abbrev pub ahead : BufferedFileReader S → List ℕ
  ahead b = drop ((position b).pos / 8) (content b.reader)

  available-ahead :
      (b : BufferedFileReader S)
      → Inv file Valid content lawful b
      → available b ≡ take (length (available b)) (ahead b)
  unfolding byte_count
  available-ahead b v =
      let k : ℕ = b.buffer_offset.pos / 8 in
      let here = drop (b.start_position.pos / 8) (content b.reader) in
      let at : (position b).pos / 8 ≡ b.start_position.pos / 8 + k =
        omega (arith, position_lem file Valid content lawful b v, v.aligned) in
      let split : k + (used b - k) ≡ used b = omega (arith, v.offset_le) in
      rw (at, length-drop k b.buffer)
        (ap (drop k) (v.holds ∙ ap (λ (n : ℕ). take n here) (sym split))
          ∙ drop-take k (used b - k) here
          ∙ ap (take (used b - k)) (drop-drop k (b.start_position.pos / 8) (content b.reader)))

  -- What `GetBuffer` gives for a reader `b`: the reader stands where it stood, in the same file, and
  -- the bytes are those of the file there, at least `n` of them where the file has as many.
  pub record Shows (n : ℕ) (b : BufferedFileReader S) (bytes : List ℕ) (b' : BufferedFileReader S)
      : Type 0 where
    pub inv : Inv file Valid content lawful b'
    pub stays : position b' ≡ position b
    pub kept : content b'.reader ≡ content b.reader
    pub bytes_ahead : bytes ≡ take (length bytes) (ahead b)
    pub enough : min n (length (ahead b)) ≤ length bytes

  Filled-Shows :
      (size : Size) (b b' : BufferedFileReader S)
      → At file Valid content lawful (position b) (content b.reader) b'
      → Filled file Valid content lawful size b'
      → Shows (((position b).pos % 8 + size.pos + 7) / 8) b (available b') b'
  unfolding byte_count
  Filled-Shows size b b' was full = record {
    inv = was.0;
    stays = was.1;
    kept = was.2;
    bytes_ahead =
        subst (λ (l : List ℕ). available b' ≡ take (length (available b')) l)
          (ap₂ (λ (p : Size) (l : List ℕ). drop (p.pos / 8) l) was.1 was.2)
          (available-ahead b' was.0);
    enough = omega (
      arith,
      full,
      was.0.aligned,
      position_lem file Valid content lawful b' was.0,
      ap (λ (p : Size). p.pos) was.1,
      ap (length {A = ℕ}) was.2,
      length-drop (b'.buffer_offset.pos / 8) b'.buffer,
      length-drop ((position b).pos / 8) (content b.reader),
    );
  }

  -- For a reader that keeps the invariant and holds the bits of `size` or all of the file, `GetBuffer`
  -- ends. Where it succeeds it gives the bytes of the file from the byte of the position on, all that
  -- the bits of `size` touch unless the file ends before, and position and file stay.
  pub get_buffer-Shows :
      (size : Size) (b : BufferedFileReader S) (e : ErrorCollection)
      → Inv file Valid content lawful b
      → Filled file Valid content lawful size b
      → let r = get_buffer file b e in
        Ensures r.outcome
          (λ bytes. Shows (((position b).pos % 8 + size.pos + 7) / 8) b bytes r.state)
  unfolding get_buffer
  get_buffer-Shows size b e v full =
      let one : (from_bits 1).pos ≤ 2 ^ 12 = one_bit in
      let r = ensure_buffer file (from_bits 1) b e in
      Ensures-bind
        {P = λ _.
          At file Valid content lawful (position b) (content b.reader) r.state
          × Filled file Valid content lawful size r.state}
        (λ bytes q. Shows (((position b).pos % 8 + size.pos + 7) / 8) b bytes q.state) r
        (λ _ s k. done (ok (available s)) s k)
        (Ensures-map r.outcome (λ _ k. (k.0.0, k.1))
          (Ensures-both
            (λ _.
              At file Valid content lawful (position b) (content b.reader) r.state
              × Filled file Valid content lawful (from_bits 1) r.state)
            (λ _. Filled file Valid content lawful size r.state) r.outcome
            (ensure_buffer-At file Valid content lawful (from_bits 1) b e v one)
            (ensure_buffer-Filled file Valid content lawful size (from_bits 1) b e v one full)))
        (λ _ k. Filled-Shows size b r.state k.0 k.1)
