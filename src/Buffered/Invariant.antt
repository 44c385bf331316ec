-- ===== src/Buffered/Invariant.antt =====
-- The invariant of `BufferedFileReader`, and that its operations keep it.
use binary_reader.Common.{
  ℕ, ◌+◌, ◌-◌, ◌*◌, ◌/◌, ◌%◌, ◌^◌, ◌≤◌, ◌<◌, min, ◌≡◌, refl, sym, ap, ◌∙◌, arith, true, false, ◌&&◌,
  List, length, take, drop, length-take, length-drop, drop-take, drop-drop, ◌⊎◌, inl, inr,
  Bool-cases,
}
use binary_reader.Size.{
  Size, from_bytes, from_bits, add, add_assign, sub, bit_offset, byte_count, clip_to_byte, size_ge,
  size_gt, size_lt, InRange,
}
use binary_reader.Error.Collection.{ErrorCollection}
use binary_reader.Exec.{Outcome-cases, Ensures, ok}
use binary_reader.File.{FileReader, IsFile}
use binary_reader.Buffered.{
  BufferedFileReader, new_buffered, buffer_size, used, position, emptied, make_room, seek_file,
  seek,
}

pub size_path : {a b : Size} → a.pos ≡ b.pos → a ≡ b
size_path e = λ i. record { pos = e i }

pub buffer_size_bounds : (2 ^ 20 ≤ buffer_size) × (buffer_size ≤ 2 ^ 30)
unfolding buffer_size
buffer_size_bounds = omega arith

module _ {S : Type 0} (file : FileReader S) (Valid : S → Type 0) (content : S → List ℕ)
    (lawful : IsFile file Valid content) where
  -- The buffer holds the bytes of the file from `start_position` on, the file stands behind them,
  -- and the offset is at most 7 bits past the buffer. The file is shorter than 2 ^ 60 bytes, so
  -- that no position within it wraps.
  pub record Inv (b : BufferedFileReader S) : Type 0 where
    pub valid : Valid b.reader
    pub small : length (content b.reader) < 2 ^ 60
    pub aligned : b.start_position.pos % 8 ≡ 0
    pub start_in : b.start_position.pos < 2 ^ 64
    pub holds : b.buffer ≡ take (used b) (drop (b.start_position.pos / 8) (content b.reader))
    pub behind :
        file.position b.reader ≡ min (b.start_position.pos / 8 + used b) (length (content b.reader))
    pub offset_le : b.buffer_offset.pos ≤ used b * 8 + 7
    pub capped : used b ≤ buffer_size

  -- A buffer that is not empty lies within the file.
  pub used_within :
      (b : BufferedFileReader S)
      → Inv b
      → (used b ≡ 0) ⊎ (b.start_position.pos / 8 + used b ≤ length (content b.reader))
  used_within b v = ground (
    arith,
    ap (length {A = ℕ}) v.holds,
    length-take (used b) (drop (b.start_position.pos / 8) (content b.reader)),
    length-drop (b.start_position.pos / 8) (content b.reader),
  )

  pub position_lem :
      (b : BufferedFileReader S)
      → Inv b
      → (position b).pos ≡ b.start_position.pos + b.buffer_offset.pos
  unfolding position add
  position_lem b v = ground (arith, used_within b v, v.aligned, v.start_in, v.offset_le, v.small)

  pub new_buffered-Inv :
      (s : S) → Valid s → length (content s) < 2 ^ 60 → file.position s ≡ 0 → Inv (new_buffered s)
  new_buffered-Inv s v h z = record {
    valid = v;
    small = h;
    aligned = refl;
    start_in = omega arith;
    holds = refl;
    behind = omega arith;
    offset_le = omega arith;
    capped = omega arith;
  }

  -- The state of a call after which the invariant holds, at position `p` of the same file.
  abbrev pub At : Size → List ℕ → BufferedFileReader S → Type 0
  At p whole b = Inv b × (position b ≡ p) × (content b.reader ≡ whole)

  seek_within :
      (p : Size) (b : BufferedFileReader S)
      → Inv b
      → b.start_position.pos ≤ p.pos
      → p.pos < b.start_position.pos + used b * 8
      → At p (content b.reader) (record b { buffer_offset = sub p b.start_position })
  unfolding sub
  seek_within p b v lo hi =
      let within = used_within b v in
      let offset : (sub p b.start_position).pos ≡ p.pos - b.start_position.pos =
        ground (arith, within, v.aligned, v.small, v.start_in) in
      let inv : Inv (record b { buffer_offset = sub p b.start_position }) = record {
        valid = v.valid;
        small = v.small;
        aligned = v.aligned;
        start_in = v.start_in;
        holds = v.holds;
        behind = v.behind;
        offset_le = omega arith;
        capped = v.capped;
      } in
      (
        inv,
        size_path
            (position_lem (record b { buffer_offset = sub p b.start_position }) inv ∙ omega arith),
        refl,
      )

  inside_bounds :
      (p : Size) (b : BufferedFileReader S)
      → Inv b
      → (size_ge p b.start_position && size_lt p (add b.start_position (from_bytes (used b))))
        ≡ true
      → (b.start_position.pos ≤ p.pos) × (p.pos < b.start_position.pos + used b * 8)
  unfolding size_ge size_lt add from_bytes
  inside_bounds p b v h = ground (arith, used_within b v, v.aligned, v.start_in, v.small)

  seek_file_went :
      (p : Size) (b : BufferedFileReader S) (e : ErrorCollection) (q : ℕ)
      → Inv b
      → InRange p
      → (file.seek (byte_count p) b.reader e).outcome ≡ ok q
      → At p
          (content b.reader)
          (record (emptied b p) { reader = (file.seek (byte_count p) b.reader e).state })
  unfolding byte_count clip_to_byte from_bits bit_offset
  seek_file_went p b e q v h went =
      let same = lawful.seek_same (p.pos / 8) b.reader e v.valid in
      let start : (clip_to_byte p).pos ≡ p.pos - p.pos % 8 = omega arith in
      let off : (from_bits (bit_offset p)).pos ≡ p.pos % 8 = omega arith in
      let b' : BufferedFileReader S = record (emptied b p) {
        reader = (file.seek (p.pos / 8) b.reader e).state;
      } in
      let inv : Inv b' = record {
        valid = lawful.seek_valid (p.pos / 8) b.reader e v.valid;
        small = rw same v.small;
        aligned = omega arith;
        start_in = omega arith;
        holds = refl;
        behind =
            rw same (omega (arith, lawful.seek_position (p.pos / 8) b.reader e q v.valid went));
        offset_le = omega arith;
        capped = omega arith;
      } in
      (inv, size_path (position_lem b' inv ∙ omega arith), same)

  seek_file-At :
      (p : Size) (b : BufferedFileReader S) (e : ErrorCollection)
      → Inv b
      → InRange p
      → let r = seek_file file (byte_count p) (emptied b p) e in
        Ensures r.outcome (λ _. At p (content b.reader) r.state)
  unfolding seek_file
  seek_file-At p b e v h =
      let r = file.seek (byte_count p) b.reader e in
      elim (Outcome-cases r.outcome) [
        | inl (q, went) ↦ rw (went, seek_file) (seek_file_went p b e q v h went)
        | inr (inl lost) ↦ rw (lost, seek_file) tt
        | inr (inr out) ↦ absurd (lawful.seek_ends (byte_count p) b.reader e v.valid out)
      ]

  -- From a reader that keeps the invariant, `Seek` to any 64-bit position ends. Where it succeeds the
  -- invariant holds and the reader stands at that position of the same file, also beyond its end.
  pub seek-At :
      (p : Size) (b : BufferedFileReader S) (e : ErrorCollection)
      → Inv b
      → InRange p
      → let r = seek file p b e in Ensures r.outcome (λ _. At p (content b.reader) r.state)
  unfolding seek
  seek-At p b e v h =
      let inside =
        size_ge p b.start_position && size_lt p (add b.start_position (from_bytes (used b))) in
      elim (Bool-cases inside) [
        | inl hit ↦
            let bounds = inside_bounds p b v hit in rw hit (seek_within p b v bounds.0 bounds.1)
        | inr miss ↦ rw miss (seek_file-At p b e v h)
      ]

  -- `EnsureBuffer` moves the bytes down only as far as the offset has passed them.
  abbrev count : BufferedFileReader S → ℕ
  count b = b.buffer_offset.pos / 8

  count-le : (b : BufferedFileReader S) → Inv b → count b ≤ used b
  count-le b v = omega (arith, v.offset_le)

  dropped :
      (b : BufferedFileReader S)
      → Inv b
      → drop (count b) b.buffer
        ≡ take (used b - count b) (drop (b.start_position.pos / 8 + count b) (content b.reader))
  dropped b v =
      let k : ℕ = count b in
      let here = drop (b.start_position.pos / 8) (content b.reader) in
      let split : k + (used b - k) ≡ used b = omega (arith, count-le b v) in
      ap (drop k) (v.holds ∙ ap (λ (n : ℕ). take n here) (sym split))
      ∙ drop-take k (used b - k) here
      ∙ ap (take (used b - k)) (drop-drop k (b.start_position.pos / 8) (content b.reader))

  abbrev moved_down : BufferedFileReader S → BufferedFileReader S
  moved_down b = record {
    reader = b.reader;
    buffer = drop (count b) b.buffer;
    start_position = add_assign b.start_position (from_bytes (count b));
    buffer_offset = from_bits (bit_offset b.buffer_offset);
  }

  moved_down-At :
      (b : BufferedFileReader S)
      → Inv b
      → At (position b) (content b.reader) (moved_down b) × ((moved_down b).buffer_offset.pos ≤ 7)
  unfolding add_assign from_bytes from_bits bit_offset
  moved_down-At b v =
      let low = count-le b v in
      let length_down = length-drop (count b) b.buffer in
      let start : (moved_down b).start_position.pos ≡ b.start_position.pos + count b * 8 =
        ground (arith, used_within b v, v.start_in, v.small, v.aligned) in
      let off : (moved_down b).buffer_offset.pos ≡ b.buffer_offset.pos % 8 = omega arith in
      let whole : (moved_down b).start_position.pos / 8 ≡ b.start_position.pos / 8 + count b =
        omega (arith, v.aligned) in
      let inv : Inv (moved_down b) = record {
        valid = v.valid;
        small = v.small;
        aligned = omega (arith, v.aligned);
        start_in = ground (arith, used_within b v, v.start_in, v.small, v.aligned);
        holds = rw (whole, length_down) (dropped b v);
        behind = omega (arith, v.behind);
        offset_le = omega arith;
        capped = omega (arith, v.capped);
      } in
      (
        (
          inv,
          size_path (position_lem (moved_down b) inv ∙ omega arith ∙ sym (position_lem b v)),
          refl,
        ),
        omega arith,
      )

  not_over :
      (size : Size) (b : BufferedFileReader S)
      → Inv b
      → size.pos ≤ 2 ^ 12
      → size_gt (add b.buffer_offset size) (from_bytes buffer_size) ≡ false
      → b.buffer_offset.pos + size.pos ≤ buffer_size * 8
  unfolding size_gt add from_bytes
  not_over size b v small h = ground (arith, v.offset_le, v.capped, buffer_size_bounds)

  -- Making room for at most 2 ^ 12 bits keeps the invariant, the position and the file, and the
  -- buffer then has the space that the request needs.
  pub make_room-At :
      (size : Size) (b : BufferedFileReader S)
      → Inv b
      → size.pos ≤ 2 ^ 12
      → At (position b) (content b.reader) (make_room size b)
        × ((make_room size b).buffer_offset.pos + size.pos ≤ buffer_size * 8)
  unfolding make_room
  make_room-At size b v small =
      let over = size_gt (add b.buffer_offset size) (from_bytes buffer_size) in
      elim (Bool-cases over) [
        | inl full ↦
            let down = moved_down-At b v in
            rw full (down.0, omega (arith, down.1, buffer_size_bounds))
        | inr fits ↦ rw fits ((v, refl, refl), not_over size b v small fits)
      ]

  -- Moving the bytes down moves neither the offset nor the end of the buffer in the file.
  abbrev pub SameEnds : BufferedFileReader S → BufferedFileReader S → Type 0
  SameEnds b b' =
      (b'.buffer_offset.pos + used b * 8 ≡ b.buffer_offset.pos + used b' * 8)
      × (b'.start_position.pos / 8 + used b' ≡ b.start_position.pos / 8 + used b)

  moved_down-SameEnds : (b : BufferedFileReader S) → Inv b → SameEnds b (moved_down b)
  unfolding add_assign from_bytes from_bits bit_offset
  moved_down-SameEnds b v =
      let low = count-le b v in
      let length_down = length-drop (count b) b.buffer in
      let start : (moved_down b).start_position.pos ≡ b.start_position.pos + count b * 8 =
        ground (arith, used_within b v, v.start_in, v.small, v.aligned) in
      let off : (moved_down b).buffer_offset.pos ≡ b.buffer_offset.pos % 8 = omega arith in
      (omega arith, omega (arith, v.aligned))

  pub make_room-SameEnds :
      (size : Size) (b : BufferedFileReader S) → Inv b → SameEnds b (make_room size b)
  unfolding make_room
  make_room-SameEnds size b v =
      elim (Bool-cases (size_gt (add b.buffer_offset size) (from_bytes buffer_size))) [
        | inl full ↦ rw full (moved_down-SameEnds b v)
        | inr fits ↦ rw fits (refl, refl)
      ]
