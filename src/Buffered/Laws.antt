-- ===== src/Buffered/Laws.antt =====
-- `EnsureBuffer` and `GetBuffer` against the file that they read.
use binary_reader.Common.{
  ℕ, zero, suc, ◌+◌, ◌-◌, ◌*◌, ◌/◌, ◌^◌, ◌≤◌, ◌<◌, ◌≡◌, ◌↔◌, refl, sym, ap, ap₂, ◌∙◌, arith, true,
  false, List, [], ◌∷◌, ◌++◌, append-nil, length, take, drop, length-take, length-drop,
  length-append, take-append_drop, drop-drop, ◌⊎◌, inl, inr, Bool-cases,
}
use binary_reader.Size.{Size, from_bytes, add, size_gt, InRange}
use binary_reader.Error.Collection.{ErrorCollection}
use binary_reader.Exec.{Done, Outcome-cases, Ensures, Ensures-map, ok, failed, stuck, done}
use binary_reader.File.{FileReader, IsFile}
use binary_reader.Buffered.{
  BufferedFileReader, buffer_size, used, position, make_room, skip, read_file, fill_loop,
  ensure_buffer,
}
use native.Mathlib.Decide.{dec_lt}
use binary_reader.Buffered.Invariant.{
  buffer_size_bounds, Inv, At, SameEnds, make_room-SameEnds, make_room-At, seek-At,
}

module _ {S : Type 0} (file : FileReader S) (Valid : S → Type 0) (content : S → List ℕ)
    (lawful : IsFile file Valid content) where
  abbrev Good : BufferedFileReader S → Type 0
  Good b = Inv file Valid content lawful b

  -- The requested bits are in the buffer, or all of the file from its start on is.
  abbrev pub Filled : Size → BufferedFileReader S → Type 0
  Filled size b =
      (b.buffer_offset.pos + size.pos ≤ used b * 8)
      ⊎ (length (content b.reader) ≤ b.start_position.pos / 8 + used b)

  -- What the loop leaves as it was.
  abbrev Kept : BufferedFileReader S → BufferedFileReader S → Type 0
  Kept b b' =
      (b'.start_position ≡ b.start_position)
      × (b'.buffer_offset ≡ b.buffer_offset)
      × (content b'.reader ≡ content b.reader)
      × (used b ≤ used b')

  module _ (b : BufferedFileReader S) (e : ErrorCollection) (v : Good b) (bytes : List ℕ)
      (got : (file.read (buffer_size - used b) b.reader e).outcome ≡ ok bytes) where
    abbrev after_read : BufferedFileReader S
    after_read = record b {
      reader = (file.read (buffer_size - used b) b.reader e).state;
      buffer = b.buffer ++ bytes;
    }

    same : content after_read.reader ≡ content b.reader
    same = lawful.read_same (buffer_size - used b) b.reader e v.valid

    -- Where the file stands before its end, the buffer ends there too.
    joins :
        0 < length bytes
        → bytes ≡ take (length bytes) (drop (b.start_position.pos / 8 + used b) (content b.reader))
    joins pos =
        let facts = lawful.read_bytes (buffer_size - used b) b.reader e bytes v.valid got in
        let here : file.position b.reader ≡ b.start_position.pos / 8 + used b = omega (
          arith,
          v.behind,
          ap (length {A = ℕ}) facts.0,
          length-take (length bytes) (drop (file.position b.reader) (content b.reader)),
          length-drop (file.position b.reader) (content b.reader),
        ) in
        rw here at facts.0

    appended :
        b.buffer ++ bytes
        ≡ take (used b + length bytes) (drop (b.start_position.pos / 8) (content b.reader))
    appended = elim (dec_lt 0 (length bytes)) [
      | yes pos ↦
          ap₂ ◌++◌ v.holds (
            joins pos
            ∙ ap (take (length bytes))
                (sym (drop-drop (used b) (b.start_position.pos / 8) (content b.reader))))
          ∙ take-append_drop (used b) (length bytes)
              (drop (b.start_position.pos / 8) (content b.reader))
      | no none ↦ nothing bytes (omega arith)
    ]
      where
        nothing :
            (l : List ℕ)
            → length l ≡ 0
            → b.buffer ++ l
              ≡ take (used b + length l) (drop (b.start_position.pos / 8) (content b.reader))
        nothing [] h =
            append-nil b.buffer
            ∙ v.holds
            ∙ ap (λ (n : ℕ). take n (drop (b.start_position.pos / 8) (content b.reader)))
                (omega arith)
        nothing (x ∷ l) h = absurd (omega arith)

    after_read-Inv : Good after_read
    after_read-Inv =
        let facts = lawful.read_bytes (buffer_size - used b) b.reader e bytes v.valid got in
        let more = length-append b.buffer bytes in
        record {
          valid = lawful.read_valid (buffer_size - used b) b.reader e v.valid;
          small = rw same v.small;
          aligned = v.aligned;
          start_in = v.start_in;
          holds = rw (same, more) appended;
          behind = rw same (
              omega (
                arith,
                v.behind,
                facts.2,
                more,
                ap (length {A = ℕ}) facts.0,
                length-take (length bytes) (drop (file.position b.reader) (content b.reader)),
                length-drop (file.position b.reader) (content b.reader),
              ));
          offset_le = omega (arith, v.offset_le, more);
          capped = omega (arith, v.capped, facts.1, more);
        }

  FillEnds : Size → BufferedFileReader S → Done (BufferedFileReader S) (Unit {0}) → Type 0
  FillEnds size b r = Ensures r.outcome (λ _. Good r.state × Kept b r.state × Filled size r.state)

  -- A round that reads no byte has the end of the file behind the buffer.
  at_end :
      (size : Size) (b : BufferedFileReader S) (e : ErrorCollection)
      → Good b
      → used b < buffer_size
      → (file.read (buffer_size - used b) b.reader e).outcome ≡ ok []
      → length (content b.reader) ≤ b.start_position.pos / 8 + used b
  at_end size b e v room got = elim (dec_lt (file.position b.reader) (length (content b.reader))) [
    | yes more ↦ absurd (
        omega (
          arith,
          lawful.read_some (buffer_size - used b) b.reader e [] v.valid got (omega arith) more,
        ))
    | no past ↦ omega (arith, v.behind)
  ]

  read_file_ok :
      (b : BufferedFileReader S) (e : ErrorCollection) (bytes : List ℕ)
      → (file.read (buffer_size - used b) b.reader e).outcome ≡ ok bytes
      → read_file file b e
        ≡ done
            (ok bytes)
            (record b {
              reader = (file.read (buffer_size - used b) b.reader e).state;
              buffer = b.buffer ++ bytes;
            })
            (file.read (buffer_size - used b) b.reader e).errors
  unfolding read_file
  read_file_ok b e bytes got = rw (got, read_file) refl

  read_file_failed :
      (b : BufferedFileReader S) (e : ErrorCollection)
      → (file.read (buffer_size - used b) b.reader e).outcome ≡ failed
      → (read_file file b e).outcome ≡ failed
  unfolding read_file
  read_file_failed b e got = rw (got, read_file) refl

  -- The rounds of the loop, by what the file answers.
  module _ (fuel : ℕ) (size : Size) (b : BufferedFileReader S) (e : ErrorCollection)
      (short : size_gt (add b.buffer_offset size) (from_bytes (used b)) ≡ true) where
    abbrev pub next : Done (BufferedFileReader S) (List ℕ) → Done (BufferedFileReader S) (Unit {0})
    next r = elim r.outcome as (λ _. Done (BufferedFileReader S) (Unit {0})) [
      | failed ↦ done failed r.state r.errors
      | stuck ↦ done stuck r.state r.errors
      | ok bytes ↦ elim bytes as (λ _. Done (BufferedFileReader S) (Unit {0})) [
        | [] ↦ done (ok tt) r.state r.errors
        | b ∷ bs ↦ fill_loop file fuel size r.state r.errors
      ]
    ]

    pub fill_loop-next : fill_loop file (suc fuel) size b e ≡ next (read_file file b e)
    unfolding fill_loop
    fill_loop-next = rw short refl

    pub fill_loop_again :
        (x : ℕ) (xs : List ℕ)
        → (got : (file.read (buffer_size - used b) b.reader e).outcome ≡ ok (x ∷ xs))
        → fill_loop file (suc fuel) size b e
          ≡ fill_loop file fuel size
              (record b {
                reader = (file.read (buffer_size - used b) b.reader e).state;
                buffer = b.buffer ++ (x ∷ xs);
              })
              (file.read (buffer_size - used b) b.reader e).errors
    fill_loop_again x xs got = fill_loop-next ∙ ap next (read_file_ok b e (x ∷ xs) got)

    pub fill_loop_end :
        (got : (file.read (buffer_size - used b) b.reader e).outcome ≡ ok [])
        → fill_loop file (suc fuel) size b e
          ≡ done
              (ok tt)
              (record b {
                reader = (file.read (buffer_size - used b) b.reader e).state;
                buffer = b.buffer ++ [];
              })
              (file.read (buffer_size - used b) b.reader e).errors
    fill_loop_end got = fill_loop-next ∙ ap next (read_file_ok b e [] got)

    next_failed :
        (r : Done (BufferedFileReader S) (List ℕ)) → r.outcome ≡ failed → (next r).outcome ≡ failed
    next_failed r h = rw h refl

    fill_loop_failed :
        (file.read (buffer_size - used b) b.reader e).outcome ≡ failed
        → (fill_loop file (suc fuel) size b e).outcome ≡ failed
    fill_loop_failed got =
        rw (fill_loop-next) (next_failed (read_file file b e) (read_file_failed b e got))

  fits :
      (size : Size) (b : BufferedFileReader S)
      → Good b
      → b.buffer_offset.pos + size.pos ≤ buffer_size * 8
      → (size_gt (add b.buffer_offset size) (from_bytes (used b)) ≡ false)
        ↔ (b.buffer_offset.pos + size.pos ≤ used b * 8)
  unfolding size_gt add from_bytes
  fits size b v room = ground (arith, buffer_size_bounds, v.capped)

  fill_loop-FillEnds :
      (fuel : ℕ) (size : Size) (b : BufferedFileReader S) (e : ErrorCollection)
      → Good b
      → b.buffer_offset.pos + size.pos ≤ buffer_size * 8
      → buffer_size < fuel + used b
      → FillEnds size b (fill_loop file fuel size b e)
  unfolding FillEnds
  fill_loop-FillEnds zero size b e v room enough = absurd (omega (arith, v.capped))
  fill_loop-FillEnds (suc fuel) size b e v room enough =
      elim (Bool-cases (size_gt (add b.buffer_offset size) (from_bytes (used b)))) [
        | inr full ↦
            rw (enough_bytes full)
              (v, (refl, refl, refl, omega arith), inl ((fits size b v room).0 full))
        | inl short ↦
            let missing : used b * 8 < b.buffer_offset.pos + size.pos =
              ground (arith, fits size b v room) in
            elim (Outcome-cases r.outcome) [
              | inl ([], got) ↦ rw (fill_loop_end fuel size b e short got) (
                after_read-Inv b e v [] got,
                (refl, refl, same b e v [] got, omega (arith, length-append b.buffer [])),
                inr (
                    rw (same b e v [] got) (
                      omega
                        (arith, at_end size b e v (omega arith) got, length-append b.buffer []))),
              )
              | inl (x ∷ xs, got) ↦
                  let n = length-append b.buffer (x ∷ xs) in
                  rw (fill_loop_again fuel size b e short x xs got) (
                    kept (x ∷ xs) got
                      (fill_loop file fuel size (after_read b e v (x ∷ xs) got)
                        (file.read (buffer_size - used b) b.reader e).errors)
                      (fill_loop-FillEnds fuel size (after_read b e v (x ∷ xs) got)
                        (file.read (buffer_size - used b) b.reader e).errors
                        (after_read-Inv b e v (x ∷ xs) got) room (omega arith)))
              | inr (inl lost) ↦ rw (fill_loop_failed fuel size b e short lost) tt
              | inr (inr out) ↦
                  absurd (lawful.read_ends (buffer_size - used b) b.reader e v.valid out)
            ]
      ]
    where
      r : Done S (List ℕ)
      r = file.read (buffer_size - used b) b.reader e

      kept :
          (bytes : List ℕ)
          → (got : r.outcome ≡ ok bytes) → (q : Done (BufferedFileReader S) (Unit {0}))
          → Ensures q.outcome
              (λ _. Good q.state × Kept (after_read b e v bytes got) q.state × Filled size q.state)
          → Ensures q.outcome (λ _. Good q.state × Kept b q.state × Filled size q.state)
      kept bytes got q h =
          Ensures-map q.outcome
            (λ _ k. (
              k.0,
              (
                k.1.0,
                k.1.1,
                k.1.2 ∙ same b e v bytes got,
                omega (arith, k.1.3, length-append b.buffer bytes),
              ),
              k.2,
            ))
            h

      enough_bytes :
          size_gt (add b.buffer_offset size) (from_bytes (used b)) ≡ false
          → fill_loop file (suc fuel) size b e ≡ done (ok tt) b e
      enough_bytes full = unfold fill_loop in rw full refl

  unmoved :
      (size : Size) (b b' : BufferedFileReader S) (r : Done (BufferedFileReader S) (Unit {0}))
      → At file Valid content lawful (position b) (content b.reader) b'
      → FillEnds size b' r
      → Ensures r.outcome (λ _.
        At file Valid content lawful (position b) (content b.reader) r.state × Filled size r.state)
  unfolding FillEnds position
  unmoved size b b' r was ends =
      Ensures-map {P = λ _. Good r.state × Kept b' r.state × Filled size r.state}
        {Q = λ _.
          At file Valid content lawful (position b) (content b.reader) r.state
          × Filled size r.state}
        r.outcome (λ _ k. ((k.0, ap₂ add k.1.0 k.1.1 ∙ was.1, k.1.2 ∙ was.2), k.2)) ends

  -- From a reader that keeps the invariant, `EnsureBuffer` of at most 2 ^ 12 bits ends. Where it
  -- succeeds the invariant holds, the reader stands where it stood in the same file, and the buffer
  -- holds the requested bits or all of the file from its own start on.
  pub ensure_buffer-At :
      (size : Size) (b : BufferedFileReader S) (e : ErrorCollection)
      → Good b
      → size.pos ≤ 2 ^ 12
      → let r = ensure_buffer file size b e in
        Ensures r.outcome (λ _.
          At file Valid content lawful (position b) (content b.reader) r.state
          × Filled size r.state)
  unfolding ensure_buffer
  ensure_buffer-At size b e v small =
      let room = make_room-At file Valid content lawful size b v small in
      unmoved size b (make_room size b) (fill_loop file (buffer_size + 2) size (make_room size b) e)
        room.0
        (fill_loop-FillEnds (buffer_size + 2) size (make_room size b) e room.0.0 room.1
          (omega arith))

  -- `Skip` ends; where it succeeds the reader stands `count` bits further in the same file.
  pub skip-At :
      (count : Size) (b : BufferedFileReader S) (e : ErrorCollection)
      → Good b
      → InRange (add (position b) count)
      → let r = skip file count b e in
        Ensures r.outcome
          (λ _. At file Valid content lawful (add (position b) count) (content b.reader) r.state)
  unfolding skip position
  skip-At count b e v h = seek-At file Valid content lawful (add (position b) count) b e v h

  still-Filled :
      (size : Size) (b b' b'' : BufferedFileReader S)
      → Filled size b
      → content b'.reader ≡ content b.reader
      → SameEnds file Valid content lawful b b'
      → Kept b' b''
      → Filled size b''
  still-Filled size b b' b'' (inl h) here ends k =
      inl (omega (arith, ends.0, ap (λ (s : Size). s.pos) k.1, k.3))
  still-Filled size b b' b'' (inr h) here ends k =
      inr (rw (k.2, here) (omega (arith, ends.1, ap (λ (s : Size). s.pos) k.0, k.3)))

  -- A second `EnsureBuffer`, of at most 2 ^ 12 bits, that succeeds keeps what a first one has brought
  -- in, for a reader that keeps the invariant.
  pub ensure_buffer-Filled :
      (size other : Size) (b : BufferedFileReader S) (e : ErrorCollection)
      → Good b
      → other.pos ≤ 2 ^ 12
      → Filled size b
      → let r = ensure_buffer file other b e in Ensures r.outcome (λ _. Filled size r.state)
  unfolding ensure_buffer FillEnds
  ensure_buffer-Filled size other b e v small full =
      let room = make_room-At file Valid content lawful other b v small in
      let b' : BufferedFileReader S = make_room other b in
      kept_filled b' (fill_loop file (buffer_size + 2) other b' e) room.0.2
        (make_room-SameEnds file Valid content lawful other b v)
        (fill_loop-FillEnds (buffer_size + 2) other b' e room.0.0 room.1 (omega arith))
    where
      kept_filled :
          (b' : BufferedFileReader S) (r : Done (BufferedFileReader S) (Unit {0}))
          → content b'.reader ≡ content b.reader
          → SameEnds file Valid content lawful b b'
          → FillEnds other b' r
          → Ensures r.outcome (λ _. Filled size r.state)
      kept_filled b' r same ends h =
          Ensures-map {P = λ _. Good r.state × Kept b' r.state × Filled other r.state}
            {Q = λ _. Filled size r.state} r.outcome
            (λ _ k. still-Filled size b b' r.state full same ends k.1) h
