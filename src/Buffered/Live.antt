-- ===== src/Buffered/Live.antt =====
-- A `BufferedFileReader` over a file whose reads and seeks never fail does not fail either.
use binary_reader.Common.{
  ℕ, ◌+◌, ◌-◌, zero, suc, List, [], ◌∷◌, ◌≡◌, refl, Bool-cases, inl, inr, ◌&&◌,
}
use binary_reader.Size.{Size, add, from_bytes, from_bits, size_gt, size_ge, size_lt}
use binary_reader.Error.Collection.{ErrorCollection}
use binary_reader.Exec.{
  Exec, Done, Outcome, Outcome-cases, ok, failed, stuck, return, continue, ◌>>=◌, get_state,
}
use binary_reader.File.{FileReader, IsFile}
use binary_reader.Buffered.{
  BufferedFileReader, buffer_size, used, make_room, seek_file, seek, skip, read_file, fill_loop,
  ensure_buffer, get_buffer, available,
}
use binary_reader.Buffered.Laws.{fill_loop-next, fill_loop_again, fill_loop_end}

-- A call that does not fail.
abbrev pub Lasts : {A : Type 0} → Outcome A → Type 0
Lasts o = o ≡ failed → ⊥

-- A chain does not fail if its parts do not.
pub Lasts-bind :
    {S A B : Type 0} (r : Done S A) (f : A → Exec S B)
    → Lasts r.outcome
    → ((a : A) → r.outcome ≡ ok a → Lasts (f a r.state r.errors).outcome)
    → Lasts (continue r.outcome r.state r.errors f).outcome
Lasts-bind r f h k = elim (Outcome-cases r.outcome) [
  | inl (a, e) ↦ rw e (k a e)
  | inr (inl e) ↦ absurd (h e)
  | inr (inr e) ↦ rw e (λ lost. absurd cc)
]

pub record NeverFails {S : Type 0} (file : FileReader S) : Type 0 where
  pub reads : (n : ℕ) (s : S) (e : ErrorCollection) → Lasts (file.read n s e).outcome
  pub seeks : (p : ℕ) (s : S) (e : ErrorCollection) → Lasts (file.seek p s e).outcome

module _ {S : Type 0} (file : FileReader S) (Valid : S → Type 0) (content : S → List ℕ)
    (lawful : IsFile file Valid content) (never : NeverFails file) where
  seek_file-Lasts :
      (p : ℕ) (b : BufferedFileReader S) (e : ErrorCollection)
      → Lasts (seek_file file p b e).outcome
  unfolding seek_file
  seek_file-Lasts p b e = elim (Outcome-cases (file.seek p b.reader e).outcome) [
    | inl (q, went) ↦ rw (went, seek_file) (λ lost. absurd cc)
    | inr (inl lost) ↦ absurd (never.seeks p b.reader e lost)
    | inr (inr out) ↦ rw (out, seek_file) (λ lost. absurd cc)
  ]

  pub seek-Lasts :
      (p : Size) (b : BufferedFileReader S) (e : ErrorCollection) → Lasts (seek file p b e).outcome
  unfolding seek
  seek-Lasts p b e =
      elim (Bool-cases
        (size_ge p b.start_position && size_lt p (add b.start_position (from_bytes (used b))))) [
          | inl within ↦ rw within (λ lost. absurd cc)
          | inr beyond ↦ rw beyond (seek_file-Lasts _ _ e)
        ]

  pub skip-Lasts :
      (count : Size) (b : BufferedFileReader S) (e : ErrorCollection)
      → Lasts (skip file count b e).outcome
  unfolding skip
  skip-Lasts count b e = seek-Lasts (add (add b.start_position b.buffer_offset) count) b e

  read_file_stuck :
      (b : BufferedFileReader S) (e : ErrorCollection)
      → (file.read (buffer_size - used b) b.reader e).outcome ≡ stuck
      → (read_file file b e).outcome ≡ stuck
  unfolding read_file
  read_file_stuck b e got = rw (got, read_file) refl

  fill_loop-Lasts :
      (fuel : ℕ) (size : Size) (b : BufferedFileReader S) (e : ErrorCollection)
      → Lasts (fill_loop file fuel size b e).outcome
  unfolding fill_loop
  fill_loop-Lasts zero size b e = λ lost. absurd cc
  fill_loop-Lasts (suc fuel) size b e =
      elim (Bool-cases (size_gt (add b.buffer_offset size) (from_bytes (used b)))) [
        | inr full ↦ rw full (λ lost. absurd cc)
        | inl short ↦ elim (Outcome-cases (file.read (buffer_size - used b) b.reader e).outcome) [
          | inl ([], got) ↦
              rw (fill_loop_end file Valid content lawful fuel size b e short got)
                (λ lost. absurd cc)
          | inl (x ∷ xs, got) ↦
              rw (fill_loop_again file Valid content lawful fuel size b e short x xs got)
                (fill_loop-Lasts fuel size _ _)
          | inr (inl lost) ↦ absurd (never.reads (buffer_size - used b) b.reader e lost)
          | inr (inr out) ↦
              rw (fill_loop-next file Valid content lawful fuel size b e short)
                (rw (read_file_stuck b e out) (λ lost. absurd cc))
        ]
      ]

  pub ensure_buffer-Lasts :
      (size : Size) (b : BufferedFileReader S) (e : ErrorCollection)
      → Lasts (ensure_buffer file size b e).outcome
  unfolding ensure_buffer
  ensure_buffer-Lasts size b e = fill_loop-Lasts (buffer_size + 2) size (make_room size b) e

  pub get_buffer-Lasts :
      (b : BufferedFileReader S) (e : ErrorCollection) → Lasts (get_buffer file b e).outcome
  unfolding get_buffer
  get_buffer-Lasts b e =
      Lasts-bind (ensure_buffer file (from_bits 1) b e)
        (λ _. get_state >>= λ q. return (available q)) (ensure_buffer-Lasts (from_bits 1) b e)
        (λ _ is lost. absurd cc)
