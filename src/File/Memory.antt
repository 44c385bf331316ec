-- ===== src/File/Memory.antt =====
-- src/util/memory_file_system.h and .cc: `MemoryFileReader`, which meets the interface of
-- `FileReader`, and `MemoryFileSystem`.
use binary_reader.Common.{
  ℕ, ◌+◌, ◌-◌, ◌≤◌, ◌<◌, ◌^◌, min, ◌≡◌, refl, sym, ap, ◌∙◌, arith, true, List, Option, some, length,
  take, drop, sub64, length-take, length-drop, lookup, emplace,
}
use mathlib.Core.Option
use binary_reader.Error.Collection.{ErrorCollection}
use binary_reader.Exec.{Exec, ok, done}
use binary_reader.File.{FileReader, IsFile}

pub record MemoryFileReader : Type 0 where
  pub buffer : List ℕ
  pub pos : ℕ

-- The constructors: from bytes, and from bytes and a position.
unfoldable pub memory_reader : List ℕ → MemoryFileReader
memory_reader bytes = record { buffer = bytes; pos = 0 }

unfoldable pub memory_reader_at : List ℕ → ℕ → MemoryFileReader
memory_reader_at bytes p = record { buffer = bytes; pos = p }

unfoldable pub memory_read : ℕ → Exec MemoryFileReader (List ℕ)
memory_read n r e =
    let size = min n (sub64 (length r.buffer) r.pos) in
    done (ok (take size (drop r.pos r.buffer))) (record r { pos = r.pos + size }) e

unfoldable pub memory_seek : ℕ → Exec MemoryFileReader ℕ
memory_seek p r e =
    let clamped = min (length r.buffer) p in done (ok clamped) (record r { pos = clamped }) e

abbrev pub memory_file : FileReader MemoryFileReader
memory_file = record {
  can_seek = λ r. true;
  position = λ r. r.pos;
  size = λ r. some (length r.buffer);
  read = memory_read;
  seek = memory_seek;
}

-- `Clone`
unfoldable pub clone : MemoryFileReader → MemoryFileReader
unfolding memory_reader_at
clone r = memory_reader_at r.buffer r.pos

-- `MemoryFileSystem`: `Add` keeps a file that is there, and `Open` gives a reader of its own.
abbrev pub MemoryFileSystem : Type 0
MemoryFileSystem = List (List ℕ × MemoryFileReader)

unfoldable pub add_file : MemoryFileSystem → List ℕ → List ℕ → MemoryFileSystem
unfolding emplace memory_reader
add_file fs path bytes = emplace path (memory_reader bytes) fs

unfoldable pub open_file : MemoryFileSystem → List ℕ → Option MemoryFileReader
unfolding lookup clone
open_file fs path = Option.map clone (lookup path fs)

-- A reader is within its file, and the file's size is a `size_t`.
pub record IsValid (r : MemoryFileReader) : Type 0 where
  pub within : r.pos ≤ length r.buffer
  pub fits : length r.buffer < 2 ^ 64

-- The number of bytes that a read gives.
given : ℕ → MemoryFileReader → ℕ
given n s = min n (length s.buffer - s.pos)

memory_read-given :
    (n : ℕ) (s : MemoryFileReader) (e : ErrorCollection) (bytes : List ℕ)
    → IsValid s
    → (memory_read n s e).outcome ≡ ok bytes
    → (take (given n s) (drop s.pos s.buffer) ≡ bytes)
      × (length bytes ≡ given n s)
      × ((memory_read n s e).state.pos ≡ s.pos + given n s)
unfolding memory_read given
memory_read-given n s e bytes v h =
    let count : min n (sub64 (length s.buffer) s.pos) ≡ min n (length s.buffer - s.pos) =
      omega arith in
    let taken : take (given n s) (drop s.pos s.buffer) ≡ bytes = rw (← count) (cc) in
    (
      taken,
      omega (
        arith,
        ap (length {A = ℕ}) taken,
        length-take (given n s) (drop s.pos s.buffer),
        length-drop s.pos s.buffer,
      ),
      omega arith,
    )

read_bytes :
    (n : ℕ) (s : MemoryFileReader) (e : ErrorCollection) (bytes : List ℕ)
    → IsValid s
    → (memory_read n s e).outcome ≡ ok bytes
    → (bytes ≡ take (length bytes) (drop s.pos s.buffer))
      × (length bytes ≤ n)
      × ((memory_read n s e).state.pos ≡ s.pos + length bytes)
read_bytes n s e bytes v h =
    let facts = memory_read-given n s e bytes v h in
    (
      rw facts.1 (sym facts.0),
      unfold given in omega arith,
      facts.2 ∙ ap (λ (t : ℕ). s.pos + t) (sym facts.1),
    )

-- The memory reader keeps the contract of `FileReader`: what a read gives and where it leaves the
-- reader, the position within the file, where a seek goes and that it says so, the errors of calls that
-- fail, and that the file, its size and whether it can be seeked do not change.
pub memory_file-IsFile : IsFile memory_file IsValid (λ r. r.buffer)
unfolding memory_read memory_seek
memory_file-IsFile = record {
  read_valid = λ n s e v. ground (arith);
  read_same = λ n s e v. refl;
  read_bytes = read_bytes;
  read_some = λ n s e bytes v h pos more.
      unfold given in omega (arith, (memory_read-given n s e bytes v h).1);
  read_ends = λ n s e v h. cc;
  size_lem = λ s n v h. ground arith;
  position_le = λ s v. v.within;
  seek_valid = λ p s e v. ground arith;
  seek_same = λ p s e v. refl;
  seek_position = λ p s e q v h. ground arith;
  seek_ends = λ p s e v h. cc;
  seek_gives = λ p s e q v h. ground arith;
  read_reports = λ n s e v h. absurd cc;
  seek_reports = λ p s e v h. absurd cc;
  read_can_seek = λ n s e v. refl;
  seek_can_seek = λ p s e v. refl;
  unseekable = λ p s e v h. absurd cc;
}
