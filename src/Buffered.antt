-- ===== src/Buffered.antt =====
-- src/util/buffered_file_reader.h and .cc: reads of a file through a buffer of 64 MiB.
-- `buffer` holds the first `used_` bytes of `buffer_`, so that `used_` is its length. The asserts
-- of `EnsureBuffer` are not modelled.
pub mod Invariant
pub mod Laws
pub mod Window
pub mod Live
use binary_reader.Common.{
  ℕ, zero, suc, ◌+◌, ◌-◌, ◌*◌, Bool, true, false, ◌&&◌, List, [], ◌∷◌, ◌++◌, if◌then◌else◌, length,
  drop, ◌≡◌,
}
use binary_reader.Size.{
  Size, zero_size, from_bytes, from_bits, add, add_assign, sub, bit_offset, byte_count,
  clip_to_byte, size_ge, size_gt, size_lt,
}
use binary_reader.Error.Collection.{ErrorCollection}
use binary_reader.Exec.{
  Exec, Done, Outcome, ok, failed, stuck, done, return, continue, get_state, ◌>>=◌, ◌>>◌,
}
use binary_reader.File.{FileReader}

-- `kBufferSize`
pub buffer_size : ℕ
buffer_size = 64 * 1024 * 1024

pub record BufferedFileReader (S : Type 0) : Type 0 where
  pub reader : S
  pub buffer : List ℕ
  pub start_position : Size
  pub buffer_offset : Size

-- `BufferedFileReader(reader)`
abbrev pub new_buffered : {S : Type 0} → S → BufferedFileReader S
new_buffered r = record {
  reader = r;
  buffer = [];
  start_position = zero_size;
  buffer_offset = zero_size;
}

module _ {S : Type 0} where
  abbrev pub used : BufferedFileReader S → ℕ
  used b = length b.buffer

  unfoldable pub position : BufferedFileReader S → Size
  unfolding add
  position b = add b.start_position b.buffer_offset

  -- The state of `Seek` before the file is asked: an empty buffer at the byte of the position.
  abbrev pub emptied : BufferedFileReader S → Size → BufferedFileReader S
  emptied b p = record {
    reader = b.reader;
    buffer = [];
    start_position = clip_to_byte p;
    buffer_offset = from_bits (bit_offset p);
  }

  -- The first part of `EnsureBuffer`: the `memmove` that makes room for `size`.
  unfoldable pub make_room : Size → BufferedFileReader S → BufferedFileReader S
  unfolding size_gt add add_assign from_bytes from_bits byte_count bit_offset buffer_size
  make_room size b =
      let count = byte_count b.buffer_offset in
      if size_gt (add b.buffer_offset size) (from_bytes buffer_size)
      then record {
        reader = b.reader;
        buffer = drop count b.buffer;
        start_position = add_assign b.start_position (from_bytes count);
        buffer_offset = from_bits (bit_offset b.buffer_offset);
      }
      else b

  -- The bytes that `GetBuffer` points at, up to the end of the buffer.
  abbrev pub available : BufferedFileReader S → List ℕ
  available b = drop (byte_count b.buffer_offset) b.buffer

module _ {S : Type 0} (file : FileReader S) where
  -- `reader_->Seek`, with the position that it goes to not looked at.
  unfoldable pub seek_file : ℕ → Exec (BufferedFileReader S) (Unit {0})
  seek_file p b e =
      let r = file.seek p b.reader e in
      let b' = record b { reader = r.state } in
      elim r.outcome [
        | ok q ↦ done (ok tt) b' r.errors
        | failed ↦ done failed b' r.errors
        | stuck ↦ done stuck b' r.errors
      ]

  -- `Seek`
  unfoldable pub seek : Size → Exec (BufferedFileReader S) (Unit {0})
  unfolding size_ge size_lt add from_bytes sub byte_count bit_offset clip_to_byte from_bits
      seek_file
  seek p b e =
      if size_ge p b.start_position && size_lt p (add b.start_position (from_bytes (used b)))
      then done (ok tt) (record b { buffer_offset = sub p b.start_position }) e
      else seek_file (byte_count p) (emptied b p) e

  -- `Skip`
  unfoldable pub skip : Size → Exec (BufferedFileReader S) (Unit {0})
  unfolding seek
  skip count b e = seek (add (add b.start_position b.buffer_offset) count) b e

  -- `reader_->Read` behind the bytes of the buffer, for all the space that is left.
  unfoldable pub read_file : Exec (BufferedFileReader S) (List ℕ)
  unfolding buffer_size
  read_file b e =
      let r = file.read (buffer_size - used b) b.reader e in
      let b' = record b { reader = r.state } in
      elim r.outcome [
        | ok bytes ↦ done (ok bytes) (record b' { buffer = b.buffer ++ bytes }) r.errors
        | failed ↦ done failed b' r.errors
        | stuck ↦ done stuck b' r.errors
      ]

  -- The `while` of `EnsureBuffer`, on fuel: a read gives a byte or ends the loop.
  unfoldable pub fill_loop : ℕ → Size → Exec (BufferedFileReader S) (Unit {0})
  fill_loop zero size b e = done stuck b e
  fill_loop (suc fuel) size b e =
      let r = read_file b e in
      let round = elim r.outcome as (λ _. Done (BufferedFileReader S) (Unit {0})) [
        | failed ↦ done failed r.state r.errors
        | stuck ↦ done stuck r.state r.errors
        | ok bytes ↦ elim bytes as (λ _. Done (BufferedFileReader S) (Unit {0})) [
          | [] ↦ done (ok tt) r.state r.errors
          | b ∷ bs ↦ fill_loop fuel size r.state r.errors
        ]
      ] in
      if size_gt (add b.buffer_offset size) (from_bytes (used b)) then round else done (ok tt) b e

  -- `EnsureBuffer`. The buffer has room for at most `buffer_size` bytes, so for as many reads.
  unfoldable pub ensure_buffer : Size → Exec (BufferedFileReader S) (Unit {0})
  unfolding make_room fill_loop buffer_size
  ensure_buffer size b e = fill_loop (buffer_size + 2) size (make_room size b) e

  -- `GetBuffer`
  unfoldable pub get_buffer : Exec (BufferedFileReader S) (List ℕ)
  unfolding ensure_buffer
  get_buffer = do ensure_buffer (from_bits 1); b ← get_state; return (available b)
