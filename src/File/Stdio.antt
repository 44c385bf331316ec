-- ===== src/File/Stdio.antt =====
-- src/public/file_system.cc: `FileFileReader` and `FStreamFileSystem`. The C library's streams are a
-- parameter, with what it documents of them as laws.
pub mod Laws
use binary_reader.Common.{
  ℕ, zero, suc, subst, some-eq, ◌+◌, ◌-◌, ◌≤◌, ◌<◌, min, ◌≡◌, refl, sym, ap, ◌∙◌, arith, Bool, true,
  false, Bool-cases, inl, inr, List, [], ◌∷◌, Option, none, some, length, take, drop, ltb, decimal,
  if◌then◌else◌, length-take, length-drop,
}
use mathlib.Core.Option
use binary_reader.Error.Defs.{debug_path, io_error, error}
use binary_reader.Error.Message.{error_info}
use binary_reader.Error.Collection.{ErrorCollection, add}
use binary_reader.Exec.{Exec, Done, Outcome, ok, failed, stuck, done}
use binary_reader.File.{FileReader, IsFile}

-- The functions of <stdio.h> on a stream of type `F`. A seek gives whether it failed.
pub record Stdio (F : Type 0) : Type 0 where
  pub fopen : List ℕ → Option F
  pub fread : ℕ → F → List ℕ × F
  pub ferror : F → Bool
  pub errno : F → ℕ
  pub fseek_set : ℕ → F → Bool × F
  pub fseek_end : F → Bool × F
  pub ftell : F → ℕ

-- A stream over the bytes `held`, which stay as they are. No seek to a place within them passes their
-- end. A read without an error gives what was asked for, or all up to the end; a seek that does not
-- fail goes to its place.
pub record IsStdio {F : Type 0} (c : Stdio F) (held : F → List ℕ) : Type 0 where
  pub fread_data : (n : ℕ) (f : F) → held (c.fread n f).1 ≡ held f
  pub seek_data : (p : ℕ) (f : F) → held (c.fseek_set p f).1 ≡ held f
  pub end_data : (f : F) → held (c.fseek_end f).1 ≡ held f
  pub seek_within :
      (p : ℕ) (f : F)
      → c.ftell f ≤ length (held f)
      → p ≤ length (held f)
      → c.ftell (c.fseek_set p f).1 ≤ length (held f)
  pub fread_bytes :
      (n : ℕ) (f : F)
      → c.ferror (c.fread n f).1 ≡ false
      → ((c.fread n f).0 ≡ take n (drop (c.ftell f) (held f)))
        × (c.ftell (c.fread n f).1 ≡ c.ftell f + length (c.fread n f).0)
  pub seek_place : (p : ℕ) (f : F) → (c.fseek_set p f).0 ≡ false → c.ftell (c.fseek_set p f).1 ≡ p
  pub end_place : (f : F) → (c.fseek_end f).0 ≡ false → c.ftell (c.fseek_end f).1 ≡ length (held f)

-- A read that fails leaves the stream within its bytes. C leaves the position open there.
abbrev pub StaysWithin : {F : Type 0} → Stdio F → (F → List ℕ) → Type 0
StaysWithin {F} c held =
    (n : ℕ) (f : F)
    → c.ftell f ≤ length (held f)
    → c.ferror (c.fread n f).1 ≡ true
    → c.ftell (c.fread n f).1 ≤ length (held f)

pub record FileFileReader (F : Type 0) : Type 0 where
  pub path : List ℕ
  pub stream : F
  pub size : ℕ

module _ {F : Type 0} (c : Stdio F) where
  -- `GetSize`, with the stream after it.
  unfoldable pub get_size : F → ℕ × F
  get_size f = let at_end = (c.fseek_end f).1 in (c.ftell at_end, (c.fseek_set 0 at_end).1)

  -- `FileFileReader(path, fs)`
  unfoldable pub file_reader : List ℕ → F → FileFileReader F
  unfolding get_size
  file_reader path f = let r = get_size f in record { path = path; stream = r.1; size = r.0 }

  -- `errors->Add({{path_}, ErrorKind::IoError, {std::to_string(errno)}})`
  abbrev pub add_io_error : FileFileReader F → F → ErrorCollection → ErrorCollection
  add_io_error r f e =
      add e (error_info (debug_path r.path) io_error (decimal (c.errno f) ∷ []) error 0)

  unfoldable pub file_read : ℕ → Exec (FileFileReader F) (List ℕ)
  file_read n r e =
      let (bytes, f) = c.fread n r.stream in
      if c.ferror f
      then done failed (record r { stream = f }) (add_io_error r f e)
      else done (ok bytes) (record r { stream = f }) e

  unfoldable pub file_seek : ℕ → Exec (FileFileReader F) ℕ
  file_seek p r e =
      let clamped = if ltb r.size p then r.size else p in
      let (lost, f) = c.fseek_set clamped r.stream in
      if lost
      then done failed (record r { stream = f }) (add_io_error r f e)
      else done (ok clamped) (record r { stream = f }) e

  abbrev pub stdio_file : FileReader (FileFileReader F)
  stdio_file = record {
    can_seek = λ r. true;
    position = λ r. c.ftell r.stream;
    size = λ r. some r.size;
    read = file_read;
    seek = file_seek;
  }

  -- `FStreamFileSystem::Open`
  unfoldable pub open_stream : List ℕ → Option (FileFileReader F)
  unfolding file_reader
  open_stream path = Option.map (file_reader path) (c.fopen path)

  module _ (held : F → List ℕ) where
    -- The size is that of the data, and the stream is not past its end.
    pub record IsSized (r : FileFileReader F) : Type 0 where
      pub size_is : r.size ≡ length (held r.stream)
      pub within : c.ftell r.stream ≤ length (held r.stream)

    abbrev pub content : FileFileReader F → List ℕ
    content r = held r.stream
