-- ===== src/File.antt =====
-- include/binary_reader/file_system.h: the interface `FileReader`, as a record of operations on the
-- state `S` of a reader, the behaviour that it documents, and `ReadFully`.
pub mod Memory
pub mod ReadFully
pub mod Stdio
use binary_reader.Common.{
  ℕ, zero, suc, ◌+◌, ◌-◌, ◌*◌, ◌≤◌, ◌<◌, min, ◌≡◌, Bool, true, false, List, [], ◌∷◌, ◌++◌, Option,
  none, some, length, take, drop,
}
use mathlib.Core.Option
use binary_reader.Error.Defs.{ErrorInfo}
use binary_reader.Error.Collection.{ErrorCollection, add, is_error}
use binary_reader.Exec.{Exec, Done, Outcome, ok, failed, stuck, done, return, continue, ◌>>=◌, ◌>>◌}

-- `read s n` asks for n bytes, and gives those that were read; `seek s p` gives the position
-- that it went to.
pub record FileReader (S : Type 0) : Type 0 where
  pub can_seek : S → Bool
  pub position : S → ℕ
  pub size : S → Option ℕ
  pub read : ℕ → Exec S (List ℕ)
  pub seek : ℕ → Exec S ℕ

-- One more error, of the level `error`.
pub record Reported (before after : ErrorCollection) : Type 0 where
  pub reason : ErrorInfo
  pub added : after ≡ add before reason
  pub severe : is_error reason.level ≡ true

-- The comments of the interface, for readers whose state satisfies `Valid`: the file does not
-- change; a read gives bytes from the position on, at least one unless none is left or none was
-- asked for; a seek goes to the position asked for, clamped to the file, and gives the position that it
-- went to; a call that fails adds an error; whether the file can be seeked does not change, and a seek
-- of a file that cannot be fails.
pub record IsFile {S : Type 0} (file : FileReader S) (Valid : S → Type 0) (content : S → List ℕ)
    : Type 0 where
  pub read_valid : (n : ℕ) (s : S) (e : ErrorCollection) → Valid s → Valid (file.read n s e).state
  pub read_same :
      (n : ℕ) (s : S) (e : ErrorCollection) → Valid s → content (file.read n s e).state ≡ content s
  pub read_bytes :
      (n : ℕ) (s : S) (e : ErrorCollection) (bytes : List ℕ)
      → Valid s
      → (file.read n s e).outcome ≡ ok bytes
      → (bytes ≡ take (length bytes) (drop (file.position s) (content s)))
        × (length bytes ≤ n)
        × (file.position (file.read n s e).state ≡ file.position s + length bytes)
  pub read_some :
      (n : ℕ) (s : S) (e : ErrorCollection) (bytes : List ℕ)
      → Valid s
      → (file.read n s e).outcome ≡ ok bytes
      → 0 < n
      → file.position s < length (content s)
      → 0 < length bytes
  pub read_ends :
      (n : ℕ) (s : S) (e : ErrorCollection) → Valid s → (file.read n s e).outcome ≡ stuck → ⊥
  pub size_lem : (s : S) (n : ℕ) → Valid s → file.size s ≡ some n → n ≡ length (content s)
  pub position_le : (s : S) → Valid s → file.position s ≤ length (content s)
  pub seek_valid : (p : ℕ) (s : S) (e : ErrorCollection) → Valid s → Valid (file.seek p s e).state
  pub seek_same :
      (p : ℕ) (s : S) (e : ErrorCollection) → Valid s → content (file.seek p s e).state ≡ content s
  pub seek_position :
      (p : ℕ) (s : S) (e : ErrorCollection) (q : ℕ)
      → Valid s
      → (file.seek p s e).outcome ≡ ok q
      → file.position (file.seek p s e).state ≡ min p (length (content s))
  pub seek_ends :
      (p : ℕ) (s : S) (e : ErrorCollection) → Valid s → (file.seek p s e).outcome ≡ stuck → ⊥
  pub seek_gives :
      (p : ℕ) (s : S) (e : ErrorCollection) (q : ℕ)
      → Valid s
      → (file.seek p s e).outcome ≡ ok q
      → q ≡ file.position (file.seek p s e).state
  pub read_reports :
      (n : ℕ) (s : S) (e : ErrorCollection)
      → Valid s
      → (file.read n s e).outcome ≡ failed
      → Reported e (file.read n s e).errors
  pub seek_reports :
      (p : ℕ) (s : S) (e : ErrorCollection)
      → Valid s
      → (file.seek p s e).outcome ≡ failed
      → Reported e (file.seek p s e).errors
  pub read_can_seek :
      (n : ℕ) (s : S) (e : ErrorCollection)
      → Valid s
      → file.can_seek (file.read n s e).state ≡ file.can_seek s
  pub seek_can_seek :
      (p : ℕ) (s : S) (e : ErrorCollection)
      → Valid s
      → file.can_seek (file.seek p s e).state ≡ file.can_seek s
  pub unseekable :
      (p : ℕ) (s : S) (e : ErrorCollection)
      → Valid s
      → file.can_seek s ≡ false
      → (file.seek p s e).outcome ≡ failed

-- `kReadSize`
pub read_size : ℕ
read_size = 16 * 1024 * 1024

module _ {S : Type 0} (file : FileReader S) where
  -- The `while (true)` of `ReadFully`. `size` is set for the first round alone; `ret` is what has
  -- been read.
  unfoldable pub read_loop : ℕ → Option ℕ → List ℕ → Exec S (List ℕ)
  unfolding read_size
  read_loop zero size ret s e = done stuck s e
  read_loop (suc fuel) size ret s e =
      let r = file.read (Option.get_or size read_size) s e in
      elim r.outcome as (λ _. Done S (List ℕ)) [
        | failed ↦ done failed r.state r.errors
        | stuck ↦ done stuck r.state r.errors
        | ok bytes ↦ elim bytes as (λ _. Done S (List ℕ)) [
          | [] ↦ done (ok ret) r.state r.errors
          | b ∷ bs ↦ read_loop fuel none (ret ++ b ∷ bs) r.state r.errors
        ]
      ]

  -- `FileReader::ReadFully`. The fuel bounds the number of reads.
  unfoldable pub read_fully : ℕ → Exec S (List ℕ)
  unfolding read_loop
  read_fully fuel = file.seek 0 >>= λ _. λ s e. read_loop fuel (file.size s) [] s e
