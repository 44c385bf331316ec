-- ===== src/Tests/Interfaces.antt =====
-- Streams over a list of bytes, and numbers without a `double`.
use binary_reader.Pointer.{Memory, copy_assign}
use binary_reader.Pointer.Owners.{Points, IsCell, Owned, Holds, Keep, assigned, copy_assign-Owned}
use binary_reader.Common.{
  ℕ, zero, suc, get_elem?, some, ◌∷◌, subst, some-eq, sym, ◌∙◌, ◌+◌, [], none, length, take, drop,
  true, false, ◌≡◌, refl, arith, pos, negsuc, ltb_ℤ, if◌then◌else◌,
}
use binary_reader.File.Memory.{
  MemoryFileReader, memory_file, memory_read, memory_seek, memory_file-IsFile, IsValid,
}
use binary_reader.Buffered.{position}
use binary_reader.Buffered.Live.{NeverFails}
use binary_reader.Integer.{read_integer}
use binary_reader.Integer.Laws.{Reads}
use binary_reader.Integer.Live.{read_integer-succeeds}
use binary_reader.Exec.{ok}
use binary_reader.Error.Collection.{no_errors}
use binary_reader.Value.{Value}
use binary_reader.File.Stdio.{Stdio}
use binary_reader.Value.{unsigned_int, signed_int}
use binary_reader.Value.Numbers.{Doubles, as_signed, as_unsigned, max_signed}
use binary_reader.Value.Order.{at_least_zero, below_zero, Agrees, number_lt-Agrees, as_signed-Holds}
use binary_reader.Tests.{three_bytes-IsByte, contents, int16, reader, reader-Inv}

abbrev list_stdio : Stdio MemoryFileReader
list_stdio = record {
  fopen = λ path. none;
  fread = λ n f.
      let bytes = take n (drop f.pos f.buffer) in (bytes, record f { pos = f.pos + length bytes });
  ferror = λ f. false;
  errno = λ f. 0;
  fseek_set = λ p f. (false, record f { pos = p });
  fseek_end = λ f. (false, record f { pos = length f.buffer });
  ftell = λ f. f.pos;
}

abbrev pub no_doubles : Doubles
no_doubles = record {
  of_integer = λ z. 0;
  to_unsigned = λ d. 0;
  to_signed = λ d. pos 0;
  is_finite = λ d. true;
  eq = λ c d. true;
  lt = λ c d. false;
}

number_lt-Agrees_example :
    Agrees no_doubles (signed_int (negsuc 4)) (unsigned_int 3) (negsuc 4) (pos 3)
number_lt-Agrees_example =
    number_lt-Agrees no_doubles (signed_int (negsuc 4)) (unsigned_int 3) (negsuc 4) (pos 3)
      (below_zero (omega arith)) (at_least_zero (omega arith))

as_signed-Holds_example :
    (as_signed no_doubles (unsigned_int 0xffffffffffffffff) ≡ (
      if ltb_ℤ (pos max_signed) (pos 0xffffffffffffffff)
      then pos max_signed
      else pos 0xffffffffffffffff))
    × (as_unsigned no_doubles (unsigned_int 0xffffffffffffffff) ≡ 0xffffffffffffffff)
as_signed-Holds_example =
    as_signed-Holds no_doubles (unsigned_int 0xffffffffffffffff) (pos 0xffffffffffffffff)
      (at_least_zero (omega arith))

pub memory_file-NeverFails : NeverFails memory_file
unfolding memory_read memory_seek
memory_file-NeverFails = record { reads = λ n s e lost. absurd cc; seeks = λ p s e lost. absurd cc }

read_integer-succeeds_example :
    let r = read_integer memory_file int16 reader no_errors in
    (x : Value) × (r.outcome ≡ ok x)
    × Reads memory_file IsValid contents memory_file-IsFile int16 2 reader x r.state
unfolding position
read_integer-succeeds_example =
    read_integer-succeeds memory_file IsValid contents memory_file-IsFile memory_file-NeverFails
      int16 2 reader no_errors (omega arith) (omega arith) refl reader-Inv refl (omega arith)
      three_bytes-IsByte

-- Two pointers, each with a cell.
abbrev two_cells : Memory ℕ
two_cells = record { cells = some 3 ∷ some 5 ∷ []; pointers = some 0 ∷ some 1 ∷ [] }

two_cells-Owned : Owned two_cells
two_cells-Owned = record { live = live; unique = unique }
  where
    live : (i a : ℕ) → Points two_cells i a → (v : ℕ) × IsCell two_cells a v
    live zero a h =
        (3, subst (λ b. get_elem? two_cells.cells b ≡ some (some 3)) (some-eq (some-eq h)) refl)
    live (suc zero) a h =
        (5, subst (λ b. get_elem? two_cells.cells b ≡ some (some 5)) (some-eq (some-eq h)) refl)
    live (suc (suc i)) a h = absurd cc

    unique : (i j a : ℕ) → Points two_cells i a → Points two_cells j a → i ≡ j
    unique zero zero a h k = refl
    unique zero (suc zero) a h k =
        let clash : 0 ≡ 1 = some-eq (some-eq h) ∙ sym (some-eq (some-eq k)) in
        absurd (omega (arith, clash))
    unique zero (suc (suc j)) a h k = absurd cc
    unique (suc zero) zero a h k =
        let clash : 0 ≡ 1 = some-eq (some-eq k) ∙ sym (some-eq (some-eq h)) in
        absurd (omega (arith, clash))
    unique (suc zero) (suc zero) a h k = refl
    unique (suc zero) (suc (suc j)) a h k = absurd cc
    unique (suc (suc i)) j a h k = absurd cc

copy_assign-Owned_example :
    (m : Memory ℕ) × (copy_assign 0 1 two_cells ≡ some m)
    × Owned m
    × Holds m 0 (assigned 0 1 (some 5))
    × Keep 0 two_cells m
copy_assign-Owned_example =
    copy_assign-Owned 0 1 two_cells two_cells-Owned (some 0) refl (some 5) (1, refl, refl)

-- Assigned to itself, a pointer is null.
self_assigned :
    copy_assign 0 0 two_cells
    ≡ some (record { cells = none ∷ some 5 ∷ []; pointers = none ∷ some 1 ∷ [] })
unfolding copy_assign
self_assigned = refl
