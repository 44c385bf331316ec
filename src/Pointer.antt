-- ===== src/Pointer.antt =====
-- include/binary_reader/cloneable_unique_ptr.h: the pointers in a memory of cells. A cell that was
-- deleted is `none`, and so is a result where the code deletes or follows such a cell.
pub mod Owners
use binary_reader.Common.{ℕ, List, [], ◌∷◌, ◌++◌, length, get_elem?, set, Option, none, some}

-- The cells, and the `ptr_` of each `cloneable_unique_ptr`: an address, or null.
pub record Memory (T : Type 0) : Type 0 where
  pub cells : List (Option T)
  pub pointers : List (Option ℕ)

infixl 5 ◌>>=◌
abbrev pub ◌>>=◌ : {A B : Type 0} → Option A → (A → Option B) → Option B
none >>= f = none
(some a) >>= f = f a

module _ {T : Type 0} where
  -- `*ptr`
  unfoldable pub follow : ℕ → Memory T → Option T
  follow a m = elim (get_elem? m.cells a) [ none ↦ none | some cell ↦ cell ]

  -- `delete ptr`, which does nothing on null.
  unfoldable pub delete_cell : Option ℕ → Memory T → Option (Memory T)
  unfolding follow
  delete_cell none m = some m
  delete_cell (some a) m = elim (follow a m) [
    | none ↦ none
    | some v ↦ some (record m { cells = set m.cells a none })
  ]

  -- `other ? new T(*other) : nullptr`
  unfoldable pub new_copy : Option ℕ → Memory T → Option (Option ℕ × Memory T)
  unfolding follow
  new_copy none m = some (none, m)
  new_copy (some a) m = elim (follow a m) [
    | none ↦ none
    | some v ↦ some (some (length m.cells), record m { cells = m.cells ++ some v ∷ [] })
  ]

  -- `reset(ptr)` of the pointer `i`.
  unfoldable pub reset : ℕ → Option ℕ → Memory T → Option (Memory T)
  unfolding delete_cell
  reset i p m = do
    old ← get_elem? m.pointers i
    m' ← delete_cell old m
    some (record m' { pointers = set m'.pointers i p })

  -- The copy constructor, as one more pointer.
  unfoldable pub copy_construct : ℕ → Memory T → Option (Memory T)
  unfolding new_copy
  copy_construct j m = do
    other ← get_elem? m.pointers j
    r ← new_copy other m
    some (record r.1 { pointers = r.1.pointers ++ r.0 ∷ [] })

  -- The move constructor: the other pointer is null afterwards.
  unfoldable pub move_construct : ℕ → Memory T → Option (Memory T)
  move_construct j m = get_elem? m.pointers j >>= λ other.
      some (record m { pointers = set (m.pointers ++ other ∷ []) j none })

  -- The constructor of a pointer that takes over an address, or null.
  unfoldable pub construct : Option ℕ → Memory T → Memory T
  construct p m = record m { pointers = m.pointers ++ p ∷ [] }

  -- The copy and the move assignment of the pointer `j` to the pointer `i`.
  unfoldable pub copy_assign : ℕ → ℕ → Memory T → Option (Memory T)
  unfolding reset new_copy
  copy_assign i j m = do
    m1 ← reset i none m
    other ← get_elem? m1.pointers j
    r ← new_copy other m1
    some (record r.1 { pointers = set r.1.pointers i r.0 })

  unfoldable pub move_assign : ℕ → ℕ → Memory T → Option (Memory T)
  unfolding reset
  move_assign i j m = do
    m1 ← reset i none m
    other ← get_elem? m1.pointers j
    some (record m1 { pointers = set (set m1.pointers i other) j none })
