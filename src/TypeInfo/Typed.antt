-- ===== src/TypeInfo/Typed.antt =====
-- Types without null pointers in them, of whole bytes, and their static sizes.
use binary_reader.Common.{ℕ, List, ◌*◌, ◌%◌, ◌≤◌, ◌<◌, Option, some, ◌≡◌, refl, arith}
use binary_reader.Size.{Size, zero_size, add_assign, InRange}
use binary_reader.Error.Defs.{DebugInfo}
use binary_reader.Value.{Value}
use binary_reader.TypeInfo.{
  IntegerTypeInfo, TypeInfo, Statements, integer, definition, end, field, static_size,
  calculate_size,
}

-- An integer of 1 to 8 bytes.
pub record IsWhole (i : IntegerTypeInfo) : Type 0 where
  pub bytes : ℕ
  pub some_byte : 0 < bytes
  pub few : bytes ≤ 8
  pub width : i.size.pos ≡ 8 * bytes

-- Every statement, down to the integers, is a field that has a type of whole bytes.
mutual
  pub data IsTyped : TypeInfo → Type 0 where
    whole : {i : IntegerTypeInfo} → IsWhole i → IsTyped (integer i)
    fields :
        {d : DebugInfo} {n : List ℕ} {ss : Statements} → AreTyped ss → IsTyped (definition d n ss)

  pub data AreTyped : Statements → Type 0 where
    none_left : AreTyped end
    one_more :
        {d : DebugInfo} {n : List ℕ} {t : TypeInfo} {v : Option Value} {ss : Statements}
        → IsTyped t
        → AreTyped ss
        → AreTyped (field d n t v ss)

-- A size that is known, a whole number of bytes, and in range.
abbrev pub Known : Option Size → Type 0
Known o = (s : Size) × (o ≡ some s) × (s.pos % 8 ≡ 0) × InRange s

mutual
  unfolding static_size calculate_size add_assign

  pub static_size-Known : {t : TypeInfo} → IsTyped t → Known (static_size t)
  static_size-Known {t} (whole {i} w) =
      (i.size, refl, omega (arith, w.width), omega (arith, w.width, w.few))
  static_size-Known {t} (fields h) = calculate_size-Known h zero_size (omega arith) (omega arith)

  pub calculate_size-Known :
      {ss : Statements}
      → AreTyped ss
      → (start : Size) → start.pos % 8 ≡ 0
      → InRange start
      → Known (calculate_size start ss)
  calculate_size-Known none_left start aligned range = (start, refl, aligned, range)
  calculate_size-Known (one_more {t} {ss} h hs) start aligned range =
      let (s, known, even, small) = static_size-Known h in
      rw known
        (calculate_size-Known hs (add_assign start s) (omega (arith, aligned, even)) (omega arith))
