-- ===== src/Json/Plain.antt =====
-- A document that shows an object of a type with plain names is writable.
use binary_reader.Common.{ℕ, List, [], ℤ, All, ◌≡◌, subst, inl, inr}
use binary_reader.Size.{Size, add_assign}
use binary_reader.Integer.Bytes.{IsByte}
use binary_reader.Value.{Value, Number}
use binary_reader.Value.Order.{Holds}
use binary_reader.TypeInfo.{
  TypeInfo, Statements, integer, definition, end, field, untyped_field, type_definition,
}
use binary_reader.TypeInfo.Typed.{IsTyped, AreTyped, fields, none_left, one_more}
use binary_reader.FileObject.Kinds.{IsAt-HasKind}
use binary_reader.FileObject.Located.{Located}
use binary_reader.Json.Document.{
  Document, Members, Shows, ShowsAll, shown_integer, shown_object, none_shown, one_shown,
}
use binary_reader.Json.Grammar.{IsPlain}
use binary_reader.Json.Valid.{IsWritable, AreWritable}

-- The names of all fields, down to those of the fields' types, need no escapes in JSON.
abbrev mutual
  pub HasPlainNames : TypeInfo → Type 0
  HasPlainNames (integer i) = Unit {0}
  HasPlainNames (definition d n ss) = HavePlainNames ss

  pub HavePlainNames : Statements → Type 0
  HavePlainNames end = Unit {0}
  HavePlainNames (field d n t v ss) = IsPlain n × HasPlainNames t × HavePlainNames ss
  HavePlainNames (untyped_field d n v ss) = IsPlain n × HavePlainNames ss
  HavePlainNames (type_definition d n inner ss) = HavePlainNames ss

Located-Plain :
    (ss : Statements) (offset : Size) (name : List ℕ) (t : TypeInfo) (p : Size)
    → AreTyped ss
    → HavePlainNames ss
    → Located ss offset name t p
    → IsPlain name × IsTyped t × HasPlainNames t
Located-Plain _ offset name t p none_left plain l = absurd l
Located-Plain _ offset name t p (one_more h hs) (n, u, rest) (inl (same, type, here)) =
    (subst IsPlain same n, subst IsTyped type h, subst HasPlainNames type u)
Located-Plain _ offset name t p (one_more {ss} h hs) (n, u, rest) (inr (s, known, l)) =
    Located-Plain ss (add_assign offset s) name t p hs rest l

module _ (bytes : List ℕ) (all : All IsByte bytes) where
  same_number : (m n : Number) (z : ℤ) → Value.number m ≡ Value.number n → Holds n z → Holds m z
  same_number m n z same h = let equal : n ≡ m = cc in subst (λ k. Holds k z) equal h

  mutual
    Shows-IsWritable :
        {t : TypeInfo} {p : Size} {j : Document}
        → Shows bytes t p j
        → IsTyped t
        → HasPlainNames t
        → IsWritable j
    Shows-IsWritable (shown_integer {i} {p} {n} at) typed plain =
        let (m, z, same, holds) = IsAt-HasKind bytes all [] p (Value.number n) typed at in
        (z, same_number n m z same holds)
    Shows-IsWritable (shown_object covers shown) (fields typed) plain =
        ShowsAll-AreWritable shown typed plain

    ShowsAll-AreWritable :
        {ss : Statements} {p : Size} {ms : Members}
        → ShowsAll bytes ss p ms
        → AreTyped ss
        → HavePlainNames ss
        → AreWritable ms
    ShowsAll-AreWritable none_shown typed plain = tt
    ShowsAll-AreWritable (one_shown {ss} {p} {name} t q located shown rest) typed plain =
        let (named, typed', plain') = Located-Plain ss p name t q typed plain located in
        (named, Shows-IsWritable shown typed' plain', ShowsAll-AreWritable rest typed plain)

  -- The members that show an object whose statements are typed and have plain names are writable.
  pub shown-AreWritable :
      (ss : Statements) (p : Size) (ms : Members)
      → ShowsAll bytes ss p ms
      → AreTyped ss
      → HavePlainNames ss
      → AreWritable ms
  shown-AreWritable ss p ms shown typed plain = ShowsAll-AreWritable shown typed plain
