-- ===== src/Parser/Members.antt =====
-- The fields of a type, against the fields of its definition in the tree.
use binary_reader.Common.{ℕ, List, [], ◌∷◌, ◌++◌, Option, none, some, ◌≡◌}
use binary_reader.Value.{Value}
use binary_reader.TypeInfo.{TypeInfo, Statements, end, field, untyped_field, type_definition}
use binary_reader.Parser.{TypeDefinition, FieldInfo, push_statement}
use binary_reader.Parser.Tree.{ExpressionTree, DataFieldTree}
use binary_reader.Parser.Literal.{literal_value}
use binary_reader.Parser.Described.{IsDescribed, IsDescribed-more}

module _ (path : List ℕ) (stod : List ℕ → Option ℕ) where
  -- The value that a field must have: that of the number of the tree, if there is one.
  abbrev pub IsExpected : Option ExpressionTree → Option Value → Type 0
  IsExpected none v = v ≡ none
  IsExpected (some x) v = (w : Value) × (literal_value stod x.number ≡ some w) × (v ≡ some w)

  -- The statements are the fields of the tree, in order.
  abbrev pub AreFields : List TypeDefinition → Statements → List DataFieldTree → Type 0
  AreFields types end [] = Unit {0}
  AreFields types (field d n t v ss) (m ∷ ms) =
      (n ≡ m.identifier)
      × IsDescribed path types m.complete_type t
      × IsExpected m.expression v
      × AreFields types ss ms
  AreFields types _ _ = ⊥

  pub AreFields-more :
      (types more : List TypeDefinition) (ss : Statements) (ms : List DataFieldTree)
      → AreFields types ss ms
      → AreFields (types ++ more) ss ms
  AreFields-more types more end [] h = tt
  AreFields-more types more end (m ∷ ms) h = absurd h
  AreFields-more types more (field d n t v ss) [] h = absurd h
  AreFields-more types more (field d n t v ss) (m ∷ ms) (named, described, expected, rest) = (
    named,
    IsDescribed-more path types more m.complete_type t described,
    expected,
    AreFields-more types more ss ms rest,
  )
  AreFields-more types more (untyped_field d n v ss) ms h = absurd h
  AreFields-more types more (type_definition d n inner ss) ms h = absurd h

  pub push_statement-AreFields :
      (types : List TypeDefinition) (ss : Statements) (ms : List DataFieldTree) (f : FieldInfo)
      (m : DataFieldTree) (t : TypeInfo)
      → AreFields types ss ms
      → f.type ≡ some t
      → f.name ≡ m.identifier
      → IsDescribed path types m.complete_type t
      → IsExpected m.expression f.expected
      → AreFields types (push_statement ss f) (ms ++ m ∷ [])
  unfolding push_statement
  push_statement-AreFields types end [] f m t h is named described expected =
      rw is (named, described, expected, tt)
  push_statement-AreFields types end (n ∷ ns) f m t h is named described expected = absurd h
  push_statement-AreFields types (field d n u v ss) [] f m t h is named described expected =
      absurd h
  push_statement-AreFields types (field d n u v ss) (o ∷ os) f m t (own, its, value, rest) is named
        described expected =
      (own, its, value, push_statement-AreFields types ss os f m t rest is named described expected)
  push_statement-AreFields types (untyped_field d n v ss) ms f m t h is named described expected =
      absurd h
  push_statement-AreFields types (type_definition d n inner ss) ms f m t h is named described
        expected =
      absurd h
