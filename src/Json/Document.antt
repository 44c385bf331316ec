-- ===== src/Json/Document.antt =====
-- The JSON text of a document, and the documents that show what a file holds.
use binary_reader.Common.{
  ℕ, suc, max, ◌≤◌, List, [], ◌∷◌, ◌++◌, Bool, true, false, not, ◌&&◌, ◌==◌, codes, if◌then◌else◌,
  arith, inl, inr, decimal, pos, negsuc,
}
use binary_reader.Size.{Size}
use binary_reader.Error.Defs.{DebugInfo}
use binary_reader.Value.{Number, unsigned_int, signed_int, double_float}
use binary_reader.Value
use binary_reader.Value.Numbers.{Doubles}
use binary_reader.TypeInfo.{
  TypeInfo, IntegerTypeInfo, Statements, integer, definition, end, field, untyped_field,
  type_definition,
}
use binary_reader.FileObject.Invariant.{IsAt}
use binary_reader.FileObject.Located.{Located, Covers}
use binary_reader.Json.{JsonOptions, spaces, deeper}

mutual
  pub data Document : Type 0 where
    number : Number → Document
    object : Members → Document

  pub data Members : Type 0 where
    no_more : Members
    member : List ℕ → Document → Members → Members

abbrev pub names : Members → List (List ℕ)
names no_more = []
names (member name j ms) = name ∷ names ms

-- An integer in decimal digits, with a minus in front where it is negative.
unfoldable pub numeral : (ℕ → List ℕ) → Number → List ℕ
numeral show_double (unsigned_int n) = decimal n
numeral show_double (signed_int (pos n)) = decimal n
numeral show_double (signed_int (negsuc n)) = b'-' ∷ decimal (suc n)
numeral show_double (double_float d) = show_double d

abbrev pub text_if : Bool → List ℕ → List ℕ
text_if c text = if c then text else []

-- The texts one behind the other, a comma in front of each but the first.
unfoldable pub separated : Bool → List (List ℕ) → List ℕ
separated first [] = []
separated first (x ∷ xs) = text_if (not first) (codes ",") ++ (x ++ separated false xs)

abbrev pub is_empty : Members → Bool
is_empty no_more = true
is_empty (member name j ms) = false

module _ (double : Doubles) (show_double : ℕ → List ℕ) (opts : JsonOptions) where
  -- A name and the text of its value.
  abbrev pub item : ℕ → List ℕ → List ℕ → List ℕ
  item inner name text =
      text_if opts.pretty (codes "\n" ++ spaces inner)
      ++ ((codes "\"" ++ (name ++ codes "\":")) ++ (text_if opts.pretty (codes " ") ++ text))

  -- The text of a document that stands behind `indent` spaces.
  unfoldable mutual
    unfolding separated numeral deeper spaces

    pub render : ℕ → Document → List ℕ
    render indent (number n) = numeral show_double n
    render indent (object ms) =
        codes "{"
        ++ (separated true (items (deeper indent opts.indent) ms)
            ++ (text_if (not (is_empty ms) && opts.pretty) (codes "\n" ++ spaces indent)
                ++ (codes "}" ++ text_if (opts.pretty && (indent == 0)) (codes "\n"))))

    pub items : ℕ → Members → List (List ℕ)
    items inner no_more = []
    items inner (member name j ms) = item inner name (render inner j) ∷ items inner ms

-- How deep the objects of a type are nested.
abbrev mutual
  pub depth : TypeInfo → ℕ
  depth (integer i) = 0
  depth (definition d n ss) = suc (depth_fields ss)

  pub depth_fields : Statements → ℕ
  depth_fields end = 0
  depth_fields (field d n t v ss) = max (depth t) (depth_fields ss)
  depth_fields (untyped_field d n v ss) = depth_fields ss
  depth_fields (type_definition d n inner ss) = depth_fields ss

pub depth-Located :
    (ss : Statements) (offset : Size) (name : List ℕ) (t : TypeInfo) (p : Size)
    → Located ss offset name t p
    → depth t ≤ depth_fields ss
depth-Located end offset name t p l = absurd l
depth-Located (field d n u v ss) offset name t p (inl (same, type, here)) =
    rw (← type) (omega arith)
depth-Located (field d n u v ss) offset name t p (inr (s, known, l)) =
    omega (arith, depth-Located ss _ name t p l)
depth-Located (untyped_field d n v ss) offset name t p l = absurd l
depth-Located (type_definition d n inner ss) offset name t p l = depth-Located ss offset name t p l

-- The document shows what the bytes hold for the type at the position: the number that they stand for,
-- or an object with the names of the definition's fields, each once, and for each name the document of
-- the field of the name, of its type and at its place.
module _ (bytes : List ℕ) where
  mutual
    pub data Shows : TypeInfo → Size → Document → Type 0 where
      shown_integer :
          {i : IntegerTypeInfo} {p : Size} {n : Number}
          → IsAt bytes [] (integer i) p (Value.number n)
          → Shows (integer i) p (number n)
      shown_object :
          {d : DebugInfo} {name : List ℕ} {ss : Statements} {p : Size} {ms : Members}
          → Covers (names ms) ss
          → ShowsAll ss p ms
          → Shows (definition d name ss) p (object ms)

    pub data ShowsAll : Statements → Size → Members → Type 0 where
      none_shown : {ss : Statements} {p : Size} → ShowsAll ss p no_more
      one_shown :
          {ss : Statements} {p : Size} {name : List ℕ} {j : Document} {ms : Members}
          → (t : TypeInfo) (q : Size) → Located ss p name t q
          → Shows t q j
          → ShowsAll ss p ms
          → ShowsAll ss p (member name j ms)
