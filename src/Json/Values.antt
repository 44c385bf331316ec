-- ===== src/Json/Values.antt =====
-- `DumpJsonValue`: what it writes for the value of a field.
use binary_reader.Common.{
  ℕ, suc, ◌<◌, List, length, get_elem?, some, ◌≡◌, refl, sym, ap, subst, ◌∙◌, arith, All, ℤ, pos,
  negsuc, decimal, [],
}
use binary_reader.Size.{Size}
use binary_reader.Error.Collection.{ErrorCollection}
use binary_reader.Exec.{Exec}
use binary_reader.File.{FileReader, IsFile}
use binary_reader.Value.{Value, Number, unsigned_int, signed_int}
use binary_reader.Value.Numbers.{Doubles, write_number, write_signed, as_signed}
use binary_reader.Value.Order.{Holds as IntegerOf, at_least_zero, below_zero, as_signed-Holds}
use binary_reader.Integer.Bytes.{IsByte}
use binary_reader.TypeInfo.Typed.{IsTyped}
use binary_reader.FileObject.Kinds.{IsAt-HasKind}
use binary_reader.TypeInfo.{TypeInfo, Statements, integer, definition}
use binary_reader.FileObject.{FileObject}
use binary_reader.FileObject.Invariant.{IsAt, Extends}
use binary_reader.FileObject.Located.{Holds, HoldsAll, Covers}
use binary_reader.Json.{JsonOptions, Output, write, dump_json_value}
use binary_reader.Json.Document.{
  Document, Members, names, numeral, render, depth, depth_fields, Shows, ShowsAll, shown_integer,
  shown_object,
}
use binary_reader.Json.Writes.{Good, Writes, Writes-write}

module _ {S : Type 0} (double : Doubles) (show_double : ℕ → List ℕ) (file : FileReader S)
    (Valid : S → Type 0) (content : S → List ℕ) (lawful : IsFile file Valid content)
    (bytes : List ℕ) (opts : JsonOptions) where
  -- The object `id` is there, of that type and at that place.
  abbrev pub IsObject : Output S → ℕ → Statements → Size → Type 0
  IsObject o id ss p =
      (obj : FileObject) × (get_elem? o.world.heap id ≡ some obj)
      × (obj.type ≡ some ss)
      × (obj.start_position ≡ p)

  pub kept :
      (o o' : Output S) (id : ℕ) (ss : Statements) (p : Size)
      → Extends o.world.heap o'.world.heap
      → IsObject o id ss p
      → IsObject o' id ss p
  kept o o' id ss p more (obj, there, type, start) =
      let (obj', there', type', start') = more id obj there in
      (obj', there', type' ∙ type, start' ∙ start)

  abbrev pub WritesThis :
      {A : Type 0} → Exec (Output S) A → A → List ℕ → Output S → ErrorCollection → Type 0
  WritesThis m a text o e = Writes file Valid content lawful bytes m a text o e

  -- A document that shows the object is written.
  pub record Dumped (dump : Exec (Output S) (Unit {0})) (ss : Statements) (p : Size) (indent : ℕ)
      (o : Output S) (e : ErrorCollection) : Type 0 where
    pub members : Members
    pub covers : Covers (names members) ss
    pub shown : ShowsAll bytes ss p members
    pub writes :
        WritesThis dump tt (render double show_double opts indent (Document.object members)) o e

  abbrev pub Dumps : (ℕ → ℕ → Exec (Output S) (Unit {0})) → ℕ → Type 0
  Dumps dump fuel =
      (id indent : ℕ) (ss : Statements) (p : Size) (o : Output S) (e : ErrorCollection)
      → Good file Valid content lawful bytes o.world
      → IsObject o id ss p
      → HoldsAll (length bytes) ss p
      → depth_fields ss < fuel
      → Dumped (dump id indent) ss p indent o e

  -- What the code writes for a number of 64 bits is the number's numeral.
  write_number-numeral :
      (n : Number) (z : ℤ)
      → IntegerOf n z
      → write_number double show_double n ≡ numeral show_double n
  unfolding write_number write_signed numeral
  write_number-numeral _ _ (at_least_zero {n} h) =
      ap decimal (as_signed-Holds double (unsigned_int n) (pos n) (at_least_zero h)).1
  write_number-numeral _ _ (below_zero {n} h) =
      let same : as_signed double (signed_int (negsuc n)) ≡ negsuc n =
        (as_signed-Holds double (signed_int (negsuc n)) (negsuc n) (below_zero h)).0
        ∙ ground arith in
      rw same refl

  module _ (all : All IsByte bytes) (dump : ℕ → ℕ → Exec (Output S) (Unit {0})) (fuel : ℕ)
      (dumps : Dumps dump fuel) where
    pub record Valued (t : TypeInfo) (p : Size) (v : Value) (indent : ℕ) (o : Output S)
        (e : ErrorCollection) : Type 0 where
      pub document : Document
      pub shows : Shows bytes t p document
      pub writes :
          WritesThis
            (dump_json_value double show_double file opts dump v indent)
            tt
            (render double show_double opts indent document)
            o
            e

    -- `DumpJsonValue` of the value of a field.
    pub value_lem :
        (t : TypeInfo) (p : Size) (v : Value) (indent : ℕ) (o : Output S) (e : ErrorCollection)
        → Good file Valid content lawful bytes o.world
        → IsTyped t
        → IsAt bytes o.world.heap t p v
        → Holds (length bytes) t p
        → depth t < suc fuel
        → Valued t p v indent o e
    unfolding dump_json_value render
    value_lem (integer i) p v indent o e good typed at room deep =
        let (m, z, is, holds) = IsAt-HasKind bytes all o.world.heap p v typed at in
        subst (λ x. Valued (integer i) p x indent o e) (sym is)
          (record {
            document = Document.number m;
            shows = shown_integer (subst (IsAt bytes [] (integer i) p) is at);
            writes =
                subst (λ t. WritesThis (write (write_number double show_double m)) tt t o e)
                  (write_number-numeral m z holds)
                  (Writes-write file Valid content lawful bytes _ o e good);
          })
    value_lem (definition d name ss) p v indent o e good typed (id, obj, is, there, type, start)
          room deep =
        let got = dumps id indent ss p o e good (obj, there, type, start) room (omega arith) in
        subst (λ x. Valued (definition d name ss) p x indent o e) (sym is)
          (record {
            document = Document.object got.members;
            shows = shown_object got.covers got.shown;
            writes = got.writes;
          })
