-- ===== src/FileObject/Values.antt =====
-- Reading the values of fields: `ReadValue` of any type without null pointers.
use binary_reader.Common.{
  ℕ, ◌*◌, ◌/◌, ◌%◌, ◌≤◌, List, [], ◌∷◌, ◌++◌, append-nil, length, get_elem?, drop, take, All, some,
  ◌≡◌, refl, sym, ap, subst, ◌∙◌, arith, get_elem?-append_new,
}
use binary_reader.Size.{Size, zero_size, add, InRange}
use binary_reader.Error.Defs.{DebugInfo}
use binary_reader.Error.Collection.{ErrorCollection}
use binary_reader.Exec.{Exec, Done, ok, return, continue, ◌>>◌, Ensures, Ensures-map, Ensures-bind}
use binary_reader.File.{FileReader, IsFile}
use binary_reader.Buffered.{BufferedFileReader, position, seek}
use binary_reader.Buffered.Invariant.{Inv, At, seek-At}
use binary_reader.Buffered.Window.{ahead}
use binary_reader.Value.{Value, number, object}
use binary_reader.TypeInfo.{
  TypeInfo, Statements, IntegerTypeInfo, integer, definition, calculate_size,
}
use binary_reader.TypeInfo.Typed.{IsTyped, AreTyped, whole, fields, IsWhole, calculate_size-Known}
use binary_reader.Integer.{read_integer}
use binary_reader.Integer.Bytes.{IsByte, bytes_value}
use binary_reader.Integer.Sign.{two_complement}
use binary_reader.Integer.Laws.{Reads, read_integer-Reads}
use binary_reader.FileObject.{FileObject, make_file_object, reparse_object}
use binary_reader.FileObject.Heap.{World, on_reader, place_object, read_definition, read_value}
use binary_reader.FileObject.Invariant.{IsAt, ObjectOk, HeapOk, append-HeapOk}
use binary_reader.FileObject.Fresh.{new_object-ObjectOk}

module _ {S : Type 0} (file : FileReader S) (Valid : S → Type 0) (content : S → List ℕ)
    (lawful : IsFile file Valid content) (bytes : List ℕ) where
  -- The reader keeps its invariant over the bytes of the file, and all values of the objects are from
  -- these bytes.
  pub record WorldOk (w : World S) : Type 0 where
    pub reader_ok : Inv file Valid content lawful w.reader
    pub content_is : content w.reader.reader ≡ bytes
    pub heap_ok : HeapOk bytes w.heap

  pub position-InRange : (b : BufferedFileReader S) → InRange (position b)
  unfolding position add
  position-InRange b = omega arith

  -- The world with the reader elsewhere.
  moved-WorldOk :
      (w : World S) (b : BufferedFileReader S) (p : Size)
      → WorldOk w
      → At file Valid content lawful p (content w.reader.reader) b
      → WorldOk (record w { reader = b })
  moved-WorldOk w b p v at = record {
    reader_ok = at.0;
    content_is = at.2 ∙ v.content_is;
    heap_ok = v.heap_ok;
  }

  abbrev pub Moved : World S → Size → World S → Type 0
  Moved w p w' = WorldOk w' × (position w'.reader ≡ p) × (w'.heap ≡ w.heap)

  pub seek-Moved :
      (p : Size) (w : World S) (e : ErrorCollection)
      → WorldOk w
      → InRange p
      → let r = on_reader (seek file p) w e in Ensures r.outcome (λ _. Moved w p r.state)
  seek-Moved p w e v range =
      let r = seek file p w.reader e in
      Ensures-map {P = λ _. At file Valid content lawful p (content w.reader.reader) r.state}
        {Q = λ _. Moved w p (record w { reader = r.state })} r.outcome
        (λ _ at. (moved-WorldOk w r.state p v at, at.1, refl))
        (seek-At file Valid content lawful p w.reader e v.reader_ok range)

  -- What a successful read of a type at position `p` leaves: a good world with the old objects and
  -- perhaps new ones, and the value that the bytes hold there.
  pub record HasRead (t : TypeInfo) (p : Size) (w : World S) (v : Value) (w' : World S)
      : Type 0 where
    pub world_ok : WorldOk w'
    pub is_at : IsAt bytes w'.heap t p v
    pub more : List FileObject
    pub grown : w'.heap ≡ w.heap ++ more

  module _ (all : All IsByte bytes) (w : World S) (e : ErrorCollection) (v : WorldOk w)
      (aligned : (position w.reader).pos % 8 ≡ 0) where
    abbrev here : Size
    here = position w.reader

    integer-HasRead :
        (i : IntegerTypeInfo)
        → IsWhole i
        → let r = on_reader (read_integer file i) w e in
          Ensures r.outcome (λ x. HasRead (integer i) here w x r.state)
    integer-HasRead i k =
        let r = read_integer file i w.reader e in
        Ensures-map {P = λ x. Reads file Valid content lawful i k.bytes w.reader x r.state}
          {Q = λ x. HasRead (integer i) here w x (record w { reader = r.state })} r.outcome
          (λ x read. record {
            world_ok = moved-WorldOk w r.state (add here i.size) v read.behind;
            is_at = (
              k.bytes,
              k.width,
              subst (λ l. k.bytes ≤ length l) same read.there,
              read.value
                  ∙ ap
                      (λ l. number (
                        two_complement i.sign (8 * k.bytes) (bytes_value i.order (take k.bytes l))))
                      same,
            );
            more = [];
            grown = sym (append-nil w.heap);
          })
          (read_integer-Reads file Valid content lawful i k.bytes w.reader e k.some_byte k.few
            k.width v.reader_ok (subst (All IsByte) (sym v.content_is) all) aligned)
      where
        same : ahead file Valid content lawful w.reader ≡ drop (here.pos / 8) bytes
        same = ap (drop (here.pos / 8)) v.content_is

    module _ (d : DebugInfo) (n : List ℕ) (ss : Statements) (typed : AreTyped ss) (o : FileObject)
        (new : ObjectOk bytes w.heap o) (type : o.type ≡ some ss)
        (start : o.start_position ≡ here) where
      abbrev grown : World S
      grown = record w { heap = w.heap ++ o ∷ [] }

      grown-WorldOk : WorldOk grown
      grown-WorldOk = record {
        reader_ok = v.reader_ok;
        content_is = v.content_is;
        heap_ok = append-HeapOk bytes w.heap o v.heap_ok new;
      }

      placed :
          (s : Size)
          → calculate_size zero_size ss ≡ some s
          → place_object file ss here o w e
            ≡ (on_reader (seek file (add here s)) >> return (object (length w.heap))) grown e
      unfolding place_object
      placed s known = rw (known, place_object) refl

      place_object-HasRead :
          let r = place_object file ss here o w e in
          Ensures r.outcome (λ x. HasRead (definition d n ss) here w x r.state)
      unfolding add
      place_object-HasRead =
          let (s, known, even, small) = calculate_size-Known typed zero_size refl (omega arith) in
          let r = on_reader (seek file (add here s)) grown e in
          rw (placed s known) (
            Ensures-bind {P = λ _. Moved grown (add here s) r.state}
              (λ x q. HasRead (definition d n ss) here w x q.state) r
              (λ _. return (object (length w.heap)))
              (seek-Moved (add here s) grown e grown-WorldOk (omega arith))
              (λ _ moved. record {
                world_ok = moved.0;
                is_at = (
                  length w.heap,
                  o,
                  refl,
                  ap (λ h. get_elem? h (length w.heap)) moved.2 ∙ get_elem?-append_new w.heap o,
                  type,
                  start,
                );
                more = o ∷ [];
                grown = moved.2;
              }))

    continued :
        (q : Done FileObject (Unit {0})) (f : FileObject → Exec (World S) Value)
        → q.outcome ≡ ok tt
        → q.errors ≡ e
        → continue q.outcome w q.errors (λ _. f q.state) ≡ f q.state w e
    continued q f done_ok same = rw (done_ok, same) refl

    definition-HasRead :
        (d : DebugInfo) (n : List ℕ) (ss : Statements)
        → AreTyped ss
        → let r = read_definition file ss w e in
          Ensures r.outcome (λ x. HasRead (definition d n ss) here w x r.state)
    unfolding read_definition
    definition-HasRead d n ss typed =
        let q = reparse_object (make_file_object (some ss) here []) e in
        let fact =
          new_object-ObjectOk bytes w.heap typed here e aligned (position-InRange w.reader) in
        rw (continued q (place_object file ss here) fact.0 fact.1)
          (place_object-HasRead d n ss typed q.state fact.2 fact.3 fact.4)

    -- `ReadValue` of a type whose statements, down to its integers, are all fields with a type, and
    -- whose integers have 1 to 8 whole bytes, by a reader at the first bit of a byte of a file of bytes,
    -- in a good world, ends. Where it succeeds the world is good, with the old objects in it, and the
    -- value is what the bytes hold at the position.
    pub read_value-HasRead :
        {t : TypeInfo}
        → IsTyped t
        → let r = read_value file t w e in Ensures r.outcome (λ x. HasRead t here w x r.state)
    unfolding read_value
    read_value-HasRead (whole {i} k) = integer-HasRead i k
    read_value-HasRead (fields {d} {n} {ss} typed) = definition-HasRead d n ss typed
