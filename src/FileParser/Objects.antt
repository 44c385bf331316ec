-- ===== src/FileParser/Objects.antt =====
-- `ParseFile`, and the fields of the object that it gives.
use binary_reader.Common.{
  ℕ, ◌^◌, ◌<◌, List, [], ◌∷◌, length, get_elem?, All, Option, none, some, ◌≡◌, refl, sym, subst,
  false, Bool-cases, inl, inr, str_eq, some-eq,
}
use mathlib.Core.Option
use mathlib.Core.List.{get_last?}
use binary_reader.Size.{zero_size}
use binary_reader.Error.Collection.{ErrorCollection, no_errors}
use binary_reader.Exec.{Done, Outcome, ok, failed, stuck, done, Ensures, Ensures-map}
use binary_reader.File.{FileReader, IsFile}
use binary_reader.Buffered.{new_buffered, position}
use binary_reader.Buffered.Invariant.{new_buffered-Inv}
use binary_reader.Integer.Bytes.{IsByte}
use binary_reader.Value.{Value, as_object}
use binary_reader.TypeInfo.Typed.{AreTyped, fields}
use binary_reader.FileObject.{FileObject}
use binary_reader.FileObject.Heap.{World, read_value, get_field_value}
use binary_reader.FileObject.Values.{WorldOk, HasRead, read_value-HasRead}
use binary_reader.FileObject.Invariant.{Extends}
use binary_reader.FileObject.Places.{place, Says, get_field_value-place}
use binary_reader.FileParser.Laws.{Built}
use binary_reader.FileParser.Asked.{IsAsked, choose_type-IsAsked}
use binary_reader.Parser.{TypeDefinition, as_type}
use binary_reader.Parser.Tree.{GeneratedParser}
use binary_reader.Parser.Fields.{StatementsOk}
use binary_reader.FileParser.{
  FileSystem, FileParserOptions, FileParser, Returned, is_empty, find_definition, choose_type,
  Opened, read_object, parse_reader,
}

some_last :
    (types : List TypeDefinition)
    → is_empty types ≡ false
    → (d : TypeDefinition) × (get_last? types ≡ some d)
some_last [] h = absurd cc
some_last (d ∷ []) h = (d, refl)
some_last (d ∷ e ∷ ds) h = some_last (e ∷ ds) refl

module _ {S : Type 0} (file : FileReader S) (Valid : S → Type 0) (content : S → List ℕ)
    (lawful : IsFile file Valid content) (bytes : List ℕ) where
  -- The object is in a good world, and is one of the type, at the start of the file.
  pub record OpenedAs (d : TypeDefinition) (r : Opened S) : Type 0 where
    pub world_ok : WorldOk file Valid content lawful bytes r.1
    pub root : FileObject
    pub there : get_elem? r.1.heap r.0 ≡ some root
    pub type : root.type ≡ some d.statements
    pub start : root.start_position ≡ zero_size

  module _ (all : All IsByte bytes) (s : S) (valid : Valid s) (content_is : content s ≡ bytes)
      (small : length bytes < 2 ^ 60) (at_start : file.position s ≡ 0) where
    abbrev fresh : World S
    fresh = record { reader = new_buffered s; heap = [] }

    fresh-WorldOk : WorldOk file Valid content lawful bytes fresh
    fresh-WorldOk = record {
      reader_ok =
          new_buffered-Inv file Valid content lawful s valid
            (subst (λ (c : List ℕ). length c < 2 ^ 60) (sym content_is) small) at_start;
      content_is = content_is;
      heap_ok = λ id o there. absurd cc;
    }

    module _ (d : TypeDefinition) (e : ErrorCollection) where
      abbrev read : Done (World S) Value
      read = read_value file (as_type d) fresh e

      -- What the read of the value leaves, by its outcome.
      opened_lem :
          (o : Outcome Value)
          → read.outcome ≡ o
          → Ensures o (λ v.
            HasRead file Valid content lawful bytes
              (as_type d)
              (position fresh.reader)
              fresh
              v
              read.state)
          → Ensures (read_object file d s e).outcome (OpenedAs d)
      unfolding read_object position as_object
      opened_lem stuck is h = absurd h
      opened_lem failed is h = rw (is, read_object) tt
      opened_lem (ok v) is h =
          let (id, o, same, there, type, start) = h.is_at in
          let gives : read_object file d s e ≡ done (ok (id, read.state)) tt read.errors =
            rw (is, read_object) (rw same refl) in
          rw gives
            (record { world_ok = h.world_ok; root = o; there = there; type = type; start = start })

      read_object-OpenedAs :
          AreTyped d.statements → Ensures (read_object file d s e).outcome (OpenedAs d)
      unfolding position
      read_object-OpenedAs typed = opened_lem read.outcome refl (
          read_value-HasRead file Valid content lawful bytes all fresh e fresh-WorldOk refl
            (fields typed))

-- What holds of all types holds of the one that is chosen.
abbrev pub OfType : (TypeDefinition → Type 0) → Option TypeDefinition → Type 0
OfType P none = Unit {0}
OfType P (some d) = P d

last_of :
    (P : TypeDefinition → Type 0) (types : List TypeDefinition) (d : TypeDefinition)
    → All P types
    → get_last? types ≡ some d
    → P d
last_of P [] d all h = absurd cc
last_of P (t ∷ []) d (first, rest) h = subst P (some-eq h) first
last_of P (t ∷ u ∷ us) d (first, rest) h = last_of P (u ∷ us) d rest h

find_definition-OfType :
    (P : TypeDefinition → Type 0) (type : List ℕ) (types : List TypeDefinition)
    → All P types
    → OfType P (find_definition type types)
unfolding find_definition
find_definition-OfType P type [] all = tt
find_definition-OfType P type (d ∷ ds) (first, rest) =
    elim (Bool-cases (str_eq d.alias_name type)) [
      | inl same ↦ rw same first
      | inr other ↦ rw other (find_definition-OfType P type ds rest)
    ]

choose_type-OfType :
    (P : TypeDefinition → Type 0) (type : List ℕ) (types : List TypeDefinition)
    → All P types
    → is_empty types ≡ false
    → Ensures (choose_type type types) (OfType P)
unfolding choose_type
choose_type-OfType P [] types all some_type =
    let (d, last) = some_last types some_type in rw (last, choose_type) (last_of P types d all last)
choose_type-OfType P (c ∷ cs) types all some_type = find_definition-OfType P (c ∷ cs) types all

-- A parser that can read files.
pub record IsReady {S : Type 0} (p : FileParser S) : Type 0 where
  pub types_ok : All (λ (d : TypeDefinition). StatementsOk d.statements) p.definitions
  pub some_type : is_empty p.definitions ≡ false

pub Built-IsReady :
    {S : Type 0} (p : FileParser S) (default : FileSystem S) (parser : GeneratedParser)
    (stod : List ℕ → Option ℕ) (def path : List ℕ) (options : FileParserOptions S)
    → Built default parser stod def path options p
    → IsReady p
Built-IsReady p default parser stod def path options built = record {
  types_ok = built.accepted.types_ok.0;
  some_type = built.some_type;
}

module _ {S : Type 0} (file : FileReader S) (Valid : S → Type 0) (content : S → List ℕ)
    (lawful : IsFile file Valid content) (bytes : List ℕ) (all : All IsByte bytes) (s : S)
    (valid : Valid s) (content_is : content s ≡ bytes) (small : length bytes < 2 ^ 60)
    (at_start : file.position s ≡ 0) (p : FileParser S) (path type : List ℕ)
    (errors : Option ErrorCollection) where
  abbrev result : Returned (Opened S)
  result = parse_reader file p s path type errors

  -- An object of a type of the parser's.
  pub record Parsed (r : Opened S) : Type 0 where
    pub definition : TypeDefinition
    pub chosen : choose_type type p.definitions ≡ ok (some definition)
    pub asked : IsAsked type definition p.definitions
    pub statements_ok : StatementsOk definition.statements
    pub opened : OpenedAs file Valid content lawful bytes definition r

  chosen_lem :
      (o : Outcome (Option TypeDefinition))
      → choose_type type p.definitions ≡ o
      → Ensures o (OfType (λ d. StatementsOk d.statements))
      → Ensures result.outcome Parsed
  unfolding parse_reader
  chosen_lem stuck is h = absurd h
  chosen_lem failed is h = rw (is, parse_reader) tt
  chosen_lem (ok none) is h = rw (is, parse_reader) tt
  chosen_lem (ok (some d)) is h =
      rw (is, parse_reader)
        (Ensures-map {P = OpenedAs file Valid content lawful bytes d} {Q = Parsed}
          (read_object file d s (Option.get_or errors no_errors)).outcome
          (λ r opened. record {
            definition = d;
            chosen = is;
            asked = choose_type-IsAsked type d p.definitions is;
            statements_ok = h;
            opened = opened;
          })
          (read_object-OpenedAs file Valid content lawful bytes all s valid content_is small
            at_start d (Option.get_or errors no_errors) h.0))

  -- `ParseFile` of a parser with types, on a reader at the start of a file of bytes, ends. The object
  -- that it gives is of the type asked for, the parser's last for the empty name and its first of that
  -- name for any other, and starts at the file's first bit, in a good world.
  pub parse_reader-Parsed : IsReady p → Ensures result.outcome Parsed
  parse_reader-Parsed ready = chosen_lem (choose_type type p.definitions) refl (
      choose_type-OfType (λ d. StatementsOk d.statements) type p.definitions ready.types_ok
        ready.some_type)

  -- The fields of the object that a parser with types gives.
  pub parsed_field :
      (r : Opened S)
      → IsReady p
      → result.outcome ≡ ok r
      → (name : List ℕ) (e : ErrorCollection)
      → (d : TypeDefinition) × (choose_type type p.definitions ≡ ok (some d))
        × (let q = get_field_value file r.0 name r.1 e in
            Ensures q.outcome (λ v.
              Says file Valid content lawful bytes
                (place name d.statements zero_size)
                q.state.heap
                v))
  parsed_field r ready is name e =
      let got : Parsed r = subst (λ o. Ensures o Parsed) is (parse_reader-Parsed ready) in
      let q = get_field_value file r.0 name r.1 e in
      let o = got.opened in
      (
        got.definition,
        got.chosen,
        Ensures-map
            {P = λ v.
              WorldOk file Valid content lawful bytes q.state
              × Extends r.1.heap q.state.heap
              × Says file Valid content lawful bytes
                  (place name got.definition.statements o.root.start_position) q.state.heap v}
            {Q = λ v.
              Says file Valid content lawful bytes (place name got.definition.statements zero_size)
                q.state.heap v}
            q.outcome
            (λ v (_, _, says).
              subst
                (λ p.
                  Says file Valid content lawful bytes (place name got.definition.statements p)
                    q.state.heap v)
                o.start says)
            (get_field_value-place file Valid content lawful bytes all r.0 name o.root r.1 e
              o.world_ok o.there got.definition.statements o.type got.statements_ok.1),
      )
