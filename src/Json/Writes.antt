-- ===== src/Json/Writes.antt =====
-- Calls that write to the output, in a world that they keep good.
use binary_reader.Common.{
  ℕ, List, ◌++◌, append_assoc, length, get_elem?, All, some, ◌≡◌, refl, ap, subst, sym, some-eq,
  ◌∙◌, true, inl, inr,
}
use binary_reader.Size.{Size}
use binary_reader.Error.Collection.{ErrorCollection, no_errors}
use binary_reader.Exec.{Exec, Outcome-cases, ok, done, ◌>>=◌, ◌>>◌, Ensures, bind_ok}
use binary_reader.File.{FileReader, IsFile}
use binary_reader.Buffered.Live.{NeverFails}
use binary_reader.Integer.Bytes.{IsByte}
use binary_reader.Value.{Value}
use binary_reader.Value.Numbers.{Doubles}
use binary_reader.TypeInfo.{TypeInfo, Statements}
use binary_reader.TypeInfo.Typed.{IsTyped}
use binary_reader.FileObject.{FileObject}
use binary_reader.FileObject.Heap.{World, get_field_value, get_field_or_null}
use binary_reader.FileObject.Invariant.{IsAt, Extends, Extends-trans}
use binary_reader.FileObject.Values.{WorldOk}
use binary_reader.FileObject.Fetch.{Answers, Fetched, get_field_value-Fetched}
use binary_reader.FileObject.Located.{HoldsAll, Located, Located-Holds, LaidOut-Located, found_name}
use binary_reader.FileObject.Live.{get_field_value-Lasts}
use binary_reader.Parser.Names.{is_among, field_names}
use binary_reader.Json.{JsonOptions, Output, write, fetch}

module _ {S : Type 0} (file : FileReader S) (Valid : S → Type 0) (content : S → List ℕ)
    (lawful : IsFile file Valid content) (bytes : List ℕ) where
  abbrev pub Good : World S → Type 0
  Good w = WorldOk file Valid content lawful bytes w

  -- The call succeeds with that value, adds that text to the output, keeps the world good with its
  -- objects in it, and leaves the errors alone.
  pub record Writes {A : Type 0} (m : Exec (Output S) A) (a : A) (text : List ℕ) (o : Output S)
      (e : ErrorCollection) : Type 0 where
    pub after : Output S
    pub runs : m o e ≡ done (ok a) after e
    pub good : Good after.world
    pub extends : Extends o.world.heap after.world.heap
    pub written : after.text ≡ o.text ++ text

  pub Writes-write :
      (text : List ℕ) (o : Output S) (e : ErrorCollection)
      → Good o.world
      → Writes (write text) tt text o e
  Writes-write text o e good = record {
    after = record o { text = o.text ++ text };
    runs = refl;
    good = good;
    extends = λ j p h. (p, h, refl, refl);
    written = refl;
  }

  pub Writes-bind :
      {A B : Type 0} (m : Exec (Output S) A) (f : A → Exec (Output S) B) (a : A) (b : B)
      (s t : List ℕ) (o : Output S) (e : ErrorCollection) (first : Writes m a s o e)
      → Writes (f a) b t first.after e
      → Writes (m >>= f) b (s ++ t) o e
  Writes-bind m f a b s t o e first second = record {
    after = second.after;
    runs = bind_ok m f o e first.runs second.runs;
    good = second.good;
    extends =
        Extends-trans o.world.heap first.after.world.heap second.after.world.heap first.extends
          second.extends;
    written = second.written ∙ ap (λ l. l ++ t) first.written ∙ append_assoc o.text s t;
  }

  -- The same call, told by an equal value and an equal text.
  pub Writes-as :
      {A : Type 0} (m : Exec (Output S) A) (a a' : A) (text text' : List ℕ) (o : Output S)
      (e : ErrorCollection)
      → a ≡ a'
      → text ≡ text'
      → Writes m a text o e
      → Writes m a' text' o e
  Writes-as m a a' text text' o e same_value same_text h = record {
    after = h.after;
    runs = h.runs ∙ ap (λ x. done (ok x) h.after e) same_value;
    good = h.good;
    extends = h.extends;
    written = h.written ∙ ap (λ t. o.text ++ t) same_text;
  }

  -- A text in front.
  pub Writes-after :
      {B : Type 0} (text : List ℕ) (k : Exec (Output S) B) (b : B) (t : List ℕ) (o : Output S)
      (e : ErrorCollection)
      → Good o.world
      → Writes k b t (record o { text = o.text ++ text }) e
      → Writes (write text >> k) b (text ++ t) o e
  unfolding Writes-write
  Writes-after text k b t o e good h =
      Writes-bind (write text) (λ _. k) tt b text t o e (Writes-write text o e good) h

  -- What `GetFieldValue` gives for a field of the type.
  pub record Got (ss : Statements) (p : Size) (name : List ℕ) (id : ℕ) (w : World S) : Type 0 where
    pub value : Value
    pub after : World S
    pub runs : get_field_or_null file id name w ≡ done (ok value) after no_errors
    pub good : Good after
    pub extends : Extends w.heap after.heap
    pub type : TypeInfo
    pub place : Size
    pub located : Located ss p name type place
    pub typed : IsTyped type
    pub is_at : IsAt bytes after.heap type place value

  module _ (never : NeverFails file) (all : All IsByte bytes) (id : ℕ) (w : World S) (good : Good w)
      (o : FileObject) (there : get_elem? w.heap id ≡ some o) (ss : Statements)
      (type : o.type ≡ some ss) (room : HoldsAll (length bytes) ss o.start_position) (name : List ℕ)
      (among : is_among name (field_names ss) ≡ true) where
    -- The call succeeds, and gives what the bytes hold for the field.
    pub get_field_or_null-Got : Got ss o.start_position name id w
    unfolding get_field_or_null
    get_field_or_null-Got =
        let fine = good.heap_ok id o there in
        let (i, known) = found_name bytes w.heap o ss fine type name among in
        let (f, at, named) = fine.parts.named name i known in
        let field = fine.parts.fields i f at in
        let laid = fine.layout ss type in
        let located =
          LaidOut-Located ss o.start_position o.parsed_fields i f field.type laid at
            field.has_type in
        let r = get_field_value file id name w no_errors in
        let fetched =
          get_field_value-Fetched file Valid content lawful bytes all id name o w no_errors good
            there in
        elim (Outcome-cases r.outcome) [
          | inl (v, is) ↦
              let got =
                subst
                  (λ q. Ensures q (λ x. Fetched file Valid content lawful bytes name o w x r.state))
                  is fetched in
              let (g, t, there_too, same, typed, is_at) =
                subst (λ k. Answers file Valid content lawful bytes k name o r.state.heap v) known
                  got.answer in
              record {
                value = v;
                after = r.state;
                runs = rw (is, get_field_or_null) refl;
                good = got.world_ok;
                extends = got.extends;
                type = t;
                place = g.offset;
                located =
                    subst (λ m. Located ss o.start_position m t g.offset) same
                      (LaidOut-Located ss o.start_position o.parsed_fields i g t laid there_too
                        typed);
                typed =
                    let own = fine.parts.fields i g there_too in
                    subst IsTyped (some-eq (sym own.has_type ∙ typed)) own.typed;
                is_at = is_at;
              }
          | inr (inl lost) ↦ absurd (
              get_field_value-Lasts file Valid content lawful never bytes all id i w no_errors good
                o there f at field.type field.has_type
                (Located-Holds (length bytes) ss o.start_position f.name field.type f.offset room
                  located)
                name known lost)
          | inr (inr out) ↦ absurd (
              subst
                (λ q. Ensures q (λ x. Fetched file Valid content lawful bytes name o w x r.state))
                out fetched)
        ]

  pub Writes-fetch :
      {B : Type 0} (double : Doubles) (show_double : ℕ → List ℕ) (opts : JsonOptions)
      (ss : Statements) (p : Size) (name : List ℕ) (id : ℕ) (k : Value → Exec (Output S) B) (b : B)
      (t : List ℕ) (o : Output S) (e : ErrorCollection) (got : Got ss p name id o.world)
      → Writes (k got.value) b t (record o { world = got.after }) e
      → Writes (fetch double show_double file opts id name >>= k) b t o e
  unfolding fetch
  Writes-fetch double show_double opts ss p name id k b t o e got h = record {
    after = h.after;
    runs =
        bind_ok (fetch double show_double file opts id name) k o e (rw (got.runs, fetch) refl)
          h.runs;
    good = h.good;
    extends = Extends-trans o.world.heap got.after.heap h.after.world.heap got.extends h.extends;
    written = h.written;
  }
