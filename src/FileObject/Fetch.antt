-- ===== src/FileObject/Fetch.antt =====
-- `GetFieldValue`, by name.
use binary_reader.Common.{
  ℕ, List, get_elem?, All, Option, none, some, Option-cases, ◌≡◌, refl, sym, ap, subst, ◌∙◌, inl,
  inr, lookup,
}
use binary_reader.Error.Collection.{ErrorCollection}
use binary_reader.Exec.{ok, done, ◌>>◌, Ensures, Ensures-map, Ensures-bind}
use binary_reader.File.{FileReader, IsFile}
use binary_reader.Integer.Bytes.{IsByte}
use binary_reader.Value.{Value, null}
use binary_reader.TypeInfo.{TypeInfo}
use binary_reader.FileObject.{FileObject, ParsedFieldInfo}
use binary_reader.FileObject.Heap.{World, ensure_field, field_value, get_field_value}
use binary_reader.FileObject.Invariant.{IsAt, Extends}
use binary_reader.FileObject.Values.{WorldOk}
use binary_reader.FileObject.Fields.{Cached, ensure_field-Cached, field_value_lem}

module _ {S : Type 0} (file : FileReader S) (Valid : S → Type 0) (content : S → List ℕ)
    (lawful : IsFile file Valid content) (bytes : List ℕ) where
  -- The value of a name that no field has is null; that of a field is what the bytes hold for the
  -- field's type at its offset.
  abbrev pub Answers : Option ℕ → List ℕ → FileObject → List FileObject → Value → Type 0
  Answers none name o heap v = v ≡ null
  Answers (some i) name o heap v =
      (f : ParsedFieldInfo) × (t : TypeInfo) × (get_elem? o.parsed_fields i ≡ some f)
      × (f.name ≡ name)
      × (f.type ≡ some t)
      × IsAt bytes heap t f.offset v

  pub record Fetched (name : List ℕ) (o : FileObject) (w : World S) (v : Value) (w' : World S)
      : Type 0 where
    pub world_ok : WorldOk file Valid content lawful bytes w'
    pub extends : Extends w.heap w'.heap
    pub answer : Answers (lookup name o.field_name_map) name o w'.heap v

  module _ (all : All IsByte bytes) (id : ℕ) (name : List ℕ) (o : FileObject) (w : World S)
      (e : ErrorCollection) (good : WorldOk file Valid content lawful bytes w)
      (there : get_elem? w.heap id ≡ some o) where
    -- The call, by what the map of names says.
    missing :
        lookup name o.field_name_map ≡ none
        → (e' : ErrorCollection) → get_field_value file id name w e' ≡ done (ok null) w e'
    unfolding get_field_value
    missing h e' = rw (there, get_field_value) (rw h refl)

    found :
        (i : ℕ)
        → lookup name o.field_name_map ≡ some i
        → get_field_value file id name w e ≡ (ensure_field file id i >> field_value file id i) w e
    unfolding get_field_value
    found i h = rw (there, get_field_value) (rw h refl)

    module _ (i : ℕ) (known : lookup name o.field_name_map ≡ some i) where
      abbrev entry :
          (f : ParsedFieldInfo) × (get_elem? o.parsed_fields i ≡ some f) × (f.name ≡ name)
      entry = (good.heap_ok id o there).parts.named name i known

      abbrev its_type : TypeInfo
      its_type = ((good.heap_ok id o there).parts.fields i entry.0 entry.1).type

      abbrev has_type : entry.0.type ≡ some its_type
      has_type = ((good.heap_ok id o there).parts.fields i entry.0 entry.1).has_type

      -- Where the value is in the cache, the call takes it from there.
      found_in_cache :
          (v : Value) (w' : World S) (e' : ErrorCollection)
          → Cached file Valid content lawful bytes id i o entry.0 its_type v w w'
          → get_field_value file id name w' e' ≡ done (ok v) w' e'
      unfolding get_field_value
      found_in_cache v w' e' c =
          let same_name : lookup name c.now.field_name_map ≡ some i =
            ap (lookup name) c.names ∙ known in
          let at_once : ensure_field file id i w' e' ≡ done (ok tt) w' e' =
            unfold ensure_field in
            rw (c.there, ensure_field) (rw c.entry_there (rw c.entry_value refl)) in
          let there_too : (ensure_field file id i >> field_value file id i) w' e'
              ≡ done (ok v) w' e' =
            rw at_once (
              field_value_lem file Valid content lawful bytes id i o entry.0 its_type has_type
                entry.1 all w e good there v w' e' c) in
          rw (c.there, get_field_value) (rw same_name there_too)

      -- A field's value is in its cache afterwards, and is the answer.
      get_known :
          let r = get_field_value file id name w e in
          Ensures r.outcome
            (λ v. Cached file Valid content lawful bytes id i o entry.0 its_type v w r.state)
      get_known =
          let r = ensure_field file id i w e in
          rw (found i known) (
            Ensures-bind
              {P = λ _.
                (v : Value) × Cached file Valid content lawful bytes id i o entry.0 its_type v w
                  r.state}
              (λ v q. Cached file Valid content lawful bytes id i o entry.0 its_type v w q.state) r
              (λ _. field_value file id i)
              (ensure_field-Cached file Valid content lawful bytes id i o entry.0 its_type has_type
                entry.1 all w e good there)
              (λ _ c.
                let same =
                  field_value_lem file Valid content lawful bytes id i o entry.0 its_type has_type
                    entry.1 all w e good there c.0 r.state r.errors c.1 in
                rw same c.1))

    -- In a good world, `GetFieldValue` of an object ends. Where it succeeds the world is good, every
    -- object is still there with its type and its start, and the value is null for a name that no field
    -- has, else what the bytes of the file hold for the field's type at the field's offset.
    pub get_field_value-Fetched :
        let r = get_field_value file id name w e in
        Ensures r.outcome (λ v. Fetched name o w v r.state)
    get_field_value-Fetched = elim (Option-cases (lookup name o.field_name_map)) [
      | inl absent ↦ rw (missing absent e) (record {
        world_ok = good;
        extends = λ j p h. (p, h, refl, refl);
        answer = subst (λ k. Answers k name o w.heap null) (sym absent) refl;
      })
      | inr (i, known) ↦
          let r = get_field_value file id name w e in
          Ensures-map
            {P = λ v.
              Cached file Valid content lawful bytes id i o (entry i known).0 (its_type i known) v w
                r.state}
            {Q = λ v. Fetched name o w v r.state} r.outcome
            (λ v c. record {
              world_ok = c.world_ok;
              extends = c.extends;
              answer =
                  subst (λ k. Answers k name o r.state.heap v) (sym known)
                    (
                      (entry i known).0,
                      its_type i known,
                      (entry i known).1,
                      (entry i known).2,
                      has_type i known,
                      c.is_at,
                    );
            })
            (get_known i known)
    ]

    -- In a good world, after a `GetFieldValue` that succeeds, the same call gives the same value from
    -- the cache: the reader, the objects and the errors stay as they are.
    pub get_field_value-get_field_value :
        (e' : ErrorCollection)
        → let r = get_field_value file id name w e in
          Ensures r.outcome (λ v. get_field_value file id name r.state e' ≡ done (ok v) r.state e')
    get_field_value-get_field_value e' = elim (Option-cases (lookup name o.field_name_map)) [
      | inl absent ↦ rw (missing absent e) (missing absent e')
      | inr (i, known) ↦
          let r = get_field_value file id name w e in
          Ensures-map
            {P = λ v.
              Cached file Valid content lawful bytes id i o (entry i known).0 (its_type i known) v w
                r.state}
            {Q = λ v. get_field_value file id name r.state e' ≡ done (ok v) r.state e'} r.outcome
            (λ v c. found_in_cache i known v r.state e' c) (get_known i known)
    ]
