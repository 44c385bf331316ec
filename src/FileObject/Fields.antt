-- ===== src/FileObject/Fields.antt =====
-- `EnsureField` and `GetFieldValue`: the values of fields by name, and their cache.
use binary_reader.Common.{
  ℕ, ◌%◌, List, ◌++◌, get_elem?, set, All, some, Option-cases, ◌≡◌, refl, sym, ap, subst, ◌∙◌, inl,
  inr, some-eq, lookup, get_elem?-append, get_elem?-set_self, get_elem?-set_cases,
  get_elem?-set_other,
}
use native.Mathlib.Decide.{ℕ_discrete}
use binary_reader.Size.{Size}
use binary_reader.Error.Collection.{ErrorCollection}
use binary_reader.Exec.{ok, done, ◌>>=◌, ◌>>◌, Ensures, Ensures-map, Ensures-bind}
use binary_reader.File.{FileReader, IsFile}
use binary_reader.Buffered.{position, seek}
use binary_reader.Integer.Bytes.{IsByte}
use binary_reader.Value.{Value}
use binary_reader.TypeInfo.{TypeInfo}
use binary_reader.TypeInfo.Typed.{IsTyped}
use binary_reader.FileObject.{FileObject, ParsedFieldInfo}
use binary_reader.FileObject.Layout.{set-LaidOut}
use binary_reader.FileObject.Heap.{
  World, cached, on_reader, read_value, store_value, load_field, ensure_field, field_value,
}
use binary_reader.FileObject.Invariant.{
  IsAt, FieldOk, ObjectOk, Extends, append-Extends, set-Extends, Extends-trans, set-HeapOk,
  IsAt-Extends,
}
use binary_reader.FileObject.Values.{WorldOk, Moved, HasRead, seek-Moved, read_value-HasRead}

-- A field keeps its place in the object when its value is stored.
module _ (bytes : List ℕ) (heap : List FileObject) (o : FileObject) (index : ℕ)
    (f : ParsedFieldInfo) (v : Value) (ok_before : ObjectOk bytes heap o)
    (at : get_elem? o.parsed_fields index ≡ some f) where
  abbrev with_value : ParsedFieldInfo
  with_value = record f { value = some v }

  cached-ObjectOk :
      (t : TypeInfo)
      → f.type ≡ some t
      → IsAt bytes heap t f.offset v
      → ObjectOk bytes heap (cached o index f v)
  cached-ObjectOk t has_type is = record {
    parts = record {
      fields = λ i g there. elim (get_elem?-set_cases o.parsed_fields index i g with_value there) [
        | inl (apart, old) ↦ ok_before.parts.fields i g old
        | inr (same, new) ↦ subst (FieldOk bytes heap) (sym new) new_field
      ];
      named = λ name i there.
          let (g, old, is_name) = ok_before.parts.named name i there in
          elim (ℕ_discrete index i) [
            | no apart ↦
                (g, get_elem?-set_other o.parsed_fields index i with_value apart ∙ old, is_name)
            | yes same ↦
                let which : f ≡ g = cc in
                (
                  with_value,
                  subst (λ k. get_elem? (set o.parsed_fields index with_value) k ≡ some with_value)
                      same (get_elem?-set_self o.parsed_fields index f with_value at),
                  ap (λ (h : ParsedFieldInfo). h.name) which ∙ is_name,
                )
          ];
      all_named = λ i g there.
          elim (get_elem?-set_cases o.parsed_fields index i g with_value there) [
            | inl (apart, old) ↦ ok_before.parts.all_named i g old
            | inr (same, new) ↦
                subst (λ m. (j : ℕ) × (lookup m o.field_name_map ≡ some j))
                  (ap (λ (h : ParsedFieldInfo). h.name) (sym new))
                  (ok_before.parts.all_named index f at)
          ];
      apart = ok_before.parts.apart;
    };
    layout = λ ss type.
        set-LaidOut ss o.start_position o.parsed_fields index f (some v) at
          (ok_before.layout ss type);
  }
    where
      before : FieldOk bytes heap f
      before = ok_before.parts.fields index f at

      new_field : FieldOk bytes heap with_value
      new_field = record {
        type = t;
        has_type = has_type;
        typed = subst IsTyped (some-eq (sym before.has_type ∙ has_type)) before.typed;
        aligned = before.aligned;
        in_range = before.in_range;
        cached = λ u e. subst (IsAt bytes heap t f.offset) (some-eq e) is;
      }

module _ {S : Type 0} (file : FileReader S) (Valid : S → Type 0) (content : S → List ℕ)
    (lawful : IsFile file Valid content) (bytes : List ℕ) where
  abbrev Good : World S → Type 0
  Good w = WorldOk file Valid content lawful bytes w

  -- The field `f` of the object `id`, of type `t`, has the value `v` in its cache.
  pub record Cached (id index : ℕ) (o : FileObject) (f : ParsedFieldInfo) (t : TypeInfo) (v : Value)
      (w w' : World S) : Type 0 where
    pub world_ok : Good w'
    pub extends : Extends w.heap w'.heap
    pub now : FileObject
    pub there : get_elem? w'.heap id ≡ some now
    pub names : now.field_name_map ≡ o.field_name_map
    pub entry : ParsedFieldInfo
    pub entry_there : get_elem? now.parsed_fields index ≡ some entry
    pub entry_value : entry.value ≡ some v
    pub is_at : IsAt bytes w'.heap t f.offset v

  module _ (id index : ℕ) (o : FileObject) (f : ParsedFieldInfo) (t : TypeInfo)
      (typed : f.type ≡ some t) (at : get_elem? o.parsed_fields index ≡ some f) where
    -- A value that was read, with the object still as it was.
    store_value-Cached :
        (w w' : World S) (v : Value) (e : ErrorCollection)
        → Good w'
        → Extends w.heap w'.heap
        → get_elem? w'.heap id ≡ some o
        → IsAt bytes w'.heap t f.offset v
        → let r = store_value id index v w' e in
          Ensures r.outcome (λ _. Cached id index o f t v w r.state)
    unfolding store_value
    store_value-Cached w w' v e good grown there is =
        let o' : FileObject = cached o index f v in
        let kept = set-Extends w'.heap id o o' there refl refl in
        let stored : store_value id index v w' e
            ≡ done (ok tt) (record w' { heap = set w'.heap id o' }) e =
          rw (there, store_value) (rw at refl) in
        rw stored (record {
          world_ok = record {
            reader_ok = good.reader_ok;
            content_is = good.content_is;
            heap_ok =
                set-HeapOk bytes w'.heap id o o' good.heap_ok there refl refl (
                  cached-ObjectOk bytes w'.heap o index f v (good.heap_ok id o there) at t typed
                    is);
          };
          extends = Extends-trans w.heap w'.heap (set w'.heap id o') grown kept;
          now = o';
          there = get_elem?-set_self w'.heap id o o' there;
          names = refl;
          entry = record f { value = some v };
          entry_there = get_elem?-set_self o.parsed_fields index f (record f { value = some v }) at;
          entry_value = refl;
          is_at = IsAt-Extends bytes w'.heap (set w'.heap id o') kept t f.offset v is;
        })

    module _ (all : All IsByte bytes) (w : World S) (e : ErrorCollection) (good : Good w)
        (there : get_elem? w.heap id ≡ some o) where
      before : FieldOk bytes w.heap f
      before = (good.heap_ok id o there).parts.fields index f at

      read_then_store :
          (w' : World S) (e : ErrorCollection)
          → Moved file Valid content lawful bytes w f.offset w'
          → let r = (read_value file t >>= λ v. store_value id index v) w' e in
            Ensures r.outcome (λ _. (v : Value) × Cached id index o f t v w r.state)
      read_then_store w' e moved =
          let r = read_value file t w' e in
          Ensures-bind
            {P = λ v. HasRead file Valid content lawful bytes t (position w'.reader) w' v r.state}
            (λ _ q. (v : Value) × Cached id index o f t v w q.state) r (λ v. store_value id index v)
            (read_value-HasRead file Valid content lawful bytes all w' e moved.0 aligned typed_here)
            (λ v read.
              let whole : r.state.heap ≡ w.heap ++ read.more =
                read.grown ∙ ap (λ h. h ++ read.more) moved.2 in
              let q = store_value id index v r.state r.errors in
              Ensures-map {P = λ _. Cached id index o f t v w q.state}
                {Q = λ _. (v : Value) × Cached id index o f t v w q.state} q.outcome (λ _ c. (v, c))
                (store_value-Cached w r.state v r.errors read.world_ok
                  (subst (Extends w.heap) (sym whole) (append-Extends w.heap read.more))
                  (ap (λ h. get_elem? h id) whole ∙ get_elem?-append w.heap read.more id o there)
                  (subst (λ p. IsAt bytes r.state.heap t p v) moved.1 read.is_at)))
        where
          aligned : (position w'.reader).pos % 8 ≡ 0
          aligned = ap (λ (p : Size). p.pos % 8) moved.1 ∙ before.aligned

          typed_here : IsTyped t
          typed_here = subst IsTyped (some-eq (sym before.has_type ∙ typed)) before.typed

      load_field-Cached :
          let r = load_field file id index f w e in
          Ensures r.outcome (λ _. (v : Value) × Cached id index o f t v w r.state)
      unfolding load_field
      load_field-Cached =
          let r = on_reader (seek file f.offset) w e in
          let loaded : load_field file id index f w e
              ≡ (on_reader (seek file f.offset)
                    >> (read_value file t >>= λ v. store_value id index v))
                  w e =
            rw (typed, load_field) refl in
          rw loaded (
            Ensures-bind {P = λ _. Moved file Valid content lawful bytes w f.offset r.state}
              (λ _ q. (v : Value) × Cached id index o f t v w q.state) r
              (λ _. read_value file t >>= λ v. store_value id index v)
              (seek-Moved file Valid content lawful bytes f.offset w e good before.in_range)
              (λ _ moved. read_then_store r.state r.errors moved))

      -- `EnsureField`
      pub ensure_field-Cached :
          let r = ensure_field file id index w e in
          Ensures r.outcome (λ _. (v : Value) × Cached id index o f t v w r.state)
      ensure_field-Cached = elim (Option-cases f.value) [
        | inl empty ↦
            let step : ensure_field file id index w e ≡ load_field file id index f w e =
              unfold ensure_field in rw (there, ensure_field) (rw at (rw empty refl)) in
            rw step load_field-Cached
        | inr (v, full) ↦
            let step : ensure_field file id index w e ≡ done (ok tt) w e =
              unfold ensure_field in rw (there, ensure_field) (rw at (rw full refl)) in
            rw step (
              v,
              record {
                world_ok = good;
                extends = λ j p h. (p, h, refl, refl);
                now = o;
                there = there;
                names = refl;
                entry = f;
                entry_there = at;
                entry_value = full;
                is_at =
                    subst (λ u. IsAt bytes w.heap u f.offset v)
                      (some-eq (sym before.has_type ∙ typed)) (before.cached v full);
              },
            )
      ]

      pub field_value_lem :
          (v : Value) (w' : World S) (e : ErrorCollection)
          → Cached id index o f t v w w'
          → field_value file id index w' e ≡ done (ok v) w' e
      unfolding field_value
      field_value_lem v w' e c =
          rw (c.there, field_value) (rw c.entry_there (rw c.entry_value refl))
