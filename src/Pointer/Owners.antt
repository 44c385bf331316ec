-- ===== src/Pointer/Owners.antt =====
-- Every pointer owns its cell, and what the copy assignment leaves.
use binary_reader.Common.{
  ℕ, List, [], ◌∷◌, ◌++◌, length, get_elem?, set, Option, none, some, ◌≡◌, ◌≢◌, refl, sym, ap,
  subst, ◌∙◌, inl, inr, some-eq, ◌==◌, ==_iff, Bool-cases, false, if◌then◌else◌, get_elem?-append,
  get_elem?-append_new, get_elem?-set_self, get_elem?-set_cases, get_elem?-set_other,
}
use binary_reader.Pointer.{Memory, ◌>>=◌, follow, delete_cell, new_copy, reset, copy_assign}

bind_some :
    {A B : Type 0} (m : Option A) (f : A → Option B) {a : A} {r : Option B}
    → m ≡ some a
    → f a ≡ r
    → (m >>= f) ≡ r
bind_some m f h k = ap (λ o. o >>= f) h ∙ k

past_end : {A : Type 0} (xs : List A) (x : A) → get_elem? xs (length xs) ≡ some x → ⊥
past_end [] x h = cc
past_end (y ∷ xs) x h = past_end xs x h

module _ {T : Type 0} where
  -- The pointer `i` is there, and points at a cell that is there, with that value.
  abbrev pub Points : Memory T → ℕ → ℕ → Type 0
  Points m i a = get_elem? m.pointers i ≡ some (some a)

  abbrev pub IsCell : Memory T → ℕ → T → Type 0
  IsCell m a v = get_elem? m.cells a ≡ some (some v)

  -- No pointer dangles, and no two share a cell.
  pub record Owned (m : Memory T) : Type 0 where
    pub live : (i a : ℕ) → Points m i a → (v : T) × IsCell m a v
    pub unique : (i j a : ℕ) → Points m i a → Points m j a → i ≡ j

  -- What the pointer holds: nothing, where it is null.
  abbrev pub Holds : Memory T → ℕ → Option T → Type 0
  Holds m i none = get_elem? m.pointers i ≡ some none
  Holds m i (some v) = (a : ℕ) × Points m i a × IsCell m a v

  follow_cell : (m : Memory T) (a : ℕ) (v : T) → IsCell m a v → follow a m ≡ some v
  unfolding follow
  follow_cell m a v h = rw (h, follow) refl

  -- `reset()` gives up the pointer's cell, and leaves the other pointers theirs.
  pub record Emptied (i : ℕ) (m m' : Memory T) : Type 0 where
    pub pointers : m'.pointers ≡ set m.pointers i none
    pub cells : (j a : ℕ) (v : T) → i ≢ j → Points m j a → IsCell m a v → IsCell m' a v

  reset-Emptied :
      (i : ℕ) (p : Option ℕ) (m : Memory T)
      → Owned m
      → get_elem? m.pointers i ≡ some p
      → (m' : Memory T) × (reset i none m ≡ some m') × Emptied i m m'
  unfolding reset delete_cell
  reset-Emptied i none m owned at = (
    record m { pointers = set m.pointers i none },
    bind_some (get_elem? m.pointers i)
        (λ old. delete_cell old m >>= λ m'. some (record m' { pointers = set m'.pointers i none }))
        at refl,
    record { pointers = refl; cells = λ j a v apart points is. is },
  )
  reset-Emptied i (some a) m owned at =
      let (v, is) = owned.live i a at in
      let freed : Memory T = record m { cells = set m.cells a none } in
      let deleted : delete_cell (some a) m ≡ some freed =
        rw (follow_cell m a v is, delete_cell) refl in
      (
        record freed { pointers = set m.pointers i none },
        bind_some (get_elem? m.pointers i)
            (λ old.
              delete_cell old m >>= λ m'. some (record m' { pointers = set m'.pointers i none }))
            at
            (bind_some (delete_cell (some a) m)
              (λ m'. some (record m' { pointers = set m'.pointers i none })) deleted refl),
        record {
          pointers = refl;
          cells = λ j b w apart points here.
              get_elem?-set_other m.cells a b none
                (λ same. apart (owned.unique i j a at (subst (Points m j) (sym same) points)))
              ∙ here;
        },
      )

  -- A pointer that is set to null leaves the others their cells.
  emptied-Owned : (i : ℕ) (m m' : Memory T) → Owned m → Emptied i m m' → Owned m'
  emptied-Owned i m m' owned e = record {
    live = λ j a points.
        let (apart, old) = before j a points in
        let (v, is) = owned.live j a old in (v, e.cells j a v apart old is);
    unique = λ j k a points others. owned.unique j k a (before j a points).1 (before k a others).1;
  }
    where
      before : (j a : ℕ) → Points m' j a → (i ≢ j) × Points m j a
      before j a points =
          elim (get_elem?-set_cases m.pointers i j (some a) none
            (subst (λ ps. get_elem? ps j ≡ some (some a)) e.pointers points)) [
              | inl old ↦ old
              | inr (same, clash) ↦ absurd (let other : some a ≡ none = clash in cc)
            ]

  -- A null pointer that gets a new cell.
  attached-Owned :
      (i : ℕ) (v : T) (m : Memory T)
      → Owned m
      → Owned (record {
        cells = m.cells ++ some v ∷ [];
        pointers = set m.pointers i (some (length m.cells));
      })
  attached-Owned i v m owned = record {
    live = λ j a points. elim (get_elem?-set_cases m.pointers i j (some a) new points) [
      | inl (apart, old) ↦
          let (w, is) = owned.live j a old in
          (w, get_elem?-append m.cells (some v ∷ []) a (some w) is)
      | inr (same, at) ↦ (
        v,
        subst (λ b. get_elem? (m.cells ++ some v ∷ []) b ≡ some (some v)) (sym (some-eq at))
            (get_elem?-append_new m.cells (some v)),
      )
    ];
    unique = λ j k a points others. elim (get_elem?-set_cases m.pointers i j (some a) new points) [
      | inl (apart, old) ↦ elim (get_elem?-set_cases m.pointers i k (some a) new others) [
        | inl (_, other) ↦ owned.unique j k a old other
        | inr (_, at) ↦ absurd (not_new j a old (some-eq at))
      ]
      | inr (same, at) ↦ elim (get_elem?-set_cases m.pointers i k (some a) new others) [
        | inl (_, other) ↦ absurd (not_new k a other (some-eq at))
        | inr (same_too, _) ↦ sym same ∙ same_too
      ]
    ];
  }
    where
      new : Option ℕ
      new = some (length m.cells)

      not_new : (j a : ℕ) → Points m j a → a ≡ length m.cells → ⊥
      not_new j a points at =
          let (w, is) = owned.live j a points in
          past_end m.cells (some w) (subst (λ b. get_elem? m.cells b ≡ some (some w)) at is)

  -- A pointer keeps its value where another is set, and its cell stays.
  Holds-other :
      (i : ℕ) (x : Option ℕ) (m m' : Memory T)
      → m'.pointers ≡ set m.pointers i x
      → ((j a : ℕ) (v : T) → i ≢ j → Points m j a → IsCell m a v → IsCell m' a v)
      → (k : ℕ) (u : Option T) → i ≢ k
      → Holds m k u
      → Holds m' k u
  Holds-other i x m m' pointers cells k none apart h =
      subst (λ ps. get_elem? ps k ≡ some none) (sym pointers)
        (get_elem?-set_other m.pointers i k x apart ∙ h)
  Holds-other i x m m' pointers cells k (some v) apart (a, points, is) = (
    a,
    subst (λ ps. get_elem? ps k ≡ some (some a)) (sym pointers)
        (get_elem?-set_other m.pointers i k x apart ∙ points),
    cells k a v apart points is,
  )

  -- All pointers but `i` hold in `m'` what they hold in `m`.
  abbrev pub Keep : ℕ → Memory T → Memory T → Type 0
  Keep i m m' = (k : ℕ) (u : Option T) → i ≢ k → Holds m k u → Holds m' k u

  -- What is assigned: the other pointer's value, or nothing where it is the pointer itself.
  abbrev pub assigned : ℕ → ℕ → Option T → Option T
  assigned i j w = if i == j then none else w

  abbrev finish : ℕ → Option ℕ × Memory T → Option (Memory T)
  finish i r = some (record r.1 { pointers = set r.1.pointers i r.0 })

  module _ (i j : ℕ) (m : Memory T) (owned : Owned m) (p : Option ℕ)
      (at : get_elem? m.pointers i ≡ some p) where
    abbrev Assigned : Option T → Type 0
    Assigned w =
        (m' : Memory T) × (copy_assign i j m ≡ some m')
        × Owned m'
        × Holds m' i (assigned i j w)
        × Keep i m m'

    m1 : Memory T
    m1 = (reset-Emptied i p m owned at).0

    is_reset : reset i none m ≡ some m1
    unfolding m1
    is_reset = (reset-Emptied i p m owned at).1

    emptied : Emptied i m m1
    unfolding m1
    emptied = (reset-Emptied i p m owned at).2

    owned1 : Owned m1
    owned1 = emptied-Owned i m m1 owned emptied

    null_now : get_elem? m1.pointers i ≡ some none
    null_now =
        subst (λ ps. get_elem? ps i ≡ some none) (sym emptied.pointers)
          (get_elem?-set_self m.pointers i p none at)

    kept : Keep i m m1
    kept = Holds-other i none m m1 emptied.pointers emptied.cells

    steps :
        (other : Option ℕ) (r : Option ℕ × Memory T)
        → get_elem? m1.pointers j ≡ some other
        → new_copy other m1 ≡ some r
        → copy_assign i j m ≡ some (record r.1 { pointers = set r.1.pointers i r.0 })
    unfolding copy_assign
    steps other r there copied =
        bind_some (reset i none m) (λ n. get_elem? n.pointers j >>= λ o. new_copy o n >>= finish i)
          is_reset
          (bind_some (get_elem? m1.pointers j) (λ o. new_copy o m1 >>= finish i) there
            (bind_some (new_copy other m1) (finish i) copied refl))

    -- The other pointer is null by now.
    copy_null :
        (w : Option T) → assigned i j w ≡ none → get_elem? m1.pointers j ≡ some none → Assigned w
    unfolding new_copy
    copy_null w nothing there =
        let m2 : Memory T = record m1 { pointers = set m1.pointers i none } in
        (
          m2,
          steps none (none, m1) there refl,
          emptied-Owned i m1 m2 owned1
              (record { pointers = refl; cells = λ k a v apart points is. is }),
          subst (Holds m2 i) (sym nothing) (get_elem?-set_self m1.pointers i none none null_now),
          λ k u apart h.
              Holds-other i none m1 m2 refl (λ l a v _ _ is. is) k u apart (kept k u apart h),
        )

    distinct : (i == j) ≡ false → i ≢ j
    distinct differ same = let equal = (==_iff i j).1 same in cc

    copy_value :
        (v : T) (a : ℕ) → (i == j) ≡ false → Points m j a → IsCell m a v → Assigned (some v)
    unfolding new_copy
    copy_value v a differ points is =
        let apart = distinct differ in
        let there : get_elem? m1.pointers j ≡ some (some a) =
          subst (λ ps. get_elem? ps j ≡ some (some a)) (sym emptied.pointers)
            (get_elem?-set_other m.pointers i j none apart ∙ points) in
        let is1 = emptied.cells j a v apart points is in
        let r : Option ℕ × Memory T =
          (some (length m1.cells), record m1 { cells = m1.cells ++ some v ∷ [] }) in
        let copied : new_copy (some a) m1 ≡ some r = rw (follow_cell m1 a v is1, new_copy) refl in
        (
          record r.1 { pointers = set m1.pointers i r.0 },
          steps (some a) r there copied,
          attached-Owned i v m1 owned1,
          rw differ (
            length m1.cells,
            get_elem?-set_self m1.pointers i none (some (length m1.cells)) null_now,
            get_elem?-append_new m1.cells (some v),
          ),
          λ k u other h.
              Holds-other i r.0 m1 (record r.1 { pointers = set m1.pointers i r.0 }) refl
                (λ l b x _ _ here. get_elem?-append m1.cells (some v ∷ []) b (some x) here) k u
                other (kept k u other h),
        )

    by_value : (w : Option T) → Holds m j w → (i == j) ≡ false → Assigned w
    by_value none null differ = copy_null none (rw differ refl) (
        subst (λ ps. get_elem? ps j ≡ some none) (sym emptied.pointers)
          (get_elem?-set_other m.pointers i j none (distinct differ) ∙ null))
    by_value (some v) (a, points, is) differ = copy_value v a differ points is

    -- The copy assignment of a pointer to another, where no pointer dangles and no two share a cell,
    -- deletes and follows no cell that is gone; no pointer dangles and no two share a cell afterwards,
    -- the pointer holds the value of the other, and every other pointer what it held. Assigned to
    -- itself, it loses its value.
    pub copy_assign-Owned : (w : Option T) → Holds m j w → Assigned w
    copy_assign-Owned w holds = elim (Bool-cases (i == j)) [
      | inl same ↦
          copy_null w (rw same refl)
            (subst (λ k. get_elem? m1.pointers k ≡ some none) ((==_iff i j).0 same) null_now)
      | inr differ ↦ by_value w holds differ
    ]
