-- ===== src/Parser/Described.antt =====
-- The types that a definition file describes, told apart from how the visitor makes them.
use binary_reader.Common.{
  ℕ, List, [], ◌∷◌, ◌++◌, map, Option, none, some, Option-cases, some-eq, ◌≡◌, ◌≢◌, refl, sym, ap,
  subst, ◌∙◌, Bool-cases, ◌⊎◌, inl, inr, str_eq,
}
use binary_reader.Error.Defs.{DebugInfo}
use binary_reader.Error.Collection.{ErrorCollection, has_errors}
use binary_reader.Options.{
  OptionType, Signedness, ByteOrder, Options, new_options, get_option_type, contains, signed,
  unsigned, little_endian, big_endian, get_signedness, get_byte_order,
}
use binary_reader.OptionSet.{
  OptionValue, OptionSet, new_option_set, is_unknown, add_static, build_static_options,
}
use binary_reader.OptionSet.Laws.{resolve_all, build_static_options-resolve_all}
use binary_reader.UtfString.{from_utf8}
use binary_reader.TypeInfo.{
  TypeInfo, integer, definition, alias_name, built_in_types, get_option_types, instantiate,
}
use binary_reader.Parser.{
  TypeDefinition, as_type, find_type, get_type, debug_of, visit_option, push_option,
  visit_option_list, build_options,
}
use binary_reader.Parser.Tree.{
  OptionTree, OptionListTree, last_option, and_option, CompleteTypeTree,
}
use binary_reader.Parser.Clean.{IsClean, report_dirty, push_option-Clean}
use binary_reader.Parser.Names.{in_file, in_file_first, built_in_next}

-- The type is one of the list.
abbrev pub IsOneOf : TypeInfo → List TypeInfo → Type 0
IsOneOf t [] = ⊥
IsOneOf t (u ∷ us) = (t ≡ u) ⊎ IsOneOf t us

-- The type is a built-in one, or one of the file's.
abbrev pub IsKnown : List TypeDefinition → TypeInfo → Type 0
IsKnown types t =
    IsOneOf t (map (λ (d : TypeDefinition). as_type d) types) ⊎ IsOneOf t built_in_types

-- The type as it is with the options: an option that is set takes the place of the type's own.
abbrev pub IsWith : Options → DebugInfo → TypeInfo → TypeInfo → Type 0
IsWith o d (integer i) (integer j) =
    (j.debug ≡ d)
    × (j.alias_name ≡ i.alias_name)
    × (j.size ≡ i.size)
    × (((o.signedness ≡ Signedness.unset) × (j.sign ≡ i.sign))
        ⊎ ((o.signedness ≢ Signedness.unset) × (j.sign ≡ o.signedness)))
    × (((o.byte_order ≡ ByteOrder.unset) × (j.order ≡ i.order))
        ⊎ ((o.byte_order ≢ ByteOrder.unset) × (j.order ≡ o.byte_order)))
IsWith o d (definition e n ss) (definition f m tt') = (f ≡ d) × (m ≡ n) × (tt' ≡ ss)
IsWith o d (integer i) (definition f m ss) = ⊥
IsWith o d (definition e n ss) (integer j) = ⊥

sign_lem :
    (s default : Signedness)
    → ((s ≡ Signedness.unset) × (get_signedness s default ≡ default))
      ⊎ ((s ≢ Signedness.unset) × (get_signedness s default ≡ s))
unfolding get_signedness
sign_lem Signedness.unset default = inl (refl, refl)
sign_lem signed default = inr ((λ e. cc), refl)
sign_lem unsigned default = inr ((λ e. cc), refl)

order_lem :
    (b default : ByteOrder)
    → ((b ≡ ByteOrder.unset) × (get_byte_order b default ≡ default))
      ⊎ ((b ≢ ByteOrder.unset) × (get_byte_order b default ≡ b))
unfolding get_byte_order
order_lem ByteOrder.unset default = inl (refl, refl)
order_lem little_endian default = inr ((λ e. cc), refl)
order_lem big_endian default = inr ((λ e. cc), refl)

instantiate-IsWith : (o : Options) (d : DebugInfo) (t : TypeInfo) → IsWith o d t (instantiate d o t)
unfolding instantiate
instantiate-IsWith o d (definition e n ss) = (refl, refl, refl)
instantiate-IsWith o d (integer i) =
    (refl, refl, refl, sign_lem o.signedness i.sign, order_lem o.byte_order i.order)

find_type-IsOneOf :
    (name : List ℕ) (ts : List TypeInfo) (t : TypeInfo) → find_type name ts ≡ some t → IsOneOf t ts
unfolding find_type
find_type-IsOneOf name [] t h = absurd cc
find_type-IsOneOf name (u ∷ us) t h = elim (Bool-cases (str_eq (alias_name u) name)) [
  | inl same ↦ inl (sym (some-eq (rw same at h)))
  | inr other ↦ inr (find_type-IsOneOf name us t (rw other at h))
]

get_type-IsKnown :
    (types : List TypeDefinition) (name : List ℕ) (t : TypeInfo)
    → get_type types name ≡ some t
    → IsKnown types t
get_type-IsKnown types name t h = elim (Option-cases (in_file name types)) [
  | inl absent ↦
      inr (find_type-IsOneOf name built_in_types t (sym (built_in_next types name absent) ∙ h))
  | inr (u, found) ↦ inl (
      find_type-IsOneOf name (map (λ (d : TypeDefinition). as_type d) types) t
        (found ∙ sym (in_file_first types name u found) ∙ h))
]

IsOneOf-more :
    (types more : List TypeDefinition) (t : TypeInfo)
    → IsOneOf t (map (λ (d : TypeDefinition). as_type d) types)
    → IsOneOf t (map (λ (d : TypeDefinition). as_type d) (types ++ more))
IsOneOf-more [] more t h = absurd h
IsOneOf-more (d ∷ ds) more t (inl first) = inl first
IsOneOf-more (d ∷ ds) more t (inr there) = inr (IsOneOf-more ds more t there)

module _ (path : List ℕ) where
  abbrev type_named : Option (List ℕ) → OptionType
  type_named none = OptionType.unknown
  type_named (some name) = get_option_type (from_utf8 name)

  abbrev value_of : OptionTree → OptionValue
  value_of ctx = record {
    debug = debug_of path ctx.start;
    type = type_named ctx.name;
    static_value = from_utf8 ctx.expr;
  }

  -- The options that a list of the tree stands for, in order.
  abbrev pub listed : OptionListTree → List OptionValue
  listed (last_option o) = value_of o ∷ []
  listed (and_option list o) = listed list ++ value_of o ∷ []

  abbrev pub written : Option OptionListTree → List OptionValue
  written none = []
  written (some list) = listed list

  -- A type that the tree names, with the options that the tree lists for it, all of which resolve.
  pub record IsDescribed (types : List TypeDefinition) (ctx : CompleteTypeTree) (t : TypeInfo)
      : Type 0 where
    pub base : TypeInfo
    pub known : IsKnown types base
    pub named : alias_name base ≡ ctx.identifier
    pub options : Options
    pub resolved :
        resolve_all (written ctx.option_list) (get_option_types base) new_options ≡ some options
    pub is_with : IsWith options (debug_of path ctx.start) base t

  add_static-options :
      (s : OptionSet) (v : OptionValue) (e : ErrorCollection)
      → IsClean (add_static s v.debug v.type v.static_value e).2
      → (add_static s v.debug v.type v.static_value e).1.options ≡ s.options ++ v ∷ []
  unfolding add_static
  add_static-options s v e = elim (Bool-cases (is_unknown v.type)) [
    | inl no_type ↦ rw no_type (λ h. refl)
    | inr typed ↦ rw typed (elim (Bool-cases (contains s.option_types v.type)) [
      | inl twice ↦ rw twice (λ h. absurd (report_dirty e v.debug _ _ h))
      | inr once ↦ rw once (λ h. refl)
    ])
  ]

  visit_option-value :
      (ctx : OptionTree) (e : ErrorCollection)
      → (visit_option path ctx e).0
        ≡ (debug_of path ctx.start, type_named ctx.name, from_utf8 ctx.expr)
  unfolding visit_option
  visit_option-value ctx e = elim (Option-cases ctx.name) [
    | inl unnamed ↦ rw unnamed refl
    | inr (name, named) ↦ rw named refl
  ]

  push_option-options :
      (ctx : OptionTree) (s : OptionSet) (e : ErrorCollection)
      → IsClean (push_option path ctx s e).1
      → (push_option path ctx s e).0.options ≡ s.options ++ value_of ctx ∷ []
  unfolding push_option
  push_option-options ctx s e h =
      let q = visit_option path ctx e in
      add_static-options s (record { debug = q.0.0; type = q.0.1; static_value = q.0.2 }) q.1 h
      ∙ ap
          (λ (v : DebugInfo × OptionType × List ℕ).
            s.options ++ record { debug = v.0; type = v.1; static_value = v.2 } ∷ [])
          (visit_option-value ctx e)

  visit_option_list-options :
      (list : OptionListTree) (e : ErrorCollection)
      → IsClean (visit_option_list path list e).1
      → (visit_option_list path list e).0.options ≡ listed list
  unfolding visit_option_list
  visit_option_list-options (last_option o) e h = push_option-options o new_option_set e h
  visit_option_list-options (and_option list o) e h =
      let r = visit_option_list path list e in
      push_option-options o r.0 r.1 h
      ∙ ap (λ vs. vs ++ value_of o ∷ [])
          (visit_option_list-options list e (push_option-Clean path o r.0 r.1 h))

  build_options-resolved :
      (t : TypeInfo) (list : Option OptionListTree) (e : ErrorCollection)
      → IsClean (build_options path t list e).1
      → resolve_all (written list) (get_option_types t) new_options
        ≡ some (build_options path t list e).0
  unfolding build_options resolve_all
  build_options-resolved t none e h = refl
  build_options-resolved t (some list) e h =
      let set = visit_option_list path list e in
      let valid = get_option_types t in
      let r = build_static_options set.0 valid new_options set.1 in
      elim (build_static_options-resolve_all set.0 valid new_options set.1) [
        | inl (o, resolved, gives) ↦
            let clean : IsClean set.1 = subst (λ x. IsClean x.2) gives h in
            let same = visit_option_list-options list e clean in
            subst (λ vs. resolve_all vs valid new_options ≡ some r.1) same
              (resolved ∙ ap (λ x. some x.1) (sym gives))
        | inr (lost, refused, dirty) ↦ absurd (unfold has_errors in cc)
      ]

  pub IsDescribed-more :
      (types more : List TypeDefinition) (ctx : CompleteTypeTree) (t : TypeInfo)
      → IsDescribed types ctx t
      → IsDescribed (types ++ more) ctx t
  IsDescribed-more types more ctx t h = record {
    base = h.base;
    known = elim h.known [
      | inl there ↦ inl (IsOneOf-more types more h.base there)
      | inr built ↦ inr built
    ];
    named = h.named;
    options = h.options;
    resolved = h.resolved;
    is_with = h.is_with;
  }

  -- The type that `visitCompleteType` makes of a known one.
  pub instantiate-IsDescribed :
      (types : List TypeDefinition) (ctx : CompleteTypeTree) (e : ErrorCollection) (t : TypeInfo)
      → get_type types ctx.identifier ≡ some t
      → alias_name t ≡ ctx.identifier
      → let r = build_options path t ctx.option_list e in
        IsClean r.1 → IsDescribed types ctx (instantiate (debug_of path ctx.start) r.0 t)
  instantiate-IsDescribed types ctx e t known named clean = record {
    base = t;
    known = get_type-IsKnown types ctx.identifier t known;
    named = named;
    options = (build_options path t ctx.option_list e).0;
    resolved = build_options-resolved t ctx.option_list e clean;
    is_with = instantiate-IsWith _ (debug_of path ctx.start) t;
  }
