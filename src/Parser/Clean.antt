-- ===== src/Parser/Clean.antt =====
-- Errors are never taken back: a collection without errors after a part of the visit had none before.
use binary_reader.Common.{
  ℕ, List, [], ◌∷◌, Option, none, some, Option-cases, ◌≡◌, Bool, true, false, Bool-cases, inl, inr,
  not, ◌&&◌, if◌then◌else◌,
}
use binary_reader.Error.Defs.{DebugInfo, ErrorKind, ErrorLevel}
use binary_reader.Error.Defs
use binary_reader.Error.Message.{error_info}
use binary_reader.Error.Collection.{ErrorCollection, has_errors, add}
use binary_reader.Options.{
  OptionType, ParseResult, success, invalid_value_type, unknown_string, ambiguous, Options,
  get_option_type, parse_option, set_option, contains, is_none,
}
use binary_reader.UtfString.{from_utf8}
use binary_reader.OptionSet.{
  OptionValue, OptionSet, new_option_set, report, is_unknown, store_option, add_parsed, add_option,
  add_static, build_loop, build_static_options,
}
use binary_reader.Value.{Value, string, as_string}
use binary_reader.Parser.{add_error, visit_option, push_option, visit_option_list, build_options}
use binary_reader.Parser.Tree.{Token, OptionTree, OptionListTree, last_option, and_option}
use binary_reader.TypeInfo.{TypeInfo}

abbrev pub IsClean : ErrorCollection → Type 0
IsClean e = has_errors e ≡ false

-- After `e'` there are no errors only if there were none in `e`, and `P` holds.
abbrev pub Passes : ErrorCollection → ErrorCollection → Type 0 → Type 0
Passes e e' P = IsClean e' → IsClean e × P

abbrev pub Clean : ErrorCollection → ErrorCollection → Type 0
Clean e e' = IsClean e' → IsClean e

pub report-Clean :
    (e : ErrorCollection) (d : DebugInfo) (k : ErrorKind) (args : List (List ℕ))
    → Clean e (report e d k args)
unfolding report add has_errors error_info
report-Clean e d k args h = cc

pub report_dirty :
    (e : ErrorCollection) (d : DebugInfo) (k : ErrorKind) (args : List (List ℕ))
    → IsClean (report e d k args)
    → ⊥
unfolding report add has_errors error_info
report_dirty e d k args h = cc

pub add_error-Passes :
    (path : List ℕ) (k : ErrorKind) (args : List (List ℕ)) (t : Token) (e : ErrorCollection)
    (P : Type 0)
    → Passes e (add_error path k args t Defs.error e) P
unfolding add_error add has_errors error_info
add_error-Passes path k args t e P h = absurd cc

pub warning-Clean :
    (path : List ℕ) (k : ErrorKind) (args : List (List ℕ)) (t : Token) (e : ErrorCollection)
    → Clean e (add_error path k args t Defs.warning e)
unfolding add_error add has_errors error_info
warning-Clean path k args t e h = h

-- Both branches of a test leave errors as they are or add to them.
if-Clean :
    (b : Bool) (e left right : ErrorCollection)
    → Clean e left
    → Clean e right
    → Clean e (if b then left else right)
if-Clean true e left right f g = f
if-Clean false e left right f g = g

add_parsed-Clean :
    (p : ParseResult) (type : OptionType) (value : Value) (d : DebugInfo) (valid : List OptionType)
    (o : Options) (e : ErrorCollection)
    → Clean e (add_parsed p type value d valid o e).2
unfolding add_parsed store_option
add_parsed-Clean (success t a) type value d valid o e =
    elim (Bool-cases (not (is_none valid) && not (contains valid t))) [
      | inl bad ↦ rw bad (report-Clean e d _ _)
      | inr fine ↦ rw fine (elim (Bool-cases (set_option o t a).0) [
        | inl stored ↦ rw stored (λ h. h)
        | inr lost ↦ rw lost (report-Clean e d _ _)
      ])
    ]
add_parsed-Clean invalid_value_type type value d valid o e =
    if-Clean (is_unknown type) e _ _ (report-Clean e d _ _) (report-Clean e d _ _)
add_parsed-Clean unknown_string type value d valid o e =
    if-Clean (is_unknown type) e _ _ (report-Clean e d _ _) (report-Clean e d _ _)
add_parsed-Clean ambiguous type value d valid o e = report-Clean e d _ _

build_loop-Clean :
    (opts : List OptionValue) (valid : List OptionType) (ret : Bool) (o : Options)
    (e : ErrorCollection)
    → Clean e (build_loop opts valid ret o e).2
unfolding build_loop add_option
build_loop-Clean [] valid ret o e h = h
build_loop-Clean (opt ∷ opts) valid ret o e h =
    let types = if is_unknown opt.type then valid else opt.type ∷ [] in
    let value : Value = string opt.static_value in
    let r = add_parsed (parse_option types (as_string value)) opt.type value opt.debug valid o e in
    add_parsed-Clean (parse_option types (as_string value)) opt.type value opt.debug valid o e
      (build_loop-Clean opts valid (r.0 && ret) r.1 r.2 h)

add_static-Clean :
    (s : OptionSet) (d : DebugInfo) (t : OptionType) (v : List ℕ) (e : ErrorCollection)
    → Clean e (add_static s d t v e).2
unfolding add_static
add_static-Clean s d t v e = elim (Bool-cases (is_unknown t)) [
  | inl no_type ↦ rw no_type (λ h. h)
  | inr typed ↦ rw typed (elim (Bool-cases (contains s.option_types t)) [
    | inl twice ↦ rw twice (report-Clean e d _ _)
    | inr once ↦ rw once (λ h. h)
  ])
]

module _ (path : List ℕ) where
  visit_option-Clean :
      (ctx : OptionTree) (e : ErrorCollection) → Clean e (visit_option path ctx e).1
  unfolding visit_option
  visit_option-Clean ctx e = elim (Option-cases ctx.name) [
    | inl unnamed ↦ rw unnamed (λ h. h)
    | inr (name, named) ↦ rw named (
        if-Clean (is_unknown (get_option_type (from_utf8 name))) e
          (add_error path Defs.unknown_option_type (name ∷ []) ctx.start Defs.error e) e
          (λ h.
            (add_error-Passes path Defs.unknown_option_type (name ∷ []) ctx.start e (Unit {0}) h).0)
          (λ h. h))
  ]

  pub push_option-Clean :
      (ctx : OptionTree) (s : OptionSet) (e : ErrorCollection)
      → Clean e (push_option path ctx s e).1
  unfolding push_option
  push_option-Clean ctx s e h =
      let q = visit_option path ctx e in
      visit_option-Clean ctx e (add_static-Clean s q.0.0 q.0.1 q.0.2 q.1 h)

  visit_option_list-Clean :
      (list : OptionListTree) (e : ErrorCollection) → Clean e (visit_option_list path list e).1
  unfolding visit_option_list
  visit_option_list-Clean (last_option o) e h = push_option-Clean o new_option_set e h
  visit_option_list-Clean (and_option list o) e h =
      let r = visit_option_list path list e in
      visit_option_list-Clean list e (push_option-Clean o r.0 r.1 h)

  pub build_options-Clean :
      (t : TypeInfo) (list : Option OptionListTree) (e : ErrorCollection)
      → Clean e (build_options path t list e).1
  unfolding build_options build_static_options
  build_options-Clean t none e h = h
  build_options-Clean t (some list) e h =
      let r = visit_option_list path list e in
      visit_option_list-Clean list e (build_loop-Clean r.0.options _ true _ r.1 h)
