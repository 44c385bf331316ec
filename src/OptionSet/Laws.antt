-- ===== src/OptionSet/Laws.antt =====
-- What `AddOption` and `BuildStaticOptions` do on every input.
use binary_reader.Common.{
  ℕ, Bool, true, false, not, ◌&&◌, List, [], ◌∷◌, if◌then◌else◌, ◌≡◌, ◌≢◌, refl, ap, ◌∙◌, arith,
  Option, none, some, Bool-cases, Option-cases, ◌⊎◌, inl, inr,
}
use binary_reader.Error.Defs.{DebugInfo, ErrorKind}
use binary_reader.Error.Defs
use binary_reader.Error.Message.{error_info}
use binary_reader.Error.Collection.{ErrorCollection}
use binary_reader.Error.Collection
use binary_reader.Options.{
  OptionType, AnyOption, ParseResult, success, unknown_string, Options, parse_option, set_option,
  contains, is_none,
}
use binary_reader.Options.Laws.{meaning, allowed, parse_option-meaning, set_option-parse_option}
use binary_reader.Value.{string, as_string}
use binary_reader.OptionSet.{
  OptionValue, OptionSet, is_unknown, report, add_option, add_parsed, store_option, build_loop,
  build_static_options,
}

-- What one option of a definition file means where `valid` are the options of its type: the option
-- that its name belongs to, if the type that it gives and the valid types allow that.
unfoldable pub resolve : OptionType → List ℕ → List OptionType → Option (OptionType × AnyOption)
resolve type name valid = elim (meaning name) [
  | none ↦ none
  | some (t, a) ↦
      if allowed (if is_unknown type then valid else type ∷ []) t && allowed valid t
      then some (t, a)
      else none
]

-- How the errors of `AddOption` differ from "no error": one error more, of a kind that speaks of
-- the user's option.
pub data Complains (debug : DebugInfo) (before after : ErrorCollection) : Type 0 where
  complains :
      (kind : ErrorKind) (args : List (List ℕ))
      → kind ≢ Defs.unknown
      → kind ≢ Defs.ambiguous_option
      → after ≡ report before debug kind args
      → Complains debug before after

module _ (type : OptionType) (name : List ℕ) (debug : DebugInfo) (valid : List OptionType)
    (o : Options) (errors : ErrorCollection) where
  abbrev pub Refused : Bool × Options × ErrorCollection → Type 0
  Refused r = (r.0 ≡ false) × (r.1 ≡ o) × Complains debug errors r.2

  unknown_string-Refused :
      Refused (add_parsed unknown_string type (string name) debug valid o errors)
  unfolding add_parsed
  unknown_string-Refused = elim (Bool-cases (is_unknown type)) [
    | inl untyped ↦ rw untyped (refl, refl, complains _ _ (λ e. cc) (λ e. cc) refl)
    | inr typed ↦ rw typed (refl, refl, complains _ _ (λ e. cc) (λ e. cc) refl)
  ]

  store_option-Refused :
      (t : OptionType) (a : AnyOption)
      → allowed valid t ≡ false
      → Refused (store_option debug valid t a o errors)
  unfolding store_option
  store_option-Refused t a h =
      let test : (not (is_none valid) && not (contains valid t)) ≡ true = ground arith in
      rw test (refl, refl, complains _ _ (λ e. cc) (λ e. cc) refl)

  store_option_lem :
      (t : OptionType) (a : AnyOption)
      → allowed valid t ≡ true
      → (set_option o t a).0 ≡ true
      → store_option debug valid t a o errors ≡ (true, (set_option o t a).1, errors)
  unfolding store_option
  store_option_lem t a h k =
      let test : (not (is_none valid) && not (contains valid t)) ≡ false = ground arith in
      rw (test, k) refl

abbrev searched : OptionType → List OptionType → List OptionType
searched type valid = if is_unknown type then valid else type ∷ []

resolve-eq-none :
    (type : OptionType) (name : List ℕ) (valid : List OptionType)
    → meaning name ≡ none
    → resolve type name valid ≡ none
unfolding resolve
resolve-eq-none type name valid h = ground (arith)

resolve_found :
    (type : OptionType) (name : List ℕ) (valid : List OptionType) (t : OptionType) (a : AnyOption)
    → meaning name ≡ some (t, a)
    → resolve type name valid
      ≡ (if allowed (searched type valid) t && allowed valid t then some (t, a) else none)
unfolding resolve
resolve_found type name valid t a h = rw (h, resolve) refl

add_option_lem :
    (type : OptionType) (name : List ℕ) (debug : DebugInfo) (valid : List OptionType) (o : Options)
    (errors : ErrorCollection) (p : ParseResult)
    → parse_option (searched type valid) (some name) ≡ p
    → add_option type (string name) debug valid o errors
      ≡ add_parsed p type (string name) debug valid o errors
unfolding add_option as_string
add_option_lem type name debug valid o errors p h =
    ap (λ q. add_parsed q type (string name) debug valid o errors) h

parse_found :
    (types : List OptionType) (name : List ℕ) (t : OptionType) (a : AnyOption)
    → meaning name ≡ some (t, a)
    → parse_option types (some name) ≡ (if allowed types t then success t a else unknown_string)
parse_found types name t a h = parse_option-meaning types name ∙ rw h refl

-- `AddOption` sets the option that the string means, and reports nothing; or it means none, the
-- options stay, and one error is reported, which is neither the unknown error nor an ambiguity.
pub add_option-resolve :
    (type : OptionType) (name : List ℕ) (debug : DebugInfo) (valid : List OptionType) (o : Options)
    (errors : ErrorCollection)
    → let r = add_option type (string name) debug valid o errors in
      ((t : OptionType) × (a : AnyOption) × (resolve type name valid ≡ some (t, a))
        × (r ≡ (true, (set_option o t a).1, errors)))
      ⊎ ((resolve type name valid ≡ none) × Refused type name debug valid o errors r)
add_option-resolve type name debug valid o errors = elim (Option-cases (meaning name)) [
  | inl unnamed ↦
      let parsed : parse_option types (some name) ≡ unknown_string =
        parse_option-meaning types name ∙ rw unnamed refl in
      inr (resolve-eq-none type name valid unnamed, refused parsed)
  | inr ((t, a), found) ↦ elim (Bool-cases (allowed types t)) [
    | inl listed ↦
        let parsed : parse_option types (some name) ≡ success t a =
          parse_found types name t a found ∙ rw listed refl in
        let settable = (set_option-parse_option types name t a o o parsed).1 in
        let stored = add_option_lem type name debug valid o errors (success t a) parsed in
        elim (Bool-cases (allowed valid t)) [
          | inl fits ↦ inl (
            t,
            a,
            resolve_found type name valid t a found ∙ rw (listed, fits) refl,
            stored
                ∙ unfold add_parsed in
                  store_option_lem type name debug valid o errors t a fits settable,
          )
          | inr unfit ↦ inr (
            resolve_found type name valid t a found ∙ rw (listed, unfit) refl,
            rw stored (
                unfold add_parsed in store_option-Refused type name debug valid o errors t a unfit),
          )
        ]
    | inr unlisted ↦
        let parsed : parse_option types (some name) ≡ unknown_string =
          parse_found types name t a found ∙ rw unlisted refl in
        inr (resolve_found type name valid t a found ∙ rw unlisted refl, refused parsed)
  ]
]
  where
    types : List OptionType
    types = searched type valid

    refused :
        parse_option (searched type valid) (some name) ≡ unknown_string
        → Refused type name debug valid o errors
            (add_option type (string name) debug valid o errors)
    refused parsed =
        rw (add_option_lem type name debug valid o errors unknown_string parsed)
          (unknown_string-Refused type name debug valid o errors)

-- The options that a list of option values stands for: each resolved, a later one in the place of
-- an earlier one for the same option.
unfoldable pub resolve_all : List OptionValue → List OptionType → Options → Option Options
resolve_all [] valid o = some o
resolve_all (opt ∷ opts) valid o = elim (resolve opt.type opt.static_value valid) [
  | none ↦ none
  | some (t, a) ↦ resolve_all opts valid (set_option o t a).1
]

report-has_error :
    (errors : ErrorCollection) (debug : DebugInfo) (kind : ErrorKind) (args : List (List ℕ))
    → (report errors debug kind args).has_error ≡ true
unfolding report Collection.add error_info
report-has_error errors debug kind args = refl

Complains-has_error :
    {debug : DebugInfo} {before after : ErrorCollection}
    → Complains debug before after
    → after.has_error ≡ true
Complains-has_error {debug} {before} (complains kind args _ _ e) =
    ap (λ (c : ErrorCollection). c.has_error) e ∙ report-has_error before debug kind args

build_loop-step :
    (opt : OptionValue) (opts : List OptionValue) (valid : List OptionType) (ret : Bool)
    (o o' : Options) (errors errors' : ErrorCollection) (added : Bool)
    → add_option opt.type (string opt.static_value) opt.debug valid o errors ≡ (added, o', errors')
    → build_loop (opt ∷ opts) valid ret o errors ≡ build_loop opts valid (added && ret) o' errors'
unfolding build_loop
build_loop-step opt opts valid ret o o' errors errors' added h =
    ap (λ (r : Bool × Options × ErrorCollection). build_loop opts valid (r.0 && ret) r.1 r.2) h

build_loop-step_failed :
    (opt : OptionValue) (opts : List OptionValue) (valid : List OptionType) (ret : Bool)
    (o : Options) (errors : ErrorCollection)
    → (add_option opt.type (string opt.static_value) opt.debug valid o errors).0 ≡ false
    → build_loop (opt ∷ opts) valid ret o errors
      ≡ build_loop opts valid false
          (add_option opt.type (string opt.static_value) opt.debug valid o errors).1
          (add_option opt.type (string opt.static_value) opt.debug valid o errors).2
build_loop-step_failed opt opts valid ret o errors h =
    build_loop-step opt opts valid ret o _ errors _ false (tuple_eq h)
  where
    tuple_eq : {r : Bool × Options × ErrorCollection} → r.0 ≡ false → r ≡ (false, r.1, r.2)
    tuple_eq {r} e = λ i. (e i, r.1, r.2)

resolve_all_found :
    (opt : OptionValue) (opts : List OptionValue) (valid : List OptionType) (o : Options)
    (t : OptionType) (a : AnyOption)
    → resolve opt.type opt.static_value valid ≡ some (t, a)
    → resolve_all (opt ∷ opts) valid o ≡ resolve_all opts valid (set_option o t a).1
unfolding resolve_all
resolve_all_found opt opts valid o t a h = rw (h, resolve_all) refl

resolve_all_lost :
    (opt : OptionValue) (opts : List OptionValue) (valid : List OptionType) (o : Options)
    → resolve opt.type opt.static_value valid ≡ none
    → resolve_all (opt ∷ opts) valid o ≡ none
unfolding resolve_all
resolve_all_lost opt opts valid o h = rw (h, resolve_all) refl

-- After a failure the loop goes on, and its answer stays `false`.
build_loop_failed :
    (opts : List OptionValue) (valid : List OptionType) (o : Options) (errors : ErrorCollection)
    → errors.has_error ≡ true
    → ((build_loop opts valid false o errors).0 ≡ false)
      × ((build_loop opts valid false o errors).2.has_error ≡ true)
build_loop_failed [] valid o errors h = unfold build_loop in (refl, h)
build_loop_failed (opt ∷ opts) valid o errors h =
    elim (add_option-resolve opt.type opt.static_value opt.debug valid o errors) [
      | inl (t, a, _, e) ↦
          rw (build_loop-step opt opts valid false o _ errors errors true e)
            (build_loop_failed opts valid _ errors h)
      | inr (_, refused) ↦
          rw (build_loop-step_failed opt opts valid false o errors refused.0)
            (build_loop_failed opts valid _ _ (Complains-has_error refused.2))
    ]

abbrev Built : List OptionValue → List OptionType → Options → ErrorCollection → Type 0
Built opts valid o errors =
    let r = build_loop opts valid true o errors in
    ((o' : Options) × (resolve_all opts valid o ≡ some o') × (r ≡ (true, o', errors)))
    ⊎ ((resolve_all opts valid o ≡ none) × (r.0 ≡ false) × (r.2.has_error ≡ true))

build_loop-Built :
    (opts : List OptionValue) (valid : List OptionType) (o : Options) (errors : ErrorCollection)
    → Built opts valid o errors
build_loop-Built [] valid o errors = unfold build_loop resolve_all in inl (o, refl, refl)
build_loop-Built (opt ∷ opts) valid o errors =
    elim (add_option-resolve opt.type opt.static_value opt.debug valid o errors) [
      | inl (t, a, found, e) ↦
          rw
            (
              build_loop-step opt opts valid true o _ errors errors true e,
              resolve_all_found opt opts valid o t a found,
            )
            (build_loop-Built opts valid _ errors)
      | inr (lost, refused) ↦
          let rest =
            build_loop_failed opts valid
              (add_option opt.type (string opt.static_value) opt.debug valid o errors).1
              (add_option opt.type (string opt.static_value) opt.debug valid o errors).2
              (Complains-has_error refused.2) in
          rw (build_loop-step_failed opt opts valid true o errors refused.0)
            (inr (resolve_all_lost opt opts valid o lost, rest.0, rest.1))
    ]

-- `BuildStaticOptions` succeeds exactly when every option value resolves; then it sets what they
-- stand for and reports nothing. Otherwise it answers `false` with an error reported.
pub build_static_options-resolve_all :
    (set : OptionSet) (valid : List OptionType) (o : Options) (errors : ErrorCollection)
    → let r = build_static_options set valid o errors in
      ((o' : Options) × (resolve_all set.options valid o ≡ some o') × (r ≡ (true, o', errors)))
      ⊎ ((resolve_all set.options valid o ≡ none) × (r.0 ≡ false) × (r.2.has_error ≡ true))
unfolding build_static_options
build_static_options-resolve_all set valid o errors = build_loop-Built set.options valid o errors
