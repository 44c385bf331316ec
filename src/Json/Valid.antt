-- ===== src/Json/Valid.antt =====
-- The text of a document is JSON.
use binary_reader.Common.{
  ℕ, zero, suc, List, [], ◌++◌, append-nil, append_assoc, ◌≡◌, refl, sym, subst, Bool, true, false,
  ◌&&◌, ◌==◌, codes, arith, ℤ,
}
use binary_reader.Value.{Number}
use binary_reader.Value.Numbers.{Doubles}
use binary_reader.Value.Order.{Holds, at_least_zero, below_zero}
use binary_reader.Json.{JsonOptions, spaces, deeper}
use binary_reader.Json.Document.{
  Document, Members, numeral, number, object, no_more, member, is_empty, separated, text_if, item,
  items, render,
}
use binary_reader.Json.Grammar.{
  IsBlank, IsPlain, IsNumber, plain_int, minus_int, IsValue, number_value, empty_object,
  object_value, IsMembers, one_member, more_members, IsMember, pair, IsJson, json, decimal-IsInt,
}

-- A document whose names are plain and whose numbers are integers.
abbrev mutual
  pub IsWritable : Document → Type 0
  IsWritable (number n) = (z : ℤ) × Holds n z
  IsWritable (object ms) = AreWritable ms

  pub AreWritable : Members → Type 0
  AreWritable no_more = Unit {0}
  AreWritable (member name j ms) = IsPlain name × IsWritable j × AreWritable ms

text_if-IsBlank : (b : Bool) (t : List ℕ) → IsBlank t → IsBlank (text_if b t)
text_if-IsBlank true t h = h
text_if-IsBlank false t h = tt

spaces-IsBlank : (n : ℕ) → IsBlank (spaces n)
unfolding spaces
spaces-IsBlank zero = tt
spaces-IsBlank (suc n) = (refl, spaces-IsBlank n)

regroup :
    (body close end : List ℕ)
    → codes "{" ++ (body ++ (close ++ (codes "}" ++ end)))
      ≡ (codes "{" ++ (body ++ (close ++ codes "}"))) ++ end
regroup body close end = simp (append_assoc)

module _ (double : Doubles) (show_double : ℕ → List ℕ) where
  numeral-IsNumber : (n : Number) (z : ℤ) → Holds n z → IsNumber (numeral show_double n)
  unfolding numeral
  numeral-IsNumber _ _ (at_least_zero {n} h) = plain_int (decimal-IsInt n (omega arith))
  numeral-IsNumber _ _ (below_zero {n} h) = minus_int (decimal-IsInt (suc n) (omega arith))

  module _ (opts : JsonOptions) where
    -- A value with blanks behind it.
    abbrev IsText : List ℕ → Type 0
    IsText t = (v : List ℕ) × (c : List ℕ) × (t ≡ v ++ c) × IsValue v × IsBlank c

    item-IsMember :
        (inner : ℕ) (name text : List ℕ)
        → IsPlain name
        → IsText text
        → IsMember (item double show_double opts inner name text)
    item-IsMember inner name text plain (v, c, same, value, blank) =
        subst (λ t. IsMember (item double show_double opts inner name t)) (sym same)
          (pair _ name _ v c
            (text_if-IsBlank opts.pretty (codes "\n" ++ spaces inner) (refl, spaces-IsBlank inner))
            plain (text_if-IsBlank opts.pretty (codes " ") (refl, tt)) value blank)

    abbrev between : ℕ → Members → List ℕ
    between indent ms =
        separated true (items double show_double opts (deeper indent opts.indent) ms)

    object_lem :
        (indent : ℕ) (ms : Members)
        → (is_empty ms ≡ false → IsMembers (between indent ms))
        → IsText (render double show_double opts indent (object ms))
    unfolding render items separated
    object_lem indent no_more h = (
      codes "{" ++ (text_if (false && opts.pretty) (codes "\n" ++ spaces indent) ++ codes "}"),
      text_if (opts.pretty && (indent == 0)) (codes "\n"),
      refl,
      empty_object [] tt,
      text_if-IsBlank (opts.pretty && (indent == 0)) (codes "\n") (refl, tt),
    )
    object_lem indent (member name j ms) h =
        let body = between indent (member name j ms) in
        let close = text_if (true && opts.pretty) (codes "\n" ++ spaces indent) in
        let end = text_if (opts.pretty && (indent == 0)) (codes "\n") in
        (
          codes "{" ++ (body ++ (close ++ codes "}")),
          end,
          regroup body close end,
          object_value body close (h refl) (
              text_if-IsBlank (true && opts.pretty) (codes "\n" ++ spaces indent)
                (refl, spaces-IsBlank indent)),
          text_if-IsBlank (opts.pretty && (indent == 0)) (codes "\n") (refl, tt),
        )

    mutual
      unfolding render items separated

      text_lem :
          (indent : ℕ) (j : Document)
          → IsWritable j
          → IsText (render double show_double opts indent j)
      text_lem indent (number n) (z, h) = (
        numeral show_double n,
        [],
        sym (append-nil (numeral show_double n)),
        number_value (numeral-IsNumber n z h),
        tt,
      )
      text_lem indent (object ms) h =
          object_lem indent ms (λ some_member. members_lem indent ms some_member h)

      members_lem :
          (indent : ℕ) (ms : Members)
          → is_empty ms ≡ false
          → AreWritable ms
          → IsMembers (between indent ms)
      members_lem indent no_more some_member h = absurd cc
      members_lem indent (member name j no_more) some_member (plain, value, rest) =
          let inner = deeper indent opts.indent in
          let text =
            item double show_double opts inner name (render double show_double opts inner j) in
          subst IsMembers (sym (append-nil text))
            (one_member (item-IsMember inner name _ plain (text_lem inner j value)))
      members_lem indent (member name j (member name' j' ms)) some_member (plain, value, rest) =
          more_members (item-IsMember _ name _ plain (text_lem (deeper indent opts.indent) j value))
            (members_lem indent (member name' j' ms) refl rest)

    pub render-IsJson :
        (indent : ℕ) (j : Document)
        → IsWritable j
        → IsJson (render double show_double opts indent j)
    render-IsJson indent j h =
        let (v, c, same, value, blank) = text_lem indent j h in
        subst IsJson (sym same) (json v c value blank)
