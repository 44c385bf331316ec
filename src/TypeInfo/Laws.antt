-- ===== src/TypeInfo/Laws.antt =====
-- `operator==` of types decides whether they are the same but for their debug information.
use binary_reader.Common.{
  ℕ, List, Option, none, some, Bool, true, false, ◌==◌, ==_iff, str_eq, str_eq_iff, ◌≡◌, refl, sym,
  ap, ap₂, ◌∙◌, ◌↔◌, inl, inr, arith, Bool-cases,
}
use binary_reader.Size.{Size, zero_size, size_eq, bit_count}
use binary_reader.Error.Defs.{no_debug}
use binary_reader.Value.{Value}
use binary_reader.Value.Numbers.{Doubles}
use binary_reader.Value.Laws.{value_eq→eq, value_eq_refl}
use binary_reader.TypeInfo.{TypeInfo, Statements, definition, calculate_size}
use binary_reader.TypeInfo.Typed.{IsTyped, AreTyped, whole, fields, none_left, one_more}
use binary_reader.TypeInfo.Equality.{
  optional_size_eq, base_equals, integer_equals, statement_count, definition_equals, and_then,
  expected_eq, field_equals, type_info_eq, statements_eq,
}
use binary_reader.TypeInfo.Same.{
  Decides, without_debug, all_without_debug, IsExactLiteral, HasExact, HaveExact,
  calculate_size-without_debug, statement_count-without_debug, integer_equals_iff,
}

Decides-iff : {P Q : Type 0} (o : Option Bool) → (P → Q) → (Q → P) → Decides o P → Decides o Q
Decides-iff o f g (inl (is, p)) = inl (is, f p)
Decides-iff o f g (inr (is, refuted)) = inr (is, λ q. refuted (g q))

Decides-Bool : {P : Type 0} (b : Bool) → (b ≡ true) ↔ P → Decides (some b) P
Decides-Bool true h = inl (refl, h.0 refl)
Decides-Bool false h = inr (refl, λ p. let clash : false ≡ true = h.1 p in absurd cc)

Decides-and :
    (P Q : Type 0) (a b : Option Bool) → Decides a P → Decides b Q → Decides (and_then a b) (P × Q)
Decides-and P Q a b (inr (is, refuted)) k = inr (rw is refl, λ h. refuted h.0)
Decides-and P Q a b (inl (is, p)) k = rw is (Decides-iff b (λ q. (p, q)) (λ h. h.1) k)

optional_size_eq_iff : (a b : Option Size) → (optional_size_eq a b ≡ true) ↔ (a ≡ b)
unfolding optional_size_eq size_eq bit_count
optional_size_eq_iff none none = (λ h. refl, λ h. refl)
optional_size_eq_iff none (some b) = (λ h. absurd cc, λ h. absurd cc)
optional_size_eq_iff (some a) none = (λ h. absurd cc, λ h. absurd cc)
optional_size_eq_iff (some a) (some b) = ground (arith, ==_iff a.pos b.pos)

definition_equals-Decides :
    (n m : List ℕ) (ss ts : Statements) (loop : Option Bool)
    → (statement_count ss ≡ statement_count ts
        → Decides loop (all_without_debug ss ≡ all_without_debug ts))
    → Decides
        (definition_equals n ss m ts loop)
        ((n ≡ m) × (all_without_debug ss ≡ all_without_debug ts))
unfolding definition_equals base_equals
definition_equals-Decides n m ss ts loop h =
    let size = calculate_size zero_size ss in
    let size' = calculate_size zero_size ts in
    elim (Bool-cases (str_eq n m)) [
      | inr other ↦ inr (
        rw other refl,
        λ (same, _). let clash : true ≡ false = sym ((str_eq_iff n m).1 same) ∙ other in absurd cc,
      )
      | inl same ↦ elim (Bool-cases (optional_size_eq size size')) [
        | inr other ↦ inr (
          rw same (rw other refl),
          λ (_, alike).
              let sizes : size ≡ size' =
                sym (calculate_size-without_debug zero_size ss)
                ∙ ap (calculate_size zero_size) alike
                ∙ calculate_size-without_debug zero_size ts in
              let clash : true ≡ false = sym ((optional_size_eq_iff size size').1 sizes) ∙ other in
              absurd cc,
        )
        | inl sizes ↦ elim (Bool-cases (statement_count ss == statement_count ts)) [
          | inr other ↦ inr (
            rw same (rw sizes (rw other refl)),
            λ (_, alike).
                let counts : statement_count ss ≡ statement_count ts =
                  sym (statement_count-without_debug ss)
                  ∙ ap statement_count alike
                  ∙ statement_count-without_debug ts in
                let clash : true ≡ false =
                  sym ((==_iff (statement_count ss) (statement_count ts)).1 counts) ∙ other in
                absurd cc,
          )
          | inl counts ↦ rw same (
              rw sizes (
                rw counts (
                  Decides-iff loop (λ alike. ((str_eq_iff n m).0 same, alike)) (λ p. p.1)
                    (h ((==_iff (statement_count ss) (statement_count ts)).0 counts)))))
        ]
      ]
    ]

module _ (double : Doubles) (address : ℕ → ℕ)
    (apart : (i j : ℕ) → address i ≡ address j → i ≡ j) where
  expected_eq_iff :
      (v w : Option Value)
      → IsExactLiteral v
      → IsExactLiteral w
      → (expected_eq double address v w ≡ true) ↔ (v ≡ w)
  unfolding expected_eq
  expected_eq_iff none none x y = (λ h. refl, λ h. refl)
  expected_eq_iff none (some w) x y = (λ h. absurd cc, λ h. absurd cc)
  expected_eq_iff (some v) none x y = (λ h. absurd cc, λ h. absurd cc)
  expected_eq_iff (some v) (some w) x y = (
    λ h. ap some (value_eq→eq double address apart v w x y h),
    λ h. let same : v ≡ w = cc in rw (← same) (value_eq_refl double address v x),
  )

  field_equals-Decides :
      (n m : List ℕ) (v w : Option Value) (types : Option Bool) (P : Type 0)
      → IsExactLiteral v
      → IsExactLiteral w
      → Decides types P
      → Decides (field_equals double address n v m w types) ((n ≡ m) × (v ≡ w) × P)
  unfolding field_equals
  field_equals-Decides n m v w types P x y h = elim (Bool-cases (expected_eq double address v w)) [
    | inr other ↦ inr (
      rw other refl,
      λ (_, same, _).
          let clash : true ≡ false = sym ((expected_eq_iff v w x y).1 same) ∙ other in absurd cc,
    )
    | inl literals ↦ elim (Bool-cases (str_eq n m)) [
      | inr other ↦ inr (
        rw literals (rw other refl),
        λ (same, _, _).
            let clash : true ≡ false = sym ((str_eq_iff n m).1 same) ∙ other in absurd cc,
      )
      | inl names ↦ rw literals (
          rw names (
            Decides-iff types
              (λ p. ((str_eq_iff n m).0 names, (expected_eq_iff v w x y).0 literals, p)) (λ q. q.2)
              h))
    ]
  ]

  mutual
    unfolding type_info_eq statements_eq

    types_lem :
        {t u : TypeInfo}
        → IsTyped t
        → IsTyped u
        → HasExact t
        → HasExact u
        → Decides (type_info_eq double address t u) (without_debug t ≡ without_debug u)
    types_lem (whole {i} h) (whole {i = j} k) x y =
        Decides-Bool (integer_equals i j) (integer_equals_iff i j)
    types_lem (whole h) (fields k) x y = inr (refl, λ e. absurd cc)
    types_lem (fields h) (whole k) x y = inr (refl, λ e. absurd cc)
    types_lem (fields {d} {n} {ss} h) (fields {d = e} {n = m} {ss = ts} k) x y =
        Decides-iff (type_info_eq double address (definition d n ss) (definition e m ts))
          (λ (p, q). ap₂ (λ a b. definition no_debug a b) p q) (λ alike. (cc, cc))
          (definition_equals-Decides n m ss ts (statements_eq double address ss ts)
            (λ same. statements_lem h k x y same))

    statements_lem :
        {ss ts : Statements}
        → AreTyped ss
        → AreTyped ts
        → HaveExact ss
        → HaveExact ts
        → statement_count ss ≡ statement_count ts
        → Decides (statements_eq double address ss ts) (all_without_debug ss ≡ all_without_debug ts)
    statements_lem none_left none_left x y same = inl (refl, refl)
    statements_lem none_left (one_more k ks) x y same = absurd (omega arith)
    statements_lem (one_more h hs) none_left x y same = absurd (omega arith)
    statements_lem (one_more {n} {t} {v} {ss} h hs)
          (one_more {n = m} {t = u} {v = w} {ss = ts} k ks) (xv, xt, xs) (yv, yt, ys) same =
        Decides-iff
          (and_then (field_equals double address n v m w (type_info_eq double address t u))
            (statements_eq double address ss ts))
          (λ ((p, q, r), rest). cc) (λ e. ((cc, cc, cc), cc))
          (Decides-and _ _ (field_equals double address n v m w (type_info_eq double address t u))
            (statements_eq double address ss ts)
            (field_equals-Decides n m v w (type_info_eq double address t u) _ xv yv
              (types_lem h k xt yt))
            (statements_lem hs ks xs ys (omega arith)))

  -- `==` of types whose statements, down to their integers, are all fields with a type, whose integers
  -- have 1 to 8 whole bytes, and without doubles in their literals has an answer, which says whether
  -- they are the same but for their debug information.
  pub type_info_eq-Decides :
      {t u : TypeInfo}
      → IsTyped t
      → IsTyped u
      → HasExact t
      → HasExact u
      → Decides (type_info_eq double address t u) (without_debug t ≡ without_debug u)
  type_info_eq-Decides h k x y = types_lem h k x y
