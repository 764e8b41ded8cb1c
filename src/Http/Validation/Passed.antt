-- ===== src/Http/Validation/Passed.antt =====
-- What a request body that the tests let pass satisfies.
use mock_pontes.Base.{
  ◌<◌, ◌^◌, String, ◌≡◌, ◌⊎◌, inl, inr, true, false, Option, none, some, List, [], ◌∷◌, arith,
  eq_iff, refl, Bool-cases, sym, ap, ◌∙◌, ◌==◌,
}
use mock_pontes.Base.Lists.{All, map_none, filter_none, All-map, All-of}
use mock_pontes.Window.Guard.{Paths}
use mock_pontes.Http.Json.{Value, prop, is_object, as_text}
use mock_pontes.Http.Patterns.{is_money, whole_euros, is_money-bound}
use mock_pontes.Http.Patterns.Decimal.{StartsInDigit, IsDecimal, is_money-IsDecimal}
use mock_pontes.Http.Validation.{
  Schemas, SchemaError, BusinessError, schema_for_request, request_errors, unpatterned_money_fields,
  validate_request_body, money_precision_errors, currency_error, currency_of, imprecise, listed,
  precision_error, ◌<+>◌, body_errors,
}

-- No currency, an empty one, or the one supported.
abbrev pub IsEuro : Option String → Type 0
IsEuro none = Unit
IsEuro (some c) = (c ≡ "") ⊎ (c ≡ "EUR")

-- No amount, an empty one, or one to fifteen digits with, where there is a point after them, at most two
-- digits more: below 10^15 euros.
abbrev pub IsAmount : Option String → Type 0
IsAmount none = Unit
IsAmount (some v) = (v ≡ "") ⊎ (StartsInDigit v × IsDecimal 15 v × (whole_euros v < 10 ^ 15))

append_none : (xs ys : List BusinessError) → xs <+> ys ≡ [] → (xs ≡ []) × (ys ≡ [])
append_none [] ys h = (refl, h)
append_none (x ∷ xs) ys h = absurd (cc)

currency_of-none : (c : Option String) → currency_of c ≡ none → IsEuro c
unfolding currency_of
currency_of-none none h = tt
currency_of-none (some c) h = ground (arith, eq_iff c "", eq_iff c "EUR")

imprecise-false : (v : Option String) → imprecise v ≡ false → IsAmount v
unfolding imprecise
imprecise-false none h = tt
imprecise-false (some v) h = elim (Bool-cases (v == "")) [
  | inl empty ↦ inl ((eq_iff v "").0 empty)
  | inr given ↦
      let money : is_money v ≡ true = ground (arith, h, given) in
      let (first, decimal) = is_money-IsDecimal v money in
      inr (first, decimal, is_money-bound v money)
]

prop-not_object : (k : String) (b : Value) → is_object b ≡ false → prop k b ≡ none
unfolding prop
prop-not_object k b h = ground arith

module _ ⦃sc : Schemas⦄ where
  -- Nothing is wrong with the body for the compiled validator, or the schema does not compile.
  abbrev pub IsValid : String → Value → Type 0
  IsValid schema body =
      (validate : Value → List SchemaError) → sc.compile schema ≡ some validate → validate body ≡ []

  IsValid-body :
      (schema : String) (body : Value)
      → validate_request_body schema body ≡ []
      → IsValid schema body
  unfolding validate_request_body
  IsValid-body schema body h validate c =
      map_none _ (validate body) (rw (validate_request_body, c) at h)

  precision-IsAmount :
      (schema : String) (body : Value)
      → money_precision_errors schema body ≡ []
      → All (λ f. IsAmount (as_text (prop f body))) (unpatterned_money_fields schema)
  unfolding money_precision_errors
  precision-IsAmount schema body h = elim (Bool-cases (is_object body)) [
    | inl e ↦
        All-map (λ f. imprecise-false (as_text (prop f body))) (unpatterned_money_fields schema)
          (filter_none _ (unpatterned_money_fields schema) (map_none precision_error _ (rw e at h)))
    | inr e ↦
        All-of {P = λ f. IsAmount (as_text (prop f body))} (λ f. rw (prop-not_object f body e) tt)
          (unpatterned_money_fields schema)
  ]

  currency-IsEuro :
      (body : Value) → listed (currency_error body) ≡ [] → IsEuro (as_text (prop "currency" body))
  unfolding currency_error
  currency-IsEuro body h =
      ground
        (arith, prop-not_object "currency" body, currency_of-none (as_text (prop "currency" body)))

  -- A body that passes the tests of a validated request is one that the schema library has no error
  -- for, if it asks for a currency it asks for euros, and each amount that the schema itself leaves
  -- without a pattern, where it is a text, is empty or consists of one to fifteen digits and possibly a
  -- point and at most two digits after it, and is below 10^15 euros.
  pub passed-IsAmount :
      ⦃ps : Paths⦄
      → (method path schema : String) (body : Value) → schema_for_request method path ≡ some schema
      → request_errors method path (some body) ≡ []
      → IsValid schema body
        × IsEuro (as_text (prop "currency" body))
        × All (λ f. IsAmount (as_text (prop f body))) (unpatterned_money_fields schema)
  unfolding request_errors
  passed-IsAmount method path schema body e h =
      let (valid, rest) = append_none _ _ (sym (ap (λ o. body_errors o (some body)) e) ∙ h) in
      let (precise, euro) = append_none _ _ rest in
      (
        IsValid-body schema body valid,
        currency-IsEuro body euro,
        precision-IsAmount schema body precise,
      )
