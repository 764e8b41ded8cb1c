-- ===== src/Http/ErrorResponse/Shape.antt =====
-- The official shape of error answers, and the three exceptions that the normalisation keeps.
use mathlib.Core.Path.{subst}
use mock_pontes.Base.{
  ℕ, ◌≤◌, String, ◌≡◌, ◌≢◌, ◌⊎◌, inl, inr, Bool, true, false, ◌||◌, Option, none, some, List, [],
  ◌∷◌, arith, eq_iff, refl, sym, or_text, leb, ltb, nat_eq, if◌then◌else◌, Bool-cases,
}
use mock_pontes.Base.Lists.{All}
use mock_pontes.Http.Json.{Value, Items, array, no_items, item, prop, is_in, is_object, as_text}
use mock_pontes.Http.Validation.{BusinessError}
use mock_pontes.Http.ErrorResponse.{
  ErrorResponse, titles, title_for_status, title_in, fallback_error_code, coerce_entry,
  coerce_items, coerce_business_errors, error_status, to_error_response, is_error_response_shape,
  is_session_error_shape, normalize_returned_error_body, normalize_thrown_error, ThrownError,
  oauth_description,
}
use mock_pontes.Http.ErrorResponse.Kept.{
  IsKept, IsShaped-of, IsSession-of, IsOauth-of, marks, kept_tests, not_in-Lacks,
}

-- An error with a code and a description that are not empty.
abbrev pub IsCoded : BusinessError → Type 0
IsCoded e = (e.error_code ≢ "") × (e.error_description ≢ "")

-- The official shape: the status of an error, a title, and at least one error, each with a code and a
-- description.
pub record IsOfficial (r : ErrorResponse) : Type 0 where
  pub status : 400 ≤ r.status
  pub title : r.title ≢ ""
  pub some_error : r.business_errors ≢ []
  pub coded : All IsCoded r.business_errors

if-given : (b : Bool) (s t : String) → s ≢ "" → t ≢ "" → (if b then s else t) ≢ ""
if-given true s t g h = g
if-given false s t g h = h

title_in-given :
    (ts : List (ℕ × String)) (status : ℕ) → All (λ e. e.1 ≢ "") ts → title_in ts status ≢ ""
unfolding title_in
title_in-given [] status g = if-given (leb 500 status) "Server Error" "Error" (λ h. cc) (λ h. cc)
title_in-given ((s, t) ∷ ts) status g =
    if-given (nat_eq s status) t (title_in ts status) g.0 (title_in-given ts status g.1)

title_for_status-given : (status : ℕ) → title_for_status status ≢ ""
unfolding title_for_status
title_for_status-given status = title_in-given titles status (
  λ h. cc,
  (
    λ h. cc,
    (
      λ h. cc,
      (
        λ h. cc,
        (
          λ h. cc,
          (
            λ h. cc,
            (λ h. cc, (λ h. cc, (λ h. cc, (λ h. cc, (λ h. cc, (λ h. cc, (λ h. cc, tt))))))),
          ),
        ),
      ),
    ),
  ),
)

fallback_error_code-given : (status : ℕ) → fallback_error_code status ≢ ""
unfolding fallback_error_code
fallback_error_code-given status =
    if-given (nat_eq status 401) _ _ (λ h. cc)
      (if-given (nat_eq status 403) _ _ (λ h. cc)
        (if-given (nat_eq status 404) _ _ (λ h. cc)
          (if-given (nat_eq status 409) _ _ (λ h. cc) (λ h. cc))))

or_text-given : (o : Option String) (t : String) → t ≢ "" → or_text o t ≢ ""
or_text-given none t g = g
or_text-given (some s) t g = ground (arith, eq_iff s "")

coerce_entry-IsCoded : (status : ℕ) (e : Value) → IsCoded (coerce_entry status e)
unfolding coerce_entry
coerce_entry-IsCoded status e = (
  or_text-given (as_text (prop "errorCode" e)) _ (fallback_error_code-given status),
  or_text-given (as_text (prop "errorDescription" e)) _
      (or_text-given (as_text (prop "message" e)) _ (title_for_status-given status)),
)

coerce_items-IsCoded : (status : ℕ) (es : Items) → All IsCoded (coerce_items status es)
unfolding coerce_items
coerce_items-IsCoded status no_items = tt
coerce_items-IsCoded status (item e es) =
    (coerce_entry-IsCoded status e, coerce_items-IsCoded status es)

coerce-IsCoded :
    (errors : Option Value) (status : ℕ) (fallback : Option String)
    → let es = coerce_business_errors errors status fallback in (es ≢ []) × All IsCoded es
unfolding coerce_business_errors coerce_items
coerce-IsCoded (some (array (item e es))) status fallback =
    (λ h. cc, (coerce_entry-IsCoded status e, coerce_items-IsCoded status es))
coerce-IsCoded errors status fallback = (
  λ h. cc,
  (
    (fallback_error_code-given status, or_text-given fallback _ (title_for_status-given status)),
    tt,
  ),
)

error_status-bound : (status : Option ℕ) → 400 ≤ error_status status
unfolding error_status
error_status-bound none = omega arith
error_status-bound (some s) = ground arith

to_error_response-IsOfficial :
    (status : Option ℕ) (errors : Option Value) (fallback : Option String)
    → IsOfficial (to_error_response status errors fallback)
unfolding to_error_response
to_error_response-IsOfficial status errors fallback =
    let (given, coded) = coerce-IsCoded errors (error_status status) fallback in
    record {
      status = error_status-bound status;
      title = title_for_status-given (error_status status);
      some_error = given;
      coded = coded;
    }

to_error_response-status :
    (status : ℕ) (errors : Option Value) (fallback : Option String)
    → 400 ≤ status
    → (to_error_response (some status) errors fallback).status ≡ status
unfolding to_error_response error_status
to_error_response-status status errors fallback h = ground arith

-- The decision of the normalisation, on an error status and an object.
decision : Bool → Bool → Bool → Bool → Bool → ErrorResponse → ErrorResponse → Option ErrorResponse
decision off ses oauth tok errors x y =
    if off
    then none
    else if ses
    then none
    else if oauth
    then (if tok then none else some x)
    else if errors
    then some y
    else none

normalize-decision :
    (status : ℕ) (tok : Bool) (body : Value)
    → 400 ≤ status
    → is_object body ≡ true
    → normalize_returned_error_body status tok body
      ≡ decision
          (is_error_response_shape body)
          (is_session_error_shape body)
          (is_in "error" body || is_in "error_description" body)
          tok
          (is_in "businessErrors" body)
          (to_error_response (some status) none (oauth_description body))
          (to_error_response (some status) (prop "businessErrors" body) none)
unfolding normalize_returned_error_body decision
normalize-decision status tok body h o =
    let e : ltb status 400 ≡ false = ground arith in rw (e, o) refl

-- An official answer under that status.
abbrev pub IsOfficialAt : ℕ → Option ErrorResponse → Type 0
IsOfficialAt status none = ⊥
IsOfficialAt status (some r) = IsOfficial r × (r.status ≡ status)

to_error_response-IsOfficialAt :
    (status : ℕ) (errors : Option Value) (fallback : Option String)
    → 400 ≤ status
    → IsOfficialAt status (some (to_error_response (some status) errors fallback))
to_error_response-IsOfficialAt status errors fallback h = (
  to_error_response-IsOfficial (some status) errors fallback,
  to_error_response-status status errors fallback h,
)

-- The normalisation rewrites the body under that status, and then the body is none that is kept, or
-- leaves it as it is, and then it is one that is kept.
abbrev pub IsNormalized : ℕ → Bool → Value → Option ErrorResponse → Type 0
IsNormalized status token_endpoint body o =
    (IsOfficialAt status o × (IsKept token_endpoint body → ⊥))
    ⊎ ((o ≡ none) × IsKept token_endpoint body)

decided :
    (status : ℕ) (tok : Bool) (body : Value) (x y : ErrorResponse)
    → is_object body ≡ true
    → IsOfficialAt status (some x)
    → IsOfficialAt status (some y)
    → IsNormalized status tok body (
        decision
          (is_error_response_shape body)
          (is_session_error_shape body)
          (marks body)
          tok
          (is_in "businessErrors" body)
          x
          y)
unfolding decision
decided status tok body x y o px py = elim (Bool-cases (is_error_response_shape body)) [
  | inl off ↦ inr (rw off refl, inl (IsShaped-of body off))
  | inr on ↦ elim (Bool-cases (is_session_error_shape body)) [
    | inl ses ↦ inr (rw (on, ses) refl, inr (inl (IsSession-of body ses)))
    | inr no_ses ↦ elim (Bool-cases (marks body)) [
      | inl oauth ↦ elim (Bool-cases tok) [
        | inl t ↦ inr (rw (on, no_ses, oauth, t) refl, inr (inr (inl (t, IsOauth-of body oauth))))
        | inr t ↦ inl (
          rw (on, no_ses, oauth, t) px,
          λ kept. ground (arith, kept_tests tok body o kept, on, no_ses, oauth, t),
        )
      ]
      | inr plain ↦ elim (Bool-cases (is_in "businessErrors" body)) [
        | inl errors ↦ inl (
          rw (on, no_ses, plain, errors) py,
          λ kept. ground (arith, kept_tests tok body o kept, on, no_ses, plain, errors),
        )
        | inr clean ↦ inr (
          rw (on, no_ses, plain, clean) refl,
          inr (
              inr (
                inr (
                  not_in-Lacks "error" body (ground (arith, plain)),
                  not_in-Lacks "error_description" body (ground (arith, plain)),
                  not_in-Lacks "businessErrors" body clean,
                ))),
        )
      ]
    ]
  ]
]

-- Every error that a handler throws is answered in the official shape. An object that a handler returns
-- under an error status is answered in the official shape under that status, or stays as it is; and it
-- stays as it is exactly where it has the fields of the official shape, is a session error (a number as
-- status, texts as message and code, no title, businessErrors or error), is an OAuth error of the token
-- endpoint, or has none of the fields error, error_description and businessErrors.
pub errors-IsOfficial :
    (e : ThrownError) (status : ℕ) (token_endpoint : Bool) (body : Value)
    → 400 ≤ status
    → is_object body ≡ true
    → IsOfficial (normalize_thrown_error e)
      × IsNormalized status token_endpoint body
          (normalize_returned_error_body status token_endpoint body)
unfolding normalize_thrown_error
errors-IsOfficial e status token_endpoint body h o = (
  to_error_response-IsOfficial _ _ _,
  subst (IsNormalized status token_endpoint body)
      (sym (normalize-decision status token_endpoint body h o))
      (decided status token_endpoint body
        (to_error_response (some status) none (oauth_description body))
        (to_error_response (some status) (prop "businessErrors" body) none) o
        (to_error_response-IsOfficialAt status none (oauth_description body) h)
        (to_error_response-IsOfficialAt status (prop "businessErrors" body) none h)),
)
