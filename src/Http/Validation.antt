-- ===== src/Http/Validation.antt =====
-- http/request-validation.ts: the schema of a request, and the tests on its body. The schema library
-- and the vendored specification, which the code compiles the schemas from, are the parameter
-- `Schemas`; the segments of a path and upper case are the parameter `Paths`.
pub mod Passed
use mock_pontes.Base.{
  ℕ, nat_eq, String, ◌++◌, ◌==◌, ◌≡◌, ◌⊎◌, inl, inr, Bool, true, false, not, ◌&&◌, ◌||◌, Option,
  none, some, List, [], ◌∷◌, map, if◌then◌else◌, or_else, truthy, given, Option-cases, Bool-cases,
  eq_iff, arith,
}
use mock_pontes.Base.Lists.{filter, find, All}
use mock_pontes.Result.{Rejection, rejected, ok}
use mock_pontes.Window.Guard.{Paths, size}
use mock_pontes.Http.Json.{Value, prop, is_object, as_text, null, bool, num, text, array, object}
use mock_pontes.Http.Patterns.{is_money, is_supplementary, field_path}

pub record BusinessError : Type 0 where
  pub error_code : String
  pub error_description : String

-- What the code reads of an `ErrorObject` of the schema library.
pub record SchemaError : Type 0 where
  pub instance_path : String
  pub keyword : String
  pub message : String
  pub missing_property : String
  pub pattern : String

pub record Schemas : Type 0 where
  -- the compiled validator of a schema, which returns the errors, or nothing where the schema does not
  -- compile
  pub compile : String → Option (Value → List SchemaError)
  -- the property of a schema, if it has it, with the pattern, if it has one
  pub pattern_of : String → String → Option (Option String)

pub record Template : Type 0 where
  pub method : String
  pub segments : List String
  pub schema : String

abbrev igw : List String → List String
igw rest = "" ∷ "igw" ∷ "{}" ∷ "v1" ∷ rest

abbrev octopus : List String → List String
octopus rest = "" ∷ "dlt" ∷ "{}" ∷ "api" ∷ "octopus" ∷ rest

abbrev bridge : List String → List String
bridge rest = "" ∷ "dlt" ∷ "{}" ∷ "api" ∷ "bridge" ∷ rest

abbrev post : List String → String → Template
post segments schema = record { method = "POST"; segments = segments; schema = schema }

-- `ROUTE_TEMPLATES`, which splits the keys of `ROUTE_SCHEMAS`
abbrev route_templates : List Template
route_templates =
    post (octopus ("tms" ∷ "funding-requests" ∷ [])) "triggermanagement.CreateFundingRequest"
    ∷ post (octopus ("tms" ∷ "defunding-requests" ∷ [])) "triggermanagement.CreateDefundingRequest"
    ∷ post (octopus ("tms" ∷ "direct-rtgs" ∷ "payments" ∷ []))
        "triggermanagement.DirectRTGSPaymentInstruction"
    ∷ post (octopus ("rvs" ∷ "transactions-requests" ∷ []))
        "requestvalidation.CreateOperationRequest"
    ∷ post (bridge ("payments" ∷ [])) "bridge.PaymentRequest"
    ∷ post (bridge ("direct-rtgs" ∷ "payments" ∷ [])) "bridge.DirectRTGSPaymentInstruction"
    ∷ post (bridge ("initpfoddeli" ∷ [])) "bridge.PFoDDeliRequest"
    ∷ post (bridge ("initpfodrece" ∷ [])) "bridge.PFoDReceRequest"
    ∷ post (igw ("xvps" ∷ [])) "XvPInitRequest"
    ∷ post (igw ("direct-rtgs" ∷ "xvps" ∷ [])) "RTGSXvPInitRequest"
    ∷ post (igw ("xvps" ∷ "{}" ∷ "payment" ∷ [])) "PaymentRequest"
    ∷ []

-- `t.segments.every((seg, i) => seg === "{}" || seg === segs[i])`, for two lists of one length
segments_fit : List String → List String → Bool
segments_fit (t ∷ ts) (r ∷ rs) = (t == "{}" || t == r) && segments_fit ts rs
segments_fit _ _ = true

fits : String → List String → Template → Bool
fits m segs t =
    t.method == m && nat_eq (size t.segments) (size segs) && segments_fit t.segments segs

unfoldable pub schema_for_request : ⦃ps : Paths⦄ → String → String → Option String
unfolding fits segments_fit
schema_for_request ⦃ps⦄ method path =
    elim (find (fits (ps.upper method) (ps.segments path)) route_templates) [
      | none ↦ none
      | some t ↦ some t.schema
    ]

unfoldable describe_error : SchemaError → String
unfolding field_path
describe_error e =
    let field = field_path e.instance_path in
    if e.keyword == "required"
    then "Missing required field '" ++ e.missing_property ++ "'"
    else if e.keyword == "pattern"
    then "Field '" ++ field ++ "' " ++ e.message ++ " (" ++ e.pattern ++ ")"
    else "Field '" ++ field ++ "' " ++ e.message

abbrev invalid : String → BusinessError
invalid why = record { error_code = "HL-VAL-001"; error_description = why }

unfoldable pub validate_request_body : ⦃sc : Schemas⦄ → String → Value → List BusinessError
unfolding describe_error
validate_request_body ⦃sc⦄ schema body = elim (sc.compile schema) [
  | none ↦ []
  | some validate ↦ map (λ e. invalid (describe_error e)) (validate body)
]

abbrev money_field_names : List String
money_field_names = "amount" ∷ "amountTransferred" ∷ "maximumAmount" ∷ []

-- The property is there and has no pattern, or an empty one.
unpatterned : Option (Option String) → Bool
unpatterned none = false
unpatterned (some p) = not (given p)

unfoldable pub unpatterned_money_fields : ⦃sc : Schemas⦄ → String → List String
unfolding unpatterned
unpatterned_money_fields ⦃sc⦄ schema =
    filter (λ f. unpatterned (sc.pattern_of schema f)) money_field_names

-- A text that is not empty and does not match `MONEY_PATTERN`.
imprecise : Option String → Bool
imprecise none = false
imprecise (some v) = truthy v && not (is_money v)

abbrev precision_error : String → BusinessError
precision_error f = invalid (
    "Field '" ++ f
    ++ "' must be a EUR amount with at most 2 decimals (pattern ^\\d{1,15}(\\.\\d{0,2})?$).")

unfoldable pub money_precision_errors : ⦃sc : Schemas⦄ → String → Value → List BusinessError
unfolding unpatterned_money_fields imprecise
money_precision_errors ⦃sc⦄ schema body =
    if not (is_object body)
    then []
    else map precision_error
        (filter (λ f. imprecise (as_text (prop f body))) (unpatterned_money_fields schema))

currency_of : Option String → Option BusinessError
currency_of none = none
currency_of (some c) =
    if truthy c && not (c == "EUR")
    then some (invalid ("Unsupported currency '" ++ c ++ "'. Only EUR is supported."))
    else none

unfoldable pub currency_error : Value → Option BusinessError
unfolding currency_of prop
currency_error body = if is_object body then currency_of (as_text (prop "currency" body)) else none

abbrev pub supplementary_rejection : Rejection
supplementary_rejection = record {
  status_code = 400;
  error_code = "HL-VAL-004";
  error_description =
      "Error validating payment request. Reason: only letters, numbers, dashes, and underscores are allowed in SupplementaryData field";
}

-- `supplementaryDataError`, with the status that the handlers answer it with
unfoldable pub supplementary_data_error : Option String → Option Rejection
supplementary_data_error none = none
supplementary_data_error (some s) =
    if is_supplementary s then none else some supplementary_rejection

infixr 5 ◌<+>◌
abbrev ◌<+>◌ : List BusinessError → List BusinessError → List BusinessError
[] <+> ys = ys
(x ∷ xs) <+> ys = x ∷ (xs <+> ys)

abbrev listed : Option BusinessError → List BusinessError
listed none = []
listed (some e) = e ∷ []

body_errors : ⦃sc : Schemas⦄ → Option String → Option Value → List BusinessError
body_errors none body = []
body_errors (some schema) none = invalid "Request body is not valid JSON" ∷ []
body_errors (some schema) (some body) =
    validate_request_body schema body
    <+> money_precision_errors schema body
    <+> listed (currency_error body)

-- The errors that the middleware answers with 400, and none where it lets the request pass. A body
-- that is not JSON is nothing.
unfoldable pub request_errors :
    ⦃ps : Paths⦄ → ⦃sc : Schemas⦄ → String → String → Option Value → List BusinessError
unfolding body_errors
request_errors method path body = body_errors (schema_for_request method path) body
