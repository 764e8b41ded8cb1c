-- ===== src/Examples/Requests.antt =====
-- The theorems on request bodies and error answers.
use mock_pontes.Base.{String, ◌==◌, refl, Bool, true, false, Option, none, some, [], ◌∷◌, arith}
use mock_pontes.Base.Lists.{All}
use mock_pontes.Window.Guard.{Paths}
use mock_pontes.Http.Json.{
  Value, object, array, text, entry, no_fields, item, no_items, prop, as_text,
}
use mock_pontes.Http.Patterns.{is_money}
use mock_pontes.Http.Validation.{
  Schemas, request_errors, schema_for_request, unpatterned_money_fields, validate_request_body,
  money_precision_errors, currency_error,
}
use mock_pontes.Http.Validation.Passed.{IsValid, IsEuro, IsAmount, passed-IsAmount}
use mock_pontes.Http.ErrorResponse.{
  ThrownError, normalize_thrown_error, normalize_returned_error_body,
}
use mock_pontes.Http.ErrorResponse.Shape.{IsOfficial, IsNormalized, errors-IsOfficial}

-- Paths to one endpoint.
instance abbrev transfers_path : Paths
transfers_path = record {
  segments = λ s. "" ∷ "dlt" ∷ s ∷ "api" ∷ "octopus" ∷ "rvs" ∷ "transactions-requests" ∷ [];
  upper = λ s. s;
  ends_with = λ s t. s == "{ncb}";
}

abbrev if_transferred : Bool → Option String
if_transferred true = none
if_transferred false = some "digits"

-- A schema that accepts everything and leaves the amount of a transfer without a pattern.
instance abbrev lenient : Schemas
lenient = record {
  compile = λ s. some (λ b. []);
  pattern_of = λ s f. some (if_transferred (f == "amountTransferred"));
}

abbrev body : Value
body = object (entry "amountTransferred" (text "12.50") (entry "currency" (text "EUR") no_fields))

passed-IsAmount_example :
    IsValid "requestvalidation.CreateOperationRequest" body
    × IsEuro (as_text (prop "currency" body))
    × All
        (λ f. IsAmount (as_text (prop f body)))
        (unpatterned_money_fields "requestvalidation.CreateOperationRequest")
unfolding request_errors schema_for_request validate_request_body money_precision_errors
    unpatterned_money_fields currency_error prop is_money
passed-IsAmount_example =
    passed-IsAmount "POST" "BDF" "requestvalidation.CreateOperationRequest" body refl refl

abbrev missing_wallet : Value
missing_wallet = object (
    entry "businessErrors"
      (array
        (item (object (entry "errorDescription" (text "Wallet W1 not found") no_fields)) no_items))
      no_fields)

abbrev crash : ThrownError
crash = record {
  status_code = none;
  status_message = none;
  message = some "WALLET_NOT_FOUND:W1";
  payload = none;
}

errors-IsOfficial_example :
    IsOfficial (normalize_thrown_error crash)
    × IsNormalized 404 false missing_wallet (normalize_returned_error_body 404 false missing_wallet)
errors-IsOfficial_example = errors-IsOfficial crash 404 false missing_wallet (omega arith) refl
