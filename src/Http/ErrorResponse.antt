-- ===== src/Http/ErrorResponse.antt =====
-- http/error-response.ts: every error answer is brought to the one official shape. A status is a
-- number, or nothing where it is not finite; JSON bodies are values.
pub mod Kept
pub mod Shape
use mock_pontes.Base.{
  ℕ, String, ◌==◌, Bool, true, false, not, ◌&&◌, ◌||◌, Option, none, some, List, [], ◌∷◌, leb, ltb,
  nat_eq, if◌then◌else◌, truthy, given, or_text,
}
use mock_pontes.Http.Json.{
  Value, Items, Fields, null, bool, num, text, array, object, no_items, item, prop, is_in,
  is_object, as_text, is_num,
}
use mock_pontes.Http.Validation.{BusinessError}

pub record ErrorResponse : Type 0 where
  pub status : ℕ
  pub title : String
  pub business_errors : List BusinessError

abbrev titles : List (ℕ × String)
titles =
    (400, "Bad Request")
    ∷ (401, "Unauthorized")
    ∷ (403, "Forbidden")
    ∷ (404, "Not Found")
    ∷ (405, "Method Not Allowed")
    ∷ (409, "Conflict")
    ∷ (415, "Unsupported Media Type")
    ∷ (422, "Unprocessable Entity")
    ∷ (429, "Too Many Requests")
    ∷ (500, "Internal Server Error")
    ∷ (501, "Not Implemented")
    ∷ (502, "Bad Gateway")
    ∷ (503, "Service Unavailable")
    ∷ []

title_in : List (ℕ × String) → ℕ → String
title_in [] status = if leb 500 status then "Server Error" else "Error"
title_in ((s, t) ∷ more) status = if nat_eq s status then t else title_in more status

unfoldable pub title_for_status : ℕ → String
unfolding title_in
title_for_status status = title_in titles status

unfoldable pub fallback_error_code : ℕ → String
fallback_error_code status =
    if nat_eq status 401
    then "HL-ATH-001"
    else if nat_eq status 403
    then "HL-ATH-002"
    else if nat_eq status 404
    then "HL-GER-001"
    else if nat_eq status 409
    then "HL-GER-004"
    else "HL-GER-000"

-- One entry of the array, where `null` and values that are no objects have no fields.
unfoldable pub coerce_entry : ℕ → Value → BusinessError
coerce_entry status e = record {
  error_code = or_text (as_text (prop "errorCode" e)) (fallback_error_code status);
  error_description =
      or_text (as_text (prop "errorDescription" e))
        (or_text (as_text (prop "message" e)) (title_for_status status));
}

coerce_items : ℕ → Items → List BusinessError
coerce_items status no_items = []
coerce_items status (item e es) = coerce_entry status e ∷ coerce_items status es

unfoldable pub coerce_business_errors : Option Value → ℕ → Option String → List BusinessError
unfolding coerce_items
coerce_business_errors (some (array (item e es))) status fallback = coerce_items status (item e es)
coerce_business_errors _ status fallback =
    record {
      error_code = fallback_error_code status;
      error_description = or_text fallback (title_for_status status);
    }
    ∷ []

-- A finite status from 400 on, else 500.
unfoldable pub error_status : Option ℕ → ℕ
error_status none = 500
error_status (some s) = if leb 400 s then s else 500

unfoldable pub to_error_response : Option ℕ → Option Value → Option String → ErrorResponse
to_error_response status errors fallback =
    let s = error_status status in
    record {
      status = s;
      title = title_for_status s;
      business_errors = coerce_business_errors errors s fallback;
    }

unfoldable pub is_error_response_shape : Value → Bool
is_error_response_shape body =
    is_object body && is_in "status" body && is_in "title" body && is_in "businessErrors" body

-- `typeof v === "string"`
abbrev pub given_text : Option Value → Bool
given_text (some (text s)) = true
given_text _ = false

unfoldable pub is_session_error_shape : Value → Bool
is_session_error_shape body =
    is_num (prop "status" body)
    && given_text (prop "message" body)
    && given_text (prop "code" body)
    && not (is_in "title" body)
    && not (is_in "businessErrors" body)
    && not (is_in "error" body)

-- The non-empty one of `error_description` and `error`, if there is one.
oauth_description : Value → Option String
oauth_description b =
    let e = as_text (prop "error" b) in
    let d = as_text (prop "error_description" b) in
    if given d then d else if given e then e else none

-- `normalizeReturnedErrorBody`: nothing leaves the body as it is. The flag is whether the path matches
-- `TOKEN_ENDPOINT`.
unfoldable pub normalize_returned_error_body : ℕ → Bool → Value → Option ErrorResponse
unfolding oauth_description
normalize_returned_error_body status token_endpoint body =
    if ltb status 400
    then none
    else if not (is_object body)
    then none
    else if is_error_response_shape body
    then none
    else if is_session_error_shape body
    then none
    else if is_in "error" body || is_in "error_description" body
    then (if token_endpoint
        then none
        else some (to_error_response (some status) none (oauth_description body)))
    else if is_in "businessErrors" body
    then some (to_error_response (some status) (prop "businessErrors" body) none)
    else none

pub record ThrownError : Type 0 where
  -- `Number(error.statusCode)`, nothing where that is no finite number
  pub status_code : Option ℕ
  pub status_message : Option String
  pub message : Option String
  -- `data`
  pub payload : Option Value

-- `Number(error.statusCode) || 500`
thrown_status : Option ℕ → ℕ
thrown_status none = 500
thrown_status (some s) = if nat_eq s 0 then 500 else s

-- `data && typeof data === "object" ? data.businessErrors : undefined`
thrown_errors : Option Value → Option Value
thrown_errors none = none
thrown_errors (some d) = if is_object d then prop "businessErrors" d else none

unfoldable pub normalize_thrown_error : ThrownError → ErrorResponse
unfolding thrown_status thrown_errors
normalize_thrown_error e =
    to_error_response (some (thrown_status e.status_code)) (thrown_errors e.payload)
      (if given e.status_message then e.status_message else e.message)
