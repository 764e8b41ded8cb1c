-- ===== src/Http.antt =====
-- The HTTP layer that the handlers of routes/ share: their answers, the context of an authenticated
-- request, http/request-validation.ts and http/error-response.ts.
pub mod Json
pub mod Patterns
pub mod Validation
pub mod ErrorResponse
use mock_pontes.Base.{ℕ, String, ◌==◌, ◌||◌, ◌++◌, Bool, Option, none, some, if◌then◌else◌, truthy}
use mock_pontes.Result.{Rejection}
use mock_pontes.State.Types.{Caller}

-- An answer with a status and a body. An error answer `{ businessErrors: [one] }`, which the handlers
-- return after setting the status or throw as a rejection, is a rejection here.
pub record Reply {ℓ} (A : Type ℓ) : Type ℓ where
  pub status_code : ℕ
  pub body : A

-- What the handlers read of `event.context.auth`.
pub record AuthContext : Type 0 where
  pub entity_bic : Option String
  pub user_uuid : Option String
  pub username : Option String
  pub market_dlt_operator : Option String

-- `entityBIC ? { entityBIC } : undefined`
unfoldable pub entity_caller : AuthContext → Option Caller
entity_caller auth = elim auth.entity_bic [
  | none ↦ none
  | some e ↦
      if truthy e then some (record { entity_bic = some e; market_dlt_operator = none }) else none
]

-- `approve` and `approved`, in lower case
abbrev pub is_approve : String → Bool
is_approve status = status == "approve" || status == "approved"

-- `cancel`, `canceled` and `cancelled`, in lower case
abbrev pub is_cancel : String → Bool
is_cancel status = status == "cancel" || status == "canceled" || status == "cancelled"

abbrev pub bad_transition : String → Rejection
bad_transition status = record {
  status_code = 400;
  error_code = "HL-VAL-003";
  error_description = "Unsupported status transition '" ++ status ++ "'";
}
