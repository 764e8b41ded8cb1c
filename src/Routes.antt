-- ===== src/Routes.antt =====
-- The handlers of routes/: requests translated to calls of the workflows and the store, and the shaping
-- of the answers. A body is read by its named fields.
pub mod Pfod
pub mod Transfers
pub mod Funding
pub mod DirectRtgs
pub mod Payments
pub mod Wallets
pub mod Xvp
use mock_pontes.Base.{String, ◌++◌, Option, none, List, [], ◌∷◌, if◌then◌else◌, given}
use mock_pontes.Base.Dict.{Dict}
use mock_pontes.Result.{Rejection, rejected}
use mock_pontes.Exec.{Exec, throw, pure, ◌>>◌}
use mock_pontes.State.Types.{Stamp, nothing_carried}
use mock_pontes.State.Record.{Store}
use mock_pontes.Workflow.{WorkflowInit}
use mock_pontes.Http.{is_approve, is_cancel}

abbrev pub validation_error : String → Rejection
validation_error why = record {
  status_code = 400;
  error_code = "HL-VAL-001";
  error_description = why;
}

-- `if (error) { setResponseStatus(event, error.status); return { businessErrors: [error] } }`
abbrev pub refuse_with : Option Rejection → Exec Store (Unit {0})
refuse_with o = elim o [ Option.none ↦ pure tt | Option.some r ↦ throw (rejected r) ]

-- An init with the required fields only.
abbrev pub plain_init : String → String → String → String → String → WorkflowInit
plain_init id amount currency credited debited = record {
  id = id;
  amount = amount;
  currency = Option.some currency;
  credited_wallet_alias = credited;
  debited_wallet_alias = debited;
  initiator_user_uuid = none;
  supplementary_data = none;
  debited_cash_wallet_manager_id = none;
  credited_cash_wallet_manager_id = none;
  instructing_party_id = none;
  cbdc_request_type = none;
  operation_context = none;
  funding_request_id = none;
  historic_status = none;
  timestamps = none;
  carried = nothing_carried;
}

-- `s || undefined`
abbrev pub or_nothing : Option String → Option String
or_nothing s = if given s then s else none

-- `historicStatus` and `timestamps` of something created now.
abbrev pub initial_trail : List String
initial_trail = "INITIALIZED" ∷ "PENDING_APPROVAL" ∷ []

abbrev pub stamps : List String → Stamp → Dict Stamp
stamps [] stamp = []
stamps (status ∷ more) stamp = (status, stamp) ∷ stamps more stamp

-- The handlers of `PUT .../:id/:status`, for the status in lower case.
abbrev pub transition :
    {A : Type 0}
    → String
    → Exec Store A
    → Exec Store A
    → Rejection
    → String
    → String
    → Exec Store String
transition status approval cancellation unsupported approved canceled =
    if is_approve status
    then (approval >> pure approved)
    else if is_cancel status
    then (cancellation >> pure canceled)
    else throw (rejected unsupported)
