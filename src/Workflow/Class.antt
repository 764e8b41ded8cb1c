-- ===== src/Workflow/Class.antt =====
-- The records of workflows/workflow.ts, and the texts of its phases and states.
use mock_pontes.Base.{String, Bool, true, false, Option, List}
use mock_pontes.Base.Dict.{Dict}
use mock_pontes.Base.{ℕ}
use mock_pontes.Exec.{Exec}
use mock_pontes.State.Types.{
  Draft, DraftType, DraftStatus, Carried, Stamp, Caller, initialized, pending_approval,
  pending_match, accepted, canceled, expired, funding, defunding, transfer, direct_rtgs, pfod, xvp,
}
use mock_pontes.State.Record.{Store}

pub data Phase : Type 0 where
  create approve cancel : Phase

-- The clock, and the next random UUID.
pub record Moment : Type 0 where
  pub now : ℕ
  pub uuid : String

pub record WorkflowInit : Type 0 where
  pub id : String
  pub amount : String
  pub currency : Option String
  pub credited_wallet_alias : String
  pub debited_wallet_alias : String
  pub initiator_user_uuid : Option String
  pub supplementary_data : Option String
  pub debited_cash_wallet_manager_id : Option String
  pub credited_cash_wallet_manager_id : Option String
  pub instructing_party_id : Option String
  pub cbdc_request_type : Option String
  pub operation_context : Option String
  pub funding_request_id : Option String
  pub historic_status : Option (List String)
  pub timestamps : Option (Dict Stamp)
  pub carried : Carried

-- What a subclass of `Workflow` overrides.
pub record Workflow : Type 0 where
  pub type : DraftType
  pub not_found_label : String
  pub not_found_code : String
  pub state_code : String
  pub debits_source : Bool
  pub credits_existing_wallet : Bool
  pub conditions : Phase → Draft → Option Caller → Moment → Exec Store (Unit {0})
  pub apply : Draft → Option Caller → Moment → Exec Store (Unit {0})
  pub transaction_id : Draft → Moment → String

-- `VERB`
abbrev pub phase_text : Phase → String
phase_text create = "create"
phase_text approve = "approve"
phase_text cancel = "cancel"

abbrev pub status_text : DraftStatus → String
status_text initialized = "INITIALIZED"
status_text pending_approval = "PENDING_APPROVAL"
status_text pending_match = "PENDING_MATCH"
status_text accepted = "ACCEPTED"
status_text canceled = "CANCELED"
status_text DraftStatus.settled = "SETTLED"
status_text expired = "EXPIRED"
status_text DraftStatus.failed = "FAILED"

abbrev pub is_pending : DraftStatus → Bool
is_pending pending_approval = true
is_pending _ = false

abbrev pub same_type : DraftType → DraftType → Bool
same_type funding funding = true
same_type defunding defunding = true
same_type transfer transfer = true
same_type direct_rtgs direct_rtgs = true
same_type pfod pfod = true
same_type xvp xvp = true
same_type _ _ = false
