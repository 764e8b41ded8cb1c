-- ===== src/State/Types.antt =====
-- The records of state/mock-store.ts and state/dcw.ts. A draft's fields that no code in the model
-- reads stand together in `Carried`.
use mock_pontes.Base.{ℕ, String, Bool, Option, none, List}
use mock_pontes.Base.Dict.{Dict}

pub record Wallet : Type 0 where
  pub alias : String
  pub owner_bic : String
  pub owner_entity_id : String
  pub manager_ncb : String
  -- decimal strings in the form "0.00"
  pub balance : String
  pub locked_balance : String
  pub currency : String
  pub is_main_wallet : Bool
  pub is_blocked : Bool
  pub valid_from : String
  pub valid_to : Option String
  pub poa_grantees : List String
  pub whitelisted_operators : List String
  pub created_at : String

pub data DraftType : Type 0 where
  funding defunding transfer direct_rtgs pfod xvp : DraftType

pub data DraftStatus : Type 0 where
  initialized pending_approval pending_match accepted canceled settled expired failed : DraftStatus

pub data TransactionStatus : Type 0 where
  settled pending failed : TransactionStatus

pub record Transaction : Type 0 where
  pub id : String
  pub type : DraftType
  pub status : TransactionStatus
  pub amount : String
  pub currency : String
  pub credited_wallet_alias : String
  pub debited_wallet_alias : String
  pub created_at : String
  pub settled_at : Option String
  pub supplementary_data : Option String
  pub instructing_party_id : Option String
  pub funding_request_id : Option String
  pub operation_context : Option String

-- An entry of `timestamps`.
pub record Stamp : Type 0 where
  pub calendar_date : String
  pub business_date : String

-- Pass-through fields that are copied from the request to the draft and only echoed.
pub record Carried : Type 0 where
  pub on_behalf_user : Option String
  pub isd : Option String
  pub isd_timestamp : Option ℕ
  pub payment_instruction_id : Option String
  pub tech_cbdc_operation_id : Option String
  pub signature : Option String
  pub signer_pem : Option String
  pub credited_cash_wallet_owner_id : Option String
  pub debited_cash_wallet_owner_id : Option String
  pub tech_fund_request_id : Option String
  pub correlation_id : Option String
  pub payer_bank : Option String
  pub receiver_bank : Option String
  pub initiator_user_name : Option String

-- No pass-through field is there.
abbrev pub nothing_carried : Carried
nothing_carried = record {
  on_behalf_user = none;
  isd = none;
  isd_timestamp = none;
  payment_instruction_id = none;
  tech_cbdc_operation_id = none;
  signature = none;
  signer_pem = none;
  credited_cash_wallet_owner_id = none;
  debited_cash_wallet_owner_id = none;
  tech_fund_request_id = none;
  correlation_id = none;
  payer_bank = none;
  receiver_bank = none;
  initiator_user_name = none;
}

pub record Draft : Type 0 where
  pub id : String
  pub type : DraftType
  pub status : DraftStatus
  pub amount : String
  pub currency : String
  pub credited_wallet_alias : String
  pub debited_wallet_alias : String
  pub created_at : String
  pub updated_at : String
  pub initiator_user_uuid : Option String
  pub approver_user_uuid : Option String
  pub expires_at : Option String
  pub supplementary_data : Option String
  pub debited_cash_wallet_manager_id : Option String
  pub credited_cash_wallet_manager_id : Option String
  pub instructing_party_id : Option String
  pub cbdc_request_type : Option String
  pub operation_context : Option String
  pub funding_request_id : Option String
  pub historic_status : Option (List String)
  pub timestamps : Option (Dict Stamp)
  pub approver_user_name : Option String
  pub carried : Carried

pub record BusinessDay : Type 0 where
  pub business_date : String
  pub sod_start : String
  pub ofa_start : String
  pub ofa_end : String
  pub eod_end : String

-- `DcwCaller`
pub record Caller : Type 0 where
  pub entity_bic : Option String
  pub market_dlt_operator : Option String

-- `CanDebitResult`
pub record Verdict : Type 0 where
  pub ok : Bool
  pub reason : Option String

pub record CreateDcwOptions : Type 0 where
  pub owner_entity_id : Option String
  pub owner_bic : Option String
  pub manager_ncb : Option String
  pub currency : Option String
  pub is_main_wallet : Option Bool
  pub available_balance : Option String
  pub locked_balance : Option String
  pub valid_from : Option String
  pub valid_to : Option String

-- An object with no property, `{}`.
abbrev pub no_caller : Caller
no_caller = record { entity_bic = none; market_dlt_operator = none }
