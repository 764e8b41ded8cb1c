-- ===== src/Routes/Funding/Views.antt =====
-- routes/funding.ts: what a read of a funding or defunding request shows.
use mock_pontes.Base.{String, Bool, Option, none, some, List, [], if◌then◌else◌, or_else}
use mock_pontes.Base.Dict.{Dict}
use mock_pontes.State.Types.{Draft, DraftType, Stamp, defunding}
use mock_pontes.State.Record.{Store, get_business_day}
use mock_pontes.Workflow.{status_text, same_type}
use mock_pontes.Routes.Transfers.{is_settled}

-- The fields of `fundingReadView` that are not constants: those of every read, and those of the rich one.
pub record RichPart : Type 0 where
  pub status : String
  pub historic_status : Option (List String)
  pub timestamps : Dict Stamp
  pub initiator_user_name : String
  pub approver_user_uuid : String
  pub approver_user_name : String
  pub creation_date : String
  pub settled_time : String
  pub settled_date : String

pub record ReadView : Type 0 where
  pub id : String
  pub amount : String
  pub currency : String
  pub type : DraftType
  pub credited_cash_wallet_alias : String
  pub credited_cash_wallet_manager_id : String
  pub credited_cash_wallet_owner_id : String
  pub debited_cash_wallet_alias : String
  pub debited_cash_wallet_manager_id : String
  pub debited_cash_wallet_owner_id : String
  pub initiator_user_uuid : String
  pub instructing_party_id : String
  pub signature : String
  pub signer_pem : String
  pub tech_fund_request_id : String
  pub defunding_request_type : Option String
  pub rich : Option RichPart

rich_part : Store → Draft → RichPart
rich_part s d = record {
  status = status_text d.status;
  historic_status = d.historic_status;
  timestamps = or_else d.timestamps [];
  initiator_user_name = or_else d.carried.initiator_user_name "";
  approver_user_uuid = or_else d.approver_user_uuid "";
  approver_user_name = or_else d.approver_user_name "";
  creation_date = (get_business_day s).business_date;
  settled_time = if is_settled d.status then d.updated_at else "";
  settled_date = if is_settled d.status then (get_business_day s).business_date else "";
}

unfoldable pub funding_read_view : Bool → Store → Draft → ReadView
unfolding rich_part
funding_read_view rich s d = record {
  id = d.id;
  amount = d.amount;
  currency = d.currency;
  type = d.type;
  credited_cash_wallet_alias = d.credited_wallet_alias;
  credited_cash_wallet_manager_id = or_else d.credited_cash_wallet_manager_id "";
  credited_cash_wallet_owner_id = or_else d.carried.credited_cash_wallet_owner_id "";
  debited_cash_wallet_alias = d.debited_wallet_alias;
  debited_cash_wallet_manager_id = or_else d.debited_cash_wallet_manager_id "";
  debited_cash_wallet_owner_id = or_else d.carried.debited_cash_wallet_owner_id "";
  initiator_user_uuid = or_else d.initiator_user_uuid "";
  instructing_party_id = or_else d.instructing_party_id "";
  signature = or_else d.carried.signature "";
  signer_pem = or_else d.carried.signer_pem "";
  tech_fund_request_id = or_else d.carried.tech_fund_request_id "";
  defunding_request_type = if same_type d.type defunding then some "D" else none;
  rich = if rich then some (rich_part s d) else none;
}
