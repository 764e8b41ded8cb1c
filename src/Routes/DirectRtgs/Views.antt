-- ===== src/Routes/DirectRtgs/Views.antt =====
-- routes/direct-rtgs.ts: what the answers show of a payment.
use mock_pontes.Base.{String, Bool, Option, none, some, List, [], ◌∷◌, or_else}
use mock_pontes.Base.Dict.{Dict, lookup}
use mock_pontes.State.Types.{Draft, DraftStatus, Stamp, canceled}
use mock_pontes.State.Record.{Store, get_business_day}
use mock_pontes.Workflow.{status_text}
use mock_pontes.Routes.{stamps}

-- An entry of `historicStatusMap`.
pub record HistoricStatus : Type 0 where
  pub business_date : Option String
  pub date : Option String
  pub status : String
  pub timestamp : Option String

historic_entry : String → Option Stamp → HistoricStatus
historic_entry status none = record {
  business_date = none;
  date = none;
  status = status;
  timestamp = none;
}
historic_entry status (some t) = record {
  business_date = some t.business_date;
  date = some t.business_date;
  status = status;
  timestamp = some t.calendar_date;
}

historic_entries : List String → Dict Stamp → Dict HistoricStatus
historic_entries [] stamps = []
historic_entries (status ∷ more) stamps =
    (status, historic_entry status (lookup status stamps)) ∷ historic_entries more stamps

-- The statuses of a trail are distinct, so each makes one entry.
unfoldable pub historic_status_map : Draft → Option (Dict HistoricStatus)
unfolding historic_entries historic_entry lookup
historic_status_map d = elim d.historic_status [
  | none ↦ none
  | some trail ↦ some (historic_entries trail (or_else d.timestamps []))
]

-- The fields of `rtgsResponseView` that are not constants.
pub record ResponseView : Type 0 where
  pub id : String
  pub amount : String
  pub currency : String
  pub correlation_id : String
  pub creation_date : String
  pub initiator_user_uuid : String
  pub instructing_party_id : String
  pub is_canceled : Bool
  pub payer_bank : String
  pub receiver_bank : String
  pub signature : String
  pub signer_pem : String
  pub tech_payment_id : String

abbrev is_canceled_status : DraftStatus → Bool
is_canceled_status canceled = Bool.true
is_canceled_status _ = Bool.false

unfoldable pub rtgs_response_view : Store → Draft → ResponseView
rtgs_response_view s d = record {
  id = d.id;
  amount = d.amount;
  currency = d.currency;
  correlation_id = or_else d.carried.correlation_id "";
  creation_date = (get_business_day s).business_date;
  initiator_user_uuid = or_else d.initiator_user_uuid "";
  instructing_party_id = or_else d.instructing_party_id "";
  is_canceled = is_canceled_status d.status;
  payer_bank = or_else d.carried.payer_bank "";
  receiver_bank = or_else d.carried.receiver_bank "";
  signature = or_else d.carried.signature "";
  signer_pem = or_else d.carried.signer_pem "";
  tech_payment_id = d.id;
}

-- The fields of `rtgsGetView` that are not constants.
pub record GetView : Type 0 where
  pub amount : String
  pub approver_user_name : String
  pub approver_user_uuid : String
  pub correlation_id : String
  pub creation_date : String
  pub currency : String
  pub historic_status : Option (Dict HistoricStatus)
  pub id : String
  pub initiator_user_name : String
  pub initiator_user_uuid : String
  pub instructing_party_id : String
  pub is_canceled : Bool
  pub last_updated_business_date : String
  pub last_updated_time : String
  pub payer_bank : String
  pub receiver_bank : String
  pub signature : String
  pub signer_pem : String
  pub status : String
  pub tech_payment_id : String

unfoldable pub rtgs_get_view : Store → Draft → GetView
unfolding historic_status_map
rtgs_get_view s d = record {
  amount = d.amount;
  approver_user_name = or_else d.approver_user_name "";
  approver_user_uuid = or_else d.approver_user_uuid "";
  correlation_id = or_else d.carried.correlation_id "";
  creation_date = (get_business_day s).business_date;
  currency = d.currency;
  historic_status = historic_status_map d;
  id = d.id;
  initiator_user_name = or_else d.carried.initiator_user_name "";
  initiator_user_uuid = or_else d.initiator_user_uuid "";
  instructing_party_id = or_else d.instructing_party_id "";
  is_canceled = is_canceled_status d.status;
  last_updated_business_date = (get_business_day s).business_date;
  last_updated_time = d.updated_at;
  payer_bank = or_else d.carried.payer_bank "";
  receiver_bank = or_else d.carried.receiver_bank "";
  signature = or_else d.carried.signature "";
  signer_pem = or_else d.carried.signer_pem "";
  status = status_text d.status;
  tech_payment_id = d.id;
}

-- The fields of `bridgeRtgsView` that are not constants.
pub record BridgeView : Type 0 where
  pub amount : String
  pub correlation_id : String
  pub creation_date : String
  pub currency : String
  pub historic_status : List String
  pub id : String
  pub initiator_user_name : String
  pub initiator_user_uuid : String
  pub instructing_party_id : String
  pub last_updated_business_date : String
  pub last_updated_time : String
  pub payer_bank : String
  pub receiver_bank : String
  pub signature : String
  pub signer_pem : String

unfoldable pub bridge_rtgs_view : Store → Draft → BridgeView
bridge_rtgs_view s d = record {
  amount = d.amount;
  correlation_id = or_else d.carried.correlation_id "";
  creation_date = (get_business_day s).business_date;
  currency = d.currency;
  historic_status = or_else d.historic_status [];
  id = d.id;
  initiator_user_name = or_else d.carried.initiator_user_name "";
  initiator_user_uuid = or_else d.initiator_user_uuid "";
  instructing_party_id = or_else d.instructing_party_id "";
  last_updated_business_date = (get_business_day s).business_date;
  last_updated_time = d.updated_at;
  payer_bank = or_else d.carried.payer_bank "";
  receiver_bank = or_else d.carried.receiver_bank "";
  signature = or_else d.carried.signature "";
  signer_pem = or_else d.carried.signer_pem "";
}
