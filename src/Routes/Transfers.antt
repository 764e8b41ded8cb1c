-- ===== src/Routes/Transfers.antt =====
-- routes/transfers.ts: the transfer drafts and the list of cash token transactions. The network's name,
-- an environment variable, is an argument.
pub mod Secrecy
pub mod Creation
use mock_pontes.Base.{
  ℕ, String, ◌++◌, ◌==◌, Bool, true, false, not, ◌&&◌, ◌||◌, Option, none, some, List, [], ◌∷◌, map,
  if◌then◌else◌, given, or_else, or_text, is_text,
}
use mock_pontes.Base.Dict.{Dict}
use mock_pontes.Base.Lists.{filter}
use mock_pontes.Platform.{Platform}
use mock_pontes.Result.{Rejection, rejected}
use mock_pontes.Exec.{Exec, pure, throw, throw_if, gets, ◌>>=◌, ◌>>◌}
use mock_pontes.State.Types.{
  Draft, DraftType, DraftStatus, Stamp, Caller, funding, defunding, transfer, direct_rtgs, pfod,
  xvp, settled, Carried, nothing_carried,
}
use mock_pontes.State.Record.{Store, get_business_day}
use mock_pontes.State.Store.{get_draft, get_drafts}
use mock_pontes.State.Identifiers.{resolve_draft_id}
use mock_pontes.Workflow.{
  WorkflowInit, Actor, Moment, create, approve, cancel, status_text, same_type,
}
use mock_pontes.Kinds.{transfer_workflow}
use mock_pontes.Http.{Reply, AuthContext, entity_caller, bad_transition}
use mock_pontes.Http.Validation.{supplementary_data_error}
use mock_pontes.Routes.{
  validation_error, refuse_with, or_nothing, initial_trail, stamps, transition,
}

-- The fields of the body that the handler reads.
pub record TransferRequest : Type 0 where
  pub currency : Option String
  pub instructing_party_id : Option String
  pub cbdc_request_type : Option String
  pub isd : Option String
  pub supplementary_data : Option String
  pub instruction_id : Option String
  pub amount_transferred : Option String
  pub credited_cash_wallet_alias : Option String
  pub debited_cash_wallet_alias : Option String
  pub debited_cash_wallet_manager_id : Option String
  pub credited_cash_wallet_manager_id : Option String
  pub on_behalf_user : Option String
  pub operation_context : Option String
  pub funding_request_id : Option String
  pub payment_instruction_id : Option String

-- The fields of `transferView` that are not constants.
pub record TransferView : Type 0 where
  pub instruction_id : String
  pub etats_ux : String
  pub amount_transferred : String
  pub currency : String
  pub credited_cash_wallet_alias : String
  pub debited_cash_wallet_alias : String
  pub credited_cash_wallet_manager_id : Option String
  pub debited_cash_wallet_manager_id : Option String
  pub credited_network_id : String
  pub debited_network_id : String
  pub sender_id : Option String
  pub instructing_party_id : Option String
  pub on_behalf_user : Option String
  pub cbdc_request_type : Option String
  pub operation_context : Option String
  pub isd : Option String
  pub isd_timestamp : Option ℕ
  pub funding_request_id : Option String
  pub payment_instruction_id : Option String
  pub tech_cbdc_operation_id : Option String
  pub historic_status : Option (List String)
  pub timestamps : Option (Dict Stamp)
  pub creation_date : String
  pub initiator_user_uuid : Option String
  pub approver_user_uuid : Option String
  pub supplementary_data : Option String

unfoldable pub transfer_view : String → Option String → Store → Draft → TransferView
transfer_view network override s d = record {
  instruction_id = d.id;
  etats_ux = or_else override (status_text d.status);
  amount_transferred = d.amount;
  currency = d.currency;
  credited_cash_wallet_alias = d.credited_wallet_alias;
  debited_cash_wallet_alias = d.debited_wallet_alias;
  credited_cash_wallet_manager_id = d.credited_cash_wallet_manager_id;
  debited_cash_wallet_manager_id = d.debited_cash_wallet_manager_id;
  credited_network_id = network;
  debited_network_id = network;
  sender_id = d.debited_cash_wallet_manager_id;
  instructing_party_id = d.instructing_party_id;
  on_behalf_user = d.carried.on_behalf_user;
  cbdc_request_type = d.cbdc_request_type;
  operation_context = d.operation_context;
  isd = d.carried.isd;
  isd_timestamp = d.carried.isd_timestamp;
  funding_request_id = d.funding_request_id;
  payment_instruction_id = d.carried.payment_instruction_id;
  tech_cbdc_operation_id = d.carried.tech_cbdc_operation_id;
  historic_status = d.historic_status;
  timestamps = d.timestamps;
  creation_date = (get_business_day s).business_date;
  initiator_user_uuid = d.initiator_user_uuid;
  approver_user_uuid = d.approver_user_uuid;
  supplementary_data = d.supplementary_data;
}

-- `IMS_TYPE_BY_DRAFT_TYPE`, which has no entry for an XvP
abbrev ims_type : DraftType → Option String
ims_type funding = some "ISSUANCE"
ims_type defunding = some "REDEMPTION"
ims_type transfer = some "TRANSFER"
ims_type direct_rtgs = some "PAYMENT"
ims_type pfod = some "PAYMENT"
ims_type xvp = none

-- The fields of `imsTransactionView` that are not constants, aliases aside.
pub record ImsView : Type 0 where
  pub instruction_lt_id : String
  pub type : Option String
  pub etats_ux : String
  pub amount_transferred : String
  pub currency : String
  pub credited_cash_wallet_alias : String
  pub credited_cash_wallet_manager_id : Option String
  pub credited_cash_wallet_owner_id : String
  pub credited_network_id : String
  pub debited_cash_wallet_alias : String
  pub debited_cash_wallet_manager_id : Option String
  pub debited_network_id : String
  pub creation_date : String
  pub funding_request_id : Option String
  pub historic_status : Option (List String)
  pub initiator_user_name : String
  pub initiator_user_uuid : String
  pub instructing_party_id : Option String
  pub on_behalf_owner : Option String
  pub operation_context : Option String
  pub request_type : Option String
  pub sender_id : Option String
  pub settlement_date : String
  pub settlement_time : String
  pub supplementary_data : Option String
  pub timestamps : Dict Stamp
  pub approver_user_name : String
  pub approver_user_uuid : String
  pub payment_instruction_id : Option String
  pub tech_cbdc_operation_id : Option String
  pub isd : Option String
  pub isd_timestamp : Option ℕ

abbrev pub is_settled : DraftStatus → Bool
is_settled settled = true
is_settled _ = false

unfoldable pub ims_transaction_view : String → Store → Draft → ImsView
ims_transaction_view network s d = record {
  instruction_lt_id = d.id;
  type = ims_type d.type;
  etats_ux = status_text d.status;
  amount_transferred = d.amount;
  currency = d.currency;
  credited_cash_wallet_alias = d.credited_wallet_alias;
  credited_cash_wallet_manager_id = d.credited_cash_wallet_manager_id;
  credited_cash_wallet_owner_id = or_else d.carried.credited_cash_wallet_owner_id "";
  credited_network_id = network;
  debited_cash_wallet_alias = d.debited_wallet_alias;
  debited_cash_wallet_manager_id = d.debited_cash_wallet_manager_id;
  debited_network_id = network;
  creation_date = d.created_at;
  funding_request_id = d.funding_request_id;
  historic_status = d.historic_status;
  initiator_user_name = or_else d.carried.initiator_user_name "";
  initiator_user_uuid = or_else d.initiator_user_uuid "";
  instructing_party_id = d.instructing_party_id;
  on_behalf_owner = d.carried.on_behalf_user;
  operation_context = d.operation_context;
  request_type = d.cbdc_request_type;
  sender_id = d.debited_cash_wallet_manager_id;
  settlement_date = if is_settled d.status then (get_business_day s).business_date else "";
  settlement_time = if is_settled d.status then d.updated_at else "";
  supplementary_data = d.supplementary_data;
  timestamps = or_else d.timestamps [];
  approver_user_name = or_else d.approver_user_name "";
  approver_user_uuid = or_else d.approver_user_uuid "";
  payment_instruction_id = d.carried.payment_instruction_id;
  tech_cbdc_operation_id = d.carried.tech_cbdc_operation_id;
  isd = d.carried.isd;
  isd_timestamp = d.carried.isd_timestamp;
}

abbrev pub is_not_xvp : Draft → Bool
is_not_xvp d = not (same_type d.type xvp)

-- `GET ims/transactions`
unfoldable pub list_transactions : String → AuthContext → Store → List ImsView
unfolding entity_caller
list_transactions network auth s =
    map (ims_transaction_view network s) (filter is_not_xvp (get_drafts (entity_caller auth) s))

abbrev draft_not_found : String → Rejection
draft_not_found id = record {
  status_code = 404;
  error_code = "HL-GER-001";
  error_description = "Draft " ++ id ++ " not found";
}

-- the answer to `GET rvs/transactions-drafts/:id` after the lookup
transfer_answer : String → String → Option Draft → Exec Store TransferView
transfer_answer network id none = throw (rejected (draft_not_found id))
transfer_answer network id (some d) =
    if not (same_type d.type transfer)
    then throw (rejected (draft_not_found id))
    else gets (λ s. transfer_view network none s d)

-- `GET rvs/transactions-drafts/:id`
unfoldable read_transfer : String → AuthContext → String → Exec Store TransferView
unfolding transfer_answer entity_caller
read_transfer network auth id = do
  found ← gets (get_draft id (entity_caller auth))
  transfer_answer network id found

-- `!body.currency || body.currency !== "EUR"` and the like
abbrev is_not : Option String → String → Bool
is_not o s = not (is_text o s)

-- `!caller?.entityBIC || body.instructingPartyID !== caller.entityBIC`
abbrev is_foreign : Option Caller → Option String → Bool
is_foreign none party = true
is_foreign (some c) none = true
is_foreign (some c) (some party) = not (given c.entity_bic) || not (is_text c.entity_bic party)

module _ ⦃js : Platform⦄ where
  -- The tests on the body, in their order.
  unfoldable pub check_transfer : AuthContext → TransferRequest → Exec Store (Unit {0})
  unfolding entity_caller
  check_transfer auth q = do
    throw_if (is_not q.currency "EUR") (validation_error "currency is required and must be 'EUR'")
    throw_if (is_foreign (entity_caller auth) q.instructing_party_id)
        (validation_error "instructingPartyID must match the authenticated caller")
    throw_if (is_not q.cbdc_request_type "PAYMENT" && is_not q.cbdc_request_type "OPERATION")
        (validation_error "cbdcRequestType must be 'PAYMENT' or 'OPERATION'")
    today ← gets (λ s. (get_business_day s).business_date)
    throw_if (given q.isd && is_not q.isd today)
        (validation_error ("ISD must be the current business date (" ++ today ++ ")"))
    refuse_with (supplementary_data_error q.supplementary_data)

  unfoldable pub transfer_init :
      AuthContext → TransferRequest → String → String → Moment → WorkflowInit
  transfer_init auth q id today m = record {
    id = id;
    amount = or_text q.amount_transferred "0.00";
    currency = some "EUR";
    credited_wallet_alias = or_text q.credited_cash_wallet_alias "";
    debited_wallet_alias = or_text q.debited_cash_wallet_alias "";
    initiator_user_uuid = auth.user_uuid;
    supplementary_data = q.supplementary_data;
    debited_cash_wallet_manager_id = q.debited_cash_wallet_manager_id;
    credited_cash_wallet_manager_id = q.credited_cash_wallet_manager_id;
    instructing_party_id = q.instructing_party_id;
    cbdc_request_type = q.cbdc_request_type;
    operation_context = q.operation_context;
    funding_request_id = q.funding_request_id;
    historic_status = some initial_trail;
    timestamps =
        some
          (stamps initial_trail (record { calendar_date = js.iso m.now; business_date = today }));
    carried = record nothing_carried {
      on_behalf_user = q.on_behalf_user;
      isd = or_nothing q.isd;
      payment_instruction_id = q.payment_instruction_id;
      tech_cbdc_operation_id = some m.uuid;
    };
  }

  abbrev pub creator : AuthContext → Actor
  creator auth = record {
    caller = entity_caller auth;
    approver_user_uuid = auth.user_uuid;
    approver_user_name = none;
  }

  -- `{ caller }`, the second argument that `create` gets where the handler passes one
  abbrev pub nobody : Actor
  nobody = record { caller = none; approver_user_uuid = none; approver_user_name = none }

  -- The creation under the minted identifier, and its answer.
  store_transfer :
      String
      → AuthContext
      → TransferRequest
      → Moment
      → String
      → String
      → Exec Store (Reply TransferView)
  unfolding transfer_init
  store_transfer network auth q m today id = do
    d ← create transfer_workflow (transfer_init auth q id today m) nobody m
    view ← gets (λ s. transfer_view network (some "INITIALIZED") s d)
    pure (record { status_code = 201; body = view })

  -- `POST rvs/transactions-requests`
  unfoldable pub create_transfer :
      String → AuthContext → TransferRequest → Moment → Exec Store (Reply TransferView)
  unfolding check_transfer store_transfer
  create_transfer network auth q m = do
    check_transfer auth q
    today ← gets (λ s. (get_business_day s).business_date)
    id ← resolve_draft_id m.now "TR" q.instruction_id
    store_transfer network auth q m today id

  -- `PUT rvs/transactions-drafts/:id/:status`
  unfoldable transition_transfer : AuthContext → String → String → Moment → Exec Store String
  transition_transfer auth id status m =
      transition status (approve transfer_workflow id (creator auth) m)
        (cancel transfer_workflow id m) (bad_transition status)
        "Cash Token Transaction Draft Approved Succesfully"
        "Cash Token Transaction Draft Cancelled Succesfully"
