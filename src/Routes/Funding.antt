-- ===== src/Routes/Funding.antt =====
-- routes/funding.ts and state/issuance-wallet.ts: funding credits a wallet out of the issuance wallet,
-- which is no stored wallet, and defunding debits one. The configured issuance wallet is a parameter.
pub mod Views
use mock_pontes.Base.{
  ℕ, String, ◌++◌, Bool, not, ◌&&◌, Option, none, some, List, [], if◌then◌else◌, given, truthy,
  or_else, or_text,
}
use mock_pontes.Base.Dict.{Dict}
use mock_pontes.Platform.{Platform}
use mock_pontes.Result.{Rejection, rejected, ok}
use mock_pontes.Exec.{Exec, pure, throw, gets, modify, ◌>>=◌, ◌>>◌}
use mock_pontes.State.Types.{
  Draft, DraftType, Stamp, Caller, Wallet, CreateDcwOptions, funding, defunding, nothing_carried,
}
use mock_pontes.State.Record.{Store, get_business_day}
use mock_pontes.State.Store.{get_draft, get_wallet, ensure_wallet, next_id}
use mock_pontes.Workflow.{
  WorkflowInit, Actor, Moment, create, approve, cancel, status_text, same_type,
}
use mock_pontes.Kinds.{funding_workflow, defunding_workflow}
use mock_pontes.Http.{Reply, AuthContext, entity_caller}
use mock_pontes.Routes.{initial_trail, stamps, transition}
use mock_pontes.Routes.Transfers.{is_settled, nobody}
use mock_pontes.Routes.Funding.Views.{ReadView, funding_read_view}

-- `ISSUANCE_WALLET_BIC` and `ISSUANCE_WALLET_ALIAS`
pub record Issuance : Type 0 where
  pub issuance_bic : String
  pub issuance_alias : String

pub record FundingRequest : Type 0 where
  pub amount : Option String
  pub currency : Option String
  pub credited_cash_wallet_alias : Option String
  pub debited_cash_wallet_alias : Option String
  pub credited_cash_wallet_manager_id : Option String
  pub credited_cash_wallet_owner_id : Option String
  pub debited_cash_wallet_manager_id : Option String
  pub debited_cash_wallet_owner_id : Option String
  pub tech_fund_request_id : Option String
  pub instructing_party_id : Option String
  pub signature : Option String
  pub signer_pem : Option String
  -- where it is a number
  pub last_updated : Option ℕ

-- The fields of the answers to the creations that are not constants.
pub record CreatedView : Type 0 where
  pub id : String
  pub status : String
  pub last_updated : ℕ
  pub initiator_user_uuid : Option String
  pub tech_fund_request_id : Option String
  pub instructing_party_id : String
  pub amount : String
  pub currency : String
  pub type : String
  pub credited_cash_wallet_alias : String
  pub credited_cash_wallet_manager_id : String
  pub credited_cash_wallet_owner_id : String
  pub debited_cash_wallet_alias : String
  pub debited_cash_wallet_manager_id : String
  pub debited_cash_wallet_owner_id : String
  pub signature : String
  pub signer_pem : String
  pub defunding_request_type : String

abbrev request_not_found : String → Rejection
request_not_found id = record {
  status_code = 404;
  error_code = "";
  error_description = "Request " ++ id ++ " not found";
}

-- Without a code, which the normalisation of error answers fills in.
abbrev unsupported : String → Rejection
unsupported status = record {
  status_code = 400;
  error_code = "";
  error_description = "Unsupported status transition '" ++ status ++ "'";
}

read_answer : Bool → String → Option Draft → Exec Store ReadView
read_answer rich id none = throw (rejected (request_not_found id))
read_answer rich id (some d) =
    if not (same_type d.type funding) && not (same_type d.type defunding)
    then throw (rejected (request_not_found id))
    else gets (λ s. funding_read_view rich s d)

-- `GET tms/funding-defunding-requests-drafts/:id`, and the rich `GET tms/funding-defunding-requests/:id`
unfoldable read_funding : Bool → AuthContext → String → Exec Store ReadView
unfolding read_answer entity_caller
read_funding rich auth id = do
  found ← gets (get_draft id (entity_caller auth))
  read_answer rich id found

-- The actor of an approval, without a caller for funding.
abbrev pub approver : Option Caller → AuthContext → Actor
approver caller auth = record {
  caller = caller;
  approver_user_uuid = auth.user_uuid;
  approver_user_name = auth.username;
}

module _ ⦃js : Platform⦄ where
  abbrev owned_options : String → String → String → CreateDcwOptions
  owned_options owner manager currency = record {
    owner_entity_id = some owner;
    owner_bic = some owner;
    manager_ncb = some manager;
    currency = some currency;
    is_main_wallet = none;
    available_balance = none;
    locked_balance = none;
    valid_from = none;
    valid_to = none;
  }

  create_missing : ℕ → String → String → String → String → Option Wallet → Store → Store
  create_missing now alias owner manager currency (some w) s = s
  create_missing now alias owner manager currency none s =
      (ensure_wallet now alias (owned_options owner manager currency) s).1

  -- `ensureWallet` of the module
  unfoldable ensure_funded_wallet : ℕ → String → String → String → String → Store → Store
  unfolding create_missing
  ensure_funded_wallet now alias owner manager currency s =
      if not (truthy alias)
      then s
      else create_missing now alias owner manager currency (get_wallet alias none s) s

  -- `if (caller?.entityBIC) ensureWallet(...)`
  unfoldable ensure_for : ℕ → Option Caller → FundingRequest → Store → Store
  unfolding ensure_funded_wallet
  ensure_for now none q s = s
  ensure_for now (some c) q s =
      if given c.entity_bic
      then ensure_funded_wallet now (or_else q.credited_cash_wallet_alias "")
          (or_else c.entity_bic "") (or_text q.credited_cash_wallet_manager_id "UNKNOWN")
          (or_text q.currency "EUR") s
      else s

  unfoldable funding_init :
      Issuance → AuthContext → FundingRequest → String → String → Moment → WorkflowInit
  funding_init iss auth q id today m = record {
    id = id;
    amount = or_text q.amount "0.00";
    currency = some "EUR";
    credited_wallet_alias = or_text q.credited_cash_wallet_alias "";
    debited_wallet_alias = iss.issuance_alias;
    initiator_user_uuid = auth.user_uuid;
    supplementary_data = none;
    debited_cash_wallet_manager_id =
        some (or_text q.debited_cash_wallet_manager_id iss.issuance_bic);
    credited_cash_wallet_manager_id = q.credited_cash_wallet_manager_id;
    instructing_party_id = q.instructing_party_id;
    cbdc_request_type = none;
    operation_context = none;
    funding_request_id = none;
    historic_status = some initial_trail;
    timestamps =
        some
          (stamps initial_trail (record { calendar_date = js.iso m.now; business_date = today }));
    carried = record nothing_carried {
      initiator_user_name = auth.username;
      tech_fund_request_id = q.tech_fund_request_id;
      signature = q.signature;
      signer_pem = q.signer_pem;
      credited_cash_wallet_owner_id = q.credited_cash_wallet_owner_id;
      debited_cash_wallet_owner_id = some (or_text q.debited_cash_wallet_owner_id iss.issuance_bic);
    };
  }

  unfoldable defunding_init :
      Issuance → AuthContext → FundingRequest → String → String → Moment → WorkflowInit
  defunding_init iss auth q id today m = record {
    id = id;
    amount = or_text q.amount "0.00";
    currency = some "EUR";
    credited_wallet_alias = iss.issuance_alias;
    debited_wallet_alias = or_text q.debited_cash_wallet_alias "";
    initiator_user_uuid = auth.user_uuid;
    supplementary_data = none;
    debited_cash_wallet_manager_id = q.debited_cash_wallet_manager_id;
    credited_cash_wallet_manager_id = some iss.issuance_bic;
    instructing_party_id = q.instructing_party_id;
    cbdc_request_type = none;
    operation_context = none;
    funding_request_id = none;
    historic_status = some initial_trail;
    timestamps =
        some
          (stamps initial_trail (record { calendar_date = js.iso m.now; business_date = today }));
    carried = record nothing_carried {
      initiator_user_name = auth.username;
      tech_fund_request_id = q.tech_fund_request_id;
      signature = q.signature;
      signer_pem = q.signer_pem;
      credited_cash_wallet_owner_id = some iss.issuance_bic;
      debited_cash_wallet_owner_id = q.debited_cash_wallet_owner_id;
    };
  }

  unfoldable funding_created : Issuance → FundingRequest → Moment → Draft → CreatedView
  funding_created iss q m d = record {
    id = d.id;
    status = status_text d.status;
    last_updated = or_else q.last_updated m.now;
    initiator_user_uuid = d.initiator_user_uuid;
    tech_fund_request_id = q.tech_fund_request_id;
    instructing_party_id = or_text q.instructing_party_id "";
    amount = d.amount;
    currency = d.currency;
    type = "FUNDING";
    credited_cash_wallet_alias = d.credited_wallet_alias;
    credited_cash_wallet_manager_id = or_text q.credited_cash_wallet_manager_id "";
    credited_cash_wallet_owner_id = or_text q.credited_cash_wallet_owner_id "";
    debited_cash_wallet_alias = d.debited_wallet_alias;
    debited_cash_wallet_manager_id = or_text q.debited_cash_wallet_manager_id iss.issuance_bic;
    debited_cash_wallet_owner_id = or_text q.debited_cash_wallet_owner_id iss.issuance_bic;
    signature = or_text q.signature "";
    signer_pem = or_text q.signer_pem "";
    defunding_request_type = "";
  }

  unfoldable defunding_created : Issuance → FundingRequest → Moment → Draft → CreatedView
  defunding_created iss q m d = record {
    id = d.id;
    status = status_text d.status;
    last_updated = or_else q.last_updated m.now;
    initiator_user_uuid = d.initiator_user_uuid;
    tech_fund_request_id = some (or_text q.tech_fund_request_id "");
    instructing_party_id = or_text q.instructing_party_id "";
    amount = d.amount;
    currency = d.currency;
    type = "DEFUNDING";
    credited_cash_wallet_alias = d.credited_wallet_alias;
    credited_cash_wallet_manager_id = iss.issuance_bic;
    credited_cash_wallet_owner_id = iss.issuance_bic;
    debited_cash_wallet_alias = d.debited_wallet_alias;
    debited_cash_wallet_manager_id = or_text q.debited_cash_wallet_manager_id "";
    debited_cash_wallet_owner_id = or_text q.debited_cash_wallet_owner_id "";
    signature = or_text q.signature "";
    signer_pem = or_text q.signer_pem "";
    defunding_request_type = "D";
  }

  -- `store.nextId(prefix)`
  abbrev mint_id : ℕ → String → Exec Store String
  mint_id now prefix s = let (id, t) = next_id now prefix s in (ok id, t)

  abbrev calling : Option Caller → Actor
  calling caller = record { caller = caller; approver_user_uuid = none; approver_user_name = none }

  -- `POST tms/funding-requests`
  unfoldable create_funding :
      Issuance → AuthContext → FundingRequest → Moment → Exec Store (Reply CreatedView)
  unfolding ensure_for funding_init funding_created entity_caller
  create_funding iss auth q m = do
    id ← mint_id m.now "FRQ"
    modify (ensure_for m.now (entity_caller auth) q)
    today ← gets (λ s. (get_business_day s).business_date)
    d ←
        create funding_workflow (funding_init iss auth q id today m) (calling (entity_caller auth))
          m
    pure (record { status_code = 201; body = funding_created iss q m d })

  -- `POST tms/defunding-requests`
  unfoldable create_defunding :
      Issuance → AuthContext → FundingRequest → Moment → Exec Store (Reply CreatedView)
  unfolding defunding_init defunding_created
  create_defunding iss auth q m = do
    id ← mint_id m.now "DRQ"
    today ← gets (λ s. (get_business_day s).business_date)
    d ← create defunding_workflow (defunding_init iss auth q id today m) nobody m
    pure (record { status_code = 201; body = defunding_created iss q m d })

  -- `PUT tms/funding-requests-drafts/:id/:status`
  unfoldable transition_funding : AuthContext → String → String → Moment → Exec Store String
  transition_funding auth id status m =
      transition status (approve funding_workflow id (approver none auth) m)
        (cancel funding_workflow id m) (unsupported status)
        "Funding Request Draft Approved Succesfully" "Funding Request Draft Cancelled Succesfully"

  -- `PUT tms/defunding-requests-drafts/:id/:status`
  unfoldable transition_defunding : AuthContext → String → String → Moment → Exec Store String
  unfolding entity_caller
  transition_defunding auth id status m =
      transition status (approve defunding_workflow id (approver (entity_caller auth) auth) m)
        (cancel defunding_workflow id m) (unsupported status)
        "Defunding Request Draft Approved Successfully"
        "Defunding Request Draft Cancelled Successfully"
