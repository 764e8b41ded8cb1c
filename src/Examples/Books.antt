-- ===== src/Examples/Books.antt =====
-- A small set of books: two wallets, a transfer that awaits approval, one that names no wallet to
-- credit, and a draft that is settled.
use mock_pontes.Base.{String, false, none, some, [], ◌∷◌}
use mock_pontes.State.Types.{
  Wallet, Draft, DraftStatus, Caller, pending_approval, transfer, nothing_carried,
}
use mock_pontes.State.Record.{Store, default_business_day, official_ncbs}
use mock_pontes.Workflow.{Moment, Actor}

abbrev pub wallet : String → String → String → Wallet
wallet alias owner balance = record {
  alias = alias;
  owner_bic = owner;
  owner_entity_id = owner;
  manager_ncb = "BDF";
  balance = balance;
  locked_balance = "0.50";
  currency = "EUR";
  is_main_wallet = false;
  is_blocked = false;
  valid_from = "2024-01-01";
  valid_to = none;
  poa_grantees = "AGENTFRPP" ∷ [];
  whitelisted_operators = [];
  created_at = "2024-01-01";
}

abbrev pub draft : String → DraftStatus → String → Draft
draft id status credited = record {
  id = id;
  type = transfer;
  status = status;
  amount = "1.25";
  currency = "EUR";
  credited_wallet_alias = credited;
  debited_wallet_alias = "ALPHA";
  created_at = "2024-02-01";
  updated_at = "2024-02-01";
  initiator_user_uuid = some "maker";
  approver_user_uuid = none;
  expires_at = none;
  supplementary_data = none;
  debited_cash_wallet_manager_id = none;
  credited_cash_wallet_manager_id = none;
  instructing_party_id = none;
  cbdc_request_type = none;
  operation_context = none;
  funding_request_id = none;
  historic_status = some ("PENDING_APPROVAL" ∷ []);
  timestamps = none;
  approver_user_name = none;
  carried = nothing_carried;
}

abbrev pub books : Store
books = record {
  wallets =
      ("ALPHA", wallet "ALPHA" "BANKFRPP" "5.00") ∷ ("BETA", wallet "BETA" "BANKDEFF" "2.50") ∷ [];
  transactions = [];
  drafts =
      ("T1", draft "T1" pending_approval "BETA")
      ∷ ("T2", draft "T2" pending_approval "")
      ∷ ("T3", draft "T3" DraftStatus.settled "BETA")
      ∷ [];
  sequences = [];
  business_window = default_business_day "2024-02-01";
  valid_ncbs = official_ncbs;
  cache = none;
}

abbrev pub payer : Caller
payer = record { entity_bic = some "BANKFRPP"; market_dlt_operator = none }

abbrev pub checker : Actor
checker = record {
  caller = some payer;
  approver_user_uuid = some "checker";
  approver_user_name = none;
}

abbrev pub moment : Moment
moment = record { now = 20240202; uuid = "f00d" }
