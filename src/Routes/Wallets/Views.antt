-- ===== src/Routes/Wallets/Views.antt =====
-- The views of routes/wallets.ts, and the lookup of state/grs-entities.ts in the data file of market
-- participants. That file is a parameter, as are the base64 SHA-256 of a text and the runtime's upper
-- and lower case.
use mock_pontes.Base.{
  ℕ, String, ◌++◌, ◌==◌, Bool, Option, none, some, List, map, if◌then◌else◌, or_else,
}
use mock_pontes.Base.Lists.{find}
use mock_pontes.Base.Text.{slice_text}
use mock_pontes.Platform.{Platform}
use mock_pontes.Result.{Result, ok, err}
use mock_pontes.State.Types.{Wallet, Transaction, DraftType, Caller, funding, defunding, no_caller}
use mock_pontes.State.Record.{Store}
use mock_pontes.State.Store.{get_wallet}
use mock_pontes.State.Dcw.{total_of}
use mock_pontes.Http.{AuthContext, entity_caller}
use mock_pontes.Routes.Funding.{Issuance}

-- What the code reads of a `GrsEntity`.
pub record GrsEntity : Type 0 where
  pub id : String
  pub entity_id : String
  pub name : String
  pub country_code : String
  pub instructing_party_id : String

pub record Directory : Type 0 where
  pub entities : List GrsEntity
  pub sha256_base64 : String → String
  pub upper : String → String
  pub lower : String → String

by_entity_id : String → List GrsEntity → Option GrsEntity → Option GrsEntity
by_entity_id entity_id entities (some e) = some e
by_entity_id entity_id entities none = find (λ e. e.entity_id == entity_id) entities

-- `getGrsEntity`
unfoldable get_grs_entity : ⦃dir : Directory⦄ → String → Option GrsEntity
unfolding by_entity_id
get_grs_entity ⦃dir⦄ entity_id =
    by_entity_id entity_id dir.entities (find (λ e. e.id == entity_id) dir.entities)

-- `callerOf`, which answers `{}` without an entity
unfoldable pub wallet_caller : AuthContext → Caller
wallet_caller auth = or_else (entity_caller auth) no_caller

abbrev operation_type : DraftType → String
operation_type funding = "Issuance"
operation_type defunding = "Redemption"
operation_type _ = "Transfer"

pub record Party : Type 0 where
  pub owner : Option String
  pub manager : Option String

party_of : Issuance → String → Option Wallet → Party
party_of iss alias (some w) = record { owner = some w.owner_bic; manager = some w.manager_ncb }
party_of iss alias none =
    if alias == iss.issuance_alias
    then record { owner = some iss.issuance_bic; manager = some iss.issuance_bic }
    else record { owner = none; manager = none }

unfoldable move_party : Issuance → String → Store → Party
unfolding party_of
move_party iss alias s = party_of iss alias (get_wallet alias none s)

-- The fields of `toSettlement` that are not constants.
pub record SettlementView : Type 0 where
  pub settlement_id : String
  pub operation_type : String
  pub amount : String
  pub currency : String
  pub move_direction : String
  pub move_source : String
  pub move_source_owner : Option String
  pub move_source_manager : Option String
  pub move_destination : String
  pub move_destination_owner : Option String
  pub move_destination_manager : Option String
  pub credited_network : String
  pub debited_network : String
  pub funding_request_id : String
  pub instructing_id : String
  pub operation_context : String
  pub settlement_date : String
  pub settlement_time : String
  pub supplementary_data : Option String

unfoldable pub to_settlement : Issuance → String → Transaction → String → Store → SettlementView
unfolding move_party slice_text
to_settlement iss network tx alias s =
    let credited = move_party iss tx.credited_wallet_alias s in
    let debited = move_party iss tx.debited_wallet_alias s in
    let settled_at = or_else tx.settled_at tx.created_at in
    record {
      settlement_id = tx.id;
      operation_type = operation_type tx.type;
      amount = tx.amount;
      currency = tx.currency;
      move_direction = if alias == tx.credited_wallet_alias then "CDIT" else "DBIT";
      move_source = tx.debited_wallet_alias;
      move_source_owner = debited.owner;
      move_source_manager = debited.manager;
      move_destination = tx.credited_wallet_alias;
      move_destination_owner = credited.owner;
      move_destination_manager = credited.manager;
      credited_network = network;
      debited_network = network;
      funding_request_id = or_else tx.funding_request_id "";
      instructing_id = or_else tx.instructing_party_id "";
      operation_context = or_else tx.operation_context "";
      settlement_date = slice_text 0 10 settled_at;
      settlement_time = settled_at;
      supplementary_data = tx.supplementary_data;
    }

-- An entry of `POAs`, and the one of `t2AccountWalletLinks`, constants left out.
pub record PoaView : Type 0 where
  pub wallet_alias : String
  pub wallet_owner_id : String
  pub wallet_manager_id : String
  pub poa_entity_id : String
  pub valid_from : String
  pub valid_to : String

-- The fields of `toWalletResponse` that are not constants.
pub record WalletView : Type 0 where
  pub wallet_alias : String
  pub owner_entity_id : String
  pub owner_bic : String
  pub manager_ncb : String
  pub balance : String
  pub available_balance : String
  pub locked_balance : String
  pub total_balance : String
  pub currency : String
  pub created_at : String
  pub valid_from : String
  pub valid_to : String
  pub accepted_business_date : String
  pub last_updated : ℕ
  pub fabflow_wallet_id : String
  pub holding_id : String
  pub manager_name : String
  pub owner_name : String
  pub t2_account_reference : String
  pub country_code : String
  pub is_blocked : Bool
  pub poas : List PoaView
  pub is_main_wallet : Bool
  pub instructing_party_id : String

poa_view : Wallet → String → PoaView
poa_view w entity = record {
  wallet_alias = w.alias;
  wallet_owner_id = w.owner_entity_id;
  wallet_manager_id = w.manager_ncb;
  poa_entity_id = entity;
  valid_from = w.valid_from;
  valid_to = or_else w.valid_to "";
}

-- `e?.f ?? ""`
abbrev entity_text : Option GrsEntity → (GrsEntity → String) → String
entity_text none f = ""
entity_text (some e) f = f e

module _ ⦃js : Platform⦄ ⦃dir : Directory⦄ where
  wallet_view_with : Wallet → js.Num → WalletView
  unfolding poa_view
  wallet_view_with w total =
      let owner = get_grs_entity w.owner_entity_id in
      let manager = get_grs_entity w.manager_ncb in
      record {
        wallet_alias = w.alias;
        owner_entity_id = w.owner_entity_id;
        owner_bic = w.owner_bic;
        manager_ncb = w.manager_ncb;
        balance = w.balance;
        available_balance = w.balance;
        locked_balance = w.locked_balance;
        total_balance = js.to_fixed total;
        currency = w.currency;
        created_at = w.created_at;
        valid_from = w.valid_from;
        valid_to = or_else w.valid_to "";
        accepted_business_date = slice_text 0 10 w.created_at;
        last_updated = or_else (js.date_ms w.created_at) 0;
        fabflow_wallet_id = dir.sha256_base64 w.alias;
        holding_id = w.alias ++ "-" ++ w.currency ++ "-AVAILABLE";
        manager_name = entity_text manager (λ (e : GrsEntity). e.name);
        owner_name = entity_text owner (λ (e : GrsEntity). e.name);
        t2_account_reference = "DCA_ACCOUNT_" ++ w.owner_entity_id;
        country_code = entity_text owner (λ (e : GrsEntity). e.country_code);
        is_blocked = w.is_blocked;
        poas = map (poa_view w) w.poa_grantees;
        is_main_wallet = w.is_main_wallet;
        instructing_party_id = entity_text owner (λ (e : GrsEntity). e.instructing_party_id);
      }

  -- `toWalletResponse`: `totalOf` throws where a balance is no number.
  unfoldable pub to_wallet_response : Wallet → Result WalletView
  unfolding wallet_view_with poa_view get_grs_entity slice_text
  to_wallet_response w = elim (total_of w) [ ok n ↦ ok (wallet_view_with w n) | err e ↦ err e ]
