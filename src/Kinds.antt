-- ===== src/Kinds.antt =====
-- The concrete workflows: workflows/transfer.ts, direct-rtgs.ts, payment.ts, funding.ts and pfod.ts.
pub mod Lawful
pub mod Conservation
pub mod Atomicity
pub mod Refinement
pub mod Payments
use mock_pontes.Base.{
  String, ◌++◌, ◌==◌, Bool, true, false, not, ◌&&◌, Option, none, some, if◌then◌else◌, or_else,
  given, is_text,
}
use mock_pontes.Platform.{Platform}
use mock_pontes.Result.{Rejection, rejected}
use mock_pontes.Exec.{Exec, pure, throw, throw_if, gets, ◌>>=◌, ◌>>◌}
use mock_pontes.State.Types.{
  Wallet, Draft, Caller, Verdict, funding, defunding, transfer, direct_rtgs, pfod, no_caller,
}
use mock_pontes.State.Record.{Store}
use mock_pontes.State.Store.{get_wallet, store_can_debit}
use mock_pontes.Workflow.{Workflow, Phase, Moment, checked_debit, raw_credit, rejection_for}

-- The defaults of the abstract class.
abbrev no_conditions : Phase → Draft → Option Caller → Moment → Exec Store (Unit {0})
no_conditions _ _ _ _ = pure tt

abbrev default_transaction_id : Draft → Moment → String
default_transaction_id d _ = "TX-" ++ d.id

abbrev manager_rejection : String → String → Rejection
manager_rejection code why = record {
  status_code = 400;
  error_code = code;
  error_description = why;
}

-- `w && id && id !== w.managerNCB`
abbrev manager_differs : Option Wallet → Option String → Bool
manager_differs none id = false
manager_differs (some w) id = given id && not (is_text id w.manager_ncb)

-- the tests on `cbdcRequestType`, where both wallets are there
unfoldable pub request_type_matches :
    Option Wallet → Option Wallet → Option String → Exec Store (Unit {0})
request_type_matches (some debited) (some credited) request_type = do
  let same_manager = debited.manager_ncb == credited.manager_ncb
  throw_if (is_text request_type "OPERATION" && not same_manager) (
      manager_rejection "HL-WAL-006"
        "cbdcRequestType OPERATION requires the debited and credited wallets to share the same manager")
  throw_if (is_text request_type "PAYMENT" && same_manager) (
      manager_rejection "HL-WAL-006"
        "cbdcRequestType PAYMENT requires the debited and credited wallets to have different managers")
request_type_matches none credited request_type = pure tt
request_type_matches (some debited) none request_type = pure tt

unfoldable pub transfer_conditions : Phase → Draft → Option Caller → Moment → Exec Store (Unit {0})
transfer_conditions Phase.create d _ _ = do
  debited ← gets (get_wallet d.debited_wallet_alias none)
  credited ← gets (get_wallet d.credited_wallet_alias none)
  throw_if (manager_differs debited d.debited_cash_wallet_manager_id) (
      manager_rejection "HL-WAL-004" (
        "Debited cash wallet "
        ++ d.debited_wallet_alias
        ++ " is not managed by "
        ++ or_else d.debited_cash_wallet_manager_id "undefined"))
  throw_if (manager_differs credited d.credited_cash_wallet_manager_id) (
      manager_rejection "HL-WAL-005" (
        "Credited cash wallet "
        ++ d.credited_wallet_alias
        ++ " is not managed by "
        ++ or_else d.credited_cash_wallet_manager_id "undefined"))
  request_type_matches debited credited d.cbdc_request_type
transfer_conditions _ d _ _ = pure tt

-- `if (!permitted.ok) throw this.rejectionFor(...)`
require_permit : Verdict → String → Exec Store (Unit {0})
require_permit v alias =
    if v.ok
    then pure tt
    else throw (rejected (rejection_for (or_else v.reason "NOT_AUTHORISED_TO_DEBIT") alias))

module _ ⦃js : Platform⦄ where
  -- Debit the source, checked, then credit the target.
  unfoldable pub move_funds : Draft → Option Caller → Moment → Exec Store (Unit {0})
  move_funds d caller m =
      checked_debit d.debited_wallet_alias d.amount caller m
      >> raw_credit d.credited_wallet_alias d.amount

  unfoldable pub funding_conditions : Phase → Draft → Option Caller → Moment → Exec Store (Unit {0})
  unfolding require_permit
  funding_conditions Phase.create d caller m = do
    permitted ← gets (store_can_debit m.now d.credited_wallet_alias (or_else caller no_caller))
    require_permit permitted d.credited_wallet_alias
  funding_conditions _ d caller m = pure tt

  abbrev pub transfer_workflow : Workflow
  transfer_workflow = record {
    type = transfer;
    not_found_label = "Draft";
    not_found_code = "HL-GER-001";
    state_code = "HL-GER-002";
    debits_source = true;
    credits_existing_wallet = true;
    conditions = transfer_conditions;
    apply = move_funds;
    transaction_id = λ _ m. "TX-" ++ m.uuid;
  }

  abbrev pub payment_workflow : Workflow
  payment_workflow = record {
    type = transfer;
    not_found_label = "Draft";
    not_found_code = "HL-GER-001";
    state_code = "HL-GER-002";
    debits_source = true;
    credits_existing_wallet = true;
    conditions = no_conditions;
    apply = move_funds;
    transaction_id = default_transaction_id;
  }

  abbrev pub direct_rtgs_workflow : Workflow
  direct_rtgs_workflow = record {
    type = direct_rtgs;
    not_found_label = "Direct RTGS payment";
    not_found_code = "HL-GER-001";
    state_code = "HL-GER-002";
    debits_source = true;
    credits_existing_wallet = true;
    conditions = no_conditions;
    apply = move_funds;
    transaction_id = default_transaction_id;
  }

  abbrev pub pfod_workflow : Workflow
  pfod_workflow = record {
    type = pfod;
    not_found_label = "PFoD trade";
    not_found_code = "HL-GER-001";
    state_code = "HL-GER-002";
    debits_source = true;
    credits_existing_wallet = true;
    conditions = no_conditions;
    apply = move_funds;
    transaction_id = default_transaction_id;
  }

  abbrev pub funding_workflow : Workflow
  funding_workflow = record {
    type = funding;
    not_found_label = "Funding draft";
    not_found_code = "HL-GER-001";
    state_code = "HL-GER-002";
    debits_source = false;
    credits_existing_wallet = false;
    conditions = funding_conditions;
    apply = λ d _ _. raw_credit d.credited_wallet_alias d.amount;
    transaction_id = default_transaction_id;
  }

  abbrev pub defunding_workflow : Workflow
  defunding_workflow = record {
    type = defunding;
    not_found_label = "Defunding draft";
    not_found_code = "HL-GER-001";
    state_code = "HL-GER-002";
    debits_source = true;
    credits_existing_wallet = false;
    conditions = no_conditions;
    apply = λ d caller m. checked_debit d.debited_wallet_alias d.amount caller m;
    transaction_id = default_transaction_id;
  }
