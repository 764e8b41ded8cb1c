-- ===== src/Workflow/Wallets.antt =====
-- The wallet helpers of workflows/workflow.ts: the existence checks, the checked debit, the raw
-- credit and debit, and the translation of wallet errors.
use mock_pontes.Base.{
  String, ◌++◌, Bool, true, false, ◌&&◌, Option, none, some, if◌then◌else◌, truthy, or_else,
  or_text, ◌==◌,
}
use mock_pontes.Platform.{Platform}
use mock_pontes.Result.{
  Failure, Rejection, rejected, thrown, dcw_error, DcwError, wallet_not_found, debit_denied,
  invalid_amount, negative_amount, insufficient_available, insufficient_locked, Result, ok, err,
}
use mock_pontes.Exec.{Exec, pure, throw, throw_if, gets, modify, rethrow, ◌>>=◌, ◌>>◌}
use mock_pontes.State.Types.{Wallet, Draft, Caller, no_caller}
use mock_pontes.State.Record.{Store}
use mock_pontes.State.Dcw.{parse_amount}
use mock_pontes.State.Store.{get_wallet, upsert_wallet, debit}
use mock_pontes.Workflow.Class.{Workflow, Moment}

-- `unknownWalletMessage`
abbrev pub unknown_wallet_message : String → String → String
unknown_wallet_message side alias =
    side ++ " wallet " ++ alias ++ " does not exist. "
    ++ "Create it first via POST /dlt/{ncb}/api/octopus/ams/wallets/one-step."

abbrev no_debit_wallet : String → Rejection
no_debit_wallet alias = record {
  status_code = 422;
  error_code = "HL-WAL-002";
  error_description = unknown_wallet_message "Debit" alias;
}

abbrev pub no_credit_wallet : String → Rejection
no_credit_wallet alias = record {
  status_code = 422;
  error_code = "HL-WAL-003";
  error_description = unknown_wallet_message "Credit" alias;
}

-- `alias && !this.store.getWallet(alias)`
abbrev missing : String → Store → Bool
missing alias s = truthy alias && elim (get_wallet alias none s) [ none ↦ true | some _ ↦ false ]

unfoldable pub assert_debit_wallet_exists : Workflow → Draft → Exec Store (Unit {0})
assert_debit_wallet_exists w d =
    if w.debits_source
    then (do
      gone ← gets (missing d.debited_wallet_alias)
      throw_if gone (no_debit_wallet d.debited_wallet_alias))
    else pure tt

unfoldable pub require_credit_wallet : String → Exec Store (Unit {0})
require_credit_wallet alias = do gone ← gets (missing alias); throw_if gone (no_credit_wallet alias)

unfoldable pub assert_credit_wallet_exists : Workflow → Draft → Exec Store (Unit {0})
unfolding require_credit_wallet
assert_credit_wallet_exists w d =
    if w.credits_existing_wallet then require_credit_wallet d.credited_wallet_alias else pure tt

abbrev wallet_unknown : String → Rejection
wallet_unknown alias = record {
  status_code = 404;
  error_code = "HL-WAL-001";
  error_description = "Wallet " ++ alias ++ " not found";
}

unfoldable pub rejection_for : String → String → Rejection
rejection_for reason alias = if reason == "WALLET_NOT_FOUND" then wallet_unknown alias else record {
  status_code = 403;
  error_code = "HL-AUT-001";
  error_description = "Debit of " ++ alias ++ " not authorised (" ++ reason ++ ")";
}

abbrev insufficient : String → Rejection
insufficient alias = record {
  status_code = 422;
  error_code = "HL-BAL-001";
  error_description = "Insufficient available balance on " ++ alias;
}

-- `mapDcwError` on the wallet errors
dcw_rejection : DcwError → String → Rejection
dcw_rejection (wallet_not_found _) alias = wallet_unknown alias
dcw_rejection (debit_denied reason) alias =
    rejection_for (or_text (some reason) "NOT_AUTHORISED_TO_DEBIT") alias
dcw_rejection insufficient_available alias = insufficient alias
dcw_rejection negative_amount alias = record {
  status_code = 400;
  error_code = "HL-VAL-002";
  error_description = "Amount must not be negative";
}
dcw_rejection (invalid_amount _) alias = record {
  status_code = 400;
  error_code = "HL-VAL-003";
  error_description = "Amount is not a valid number";
}
dcw_rejection insufficient_locked alias = record {
  status_code = 422;
  error_code = "HL-GER-000";
  error_description = "DCW_INSUFFICIENT_LOCKED";
}

-- `mapDcwError`: any other error has its message passed on.
unfoldable pub map_dcw_error : String → Failure → Failure
unfolding dcw_rejection
map_dcw_error alias (dcw_error e) = rejected (dcw_rejection e alias)
map_dcw_error alias (rejected r) = rejected (record {
  status_code = 422;
  error_code = "HL-GER-000";
  error_description = r.error_description;
})
map_dcw_error alias (thrown message) =
    rejected (record { status_code = 422; error_code = "HL-GER-000"; error_description = message })

module _ ⦃js : Platform⦄ where
  -- The write of `rawCredit` to the wallet that was found.
  write_credit : String → Result js.Num → Wallet → Exec Store (Unit {0})
  write_credit alias (err e) w = throw (map_dcw_error alias e)
  write_credit alias (ok a) w =
      modify
        (upsert_wallet (record w { balance = js.to_fixed (js.add (js.parse_float w.balance) a) }))

  unfoldable pub raw_credit : String → String → Exec Store (Unit {0})
  unfolding write_credit
  raw_credit alias amount s = elim (get_wallet alias none s) [
    | none ↦ (err (rejected (no_credit_wallet alias)), s)
    | some w ↦ write_credit alias (parse_amount amount) w s
  ]

  write_debit : String → Result js.Num → Wallet → Exec Store (Unit {0})
  write_debit alias (err e) w = throw (map_dcw_error alias e)
  write_debit alias (ok a) w =
      modify
        (upsert_wallet (record w { balance = js.to_fixed (js.sub (js.parse_float w.balance) a) }))

  unfoldable raw_debit : String → String → Exec Store (Unit {0})
  unfolding write_debit
  raw_debit alias amount s = elim (get_wallet alias none s) [
    | none ↦ (ok tt, s)
    | some w ↦ write_debit alias (parse_amount amount) w s
  ]

  unfoldable pub checked_debit : String → String → Option Caller → Moment → Exec Store (Unit {0})
  checked_debit alias amount caller m =
      rethrow (map_dcw_error alias) (debit m.now alias amount (or_else caller no_caller)) >> pure tt
