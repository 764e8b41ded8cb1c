-- ===== src/Examples/Payments.antt =====
-- The theorem on a payment that goes through, at the deadline of the XvP.
use mock_pontes.Base.{none, refl}
use mock_pontes.Base.Dict.{lookup}
use mock_pontes.Result.{Result, ok, err}
use mock_pontes.State.Types.{DraftStatus}
use mock_pontes.State.Dcw.{can_debit, with_debit, parse_amount}
use mock_pontes.State.Store.{
  get_draft, get_wallet, upsert_wallet, add_transaction, update_draft, debit,
}
use mock_pontes.Workflow.{Moment, checked_debit, raw_credit, require_credit_wallet}
use mock_pontes.Xvp.{
  maybe_expire, shape, read_meta, check_terms, admit_payment, mark_payment_attempted,
  settle_payment, pay,
}
use mock_pontes.Xvp.Types.{XvpPaymentResult}
use mock_pontes.Xvp.Admission.{Admitted, pay-Admitted}
use mock_pontes.Examples.Machine.{machine}
use mock_pontes.Examples.Hashlock.{services, trades, payment}

abbrev just_in_time : Moment
just_in_time = record { now = 20240101; uuid = "f00d" }

value_of : Result XvpPaymentResult → XvpPaymentResult
value_of (ok x) = x
value_of (err e) = record {
  xvp_transaction_id = "";
  status = DraftStatus.failed;
  execution_key = none;
  cancellation_key = none;
  payment_id = none;
}

unfoldable paid : XvpPaymentResult
unfolding value_of pay admit_payment settle_payment maybe_expire shape read_meta check_terms
    mark_payment_attempted require_credit_wallet checked_debit raw_credit lookup get_draft
    get_wallet upsert_wallet add_transaction update_draft debit can_debit with_debit parse_amount
    machine services
paid = value_of (pay "X1" payment just_in_time just_in_time trades).0

pay-Admitted_example : Admitted "X1" payment just_in_time trades
unfolding paid
pay-Admitted_example = pay-Admitted "X1" payment just_in_time just_in_time trades paid refl
