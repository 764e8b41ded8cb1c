-- ===== src/Xvp/Disclosure.antt =====
-- routes/xvp.ts, `GET /igw/{ncb}/v1/xvps/{id}/payment`: the outcome of a payment, and which of the two
-- secrets is disclosed. The query parameter is nothing where it is absent or repeated.
pub mod Secrets
use mock_pontes.Base.{String, Bool, true, false, Option, none, some, ◌==◌, or_else, if◌then◌else◌}
use mock_pontes.Platform.{Platform}
use mock_pontes.Result.{Rejection, rejected}
use mock_pontes.Exec.{Exec, pure, throw, ◌>>=◌}
use mock_pontes.State.Types.{DraftStatus, initialized}
use mock_pontes.State.Record.{Store}
use mock_pontes.Workflow.{Moment}
use mock_pontes.Xvp.Types.{XvpRecord, Services}
use mock_pontes.Xvp.{get, xvp_not_found}

pub data KeyType : Type 0 where
  execution cancellation : KeyType

pub data Outcome : Type 0 where
  settled pending unsettled burned : Outcome

pub record PaymentAnswer : Type 0 where
  pub xvp_transaction_id : String
  pub payment_id : Option String
  pub status : Outcome
  pub execution_key : Option String
  pub cancellation_key : Option String

unfoldable pub outcome_of : DraftStatus → Option Bool → Outcome
outcome_of DraftStatus.settled attempted = settled
outcome_of initialized attempted = pending
outcome_of _ attempted = if or_else attempted false then unsettled else burned

abbrev execution_of : Outcome → KeyType → XvpRecord → Option String
execution_of settled execution rec = rec.execution_key
execution_of _ _ rec = none

abbrev cancellation_of : Outcome → KeyType → XvpRecord → Option String
cancellation_of unsettled cancellation rec = rec.cancellation_key
cancellation_of burned cancellation rec = rec.cancellation_key
cancellation_of _ _ rec = none

unfoldable pub disclose : KeyType → XvpRecord → PaymentAnswer
unfolding outcome_of
disclose requested rec =
    let status = outcome_of rec.status rec.payment_attempted in
    record {
      xvp_transaction_id = rec.id;
      payment_id = rec.payment_id;
      status = status;
      execution_key = execution_of status requested rec;
      cancellation_key = cancellation_of status requested rec;
    }

abbrev bad_key : Rejection
bad_key = record {
  status_code = 400;
  error_code = "HL-VAL-001";
  error_description =
      "Query parameter 'key' is required and must be exactly 'EXECUTION' or 'CANCELLATION'.";
}

abbrev key_type : Option String → Option KeyType
key_type none = none
key_type (some raw) =
    if raw == "EXECUTION"
    then some execution
    else if raw == "CANCELLATION"
    then some cancellation
    else none

answer : String → KeyType → Option XvpRecord → Exec Store PaymentAnswer
answer id requested none = throw (rejected (xvp_not_found id))
answer id requested (some rec) = pure (disclose requested rec)

module _ ⦃js : Platform⦄ ⦃sv : Services⦄ where
  get_for : Option KeyType → String → Moment → Exec Store PaymentAnswer
  get_for none id m = throw (rejected bad_key)
  get_for (some requested) id m = do rec ← get id m; answer id requested rec

  unfoldable pub get_payment : Option String → String → Moment → Exec Store PaymentAnswer
  unfolding get_for answer
  get_payment raw id m = get_for (key_type raw) id m
