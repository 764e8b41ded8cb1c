-- ===== src/Routes/Payments.antt =====
-- routes/bridge-payments.ts: a payment in one step.
pub mod Settlement
use mock_pontes.Base.{
  String, ◌++◌, Option, none, some, List, [], ◌∷◌, map, if◌then◌else◌, given, or_else, not,
}
use mock_pontes.Base.Lists.{filter}
use mock_pontes.Platform.{Platform}
use mock_pontes.Result.{rejected}
use mock_pontes.Exec.{Exec, pure, throw, ◌>>◌}
use mock_pontes.State.Record.{Store}
use mock_pontes.Window.Update.{join}
use mock_pontes.Workflow.{WorkflowInit, Actor, Moment, execute}
use mock_pontes.Kinds.{payment_workflow}
use mock_pontes.Http.{Reply, AuthContext, entity_caller}
use mock_pontes.Http.Validation.{supplementary_data_error}
use mock_pontes.Routes.{validation_error, refuse_with, plain_init}

pub record PaymentRequest : Type 0 where
  pub payment_id : Option String
  pub debited_cash_wallet_alias : Option String
  pub credited_cash_wallet_alias : Option String
  pub credited_cash_wallet_manager_id : Option String
  pub amount : Option String
  pub currency : Option String
  pub supplementary_data : Option String

-- The required fields, in their order.
abbrev required : PaymentRequest → List (String × Option String)
required q =
    ("amount", q.amount)
    ∷ ("currency", q.currency)
    ∷ ("paymentID", q.payment_id)
    ∷ ("creditedCashWalletAlias", q.credited_cash_wallet_alias)
    ∷ ("creditedCashWalletManagerID", q.credited_cash_wallet_manager_id)
    ∷ ("debitedCashWalletAlias", q.debited_cash_wallet_alias)
    ∷ []

-- Those that are not given.
unfoldable pub missing_fields : PaymentRequest → List String
missing_fields q =
    map (λ (e : String × Option String). e.0)
      (filter (λ (e : String × Option String). not (given e.1)) (required q))

abbrev require_fields : List String → Exec Store (Unit {0})
require_fields [] = pure tt
require_fields (f ∷ fs) =
    throw (rejected (validation_error ("Missing required fields: " ++ join (f ∷ fs))))

unfoldable pub payment_init : PaymentRequest → WorkflowInit
payment_init q =
    record (plain_init (or_else q.payment_id "") (or_else q.amount "") (or_else q.currency "")
      (or_else q.credited_cash_wallet_alias "") (or_else q.debited_cash_wallet_alias "")) {
        supplementary_data = q.supplementary_data;
      }

abbrev pub payer_of : AuthContext → Actor
payer_of auth = record {
  caller = entity_caller auth;
  approver_user_uuid = none;
  approver_user_name = none;
}

abbrev pub payment_settled : Reply String
payment_settled = record { status_code = 200; body = "Cash Token Payment Settled Succesfully" }

module _ ⦃js : Platform⦄ where
  -- `POST bridge/payments`
  unfoldable pub pay_bridge : AuthContext → PaymentRequest → Moment → Exec Store (Reply String)
  unfolding missing_fields payment_init entity_caller
  pay_bridge auth q m =
      require_fields (missing_fields q)
      >> (refuse_with (supplementary_data_error q.supplementary_data)
          >> (execute payment_workflow (payment_init q) (payer_of auth) m >> pure payment_settled))
