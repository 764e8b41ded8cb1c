-- ===== src/Routes/DirectRtgs.antt =====
-- routes/direct-rtgs.ts: direct RTGS payments, as a draft to be approved and in one step.
pub mod Views
use mock_pontes.Base.{
  String, ◌++◌, Bool, not, Option, none, some, List, [], ◌∷◌, if◌then◌else◌, or_else, or_text,
}
use mock_pontes.Base.Dict.{Dict, lookup}
use mock_pontes.Platform.{Platform}
use mock_pontes.Result.{Rejection, rejected}
use mock_pontes.Exec.{Exec, pure, throw, gets, ◌>>=◌}
use mock_pontes.State.Types.{Draft, DraftStatus, Stamp, direct_rtgs, canceled, nothing_carried}
use mock_pontes.State.Record.{Store, get_business_day}
use mock_pontes.State.Store.{get_draft}
use mock_pontes.State.Identifiers.{resolve_draft_id}
use mock_pontes.Workflow.{
  WorkflowInit, Moment, create, approve, cancel, execute, status_text, same_type,
}
use mock_pontes.Kinds.{direct_rtgs_workflow}
use mock_pontes.Http.{Reply, AuthContext, entity_caller, bad_transition}
use mock_pontes.Routes.{initial_trail, stamps, transition}
use mock_pontes.Routes.Transfers.{nobody}
use mock_pontes.Routes.Funding.{approver}
use mock_pontes.Routes.DirectRtgs.Views.{
  ResponseView, GetView, BridgeView, rtgs_response_view, rtgs_get_view, bridge_rtgs_view,
}

pub record RtgsRequest : Type 0 where
  pub id : Option String
  pub payment_id : Option String
  pub amount : Option String
  pub currency : Option String
  pub credited_cash_wallet_alias : Option String
  pub debited_cash_wallet_alias : Option String
  pub correlation_id : Option String
  pub payer_bank : Option String
  pub receiver_bank : Option String
  pub instructing_party_id : Option String
  pub signature : Option String
  pub signer_pem : Option String

abbrev payment_not_found : String → Rejection
payment_not_found id = record {
  status_code = 404;
  error_code = "HL-GER-001";
  error_description = "Direct RTGS payment " ++ id ++ " not found";
}

-- the answer to a read after the lookup, in the view asked for
rtgs_answer : {A : Type 0} → (Store → Draft → A) → String → Option Draft → Exec Store A
rtgs_answer view id none = throw (rejected (payment_not_found id))
rtgs_answer view id (some d) =
    if not (same_type d.type direct_rtgs)
    then throw (rejected (payment_not_found id))
    else gets (λ s. view s d)

-- `GET tms/direct-rtgs/payments-drafts/:id`
unfoldable read_rtgs_draft : AuthContext → String → Exec Store ResponseView
unfolding rtgs_answer rtgs_response_view entity_caller
read_rtgs_draft auth id = do
  found ← gets (get_draft id (entity_caller auth))
  rtgs_answer rtgs_response_view id found

-- `GET tms/direct-rtgs/payments/:id`
unfoldable read_rtgs : AuthContext → String → Exec Store GetView
unfolding rtgs_answer rtgs_get_view entity_caller
read_rtgs auth id = do
  found ← gets (get_draft id (entity_caller auth))
  rtgs_answer rtgs_get_view id found

abbrev settled_trail : List String
settled_trail = "INITIALIZED" ∷ "ACCEPTED" ∷ "PAYMENT_SUBMITTED" ∷ "COMPLETED" ∷ []

module _ ⦃js : Platform⦄ where
  -- `buildInit`, with the trail that the handlers add.
  unfoldable build_init :
      AuthContext → RtgsRequest → String → List String → String → Moment → WorkflowInit
  build_init auth q id trail today m = record {
    id = id;
    amount = or_text q.amount "0.00";
    currency = some (or_text q.currency "EUR");
    credited_wallet_alias = or_text q.credited_cash_wallet_alias "";
    debited_wallet_alias = or_text q.debited_cash_wallet_alias "";
    initiator_user_uuid = auth.user_uuid;
    supplementary_data = none;
    debited_cash_wallet_manager_id = none;
    credited_cash_wallet_manager_id = none;
    instructing_party_id = q.instructing_party_id;
    cbdc_request_type = none;
    operation_context = none;
    funding_request_id = none;
    historic_status = some trail;
    timestamps =
        some (stamps trail (record { calendar_date = js.iso m.now; business_date = today }));
    carried = record nothing_carried {
      initiator_user_name = auth.username;
      correlation_id = q.correlation_id;
      payer_bank = q.payer_bank;
      receiver_bank = q.receiver_bank;
      signature = q.signature;
      signer_pem = q.signer_pem;
    };
  }

  -- `POST tms/direct-rtgs/payments`
  unfoldable create_rtgs : AuthContext → RtgsRequest → Moment → Exec Store (Reply ResponseView)
  unfolding build_init rtgs_response_view
  create_rtgs auth q m = do
    id ← resolve_draft_id m.now "DRTGS" q.id
    today ← gets (λ s. (get_business_day s).business_date)
    d ← create direct_rtgs_workflow (build_init auth q id initial_trail today m) nobody m
    view ← gets (λ s. rtgs_response_view s d)
    pure (record { status_code = 201; body = view })

  -- `PUT tms/direct-rtgs/payments-drafts/:id/:status`
  unfoldable transition_rtgs : AuthContext → String → String → Moment → Exec Store String
  unfolding entity_caller
  transition_rtgs auth id status m =
      transition status (approve direct_rtgs_workflow id (approver (entity_caller auth) auth) m)
        (cancel direct_rtgs_workflow id m) (bad_transition status)
        "Direct RTGS Payment Draft Approved Successfully"
        "Direct RTGS Payment Draft Cancelled Successfully"

  -- `POST bridge/direct-rtgs/payments`
  unfoldable pay_rtgs : AuthContext → RtgsRequest → Moment → Exec Store (Reply BridgeView)
  unfolding build_init bridge_rtgs_view entity_caller
  pay_rtgs auth q m = do
    today ← gets (λ s. (get_business_day s).business_date)
    d ←
        execute direct_rtgs_workflow
          (build_init auth q (or_text q.id (or_text q.payment_id m.uuid)) settled_trail today m)
          (record {
            caller = entity_caller auth;
            approver_user_uuid = none;
            approver_user_name = none;
          })
          m
    view ← gets (λ s. bridge_rtgs_view s d)
    pure (record { status_code = 200; body = view })
