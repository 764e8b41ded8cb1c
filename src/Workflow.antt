-- ===== src/Workflow.antt =====
-- workflows/workflow.ts: the settlement workflow that every kind of operation extends. The abstract
-- class is the record `Workflow` of what a subclass overrides, and its methods take that record.
-- A `Moment` holds what a call reads from outside: the clock and a fresh UUID.
mod Class
mod Wallets
pub mod FourEyes
pub mod Laws
pub mod Approval
pub mod Funds
pub mod Updates
pub mod Outcome
pub mod Creation
pub mod Frames
pub mod Runs
pub mod History
pub use Class.*
unfoldable pub use Wallets.*
use mock_pontes.Base.{
  String, ◌++◌, ◌==◌, Bool, false, not, ◌&&◌, Option, none, some, List, map, if◌then◌else◌, given,
  or_else,
}
use mock_pontes.Base.Dict.{Dict, insert}
use mock_pontes.Base.Lists.{push}
use mock_pontes.Platform.{Platform}
use mock_pontes.Result.{Rejection, rejected, ok, err}
use mock_pontes.Exec.{Exec, pure, throw, throw_if, gets, modify, ◌>>=◌, ◌>>◌}
use mock_pontes.State.Types.{
  DraftType, DraftStatus, pending_approval, canceled, Draft, Stamp, Transaction, TransactionStatus,
  Caller,
}
use mock_pontes.State.Types
use mock_pontes.State.Record.{Store, get_business_day}
use mock_pontes.State.Store.{get_draft, add_draft, update_draft, add_transaction}

pub record Actor : Type 0 where
  pub caller : Option Caller
  pub approver_user_uuid : Option String
  pub approver_user_name : Option String

-- `a === b` on optional strings
abbrev same_text : Option String → Option String → Bool
same_text none none = Bool.true
same_text (some a) (some b) = a == b
same_text _ _ = false

abbrev four_eyes_rejection : String → Rejection
four_eyes_rejection why = record {
  status_code = 403;
  error_code = "HL-GER-003";
  error_description = why;
}

-- the three tests of `approve` on the identities
unfoldable pub four_eyes : Actor → Draft → Exec Store (Unit {0})
four_eyes actor d = do
  throw_if (not (given actor.approver_user_uuid))
      (four_eyes_rejection "Approver identity is required for approval (four-eyes control)")
  throw_if (not (given d.initiator_user_uuid))
      (four_eyes_rejection "Initiator identity is unknown; cannot verify four-eyes control")
  throw_if (same_text actor.approver_user_uuid d.initiator_user_uuid)
      (four_eyes_rejection "Approver must differ from the initiator (four-eyes control)")

abbrev pub not_found : Workflow → String → Rejection
not_found w id = record {
  status_code = 404;
  error_code = w.not_found_code;
  error_description = w.not_found_label ++ " " ++ id ++ " not found";
}

abbrev pub wrong_state : Workflow → Phase → String → Draft → Rejection
wrong_state w phase id d = record {
  status_code = 409;
  error_code = w.state_code;
  error_description =
      "Draft " ++ id ++ " is in status " ++ status_text d.status ++ ", cannot " ++ phase_text phase;
}

-- `loadPending`, after the lookup
check_pending : Workflow → Phase → String → Option Draft → Exec Store Draft
check_pending w phase id none = throw (rejected (not_found w id))
check_pending w phase id (some d) =
    if not (same_type d.type w.type)
    then throw (rejected (not_found w id))
    else if not (is_pending d.status)
    then throw (rejected (wrong_state w phase id d))
    else pure d

unfoldable pub load_pending : Workflow → Phase → String → Exec Store Draft
unfolding check_pending
load_pending w phase id = do found ← gets (get_draft id none); check_pending w phase id found

module _ ⦃js : Platform⦄ where
  unfoldable pub build_record : Workflow → WorkflowInit → DraftStatus → Moment → Draft
  build_record w init status m = record {
    id = init.id;
    type = w.type;
    status = status;
    amount = init.amount;
    currency = or_else init.currency "EUR";
    credited_wallet_alias = init.credited_wallet_alias;
    debited_wallet_alias = init.debited_wallet_alias;
    created_at = js.iso m.now;
    updated_at = js.iso m.now;
    initiator_user_uuid = init.initiator_user_uuid;
    approver_user_uuid = none;
    expires_at = none;
    supplementary_data = init.supplementary_data;
    debited_cash_wallet_manager_id = init.debited_cash_wallet_manager_id;
    credited_cash_wallet_manager_id = init.credited_cash_wallet_manager_id;
    instructing_party_id = init.instructing_party_id;
    cbdc_request_type = init.cbdc_request_type;
    operation_context = init.operation_context;
    funding_request_id = init.funding_request_id;
    historic_status = init.historic_status;
    timestamps = init.timestamps;
    approver_user_name = none;
    carried = init.carried;
  }

  -- What `lifecycleAppend` overwrites on the draft to be updated, given the recorded trail.
  append_status :
      Moment → String → String → Option (List String) → Option (Dict Stamp) → Draft → Draft
  append_status m today new_status none stamps e = e
  append_status m today new_status (some trail) stamps e = record e {
    historic_status = some (push trail new_status);
    timestamps = some (
        insert new_status (record { calendar_date = js.iso m.now; business_date = today })
          (or_else stamps List.[]));
  }

  unfoldable pub lifecycle_append : Moment → Store → Draft → String → Draft → Draft
  unfolding append_status
  lifecycle_append m s d new_status =
      append_status m (get_business_day s).business_date new_status d.historic_status d.timestamps

  unfoldable pub settled_transaction : Workflow → Draft → Moment → Transaction
  settled_transaction w d m = record {
    id = w.transaction_id d m;
    type = w.type;
    status = TransactionStatus.settled;
    amount = d.amount;
    currency = d.currency;
    credited_wallet_alias = d.credited_wallet_alias;
    debited_wallet_alias = d.debited_wallet_alias;
    created_at = d.created_at;
    settled_at = some (js.iso m.now);
    supplementary_data = d.supplementary_data;
    instructing_party_id = d.instructing_party_id;
    funding_request_id = d.funding_request_id;
    operation_context = d.operation_context;
  }

  unfoldable pub record_transaction : Workflow → Draft → Moment → Store → Store
  unfolding settled_transaction
  record_transaction w d m = add_transaction (settled_transaction w d m)

  -- The checks of `create`, `approve` and `execute` before anything is written.
  unfoldable pub admit : Workflow → Phase → Draft → Option Caller → Moment → Exec Store (Unit {0})
  admit w phase d caller m = do
    w.conditions phase d caller m
    assert_debit_wallet_exists w d
    assert_credit_wallet_exists w d

  abbrev keep_draft : Draft → Exec Store Draft
  keep_draft d = modify (add_draft d) >> pure d

  unfoldable pub create : Workflow → WorkflowInit → Actor → Moment → Exec Store Draft
  create w init actor m =
      let d = build_record w init pending_approval m in
      admit w Phase.create d actor.caller m >> keep_draft d

  -- `{ ...draft, status: "SETTLED", approverUserUUID, approverUserName, ...lifecycleAppend }`
  unfoldable pub settle_draft : Moment → Actor → String → Draft → Store → Store
  settle_draft m actor id d s =
      update_draft m.now id
        (λ e. lifecycle_append m s d "SETTLED" (record e {
          status = DraftStatus.settled;
          approver_user_uuid = actor.approver_user_uuid;
          approver_user_name = actor.approver_user_name;
        }))
        s

  unfoldable pub cancel_draft : Moment → String → Draft → Store → Store
  cancel_draft m id d s =
      update_draft m.now id
        (λ e. lifecycle_append m s d "CANCELED" (record e { status = canceled })) s

  -- The writes of `approve` after the effect is applied.
  unfoldable pub conclude : Workflow → String → Actor → Moment → Draft → Exec Store (Option Draft)
  conclude w id actor m d = do
    modify (settle_draft m actor id d)
    modify (record_transaction w d m)
    gets (get_draft id none)

  unfoldable pub settle : Workflow → String → Actor → Moment → Draft → Exec Store (Option Draft)
  settle w id actor m d = w.apply d actor.caller m >> conclude w id actor m d

  unfoldable pub approve : Workflow → String → Actor → Moment → Exec Store (Option Draft)
  approve w id actor m = load_pending w Phase.approve id >>= λ d.
      four_eyes actor d >> admit w Phase.approve d actor.caller m >> settle w id actor m d

  abbrev keep_canceled : String → Moment → Draft → Exec Store (Option Draft)
  keep_canceled id m d = modify (cancel_draft m id d) >> gets (get_draft id none)

  unfoldable pub cancel : Workflow → String → Moment → Exec Store (Option Draft)
  cancel w id m = load_pending w Phase.cancel id >>= λ d.
      w.conditions Phase.cancel d none m >> keep_canceled id m d

  abbrev keep_transaction : Workflow → Moment → Draft → Exec Store Draft
  keep_transaction w m d = modify (record_transaction w d m) >> pure d

  unfoldable pub execute : Workflow → WorkflowInit → Actor → Moment → Exec Store Draft
  execute w init actor m =
      let d = build_record w init DraftStatus.settled m in
      admit w Phase.create d actor.caller m >> (w.apply d actor.caller m >> keep_transaction w m d)
