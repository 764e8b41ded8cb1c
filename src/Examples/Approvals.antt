-- ===== src/Examples/Approvals.antt =====
-- The theorems on approvals and cancellations, at the books of the example.
use mock_pontes.Base.{String, ◌≡◌, refl, Option, none, some}
use mock_pontes.Base.Dict.{lookup}
use mock_pontes.Result.{Result, ok, err, rejected}
use mock_pontes.State.Types.{Draft, DraftStatus}
use mock_pontes.State.Record.{Store}
use mock_pontes.State.Dcw.{can_debit, with_debit, parse_amount}
use mock_pontes.State.Store.{
  get_draft, get_wallet, upsert_wallet, add_transaction, update_draft, debit,
}
use mock_pontes.Workflow.{
  Phase, Actor, Moment, approve, cancel, load_pending, four_eyes, admit, settle, conclude,
  settle_draft, cancel_draft, lifecycle_append, record_transaction, checked_debit, raw_credit,
  map_dcw_error, require_credit_wallet, assert_debit_wallet_exists, assert_credit_wallet_exists,
  wrong_state,
}
use mock_pontes.Workflow.Outcome.{
  Settlement, approve-Settlement, approve_once, closed_refused, Cancellation, cancel-Cancellation,
}
use mock_pontes.Kinds.{transfer_workflow, transfer_conditions, move_funds, request_type_matches}
use mock_pontes.Kinds.Lawful.{transfer-IsLawful}
use mock_pontes.Examples.Machine.{machine}
use mock_pontes.Examples.Books.{books, draft, checker, moment}

value_of : Result (Option Draft) → Option Draft
value_of (ok x) = x
value_of (err e) = none

-- An approval of a transfer, with everything that it runs.
abbrev approval : String → Store → Result (Option Draft) × Store
approval id = approve transfer_workflow id checker moment

-- What the approval of the transfer returns.
unfoldable outcome : Option Draft
unfolding value_of approve load_pending four_eyes admit settle conclude settle_draft
    lifecycle_append record_transaction checked_debit raw_credit require_credit_wallet
    assert_debit_wallet_exists assert_credit_wallet_exists transfer_conditions move_funds
    request_type_matches map_dcw_error lookup get_draft get_wallet upsert_wallet add_transaction
    update_draft debit can_debit with_debit parse_amount machine
outcome = value_of (approval "T1" books).0

approve-Settlement_example :
    Settlement transfer_workflow "T1" checker moment books (approval "T1" books).1 outcome
unfolding outcome
approve-Settlement_example =
    approve-Settlement transfer_workflow transfer-IsLawful "T1" checker moment books outcome refl

approve_once_example :
    (e : Draft) × (outcome ≡ some e)
    × ((actor' : Actor) (m' : Moment)
        → let t = (approval "T1" books).1 in
          (approve transfer_workflow "T1" actor' m' t
            ≡ (err (rejected (wrong_state transfer_workflow Phase.approve "T1" e)), t))
          × (cancel transfer_workflow "T1" m' t
              ≡ (err (rejected (wrong_state transfer_workflow Phase.cancel "T1" e)), t)))
unfolding outcome
approve_once_example =
    approve_once transfer_workflow transfer-IsLawful "T1" checker moment books outcome refl

settled_one : Draft
settled_one = draft "T3" DraftStatus.settled "BETA"

closed_refused_example :
    (approval "T3" books
      ≡ (err (rejected (wrong_state transfer_workflow Phase.approve "T3" settled_one)), books))
    × (cancel transfer_workflow "T3" moment books
        ≡ (err (rejected (wrong_state transfer_workflow Phase.cancel "T3" settled_one)), books))
unfolding settled_one get_draft lookup
closed_refused_example =
    closed_refused transfer_workflow "T3" checker moment books settled_one refl refl (λ p. cc)

abbrev cancellation : Result (Option Draft) × Store
cancellation = cancel transfer_workflow "T1" moment books

unfoldable ended : Option Draft
unfolding value_of cancel load_pending transfer_conditions cancel_draft lifecycle_append
    update_draft lookup get_draft machine
ended = value_of cancellation.0

cancel-Cancellation_example : Cancellation transfer_workflow "T1" books cancellation.1 ended
unfolding ended
cancel-Cancellation_example =
    cancel-Cancellation transfer_workflow transfer-IsLawful "T1" moment books ended refl
