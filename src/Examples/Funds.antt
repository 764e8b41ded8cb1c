-- ===== src/Examples/Funds.antt =====
-- The theorems on the movement of cash, at the books of the example.
use mock_pontes.Base.{ℕ, String, ◌≡◌, refl, ◌≤◌, ap, Option, none, some, arith}
use mock_pontes.Base.Dict.{lookup}
use mock_pontes.Result.{Result, ok, err, rejected, Failure, dcw_error, DcwError}
use mock_pontes.State.Types.{Draft, pending_approval}
use mock_pontes.State.Record.{Store}
use mock_pontes.State.Dcw.{can_debit, with_debit, parse_amount}
use mock_pontes.State.Dcw.Balances.{Denotes}
use mock_pontes.State.Worth.{Worth}
use mock_pontes.State.Store.{
  get_draft, get_wallet, upsert_wallet, add_transaction, update_draft, debit,
}
use mock_pontes.Workflow.{
  Actor, approve, load_pending, four_eyes, admit, settle, conclude, settle_draft, lifecycle_append,
  record_transaction, checked_debit, raw_credit, map_dcw_error, rejection_for,
  require_credit_wallet, assert_debit_wallet_exists, assert_credit_wallet_exists, no_credit_wallet,
}
use mock_pontes.Workflow.FourEyes.{IsPending}
use mock_pontes.Workflow.Funds.{Debited}
use mock_pontes.Kinds.{transfer_workflow, transfer_conditions, move_funds, request_type_matches}
use mock_pontes.Kinds.Conservation.{AliasKeyed, checked_debit-Worth, raw_credit-Worth}
use mock_pontes.Kinds.Atomicity.{
  transfer-MovesFunds, NamesCredit, approve_atomic, approve_conserves, approve_unnamed_credit,
}
use mock_pontes.Examples.Machine.{machine, exact, number_of}
use mock_pontes.Examples.Books.{books, draft, wallet, checker, payer, moment}

failure_of : Result (Option Draft) → Failure
failure_of (ok x) = dcw_error (DcwError.negative_amount)
failure_of (err f) = f

-- Someone who may not debit the wallet.
abbrev intruder : Actor
intruder = record checker { caller = none }

unfoldable pub runs : Actor → String → Result (Option Draft) × Store
unfolding approve load_pending four_eyes admit settle conclude settle_draft lifecycle_append
    record_transaction checked_debit raw_credit require_credit_wallet assert_debit_wallet_exists
    assert_credit_wallet_exists transfer_conditions move_funds request_type_matches map_dcw_error
    rejection_for lookup get_draft get_wallet upsert_wallet add_transaction update_draft debit
    can_debit with_debit parse_amount machine
runs actor id = approve transfer_workflow id actor moment books

unfoldable refusal : Failure
unfolding runs failure_of
refusal = failure_of (runs intruder "T1").0

credited_of : Option Draft → String
credited_of none = ""
credited_of (some d) = d.credited_wallet_alias

names_credit : NamesCredit "T1" books
unfolding get_draft lookup credited_of
names_credit d h = let e : "BETA" ≡ d.credited_wallet_alias = ap credited_of h in λ p. cc (e, p)

amount_of : Option Draft → String
amount_of none = ""
amount_of (some d) = d.amount

approve_atomic_example : (approve transfer_workflow "T1" intruder moment books).1 ≡ books
unfolding refusal runs
approve_atomic_example =
    approve_atomic transfer_workflow transfer-MovesFunds "T1" intruder moment books refusal
      names_credit refl

pub keyed : AliasKeyed books
keyed = (refl, (refl, tt))

worth : Worth exact books.wallets 750
unfolding exact machine number_of
worth = (500, 250, (refl, omega arith), (250, 0, (refl, omega arith), refl, refl), refl)

pub asked : Denotes exact "1.25" 125
unfolding exact machine number_of
asked = (refl, omega arith)

unfoldable pub settled : Option Draft
unfolding runs
settled = elim (runs checker "T1").0 [ ok d ↦ d | err f ↦ none ]

amounts : (d : Draft) → get_draft "T1" none books ≡ some d → (a : ℕ) × Denotes exact d.amount a
unfolding get_draft lookup amount_of
amounts d h = let e : "1.25" ≡ d.amount = ap amount_of h in (125, rw (← e) asked)

approve_conserves_example :
    Worth exact (approve transfer_workflow "T1" checker moment books).1.wallets 750
unfolding settled runs exact
approve_conserves_example =
    approve_conserves exact transfer_workflow transfer-MovesFunds "T1" checker moment books settled
      750 keyed worth (omega arith) amounts refl

checked_debit-Worth_example :
    let t = (checked_debit "ALPHA" "1.25" (some payer) moment books).1 in
    AliasKeyed t × (125 ≤ 750) × Worth exact t.wallets 625
unfolding runs exact
checked_debit-Worth_example =
    checked_debit-Worth exact "ALPHA" "1.25" (some payer) moment books 750 125 keyed worth
      (omega arith) asked refl

raw_credit-Worth_example :
    let t = (raw_credit "BETA" "1.25" books).1 in AliasKeyed t × Worth exact t.wallets 875
unfolding runs exact
raw_credit-Worth_example =
    raw_credit-Worth exact "BETA" "1.25" books 750 125 keyed worth (omega arith) asked refl

abbrev unnamed : Draft
unnamed = draft "T2" pending_approval ""

pending : IsPending transfer_workflow "T2" books unnamed
unfolding get_draft lookup
pending = record { found = refl; typed = refl; pending = refl }

abbrev debited : Debited "ALPHA" "1.25" (some payer) moment books
unfolding runs
debited = record {
  before = wallet "ALPHA" "BANKFRPP" "5.00";
  after = wallet "ALPHA" "BANKFRPP" "3.75";
  there = refl;
  permitted = refl;
  debited = refl;
  effect = refl;
}

approve_unnamed_credit_example :
    let t = upsert_wallet (wallet "ALPHA" "BANKFRPP" "3.75") books in
    (approve transfer_workflow "T2" checker moment books
      ≡ (err (rejected (no_credit_wallet "")), t))
    × (get_draft "T2" none t ≡ some unnamed)
    × (t.transactions ≡ books.transactions)
unfolding runs
approve_unnamed_credit_example =
    approve_unnamed_credit transfer_workflow transfer-MovesFunds "T2" checker moment books unnamed
      pending refl refl debited refl (λ p. cc p) refl
