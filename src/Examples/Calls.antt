-- ===== src/Examples/Calls.antt =====
-- The theorems on sequences of calls, on the ledger and on the cache, at the books of the example.
use mock_pontes.Base.{
  String, ◌==◌, ◌≡◌, ◌≢◌, refl, ap, ◌≤◌, Option, none, some, inl, inr, arith, Bool-cases,
  if◌then◌else◌,
}
use mock_pontes.Base.Dict.{lookup, values}
use mock_pontes.State.Types.{Wallet, Draft, DraftStatus, Transaction, TransactionStatus, transfer}
use mock_pontes.State.Record.{Store, Cache, new_store, hydrate}
use mock_pontes.State.Store.{
  get_draft, upsert_wallet, add_draft, add_transaction, update_draft, next_id,
}
use mock_pontes.State.Recovery.{IsRecoverable, hydrate-back}
use mock_pontes.State.Store.Sync.{writes-IsRecoverable}
use mock_pontes.Workflow.{approve}
use mock_pontes.Workflow.Laws.{IsLawful}
use mock_pontes.Workflow.Runs.{Run, stop, more, approves}
use mock_pontes.Workflow.History.{closed-frozen}
use mock_pontes.Kinds.{transfer_workflow}
use mock_pontes.Kinds.Lawful.{transfer-IsLawful}
use mock_pontes.Kinds.Atomicity.{transfer-MovesFunds}
use mock_pontes.Kinds.Refinement.{Ledger, Represents, approve-Represents}
use mock_pontes.Kinds.Refinement as Refinement
use mock_pontes.Examples.Machine.{machine, exact, number_of, print_cents}
use mock_pontes.Examples.Books.{books, draft, wallet, checker, moment}
use mock_pontes.Examples.Funds.{keyed, asked, settled, runs}

abbrev after : Store
after = (approve transfer_workflow "T1" checker moment books).1

-- One approval, of another draft.
abbrev one_call : Run IsLawful (λ init. init.id ≢ "T3") books after
one_call = more stop (approves transfer_workflow transfer-IsLawful "T1" checker moment refl)

abbrev any_call : Run IsLawful (λ _. Unit) books after
any_call = more stop (approves transfer_workflow transfer-IsLawful "T1" checker moment refl)

closed-frozen_example : get_draft "T3" none after ≡ some (draft "T3" DraftStatus.settled "BETA")
unfolding get_draft lookup
closed-frozen_example =
    closed-frozen "T3" (draft "T3" DraftStatus.settled "BETA") books after refl (λ p. cc p) one_call

-- 5.00 under ALPHA, 2.50 elsewhere.
abbrev pub ledger : Ledger
ledger k = if "ALPHA" == k then 500 else 250

balance_of : Option Wallet → String
balance_of none = ""
balance_of (some w) = w.balance

pub represented : Represents exact books ledger
unfolding exact machine number_of lookup print_cents balance_of
represented k w h = elim (Bool-cases ("ALPHA" == k)) [
  | inl alpha ↦
      let e : "5.00" ≡ w.balance = ap balance_of (rw alpha at h) in
      rw (alpha, ← e) (refl, omega arith)
  | inr other ↦ elim (Bool-cases ("BETA" == k)) [
    | inl beta ↦
        let e : "2.50" ≡ w.balance = ap balance_of (rw (other, beta) at h) in
        rw (other, ← e) (refl, omega arith)
    | inr gone ↦
        let none_there : Path (Option Wallet) none (some w) = rw (other, gone) at h in
        absurd (cc none_there)
  ]
]

approve-Represents_example :
    (125 ≤ ledger "ALPHA") × Represents exact after (Refinement.transfer "ALPHA" "BETA" 125 ledger)
unfolding settled runs get_draft lookup exact
approve-Represents_example =
    approve-Represents exact transfer_workflow transfer-MovesFunds "T1" checker moment books settled
      (draft "T1" DraftStatus.pending_approval "BETA") ledger 125 keyed represented refl asked
      (omega arith) refl

abbrev snapshot : Cache
snapshot = record {
  wallets = some (values books.wallets);
  drafts = some (values books.drafts);
  transactions = none;
  sequences = none;
}

abbrev running : Store
running = record books { cache = some snapshot }

running-IsRecoverable : IsRecoverable running
unfolding lookup
running-IsRecoverable = record {
  formed = record {
    wallet_map = (refl, (refl, tt));
    draft_map = (refl, (refl, (refl, tt)));
    sequence_map = tt;
    wallets_keyed = (refl, (refl, tt));
    drafts_keyed = (refl, (refl, (refl, tt)));
  };
  cache = snapshot;
  cached = refl;
  wallets = inl refl;
  drafts = inl refl;
  transactions = inr (refl, refl);
  sequences = inr (refl, refl);
}

hydrate-back_example :
    let t = hydrate (new_store "2024-03-01" running.cache) in
    (t.wallets ≡ running.wallets)
    × (t.drafts ≡ running.drafts)
    × (t.transactions ≡ running.transactions)
    × (t.sequences ≡ running.sequences)
hydrate-back_example = hydrate-back "2024-03-01" running running-IsRecoverable

abbrev payment : Transaction
payment = record {
  id = "TX-T1";
  type = transfer;
  status = TransactionStatus.settled;
  amount = "1.25";
  currency = "EUR";
  credited_wallet_alias = "BETA";
  debited_wallet_alias = "ALPHA";
  created_at = "20240202";
  settled_at = none;
  supplementary_data = none;
  instructing_party_id = none;
  funding_request_id = none;
  operation_context = none;
}

abbrev canceled : Draft → Draft
canceled d = record d { status = DraftStatus.canceled }

writes-IsRecoverable_example :
    IsRecoverable (upsert_wallet (wallet "GAMMA" "BANKITMM" "0.00") running)
    × IsRecoverable (add_draft (draft "T4" DraftStatus.pending_approval "BETA") running)
    × IsRecoverable (add_transaction payment running)
    × IsRecoverable (update_draft 20240202 "T1" canceled running)
    × IsRecoverable (next_id 20240202 "TR" running).1
writes-IsRecoverable_example =
    writes-IsRecoverable 20240202 "T1" "TR" (wallet "GAMMA" "BANKITMM" "0.00")
      (draft "T4" DraftStatus.pending_approval "BETA") payment canceled running (λ d. refl)
      running-IsRecoverable
