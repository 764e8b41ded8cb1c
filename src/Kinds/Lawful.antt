-- ===== src/Kinds/Lawful.antt =====
-- Every concrete workflow is lawful: its conditions only read, and its effect touches wallets alone.
use mock_pontes.Base.{
  Bool, true, false, String, ◌≡◌, refl, ◌∙◌, Option, none, some, arith, inl, inr,
}
use mock_pontes.Platform.{Platform}
use mock_pontes.Result.{Rejection}
use mock_pontes.Exec.{>>=-keeps, >>=-reads, throw_if}
use mock_pontes.State.Types.{Wallet, Draft, Caller}
use mock_pontes.State.Record.{Store}
use mock_pontes.State.Store.{upsert_wallet, get_wallet}
use mock_pontes.Workflow.{Phase, Moment, checked_debit, raw_credit}
use mock_pontes.Workflow.Funds.{checked_debit-cases, raw_credit-cases}
use mock_pontes.Workflow.Laws.{IsLawful, KeepsBooks}
use mock_pontes.Kinds.{
  manager_differs, transfer_conditions, request_type_matches, funding_conditions, move_funds,
  transfer_workflow, payment_workflow, direct_rtgs_workflow, pfod_workflow, funding_workflow,
  defunding_workflow,
}

throw_if_reads : (b : Bool) (r : Rejection) (s : Store) → (throw_if {S = Store} b r s).1 ≡ s
throw_if_reads true r s = refl
throw_if_reads false r s = refl

request_type_reads :
    (debited credited : Option Wallet) (request_type : Option String) (s : Store)
    → (request_type_matches debited credited request_type s).1 ≡ s
unfolding request_type_matches
request_type_reads none credited request_type s = refl
request_type_reads (some debited) none request_type s = refl
request_type_reads (some debited) (some credited) request_type s = ground arith

transfer_reads :
    (p : Phase) (d : Draft) (c : Option Caller) (m : Moment) (s : Store)
    → (transfer_conditions p d c m s).1 ≡ s
unfolding transfer_conditions
transfer_reads Phase.create d c m s =
    >>=-reads
      (throw_if
        (manager_differs (get_wallet d.debited_wallet_alias none s)
          d.debited_cash_wallet_manager_id)
        _)
      _ s (throw_if_reads _ _ s)
      λ _.
        >>=-reads
          (throw_if
            (manager_differs (get_wallet d.credited_wallet_alias none s)
              d.credited_cash_wallet_manager_id)
            _)
          _ s (throw_if_reads _ _ s) λ _. request_type_reads _ _ d.cbdc_request_type s
transfer_reads _ d c m s = refl

KeepsBooks-refl : (s : Store) → KeepsBooks s s
KeepsBooks-refl s = record {
  drafts = refl;
  transactions = refl;
  sequences = refl;
  business_window = refl;
  valid_ncbs = refl;
}

KeepsBooks-trans : {s t u : Store} → KeepsBooks s t → KeepsBooks t u → KeepsBooks s u
KeepsBooks-trans a b = record {
  drafts = b.drafts ∙ a.drafts;
  transactions = b.transactions ∙ a.transactions;
  sequences = b.sequences ∙ a.sequences;
  business_window = b.business_window ∙ a.business_window;
  valid_ncbs = b.valid_ncbs ∙ a.valid_ncbs;
}

pub upsert_wallet-KeepsBooks : (w : Wallet) (s : Store) → KeepsBooks s (upsert_wallet w s)
unfolding upsert_wallet
upsert_wallet-KeepsBooks w s = record {
  drafts = refl;
  transactions = refl;
  sequences = refl;
  business_window = refl;
  valid_ncbs = refl;
}

module _ ⦃js : Platform⦄ where
  funding_reads :
      (p : Phase) (d : Draft) (c : Option Caller) (m : Moment) (s : Store)
      → (funding_conditions p d c m s).1 ≡ s
  unfolding funding_conditions
  funding_reads Phase.create d c m s = ground arith
  funding_reads _ d c m s = refl

  checked_debit-KeepsBooks :
      (alias amount : String) (c : Option Caller) (m : Moment) (s : Store)
      → KeepsBooks s (checked_debit alias amount c m s).1
  checked_debit-KeepsBooks alias amount c m s = elim (checked_debit-cases alias amount c m s) [
    | inl d ↦ rw d.effect (upsert_wallet-KeepsBooks d.after s)
    | inr (f, e) ↦ rw e (KeepsBooks-refl s)
  ]

  raw_credit-KeepsBooks :
      (alias amount : String) (s : Store) → KeepsBooks s (raw_credit alias amount s).1
  raw_credit-KeepsBooks alias amount s = elim (raw_credit-cases alias amount s) [
    | inl c ↦ rw c.effect (upsert_wallet-KeepsBooks _ s)
    | inr (why, (f, e)) ↦ rw e (KeepsBooks-refl s)
  ]

  move_funds-KeepsBooks :
      (d : Draft) (c : Option Caller) (m : Moment) (s : Store) → KeepsBooks s (move_funds d c m s).1
  unfolding move_funds
  move_funds-KeepsBooks d c m s =
      let debit = checked_debit d.debited_wallet_alias d.amount c m in
      >>=-keeps (KeepsBooks s) debit (λ _. raw_credit d.credited_wallet_alias d.amount) s
        (checked_debit-KeepsBooks d.debited_wallet_alias d.amount c m s)
        λ _ _.
          KeepsBooks-trans (checked_debit-KeepsBooks d.debited_wallet_alias d.amount c m s)
            (raw_credit-KeepsBooks d.credited_wallet_alias d.amount (debit s).1)

  pub transfer-IsLawful : IsLawful transfer_workflow
  transfer-IsLawful = record {
    conditions_reads = transfer_reads;
    apply_books = move_funds-KeepsBooks;
  }

  pub payment-IsLawful : IsLawful payment_workflow
  payment-IsLawful = record {
    conditions_reads = λ _ _ _ _ s. refl;
    apply_books = move_funds-KeepsBooks;
  }

  pub direct_rtgs-IsLawful : IsLawful direct_rtgs_workflow
  direct_rtgs-IsLawful = record {
    conditions_reads = λ _ _ _ _ s. refl;
    apply_books = move_funds-KeepsBooks;
  }

  pub pfod-IsLawful : IsLawful pfod_workflow
  pfod-IsLawful = record {
    conditions_reads = λ _ _ _ _ s. refl;
    apply_books = move_funds-KeepsBooks;
  }

  pub funding-IsLawful : IsLawful funding_workflow
  funding-IsLawful = record {
    conditions_reads = funding_reads;
    apply_books = λ d _ _ s. raw_credit-KeepsBooks d.credited_wallet_alias d.amount s;
  }

  pub defunding-IsLawful : IsLawful defunding_workflow
  defunding-IsLawful = record {
    conditions_reads = λ _ _ _ _ s. refl;
    apply_books = λ d c m s. checked_debit-KeepsBooks d.debited_wallet_alias d.amount c m s;
  }
