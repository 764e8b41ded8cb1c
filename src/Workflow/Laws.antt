-- ===== src/Workflow/Laws.antt =====
-- The interface between the base class and its subclasses: what every concrete workflow has to
-- respect, and what the checks of the base class then do.
use mock_pontes.Base.{◌≡◌, Option, arith}
use mock_pontes.State.Types.{Draft, Caller}
use mock_pontes.State.Record.{Store}
use mock_pontes.Workflow.Class.{Workflow, Phase, Moment}
use mock_pontes.Workflow.Wallets.{assert_debit_wallet_exists, assert_credit_wallet_exists}

-- Only wallets, and their copy in the cache, differ.
pub record KeepsBooks (s t : Store) : Type 0 where
  pub drafts : t.drafts ≡ s.drafts
  pub transactions : t.transactions ≡ s.transactions
  pub sequences : t.sequences ≡ s.sequences
  pub business_window : t.business_window ≡ s.business_window
  pub valid_ncbs : t.valid_ncbs ≡ s.valid_ncbs

pub record IsLawful (w : Workflow) : Type 0 where
  pub conditions_reads :
      (p : Phase) (d : Draft) (c : Option Caller) (m : Moment) (s : Store)
      → (w.conditions p d c m s).1 ≡ s
  pub apply_books :
      (d : Draft) (c : Option Caller) (m : Moment) (s : Store) → KeepsBooks s (w.apply d c m s).1

pub assert_debit_reads :
    (w : Workflow) (d : Draft) (s : Store) → (assert_debit_wallet_exists w d s).1 ≡ s
unfolding assert_debit_wallet_exists
assert_debit_reads w d s = ground arith

pub assert_credit_reads :
    (w : Workflow) (d : Draft) (s : Store) → (assert_credit_wallet_exists w d s).1 ≡ s
unfolding assert_credit_wallet_exists
assert_credit_reads w d s = ground arith
