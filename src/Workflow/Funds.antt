-- ===== src/Workflow/Funds.antt =====
-- The money movements of the base class, each by its two outcomes: it writes one wallet, or it
-- throws and writes nothing.
use mock_pontes.Base.{
  String, ◌≡◌, true, Option, none, some, Option-cases, Bool-cases, inl, inr, ◌⊎◌, or_else, arith,
}
use mock_pontes.Base.Dict.{lookup}
use mock_pontes.Platform.{Platform}
use mock_pontes.Result.{
  Failure, dcw_error, rejected, wallet_not_found, debit_denied, ok, err, Result-cases,
}
use mock_pontes.State.Types.{Wallet, Caller, no_caller}
use mock_pontes.State.Record.{Store}
use mock_pontes.State.Dcw.{can_debit, with_debit, parse_amount}
use mock_pontes.State.Store.{upsert_wallet, debit, get_wallet}
use mock_pontes.Workflow.Class.{Moment}
use mock_pontes.Workflow.Wallets.{checked_debit, raw_credit, map_dcw_error, no_credit_wallet}

module _ ⦃js : Platform⦄ where
  -- The debit went through: the wallet is there, the caller may debit it, and `w'` is what is left.
  pub record Debited (alias amount : String) (c : Option Caller) (m : Moment) (s : Store)
      : Type 0 where
    pub before : Wallet
    pub after : Wallet
    pub there : lookup alias s.wallets ≡ some before
    pub permitted : (can_debit before (or_else c no_caller) m.now).ok ≡ true
    pub debited : with_debit before amount ≡ ok after
    pub effect : checked_debit alias amount c m s ≡ (ok tt, upsert_wallet after s)

  pub checked_debit-cases :
      (alias amount : String) (c : Option Caller) (m : Moment) (s : Store)
      → Debited alias amount c m s
        ⊎ ((f : Failure) × (checked_debit alias amount c m s ≡ (err f, s)))
  unfolding checked_debit debit
  checked_debit-cases alias amount c m s = elim (Option-cases (lookup alias s.wallets)) [
    | inl gone ↦ inr (map_dcw_error alias (dcw_error (wallet_not_found alias)), ground arith)
    | inr (w, there) ↦ elim (Bool-cases (can_debit w (or_else c no_caller) m.now).ok) [
      | inr denied ↦ inr (
        map_dcw_error alias (
            dcw_error (
              debit_denied (or_else (can_debit w (or_else c no_caller) m.now).reason "undefined"))),
        ground arith,
      )
      | inl permitted ↦ elim (Result-cases (with_debit w amount)) [
        | inr (e, failed) ↦ inr (map_dcw_error alias e, ground arith)
        | inl (w', done) ↦ inl (record {
          before = w;
          after = w';
          there = there;
          permitted = permitted;
          debited = done;
          effect = ground arith;
        })
      ]
    ]
  ]

  -- The credit went through: the wallet is there and the amount is a number that is not negative.
  pub record Credited (alias amount : String) (s : Store) : Type 0 where
    pub before : Wallet
    pub added : js.Num
    pub there : lookup alias s.wallets ≡ some before
    pub parsed : parse_amount amount ≡ ok added
    pub effect : raw_credit alias amount s ≡ (
      ok tt,
      upsert_wallet
          (record before { balance = js.to_fixed (js.add (js.parse_float before.balance) added) })
          s,
    )

  pub raw_credit-cases :
      (alias amount : String) (s : Store)
      → Credited alias amount s
        ⊎ (((lookup alias s.wallets ≡ none) ⊎ ((e : Failure) × (parse_amount amount ≡ err e)))
            × ((f : Failure) × (raw_credit alias amount s ≡ (err f, s))))
  unfolding raw_credit get_wallet
  raw_credit-cases alias amount s = elim (Option-cases (lookup alias s.wallets)) [
    | inl gone ↦ inr (inl gone, (rejected (no_credit_wallet alias), ground arith))
    | inr (w, there) ↦ elim (Result-cases (parse_amount amount)) [
      | inr (e, failed) ↦ inr (inr (e, failed), (map_dcw_error alias e, ground arith))
      | inl (a, parsed) ↦
          inl (record {
            before = w;
            added = a;
            there = there;
            parsed = parsed;
            effect = ground arith;
          })
    ]
  ]
