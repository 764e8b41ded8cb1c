-- ===== src/Kinds/Atomicity.antt =====
-- Approvals of the workflows that move funds from one wallet to another: all of an approval happens
-- or nothing of it, provided that the draft names the wallet to credit.
use mock_pontes.Base.{
  String, ◌≡◌, refl, sym, ◌∙◌, ap, ◌≢◌, ◌⊎◌, true, Option, none, some, arith, inl, inr, eq_iff,
  Option-cases, ℕ, ◌≤◌,
}
use mathlib.Core.Path.{subst}
use mock_pontes.Base.Dict.{lookup}
use mock_pontes.Platform.{Platform, IsExact}
use mock_pontes.Result.{Result, ok, err, Failure, rejected}
use mock_pontes.Exec.{continue, ◌>>◌, >>=-ok_reads, ran}
use mock_pontes.State.Types.{Wallet, Draft, Caller}
use mock_pontes.State.Record.{Store}
use mock_pontes.State.Dcw.Balances.{Denotes, with_debit-parsed, alias-with_debit}
use mock_pontes.State.Worth.{Worth}
use mock_pontes.State.Store.{upsert_wallet, get_draft, get_wallet}
use mock_pontes.State.Store.Frame.{lookup-upsert_wallet}
use mock_pontes.Workflow.{
  Workflow, Phase, Moment, Actor, approve, admit, settle, conclude, raw_credit, four_eyes,
  no_credit_wallet, assert_debit_wallet_exists, assert_credit_wallet_exists,
}
use mock_pontes.Workflow.Laws.{IsLawful, assert_debit_reads}
use mock_pontes.Workflow.FourEyes.{IsPending, four_eyes_state}
use mock_pontes.Workflow.Approval.{admit_reads, approve-Approved, approve-failed}
use mock_pontes.Workflow.Funds.{Debited, checked_debit-cases, raw_credit-cases}
use mock_pontes.Workflow.Outcome.{wallets-approve, load_pending_open}
use mock_pontes.Kinds.{
  move_funds, transfer_workflow, payment_workflow, direct_rtgs_workflow, pfod_workflow,
}
use mock_pontes.Kinds.Lawful.{
  upsert_wallet-KeepsBooks, transfer-IsLawful, payment-IsLawful, direct_rtgs-IsLawful,
  pfod-IsLawful,
}
use mock_pontes.Kinds.Conservation.{AliasKeyed, move_funds-Worth}

module _ ⦃js : Platform⦄ where
  -- The workflows whose effect is a checked debit and a credit, both of existing wallets.
  pub record MovesFunds (w : Workflow) : Type 0 where
    pub lawful : IsLawful w
    pub apply : w.apply ≡ move_funds
    pub credits : w.credits_existing_wallet ≡ true

  pub transfer-MovesFunds : MovesFunds transfer_workflow
  transfer-MovesFunds = record { lawful = transfer-IsLawful; apply = refl; credits = refl }

  pub payment-MovesFunds : MovesFunds payment_workflow
  payment-MovesFunds = record { lawful = payment-IsLawful; apply = refl; credits = refl }

  pub direct_rtgs-MovesFunds : MovesFunds direct_rtgs_workflow
  direct_rtgs-MovesFunds = record { lawful = direct_rtgs-IsLawful; apply = refl; credits = refl }

  pub pfod-MovesFunds : MovesFunds pfod_workflow
  pfod-MovesFunds = record { lawful = pfod-IsLawful; apply = refl; credits = refl }

  -- The draft under `id`, if there is one, names a wallet to credit.
  abbrev pub NamesCredit : String → Store → Type 0
  NamesCredit id s = (d : Draft) → get_draft id none s ≡ some d → d.credited_wallet_alias ≢ ""

  credit_there :
      (w : Workflow) (d : Draft) (s : Store)
      → w.credits_existing_wallet ≡ true
      → d.credited_wallet_alias ≢ ""
      → (assert_credit_wallet_exists w d s).0 ≡ ok tt
      → (v : Wallet) × (lookup d.credited_wallet_alias s.wallets ≡ some v)
  unfolding assert_credit_wallet_exists get_wallet
  credit_there w d s credits named h =
      elim (Option-cases (lookup d.credited_wallet_alias s.wallets)) [
        | inr found ↦ found
        | inl gone ↦ absurd (ground (arith, eq_iff d.credited_wallet_alias ""))
      ]

  pub admit-credit_there :
      (w : Workflow) (funds : MovesFunds w) (p : Phase) (d : Draft) (c : Option Caller) (m : Moment)
      (s : Store)
      → d.credited_wallet_alias ≢ ""
      → (admit w p d c m s).0 ≡ ok tt
      → (v : Wallet) × (lookup d.credited_wallet_alias s.wallets ≡ some v)
  unfolding admit
  admit-credit_there w funds p d c m s named h =
      let (_, _, q) =
        >>=-ok_reads (w.conditions p d c m)
          (λ _. assert_debit_wallet_exists w d >> assert_credit_wallet_exists w d) s
          (funds.lawful.conditions_reads p d c m s) h in
      let (_, _, q') =
        >>=-ok_reads (assert_debit_wallet_exists w d) (λ _. assert_credit_wallet_exists w d) s
          (assert_debit_reads w d s) (ap (λ x. x.0) (sym q) ∙ h) in
      credit_there w d s funds.credits named (ap (λ x. x.0) (sym (q ∙ q')) ∙ h)

  -- A wallet that is there is still there when another one is written.
  still_there :
      (w v : Wallet) (k : String) (s : Store)
      → lookup k s.wallets ≡ some v
      → lookup k (upsert_wallet w s).wallets ≢ none
  still_there w v k s h = rw (lookup-upsert_wallet w k s) (ground arith)

  -- Where the wallet to credit is there, the credit follows the debit.
  pub move_funds-all :
      (d : Draft) (c : Option Caller) (m : Moment) (s : Store) (v : Wallet)
      → lookup d.credited_wallet_alias s.wallets ≡ some v
      → ((move_funds d c m s).0 ≡ ok tt) ⊎ ((move_funds d c m s).1 ≡ s)
  unfolding move_funds
  move_funds-all d c m s v there =
      elim (checked_debit-cases d.debited_wallet_alias d.amount c m s) [
        | inr (f, e) ↦ inr (rw e)
        | inl debit ↦
            let t = upsert_wallet debit.after s in
            elim (raw_credit-cases d.credited_wallet_alias d.amount t) [
              | inl credit ↦ inl (rw (debit.effect, credit.effect))
              | inr (inl gone, _) ↦
                  absurd (still_there debit.after v d.credited_wallet_alias s there gone)
              | inr (inr (e, failed), _) ↦
                  let (a, parsed) =
                    with_debit-parsed debit.before debit.after d.amount debit.debited in
                  absurd (cc (failed, parsed))
            ]
      ]

  -- The writes that conclude an approval do not throw.
  conclude_err :
      (w : Workflow) (id : String) (actor : Actor) (m : Moment) (d : Draft) (r : Result (Unit {0}))
      (t : Store) (f : Failure)
      → (continue r (λ _. conclude w id actor m d) t).0 ≡ err f
      → (r ≢ ok tt) × ((continue r (λ _. conclude w id actor m d) t).1 ≡ t)
  unfolding conclude
  conclude_err w id actor m d (ok u) t f h = absurd (cc)
  conclude_err w id actor m d (err e) t f h = (λ p. cc, refl)

  settle-all :
      (w : Workflow)
      → MovesFunds w
      → (id : String) (actor : Actor) (m : Moment) (d : Draft) (s : Store) (v : Wallet)
        (f : Failure)
      → lookup d.credited_wallet_alias s.wallets ≡ some v
      → (settle w id actor m d s).0 ≡ err f
      → (settle w id actor m d s).1 ≡ s
  unfolding settle
  settle-all w funds id actor m d s v f there h =
      let effect = w.apply d actor.caller m in
      let same : effect ≡ move_funds d actor.caller m = ap (λ x. x d actor.caller m) funds.apply in
      let (threw, kept) = conclude_err w id actor m d (effect s).0 (effect s).1 f h in
      elim (move_funds-all d actor.caller m s v there) [
        | inl passed ↦ absurd (threw (ap (λ x. (x s).0) same ∙ passed))
        | inr unchanged ↦ kept ∙ ap (λ x. (x s).1) same ∙ unchanged
      ]

  -- A failed approval by a workflow that debits one wallet and credits another has changed nothing at
  -- all, if the draft names the wallet to credit.
  pub approve_atomic :
      (w : Workflow)
      → MovesFunds w
      → (id : String) (actor : Actor) (m : Moment) (s : Store) (f : Failure) → NamesCredit id s
      → (approve w id actor m s).0 ≡ err f
      → (approve w id actor m s).1 ≡ s
  approve_atomic w funds id actor m s f named h =
      elim (approve-failed w funds.lawful id actor m s f h) [
        | inl kept ↦ kept
        | inr (d, pending, admitted, q) ↦
            let (v, there) =
              admit-credit_there w funds Phase.approve d actor.caller m s (named d pending.found)
                admitted in
            ap (λ x. x.1) q
            ∙ settle-all w funds id actor m d s v f there (ap (λ x. x.0) (sym q) ∙ h)
      ]

  -- Where doubles are exact up to the sum of the balances, every wallet stands under its alias and the
  -- draft's amount is a number of cents, a successful approval by a workflow that debits one wallet and
  -- credits another conserves cash: the sum of the available balances is what it was.
  pub approve_conserves :
      (ex : IsExact js) (w : Workflow)
      → MovesFunds w
      → (id : String) (actor : Actor) (m : Moment) (s : Store) (r : Option Draft) (n : ℕ)
      → AliasKeyed s
      → Worth ex s.wallets n
      → n ≤ ex.limit
      → ((d : Draft) → get_draft id none s ≡ some d → (a : ℕ) × Denotes ex d.amount a)
      → (approve w id actor m s).0 ≡ ok r
      → Worth ex (approve w id actor m s).1.wallets n
  approve_conserves ex w funds id actor m s r n keyed worth fits amounts h =
      let a = approve-Approved w funds.lawful id actor m s r h in
      let d = a.draft in
      let same : w.apply d actor.caller m ≡ move_funds d actor.caller m =
        ap (λ x. x d actor.caller m) funds.apply in
      let (cents, den) = amounts d a.pending.found in
      let moved : (move_funds d actor.caller m s).0 ≡ ok tt =
        ap (λ x. (x s).0) (sym same) ∙ a.applied in
      let wallets =
        wallets-approve w funds.lawful id actor m s (approve w id actor m s).1 r a
        ∙ ap (λ x. (x s).1.wallets) same in
      subst (λ x. Worth ex x n) (sym wallets)
        (move_funds-Worth ex d actor.caller m s n cents keyed worth fits den moved)

  raw_credit_absent :
      (alias amount : String) (s : Store)
      → lookup alias s.wallets ≡ none
      → raw_credit alias amount s ≡ (err (rejected (no_credit_wallet alias)), s)
  unfolding raw_credit get_wallet
  raw_credit_absent alias amount s gone = ground arith

  -- Where the draft names no wallet to credit, and there is none under the empty alias, an approval
  -- whose checks and debit pass throws after the debit: the source stays debited, no wallet is
  -- credited, no transaction is recorded and the draft still awaits approval.
  pub approve_unnamed_credit :
      (w : Workflow)
      → MovesFunds w
      → (id : String) (actor : Actor) (m : Moment) (s : Store) (d : Draft) → IsPending w id s d
      → (four_eyes actor d s).0 ≡ ok tt
      → (admit w Phase.approve d actor.caller m s).0 ≡ ok tt
      → (debit : Debited d.debited_wallet_alias d.amount actor.caller m s)
      → d.credited_wallet_alias ≡ ""
      → debit.before.alias ≢ ""
      → lookup "" s.wallets ≡ none
      → let t = upsert_wallet debit.after s in
        (approve w id actor m s ≡ (err (rejected (no_credit_wallet "")), t))
        × (get_draft id none t ≡ some d)
        × (t.transactions ≡ s.transactions)
  unfolding approve settle move_funds get_draft
  approve_unnamed_credit w funds id actor m s d pending eyes admitted debit unnamed named gone =
      let t = upsert_wallet debit.after s in
      let alias = alias-with_debit debit.before debit.after d.amount debit.debited in
      let absent : lookup d.credited_wallet_alias t.wallets ≡ none =
        rw (unnamed, lookup-upsert_wallet debit.after "" s)
          (ground (arith, eq_iff debit.after.alias "")) in
      let checks =
        ran (admit w Phase.approve d actor.caller m s) admitted
          (admit_reads w funds.lawful Phase.approve d actor.caller m s) in
      let persons = ran (four_eyes actor d s) eyes (four_eyes_state actor d s) in
      let books = upsert_wallet-KeepsBooks debit.after s in
      (
        rw
            (
              load_pending_open w Phase.approve id s d pending,
              persons,
              checks,
              funds.apply,
              debit.effect,
            )
            (rw (raw_credit_absent d.credited_wallet_alias d.amount t absent, unnamed)),
        ap (lookup id) books.drafts ∙ pending.found,
        books.transactions,
      )
