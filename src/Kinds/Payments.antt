-- ===== src/Kinds/Payments.antt =====
-- Payments in one step, by a workflow that debits one wallet and credits another.
use mock_pontes.Base.{◌≡◌, ◌≢◌, refl, sym, ◌∙◌, ap, ◌⊎◌, inl, inr}
use mock_pontes.Base.Lists.{push}
use mock_pontes.Platform.{Platform}
use mock_pontes.Result.{Failure, ok, err}
use mock_pontes.State.Types.{DraftStatus}
use mock_pontes.State.Record.{Store}
use mock_pontes.Workflow.{
  Workflow, WorkflowInit, Phase, Actor, Moment, admit, execute, build_record, settled_transaction,
}
use mock_pontes.Workflow.Creation.{refused, failed, done, execute-cases}
use mock_pontes.Workflow.Outcome.{
  drafts-record_transaction, transactions-record_transaction, wallets-record_transaction,
}
use mock_pontes.Kinds.{move_funds}
use mock_pontes.Kinds.Atomicity.{MovesFunds, admit-credit_there, move_funds-all}

module _ ⦃js : Platform⦄ where
  -- What a payment in one step leaves: the drafts as they were, exactly its transaction appended, and
  -- the wallets as the move of the amount leaves them.
  pub record Paid (w : Workflow) (init : WorkflowInit) (actor : Actor) (m : Moment) (s t : Store)
      : Type 0 where
    pub moved : (move_funds (build_record w init DraftStatus.settled m) actor.caller m s).0 ≡ ok tt
    pub wallets :
        t.wallets
        ≡ (move_funds (build_record w init DraftStatus.settled m) actor.caller m s).1.wallets
    pub drafts : t.drafts ≡ s.drafts
    pub transactions :
        t.transactions
        ≡ push s.transactions (settled_transaction w (build_record w init DraftStatus.settled m) m)

  credited-build_record :
      (w : Workflow) (init : WorkflowInit) (status : DraftStatus) (m : Moment)
      → (build_record w init status m).credited_wallet_alias ≡ init.credited_wallet_alias
  unfolding build_record
  credited-build_record w init status m = refl

  -- The checks of the payment pass and the amount can move.
  abbrev pub CanPay : Workflow → WorkflowInit → Actor → Moment → Store → Type 0
  CanPay w init actor m s =
      let d = build_record w init DraftStatus.settled m in
      ((admit w Phase.create d actor.caller m s).0 ≡ ok tt)
      × ((move_funds d actor.caller m s).0 ≡ ok tt)

  -- Where a payment names the wallet to credit, it has gone through and left the drafts as they were,
  -- the amount moved and exactly its transaction appended; or its checks did not pass or the amount
  -- could not move, and it has thrown and changed nothing.
  pub execute-Paid :
      (w : Workflow)
      → MovesFunds w
      → (init : WorkflowInit) (actor : Actor) (m : Moment) (s : Store)
      → init.credited_wallet_alias ≢ ""
      → let d = build_record w init DraftStatus.settled m in
        let t = (execute w init actor m s).1 in
        (((execute w init actor m s).0 ≡ ok d) × Paid w init actor m s t)
        ⊎ ((f : Failure) × (execute w init actor m s ≡ (err f, s)) × (CanPay w init actor m s → ⊥))
  execute-Paid w funds init actor m s named =
      let d = build_record w init DraftStatus.settled m in
      let same : w.apply d actor.caller m ≡ move_funds d actor.caller m =
        ap (λ x. x d actor.caller m) funds.apply in
      let u = (w.apply d actor.caller m s).1 in
      elim (execute-cases w funds.lawful init actor m s) [
        | refused f threw e ↦ inr (f, e, λ can. cc (threw, can.0))
        | failed f admitted threw e ↦
            let (v, there) =
              admit-credit_there w funds Phase.create d actor.caller m s
                (λ h. named (sym (credited-build_record w init DraftStatus.settled m) ∙ h))
                admitted in
            elim (move_funds-all d actor.caller m s v there) [
              | inl passed ↦ absurd (cc (passed, threw, ap (λ x. (x s).0) same))
              | inr kept ↦ inr (
                f,
                e ∙ ap (λ x. (err f, x)) (ap (λ x. (x s).1) same ∙ kept),
                λ can. cc (can.1, threw, ap (λ x. (x s).0) same),
              )
            ]
        | done admitted applied e ↦ inl (
          ap (λ x. x.0) e,
          record {
            moved = ap (λ x. (x s).0) (sym same) ∙ applied;
            wallets =
                ap (λ x. x.1.wallets) e
                ∙ wallets-record_transaction w d m u
                ∙ ap (λ x. (x s).1.wallets) same;
            drafts =
                ap (λ x. x.1.drafts) e
                ∙ drafts-record_transaction w d m u
                ∙ (funds.lawful.apply_books d actor.caller m s).drafts;
            transactions =
                ap (λ x. x.1.transactions) e
                ∙ transactions-record_transaction w d m u
                ∙ ap (λ x. push x (settled_transaction w d m))
                    (funds.lawful.apply_books d actor.caller m s).transactions;
          },
        )
      ]
