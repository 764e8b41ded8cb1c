-- ===== src/Workflow/Creation.antt =====
-- `create` and `execute`: what they leave on every branch, for every lawful workflow.
use mock_pontes.Base.{◌≡◌, refl, ◌⊎◌, inl, inr}
use mock_pontes.Platform.{Platform}
use mock_pontes.Result.{Failure, ok, err, Result-cases}
use mock_pontes.Exec.{ran}
use mock_pontes.State.Types.{DraftStatus, pending_approval}
use mock_pontes.State.Record.{Store}
use mock_pontes.State.Store.{add_draft}
use mock_pontes.Workflow.{
  Workflow, WorkflowInit, Phase, Moment, Actor, admit, build_record, create, execute,
  record_transaction,
}
use mock_pontes.Workflow.Laws.{IsLawful}
use mock_pontes.Workflow.Approval.{admit_reads}

module _ ⦃js : Platform⦄ (w : Workflow) (lawful : IsLawful w) where
  -- A creation has passed the checks and stored the draft, or has thrown and changed nothing.
  pub create-cases :
      (init : WorkflowInit) (actor : Actor) (m : Moment) (s : Store)
      → let d = build_record w init pending_approval m in
        ((create w init actor m s ≡ (ok d, add_draft d s))
          × ((admit w Phase.create d actor.caller m s).0 ≡ ok tt))
        ⊎ ((f : Failure) × (create w init actor m s ≡ (err f, s))
            × ((admit w Phase.create d actor.caller m s).0 ≡ err f))
  unfolding create
  create-cases init actor m s =
      let d = build_record w init pending_approval m in
      let check = admit w Phase.create d actor.caller m in
      let kept = admit_reads w lawful Phase.create d actor.caller m s in
      elim (Result-cases (check s).0) [
        | inl (_, e) ↦ inl (rw (ran (check s) e kept) refl, e)
        | inr (f, e) ↦ inr (f, rw (ran (check s) e kept) refl, e)
      ]

  -- An execution has thrown in its checks and changed nothing, or has passed them and applied the
  -- effect; then it has recorded the transaction, or the effect has thrown.
  pub data Executed (init : WorkflowInit) (actor : Actor) (m : Moment) (s : Store) : Type 0 where
    refused :
        (f : Failure)
        → (admit w Phase.create (build_record w init DraftStatus.settled m) actor.caller m s).0
          ≡ err f
        → execute w init actor m s ≡ (err f, s)
        → Executed init actor m s
    failed :
        (f : Failure)
        → (admit w Phase.create (build_record w init DraftStatus.settled m) actor.caller m s).0
          ≡ ok tt
        → (w.apply (build_record w init DraftStatus.settled m) actor.caller m s).0 ≡ err f
        → execute w init actor m s
          ≡ (err f, (w.apply (build_record w init DraftStatus.settled m) actor.caller m s).1)
        → Executed init actor m s
    done :
        (admit w Phase.create (build_record w init DraftStatus.settled m) actor.caller m s).0
          ≡ ok tt
        → (w.apply (build_record w init DraftStatus.settled m) actor.caller m s).0 ≡ ok tt
        → execute w init actor m s ≡ (
          ok (build_record w init DraftStatus.settled m),
          record_transaction w
              (build_record w init DraftStatus.settled m)
              m
              (w.apply (build_record w init DraftStatus.settled m) actor.caller m s).1,
        )
        → Executed init actor m s

  pub execute-cases :
      (init : WorkflowInit) (actor : Actor) (m : Moment) (s : Store) → Executed init actor m s
  unfolding execute
  execute-cases init actor m s =
      let d = build_record w init DraftStatus.settled m in
      let check = admit w Phase.create d actor.caller m in
      let effect = w.apply d actor.caller m in
      let kept = admit_reads w lawful Phase.create d actor.caller m s in
      elim (Result-cases (check s).0) [
        | inr (f, e) ↦ refused f e (rw (ran (check s) e kept) refl)
        | inl (_, e) ↦ elim (Result-cases (effect s).0) [
          | inl (_, applied) ↦ done e applied (rw (ran (check s) e kept, applied) refl)
          | inr (f, threw) ↦ failed f e threw (rw (ran (check s) e kept, threw) refl)
        ]
      ]
