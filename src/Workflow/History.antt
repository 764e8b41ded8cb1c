-- ===== src/Workflow/History.antt =====
-- What no sequence of calls undoes: a draft that is settled or canceled stays as it is, and the list
-- of transactions only grows.
use mathlib.Core.Path.{subst}
use mock_pontes.Base.{
  List, false, String, ◌≡◌, ◌≢◌, refl, sym, ◌∙◌, ap, ◌==◌, some, none, arith, eq_iff, Bool-cases,
  inl, inr,
}
use mock_pontes.Base.Dict.{lookup}
use mock_pontes.Base.Lists.{IsPrefix}
use mock_pontes.Platform.{Platform}
use mock_pontes.Result.{Failure, rejected, err}
use mock_pontes.State.Types.{Draft, DraftStatus, pending_approval, Transaction}
use mock_pontes.State.Record.{Store}
use mock_pontes.State.Store.{get_draft, add_draft}
use mock_pontes.State.Store.Frame.{lookup-add_draft}
use mock_pontes.Workflow.{
  Workflow, WorkflowInit, Phase, Moment, Actor, load_pending, check_pending, build_record, approve,
  cancel, settle_draft, cancel_draft, record_transaction, same_type, wrong_state, not_found,
}
use mock_pontes.Workflow.Laws.{IsLawful}
use mock_pontes.Workflow.Updates.{settle_draft-others, cancel_draft-others}
use mock_pontes.Workflow.Outcome.{drafts-record_transaction, is_pending-false}
use mock_pontes.Workflow.Frames.{approve-keeps, cancel-keeps, create-keeps, execute-keeps}
use mock_pontes.Workflow.Runs.{Step, creates, approves, cancels, executes, Run, Run-keeps}

module _ ⦃js : Platform⦄ where
  -- A closed draft is not loaded for a transition, whatever the workflow.
  load_pending-closed :
      (w : Workflow) (p : Phase) (id : String) (s : Store) (e : Draft)
      → get_draft id none s ≡ some e
      → e.status ≢ pending_approval
      → (f : Failure) × (load_pending w p id s ≡ (err f, s))
  unfolding load_pending check_pending
  load_pending-closed w p id s e there closed = elim (Bool-cases (same_type e.type w.type)) [
    | inl same ↦
        (rejected (wrong_state w p id e), rw (there, same, is_pending-false e.status closed) refl)
    | inr other ↦ (rejected (not_found w id), rw (there, other) refl)
  ]

  approve-closed :
      (w : Workflow) (id : String) (actor : Actor) (m : Moment) (s : Store) (e : Draft)
      → get_draft id none s ≡ some e
      → e.status ≢ pending_approval
      → (approve w id actor m s).1 ≡ s
  unfolding approve
  approve-closed w id actor m s e there closed =
      let (f, q) = load_pending-closed w Phase.approve id s e there closed in rw q refl

  cancel-closed :
      (w : Workflow) (id : String) (m : Moment) (s : Store) (e : Draft)
      → get_draft id none s ≡ some e
      → e.status ≢ pending_approval
      → (cancel w id m s).1 ≡ s
  unfolding cancel
  cancel-closed w id m s e there closed =
      let (f, q) = load_pending-closed w Phase.cancel id s e there closed in rw q refl

  -- The transactions of `s` come first in those of the other store.
  abbrev pub Extends : List Transaction → Store → Type 0
  Extends log t = IsPrefix log t.transactions

  -- The draft stands in the store as it was.
  abbrev pub Keeps : String → Draft → Store → Type 0
  Keeps id d t = get_draft id none t ≡ some d

  Keeps-same :
      (id : String) (d : Draft) (s t : Store)
      → get_draft id none t ≡ get_draft id none s
      → Keeps id d s
      → Keeps id d t
  Keeps-same id d s t e h = e ∙ h

  same_drafts :
      (id : String) (s t : Store) → t.drafts ≡ s.drafts → get_draft id none t ≡ get_draft id none s
  unfolding get_draft
  same_drafts id s t e = ap (lookup id) e

  created_elsewhere :
      (w : Workflow) (id : String) (init : WorkflowInit) (m : Moment) (s : Store)
      → init.id ≢ id
      → get_draft id none (add_draft (build_record w init pending_approval m) s)
        ≡ get_draft id none s
  unfolding build_record get_draft
  created_elsewhere w id init m s other =
      lookup-add_draft (build_record w init pending_approval m) id s
      ∙ ground (arith, eq_iff init.id id)

  differ : (j id : String) → (j == id) ≡ false → j ≢ id
  differ j id h = ground (arith, eq_iff j id)

  settled_elsewhere :
      (m : Moment) (actor : Actor) (j id : String) (d : Draft) (s : Store)
      → j ≢ id
      → get_draft id none (settle_draft m actor j d s) ≡ get_draft id none s
  unfolding get_draft
  settled_elsewhere = settle_draft-others

  canceled_elsewhere :
      (m : Moment) (j id : String) (d : Draft) (s : Store)
      → j ≢ id
      → get_draft id none (cancel_draft m j d s) ≡ get_draft id none s
  unfolding get_draft
  canceled_elsewhere = cancel_draft-others

  draft_stays :
      (id : String) (d : Draft) {s t : Store}
      → d.status ≢ pending_approval
      → Step IsLawful (λ init. init.id ≢ id) s t
      → Keeps id d s
      → Keeps id d t
  draft_stays id d {s} closed (creates w l init other actor m e) h =
      subst (Keeps id d) (sym e)
        (create-keeps w l (Keeps id d) init actor m s h (created_elsewhere w id init m s other ∙ h))
  draft_stays id d {s} closed (approves w l j actor m e) h = elim (Bool-cases (j == id)) [
    | inl same ↦
        subst (Keeps id d)
          (sym (e ∙ approve-closed w j actor m s d (rw ((eq_iff j id).0 same) h) closed)) h
    | inr other ↦ subst (Keeps id d) (sym e) (
        approve-keeps w l (Keeps id d) j actor m s h
          (λ x.
            same_drafts id s (w.apply x actor.caller m s).1
              (l.apply_books x actor.caller m s).drafts
            ∙ h)
          (λ x t k.
            same_drafts id (settle_draft m actor j x t)
              (record_transaction w x m (settle_draft m actor j x t))
              (drafts-record_transaction w x m (settle_draft m actor j x t))
            ∙ settled_elsewhere m actor j id x t (differ j id other)
            ∙ k))
  ]
  draft_stays id d {s} closed (cancels w l j m e) h = elim (Bool-cases (j == id)) [
    | inl same ↦
        subst (Keeps id d) (sym (e ∙ cancel-closed w j m s d (rw ((eq_iff j id).0 same) h) closed))
          h
    | inr other ↦ subst (Keeps id d) (sym e) (
        cancel-keeps w l (Keeps id d) j m s h
          (λ x. canceled_elsewhere m j id x s (differ j id other) ∙ h))
  ]
  draft_stays id d {s} closed (executes w l init actor m e) h = subst (Keeps id d) (sym e) (
      execute-keeps w l (Keeps id d) init actor m s h
        (same_drafts id s (w.apply (build_record w init DraftStatus.settled m) actor.caller m s).1
            (l.apply_books _ actor.caller m s).drafts
          ∙ h)
        (λ t k.
          let d = build_record w init DraftStatus.settled m in
          same_drafts id t (record_transaction w d m t) (drafts-record_transaction w d m t) ∙ k))

  -- Over any sequence of creations, approvals, cancellations and executions, by any lawful workflows
  -- and anyone, whether they succeed or throw, in which no creation is asked for under its identifier,
  -- a stored draft that does not await approval stays as it is.
  pub closed-frozen :
      (id : String) (d : Draft) (s t : Store)
      → get_draft id none s ≡ some d
      → d.status ≢ pending_approval
      → Run IsLawful (λ init. init.id ≢ id) s t
      → get_draft id none t ≡ some d
  closed-frozen id d s t there closed run =
      Run-keeps (Keeps id d) (λ u v step. draft_stays id d closed step) run there
