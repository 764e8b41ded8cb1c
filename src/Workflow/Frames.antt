-- ===== src/Workflow/Frames.antt =====
-- A property of the store that the effect of a workflow and the writes of the base class keep is kept
-- by every method of the class, whether it returns or throws.
use mock_pontes.Base.{String, Option}
use mock_pontes.Platform.{Platform}
use mock_pontes.Exec.{◌>>◌, >>=-keeps, >>=-keeps_reads}
use mock_pontes.State.Types.{Draft, DraftStatus, pending_approval}
use mock_pontes.State.Record.{Store}
use mock_pontes.State.Store.{add_draft}
use mock_pontes.Workflow.{
  Workflow, WorkflowInit, Phase, Moment, Actor, load_pending, four_eyes, admit, settle, conclude,
  build_record, create, approve, cancel, execute, settle_draft, cancel_draft, record_transaction,
  keep_canceled, keep_draft, keep_transaction,
}
use mock_pontes.Workflow.Laws.{IsLawful}
use mock_pontes.Workflow.FourEyes.{load_pending_state, four_eyes_state}
use mock_pontes.Workflow.Approval.{admit_reads}

module _ ⦃js : Platform⦄ (w : Workflow) (lawful : IsLawful w) (P : Store → Type 0) where
  settle-keeps :
      (id : String) (actor : Actor) (m : Moment) (d : Draft) (s : Store)
      → P (w.apply d actor.caller m s).1
      → ((t : Store) → P t → P (record_transaction w d m (settle_draft m actor id d t)))
      → P (settle w id actor m d s).1
  unfolding settle conclude
  settle-keeps id actor m d s applied written =
      >>=-keeps P (w.apply d actor.caller m) (λ _. conclude w id actor m d) s applied
        (λ _ _. written (w.apply d actor.caller m s).1 applied)

  pub approve-keeps :
      (id : String) (actor : Actor) (m : Moment) (s : Store)
      → P s
      → ((d : Draft) → P (w.apply d actor.caller m s).1)
      → ((d : Draft) (t : Store) → P t → P (record_transaction w d m (settle_draft m actor id d t)))
      → P (approve w id actor m s).1
  unfolding approve
  approve-keeps id actor m s start applied written =
      >>=-keeps_reads P (load_pending w Phase.approve id)
        (λ d. four_eyes actor d >> admit w Phase.approve d actor.caller m >> settle w id actor m d)
        s (load_pending_state w Phase.approve id s) start
        (λ d.
          >>=-keeps_reads P (four_eyes actor d)
            (λ _. admit w Phase.approve d actor.caller m >> settle w id actor m d) s
            (four_eyes_state actor d s) start
            (λ _.
              >>=-keeps_reads P (admit w Phase.approve d actor.caller m)
                (λ _. settle w id actor m d) s
                (admit_reads w lawful Phase.approve d actor.caller m s) start
                (λ _. settle-keeps id actor m d s (applied d) (written d))))

  pub cancel-keeps :
      (id : String) (m : Moment) (s : Store)
      → P s
      → ((d : Draft) → P (cancel_draft m id d s))
      → P (cancel w id m s).1
  unfolding cancel
  cancel-keeps id m s start written =
      >>=-keeps_reads P (load_pending w Phase.cancel id)
        (λ d. w.conditions Phase.cancel d Option.none m >> keep_canceled id m d) s
        (load_pending_state w Phase.cancel id s) start
        (λ d.
          >>=-keeps_reads P (w.conditions Phase.cancel d Option.none m) (λ _. keep_canceled id m d)
            s (lawful.conditions_reads Phase.cancel d Option.none m s) start (λ _. written d))

  pub create-keeps :
      (init : WorkflowInit) (actor : Actor) (m : Moment) (s : Store)
      → P s
      → P (add_draft (build_record w init pending_approval m) s)
      → P (create w init actor m s).1
  unfolding create
  create-keeps init actor m s start written =
      let d = build_record w init pending_approval m in
      >>=-keeps_reads P (admit w Phase.create d actor.caller m) (λ _. keep_draft d) s
        (admit_reads w lawful Phase.create d actor.caller m s) start (λ _. written)

  pub execute-keeps :
      (init : WorkflowInit) (actor : Actor) (m : Moment) (s : Store)
      → let d = build_record w init DraftStatus.settled m in
        P s
        → P (w.apply d actor.caller m s).1
        → ((t : Store) → P t → P (record_transaction w d m t))
        → P (execute w init actor m s).1
  unfolding execute
  execute-keeps init actor m s start applied written =
      let d = build_record w init DraftStatus.settled m in
      >>=-keeps_reads P (admit w Phase.create d actor.caller m)
        (λ _. w.apply d actor.caller m >> keep_transaction w m d) s
        (admit_reads w lawful Phase.create d actor.caller m s) start
        (λ _.
          >>=-keeps P (w.apply d actor.caller m) (λ _. keep_transaction w m d) s applied
            (λ _ _. written (w.apply d actor.caller m s).1 applied))
