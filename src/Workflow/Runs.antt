-- ===== src/Workflow/Runs.antt =====
-- Sequences of calls to the workflows, whoever makes them, with calls that fail among them.
use mock_pontes.Base.{String, ◌≡◌}
use mock_pontes.Platform.{Platform}
use mock_pontes.State.Record.{Store}
use mock_pontes.Workflow.{Workflow, WorkflowInit, Moment, Actor, create, approve, cancel, execute}

module _ ⦃js : Platform⦄ where
  -- One call by a workflow that satisfies `W`, where a draft that is created satisfies `P`. An execution
  -- stores no draft.
  pub data Step (W : Workflow → Type 0) (P : WorkflowInit → Type 0) (s t : Store) : Type 0 where
    creates :
        (w : Workflow)
        → W w
        → (init : WorkflowInit) → P init
        → (actor : Actor) (m : Moment) → t ≡ (create w init actor m s).1
        → Step W P s t
    approves :
        (w : Workflow)
        → W w
        → (id : String) (actor : Actor) (m : Moment) → t ≡ (approve w id actor m s).1
        → Step W P s t
    cancels :
        (w : Workflow) → W w → (id : String) (m : Moment) → t ≡ (cancel w id m s).1 → Step W P s t
    executes :
        (w : Workflow)
        → W w
        → (init : WorkflowInit) (actor : Actor) (m : Moment) → t ≡ (execute w init actor m s).1
        → Step W P s t

  -- Any number of calls, one after the other.
  pub data Run (W : Workflow → Type 0) (P : WorkflowInit → Type 0) (s : Store)
      : Store → Type 0 where
    stop : Run W P s s
    more : {t u : Store} → Run W P s t → Step W P t u → Run W P s u

  -- What every step keeps, every run keeps.
  pub Run-keeps :
      {W : Workflow → Type 0} {P : WorkflowInit → Type 0} (Q : Store → Type 0)
      → ((t u : Store) → Step W P t u → Q t → Q u)
      → {s t : Store} → Run W P s t
      → Q s
      → Q t
  Run-keeps Q step stop q = q
  Run-keeps Q step (more run last) q = step _ _ last (Run-keeps Q step run q)
