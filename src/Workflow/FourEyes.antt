-- ===== src/Workflow/FourEyes.antt =====
-- Separation of duties: what a successful approval establishes about the two identities.
use mock_pontes.Base.{String, ◌≡◌, ◌≢◌, true, false, Option, none, some, arith, eq_iff, given}
use mock_pontes.Result.{ok}
use mock_pontes.State.Types.{Draft, DraftType, DraftStatus, pending_approval}
use mock_pontes.State.Record.{Store}
use mock_pontes.State.Store.{get_draft}
use mock_pontes.Workflow.{
  Workflow, Phase, Actor, load_pending, is_pending, check_pending, four_eyes, same_type, same_text,
}

pub same_type→≡ : (a b : DraftType) → same_type a b ≡ true → a ≡ b
same_type→≡ a b h = ground arith

-- The two identities are known and different.
abbrev pub AreDistinct : Option String → Option String → Type 0
AreDistinct (some a) (some b) = (a ≢ "") × (b ≢ "") × (a ≢ b)
AreDistinct _ _ = ⊥

four_eyes_distinct :
    (a i : Option String)
    → given a ≡ true
    → given i ≡ true
    → same_text a i ≡ false
    → AreDistinct a i
four_eyes_distinct none i p q r = cc
four_eyes_distinct (some a) none p q r = cc
four_eyes_distinct (some a) (some i) p q r = ground (arith, eq_iff a "", eq_iff i "", eq_iff a i)

-- The draft under `id` is there, is of the workflow's type and awaits approval.
pub record IsPending (w : Workflow) (id : String) (s : Store) (d : Draft) : Type 0 where
  pub found : get_draft id none s ≡ some d
  pub typed : d.type ≡ w.type
  pub pending : d.status ≡ pending_approval

is_pending→≡ : (x : DraftStatus) → is_pending x ≡ true → x ≡ pending_approval
is_pending→≡ x h = ground arith

check_pending_ok :
    (w : Workflow) (p : Phase) (id : String) (o : Option Draft) (s : Store) (d : Draft)
    → (check_pending w p id o s).0 ≡ ok d
    → (o ≡ some d) × (d.type ≡ w.type) × (d.status ≡ pending_approval)
unfolding check_pending
check_pending_ok w p id none s d h = cc
check_pending_ok w p id (some e) s d h =
    ground (arith, same_type→≡ e.type w.type, is_pending→≡ e.status)

pub load_pending_ok :
    (w : Workflow) (p : Phase) (id : String) (s : Store) (d : Draft)
    → (load_pending w p id s).0 ≡ ok d
    → IsPending w id s d
unfolding load_pending
load_pending_ok w p id s d h =
    let (found, typed, pending) = check_pending_ok w p id (get_draft id none s) s d h in
    record { found = found; typed = typed; pending = pending }

-- Loading reads the store and changes nothing.
pub load_pending_state :
    (w : Workflow) (p : Phase) (id : String) (s : Store) → (load_pending w p id s).1 ≡ s
unfolding load_pending check_pending
load_pending_state w p id s = ground arith

pub four_eyes_ok :
    (actor : Actor) (d : Draft) (s : Store) {u : Unit {0}}
    → (four_eyes actor d s).0 ≡ ok u
    → AreDistinct actor.approver_user_uuid d.initiator_user_uuid
unfolding four_eyes
four_eyes_ok actor d s h =
    ground (arith, four_eyes_distinct actor.approver_user_uuid d.initiator_user_uuid)

pub four_eyes_state : (actor : Actor) (d : Draft) (s : Store) → (four_eyes actor d s).1 ≡ s
unfolding four_eyes
four_eyes_state actor d s = ground arith
