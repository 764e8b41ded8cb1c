-- ===== src/Workflow/Outcome.antt =====
-- The state machine of a draft, for every lawful workflow: what a successful approval or
-- cancellation leaves, and that a draft which has left the pending state is refused from then on.
use mock_pontes.Base.{String, true, false, ◌≡◌, refl, sym, ◌∙◌, ap, ◌≢◌, Option, none, some, arith}
use mock_pontes.Base.Dict.{lookup}
use mock_pontes.Base.Lists.{push}
use mock_pontes.Platform.{Platform}
use mock_pontes.Result.{ok, err, rejected}
use mock_pontes.Exec.{◌>>◌, >>=-ok_reads, returned_read}
use mock_pontes.State.Types.{Draft, DraftType, DraftStatus, pending_approval, canceled}
use mock_pontes.State.Record.{Store}
use mock_pontes.State.Store.{get_draft, add_transaction}
use mock_pontes.State.Store.Frame.{KeepsAllButDrafts, update_draft-KeepsAllButDrafts}
use mock_pontes.Workflow.{
  Workflow, Phase, Moment, Actor, load_pending, approve, cancel, settle_draft, cancel_draft,
  record_transaction, settled_transaction, keep_canceled, check_pending, wrong_state, is_pending,
  same_type,
}
use mock_pontes.Workflow.Laws.{IsLawful}
use mock_pontes.Workflow.FourEyes.{IsPending, AreDistinct, load_pending_ok, load_pending_state}
use mock_pontes.Workflow.Approval.{Approved, approve-Approved}
use mock_pontes.Workflow.Updates.{
  IsUpdate, settle_draft-found, settle_draft-others, cancel_draft-found, cancel_draft-others,
}

module _ ⦃js : Platform⦄ where
  pub drafts-record_transaction :
      (w : Workflow) (d : Draft) (m : Moment) (s : Store)
      → (record_transaction w d m s).drafts ≡ s.drafts
  unfolding record_transaction add_transaction
  drafts-record_transaction w d m s = refl

  pub transactions-record_transaction :
      (w : Workflow) (d : Draft) (m : Moment) (s : Store)
      → (record_transaction w d m s).transactions ≡ push s.transactions (settled_transaction w d m)
  unfolding record_transaction add_transaction
  transactions-record_transaction w d m s = refl

  pub transactions-settle_draft :
      (m : Moment) (actor : Actor) (id : String) (d : Draft) (s : Store)
      → (settle_draft m actor id d s).transactions ≡ s.transactions
  unfolding settle_draft
  transactions-settle_draft m actor id d s =
      (update_draft-KeepsAllButDrafts m.now id _ s).transactions

  -- What a successful approval leaves: the pending draft, approved by someone other than its
  -- initiator, is settled and signed, every other draft is as before, and exactly the transaction
  -- of the draft is appended.
  pub record Settlement (w : Workflow) (id : String) (actor : Actor) (m : Moment) (s t : Store)
      (r : Option Draft) : Type 0 where
    pub draft : Draft
    pub pending : IsPending w id s draft
    pub distinct : AreDistinct actor.approver_user_uuid draft.initiator_user_uuid
    pub settled : Draft
    pub stored : get_draft id none t ≡ some settled
    pub returned : r ≡ some settled
    pub update : IsUpdate DraftStatus.settled draft settled
    pub signed : settled.approver_user_uuid ≡ actor.approver_user_uuid
    pub others : (j : String) → id ≢ j → get_draft j none t ≡ get_draft j none s
    pub transactions : t.transactions ≡ push s.transactions (settled_transaction w draft m)

  Approved-Settlement :
      (w : Workflow) (lawful : IsLawful w) (id : String) (actor : Actor) (m : Moment) (s t : Store)
      (r : Option Draft)
      → Approved w lawful id actor m s t r
      → Settlement w id actor m s t r
  unfolding get_draft
  Approved-Settlement w lawful id actor m s t r a =
      let u = (w.apply a.draft actor.caller m s).1 in
      let books = lawful.apply_books a.draft actor.caller m s in
      let there : lookup id u.drafts ≡ some a.draft =
        ap (lookup id) books.drafts ∙ a.pending.found in
      let (e, found, update, signed) = settle_draft-found m actor id a.draft u there in
      let same : t.drafts ≡ (settle_draft m actor id a.draft u).drafts =
        ap (λ x. x.drafts) a.books
        ∙ drafts-record_transaction w a.draft m (settle_draft m actor id a.draft u) in
      record {
        draft = a.draft;
        pending = a.pending;
        distinct = a.distinct;
        settled = e;
        stored = ap (lookup id) same ∙ found;
        returned = a.value ∙ ap (lookup id) same ∙ found;
        update = update;
        signed = signed;
        others = λ j ne.
            ap (lookup j) same
            ∙ settle_draft-others m actor id j a.draft u ne
            ∙ ap (lookup j) books.drafts;
        transactions =
            ap (λ x. x.transactions) a.books
            ∙ transactions-record_transaction w a.draft m (settle_draft m actor id a.draft u)
            ∙ ap (λ x. push x (settled_transaction w a.draft m))
                (transactions-settle_draft m actor id a.draft u ∙ books.transactions);
      }

  -- A successful approval by any lawful workflow has found the draft pending and someone other than
  -- its initiator approving; it leaves the draft settled and signed, every other draft as it was, and
  -- exactly the transaction of the draft appended.
  pub approve-Settlement :
      (w : Workflow)
      → IsLawful w
      → (id : String) (actor : Actor) (m : Moment) (s : Store) (r : Option Draft)
      → (approve w id actor m s).0 ≡ ok r
      → Settlement w id actor m s (approve w id actor m s).1 r
  approve-Settlement w lawful id actor m s r h =
      Approved-Settlement w lawful id actor m s (approve w id actor m s).1 r
        (approve-Approved w lawful id actor m s r h)

  same_type_refl : (a : DraftType) → same_type a a ≡ true
  same_type_refl a = ground arith

  pub is_pending-false : (x : DraftStatus) → x ≢ pending_approval → is_pending x ≡ false
  is_pending-false x h = ground arith

  load_pending_closed :
      (w : Workflow) (p : Phase) (id : String) (s : Store) (e : Draft)
      → get_draft id none s ≡ some e
      → e.type ≡ w.type
      → e.status ≢ pending_approval
      → load_pending w p id s ≡ (err (rejected (wrong_state w p id e)), s)
  unfolding load_pending check_pending
  load_pending_closed w p id s e there typed closed =
      rw (there, typed, same_type_refl w.type, is_pending-false e.status closed)

  pub load_pending_open :
      (w : Workflow) (p : Phase) (id : String) (s : Store) (d : Draft)
      → IsPending w id s d
      → load_pending w p id s ≡ (ok d, s)
  unfolding load_pending check_pending
  load_pending_open w p id s d h = rw (h.found, h.typed, same_type_refl w.type, h.pending)

  pub cancel_draft-KeepsAllButDrafts :
      (m : Moment) (id : String) (d : Draft) (s : Store)
      → KeepsAllButDrafts s (cancel_draft m id d s)
  unfolding cancel_draft
  cancel_draft-KeepsAllButDrafts m id d s = update_draft-KeepsAllButDrafts m.now id _ s

  pub wallets-record_transaction :
      (w : Workflow) (d : Draft) (m : Moment) (s : Store)
      → (record_transaction w d m s).wallets ≡ s.wallets
  unfolding record_transaction add_transaction
  wallets-record_transaction w d m s = refl

  -- The wallets after a successful approval are those that the effect of the workflow leaves.
  pub wallets-approve :
      (w : Workflow) (lawful : IsLawful w) (id : String) (actor : Actor) (m : Moment) (s t : Store)
      (r : Option Draft) (a : Approved w lawful id actor m s t r)
      → t.wallets ≡ (w.apply a.draft actor.caller m s).1.wallets
  unfolding settle_draft
  wallets-approve w lawful id actor m s t r a =
      let u = (w.apply a.draft actor.caller m s).1 in
      ap (λ x. x.wallets) a.books
      ∙ wallets-record_transaction w a.draft m (settle_draft m actor id a.draft u)
      ∙ (update_draft-KeepsAllButDrafts m.now id _ u).wallets

  -- A draft that no longer awaits approval can be neither approved nor canceled: both calls answer
  -- 409, and change nothing.
  pub closed_refused :
      (w : Workflow) (id : String) (actor : Actor) (m : Moment) (s : Store) (e : Draft)
      → get_draft id none s ≡ some e
      → e.type ≡ w.type
      → e.status ≢ pending_approval
      → (approve w id actor m s ≡ (err (rejected (wrong_state w Phase.approve id e)), s))
        × (cancel w id m s ≡ (err (rejected (wrong_state w Phase.cancel id e)), s))
  unfolding approve cancel
  closed_refused w id actor m s e there typed closed = (
    rw (load_pending_closed w Phase.approve id s e there typed closed),
    rw (load_pending_closed w Phase.cancel id s e there typed closed),
  )

  -- After a successful approval the draft is never settled or canceled a second time: whoever asks,
  -- a further approval or cancellation by the same workflow answers 409 and changes nothing.
  pub approve_once :
      (w : Workflow)
      → IsLawful w
      → (id : String) (actor : Actor) (m : Moment) (s : Store) (r : Option Draft)
      → (approve w id actor m s).0 ≡ ok r
      → (e : Draft) × (r ≡ some e)
        × ((actor' : Actor) (m' : Moment)
            → let t = (approve w id actor m s).1 in
              (approve w id actor' m' t ≡ (err (rejected (wrong_state w Phase.approve id e)), t))
              × (cancel w id m' t ≡ (err (rejected (wrong_state w Phase.cancel id e)), t)))
  approve_once w lawful id actor m s r h =
      let t = (approve w id actor m s).1 in
      let o = approve-Settlement w lawful id actor m s r h in
      (
        o.settled,
        o.returned,
        λ actor' m'.
            closed_refused w id actor' m' t o.settled o.stored (o.update.type ∙ o.pending.typed)
              (λ p. cc (p, o.update.status_set)),
      )

  -- What a successful cancellation leaves: the pending draft is canceled, every other draft is as
  -- before, no wallet moves and no transaction is recorded.
  pub record Cancellation (w : Workflow) (id : String) (s t : Store) (r : Option Draft)
      : Type 0 where
    pub draft : Draft
    pub pending : IsPending w id s draft
    pub ended : Draft
    pub stored : get_draft id none t ≡ some ended
    pub returned : r ≡ some ended
    pub update : IsUpdate canceled draft ended
    pub others : (j : String) → id ≢ j → get_draft j none t ≡ get_draft j none s
    pub wallets : t.wallets ≡ s.wallets
    pub transactions : t.transactions ≡ s.transactions

  -- A successful cancellation by any lawful workflow has found the draft pending; it leaves the draft
  -- canceled, and every other draft, the wallets and the transactions as they were.
  pub cancel-Cancellation :
      (w : Workflow)
      → IsLawful w
      → (id : String) (m : Moment) (s : Store) (r : Option Draft) → (cancel w id m s).0 ≡ ok r
      → Cancellation w id s (cancel w id m s).1 r
  unfolding cancel get_draft
  cancel-Cancellation w lawful id m s r h =
      let last = λ (d : Draft). keep_canceled id m d in
      let (d, loaded, q) =
        >>=-ok_reads (load_pending w Phase.cancel id)
          (λ d. w.conditions Phase.cancel d none m >> last d) s
          (load_pending_state w Phase.cancel id s) h in
      let (_, _, q') =
        >>=-ok_reads (w.conditions Phase.cancel d none m) (λ _. last d) s
          (lawful.conditions_reads Phase.cancel d none m s) (ap (λ x. x.0) (sym q) ∙ h) in
      let pending = load_pending_ok w Phase.cancel id s d loaded in
      let t = (cancel w id m s).1 in
      let same : t ≡ cancel_draft m id d s = ap (λ x. x.1) (q ∙ q') in
      let (e, found, update) = cancel_draft-found m id d s pending.found in
      let rest = cancel_draft-KeepsAllButDrafts m id d s in
      let stored : get_draft id none t ≡ some e = ap (get_draft id none) same ∙ found in
      record {
        draft = d;
        pending = pending;
        ended = e;
        stored = stored;
        returned = returned_read (cancel w id m s) r (get_draft id none) _ h (q ∙ q') ∙ stored;
        update = update;
        others = λ j ne. ap (get_draft j none) same ∙ cancel_draft-others m id j d s ne;
        wallets = ap (λ x. x.wallets) same ∙ rest.wallets;
        transactions = ap (λ x. x.transactions) same ∙ rest.transactions;
      }
