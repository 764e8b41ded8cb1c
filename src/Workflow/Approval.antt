-- ===== src/Workflow/Approval.antt =====
-- What a successful approval has checked and written, for every lawful workflow.
use mock_pontes.Base.{◌⊎◌, inl, inr, String, ◌≡◌, sym, ◌∙◌, ap, Option, none}
use mock_pontes.Platform.{Platform}
use mock_pontes.Result.{ok, err, Failure}
use mock_pontes.Exec.{◌>>◌, >>=-reads, >>=-ok_reads, >>=-err_reads, >>=-ok, returned_read}
use mock_pontes.State.Types.{Draft, Caller}
use mock_pontes.State.Record.{Store}
use mock_pontes.State.Store.{get_draft}
use mock_pontes.Workflow.{
  Workflow, Phase, Moment, Actor, load_pending, four_eyes, admit, settle, conclude, approve,
  settle_draft, record_transaction, assert_debit_wallet_exists, assert_credit_wallet_exists,
}
use mock_pontes.Workflow.Laws.{IsLawful, assert_debit_reads, assert_credit_reads}
use mock_pontes.Workflow.FourEyes.{
  IsPending, AreDistinct, load_pending_ok, load_pending_state, four_eyes_ok, four_eyes_state,
}

module _ ⦃js : Platform⦄ (w : Workflow) (lawful : IsLawful w) where
  pub admit_reads :
      (p : Phase) (d : Draft) (c : Option Caller) (m : Moment) (s : Store)
      → (admit w p d c m s).1 ≡ s
  unfolding admit
  admit_reads p d c m s =
      >>=-reads (w.conditions p d c m)
        (λ _. assert_debit_wallet_exists w d >> assert_credit_wallet_exists w d) s
        (lawful.conditions_reads p d c m s)
        (λ _.
          >>=-reads (assert_debit_wallet_exists w d) (λ _. assert_credit_wallet_exists w d) s
            (assert_debit_reads w d s) (λ _. assert_credit_reads w d s))

  -- The course of an approval that returned `r` and left `t`.
  pub record Approved (id : String) (actor : Actor) (m : Moment) (s t : Store) (r : Option Draft)
      : Type 0 where
    pub draft : Draft
    pub pending : IsPending w id s draft
    pub distinct : AreDistinct actor.approver_user_uuid draft.initiator_user_uuid
    pub admitted : (admit w Phase.approve draft actor.caller m s).0 ≡ ok tt
    pub applied : (w.apply draft actor.caller m s).0 ≡ ok tt
    pub books :
        t
        ≡ record_transaction w draft m
            (settle_draft m actor id draft (w.apply draft actor.caller m s).1)
    pub value : r ≡ get_draft id none t

  settle_ok :
      (id : String) (actor : Actor) (m : Moment) (d : Draft) (s : Store) (r : Option Draft)
      → (settle w id actor m d s).0 ≡ ok r
      → let t = (w.apply d actor.caller m s).1 in
        let t' = record_transaction w d m (settle_draft m actor id d t) in
        ((w.apply d actor.caller m s).0 ≡ ok tt)
        × (settle w id actor m d s ≡ (ok (get_draft id none t'), t'))
  unfolding settle conclude
  settle_ok id actor m d s r h =
      let (_, applied, q) = >>=-ok (w.apply d actor.caller m) (λ _. conclude w id actor m d) s h in
      (applied, q)

  pub approve-Approved :
      (id : String) (actor : Actor) (m : Moment) (s : Store) (r : Option Draft)
      → (approve w id actor m s).0 ≡ ok r
      → Approved id actor m s (approve w id actor m s).1 r
  unfolding approve
  approve-Approved id actor m s r h =
      let check = λ (d : Draft). admit w Phase.approve d actor.caller m in
      let last = λ (d : Draft). settle w id actor m d in
      let (d, loaded, q) =
        >>=-ok_reads (load_pending w Phase.approve id) (λ d. four_eyes actor d >> check d >> last d)
          s (load_pending_state w Phase.approve id s) h in
      let (_, differ, q') =
        >>=-ok_reads (four_eyes actor d) (λ _. check d >> last d) s (four_eyes_state actor d s)
          (ap (λ x. x.0) (sym q) ∙ h) in
      let (_, admitted, q'') =
        >>=-ok_reads (check d) (λ _. last d) s (admit_reads Phase.approve d actor.caller m s)
          (ap (λ x. x.0) (sym (q ∙ q')) ∙ h) in
      let all = q ∙ q' ∙ q'' in
      let (applied, done) = settle_ok id actor m d s r (ap (λ x. x.0) (sym all) ∙ h) in
      record {
        draft = d;
        pending = load_pending_ok w Phase.approve id s d loaded;
        distinct = four_eyes_ok actor d s differ;
        admitted = admitted;
        applied = applied;
        books = ap (λ x. x.1) (all ∙ done);
        value = returned_read (approve w id actor m s) r (get_draft id none) _ h (all ∙ done);
      }

  -- An approval that failed has changed nothing, or its failure came after the checks and the
  -- effect had passed or thrown.
  pub approve-failed :
      (id : String) (actor : Actor) (m : Moment) (s : Store) (f : Failure)
      → (approve w id actor m s).0 ≡ err f
      → ((approve w id actor m s).1 ≡ s)
        ⊎ ((d : Draft) × IsPending w id s d
            × ((admit w Phase.approve d actor.caller m s).0 ≡ ok tt)
            × (approve w id actor m s ≡ settle w id actor m d s))
  unfolding approve
  approve-failed id actor m s f h =
      let check = λ (d : Draft). admit w Phase.approve d actor.caller m in
      let last = λ (d : Draft). settle w id actor m d in
      elim (>>=-err_reads (load_pending w Phase.approve id)
        (λ d. four_eyes actor d >> check d >> last d) s (load_pending_state w Phase.approve id s)
        h) [
          | inl kept ↦ inl kept
          | inr (d, loaded, q) ↦
              elim (>>=-err_reads (four_eyes actor d) (λ _. check d >> last d) s
                (four_eyes_state actor d s) (ap (λ x. x.0) (sym q) ∙ h)) [
                  | inl kept ↦ inl (ap (λ x. x.1) q ∙ kept)
                  | inr (_, differ, q') ↦
                      elim (>>=-err_reads (check d) (λ _. last d) s
                        (admit_reads Phase.approve d actor.caller m s)
                        (ap (λ x. x.0) (sym (q ∙ q')) ∙ h)) [
                          | inl kept ↦ inl (ap (λ x. x.1) (q ∙ q') ∙ kept)
                          | inr (_, admitted, q'') ↦ inr (
                            d,
                            load_pending_ok w Phase.approve id s d loaded,
                            admitted,
                            q ∙ q' ∙ q'',
                          )
                        ]
                ]
        ]
