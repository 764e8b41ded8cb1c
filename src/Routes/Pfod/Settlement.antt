-- ===== src/Routes/Pfod/Settlement.antt =====
-- What the settlement of two matching legs leaves.
use mock_pontes.Base.{
  ℕ, String, ◌≡◌, ◌≢◌, refl, sym, ◌∙◌, ap, ◌⊎◌, inl, inr, ◌==◌, false, some, none, eq_iff, eq_refl,
  Bool-cases,
}
use mathlib.Core.Path.{subst}
use mock_pontes.Base.Dict.{lookup}
use mock_pontes.Base.Lists.{push}
use mock_pontes.Platform.{Platform}
use mock_pontes.Result.{Failure, ok, err}
use mock_pontes.Exec.{ran}
use mock_pontes.State.Types.{Draft, DraftStatus, settled, pending_match}
use mock_pontes.State.Record.{Store}
use mock_pontes.State.Store.{get_draft, get_wallet, update_draft}
use mock_pontes.State.Store.Frame.{lookup-update_draft, update_draft-KeepsAllButDrafts}
use mock_pontes.Workflow.{WorkflowInit, Actor, Moment, execute, build_record, settled_transaction}
use mock_pontes.Kinds.{pfod_workflow, move_funds}
use mock_pontes.Kinds.Atomicity.{pfod-MovesFunds}
use mock_pontes.Kinds.Payments.{CanPay, execute-Paid}
use mock_pontes.Routes.{plain_init}
use mock_pontes.Routes.Pfod.{
  matched, deliver_id, receive_id, leg_expired, owner_caller, settle_legs,
}

module _ ⦃js : Platform⦄ where
  -- The payment that two legs make: from the wallet of the receive leg to that of the deliver leg.
  abbrev pub leg_payment : String → Draft → Draft → WorkflowInit
  leg_payment trade_id deliver receive =
      plain_init (Prim.Native.String.◌++◌ "PFOD-" trade_id) deliver.amount deliver.currency
        deliver.debited_wallet_alias receive.credited_wallet_alias

  -- The owner of the wallet that is debited.
  abbrev pub leg_actor : Draft → Store → Actor
  leg_actor receive s = record {
    caller = owner_caller (get_wallet receive.credited_wallet_alias none s);
    approver_user_uuid = none;
    approver_user_name = none;
  }

  -- The draft under the identifier is settled.
  abbrev pub IsSettled : String → Store → Type 0
  IsSettled id s = (e : Draft) × (get_draft id none s ≡ some e) × (e.status ≡ settled)

  abbrev pub marked : DraftStatus → Draft → Draft
  marked status e = record e { status = status }

  mark_same :
      (now : ℕ) (id : String) (d : Draft) (s : Store)
      → get_draft id none s ≡ some d
      → IsSettled id (update_draft now id (marked settled) s)
  unfolding get_draft
  mark_same now id d s h = (
    record d { status = settled; updated_at = js.iso now },
    lookup-update_draft now id id (marked settled) s ∙ rw (eq_refl id, h) refl,
    refl,
  )

  mark_kept :
      (now : ℕ) (id j : String) (s : Store)
      → IsSettled j s
      → IsSettled j (update_draft now id (marked settled) s)
  unfolding get_draft
  mark_kept now id j s (e, there, status) = elim (Bool-cases (id == j)) [
    | inl same ↦
        let key : id ≡ j = (eq_iff id j).0 same in
        subst (λ k. IsSettled k (update_draft now id (marked settled) s)) key
          (mark_same now id e s (ap (λ k. get_draft k none s) key ∙ there))
    | inr other ↦ (e, lookup-update_draft now id j (marked settled) s ∙ rw other there, status)
  ]

  still_there :
      (now : ℕ) (id j : String) (d : Draft) (s : Store)
      → get_draft j none s ≡ some d
      → (e : Draft) × (get_draft j none (update_draft now id (marked settled) s) ≡ some e)
  unfolding get_draft
  still_there now id j d s h = elim (Bool-cases (id == j)) [
    | inl same ↦
        let key : id ≡ j = (eq_iff id j).0 same in
        let (e, there, _) = mark_same now id d s (ap (λ k. get_draft k none s) key ∙ h) in
        (e, ap (λ k. get_draft k none (update_draft now id (marked settled) s)) (sym key) ∙ there)
    | inr other ↦ (d, lookup-update_draft now id j (marked settled) s ∙ rw other h)
  ]

  -- Marking both legs settles both.
  mark_both :
      (now : ℕ) (a b : String) (d e : Draft) (s : Store)
      → get_draft a none s ≡ some d
      → get_draft b none s ≡ some e
      → let t = update_draft now b (marked settled) (update_draft now a (marked settled) s) in
        IsSettled a t × IsSettled b t
  mark_both now a b d e s found found' =
      let u = update_draft now a (marked settled) s in
      let (e', there) = still_there now a b e s found' in
      (mark_kept now b a u (mark_same now a d s found), mark_same now b e' u there)

  -- Two legs that are both waiting, neither past its window, for the same amount and currency.
  pub record AreMatching (m : Moment) (deliver receive : Draft) : Type 0 where
    pub deliver_waits : deliver.status ≡ pending_match
    pub receive_waits : receive.status ≡ pending_match
    pub deliver_open : leg_expired deliver m.now ≡ false
    pub receive_open : leg_expired receive m.now ≡ false
    pub amount : deliver.amount ≡ receive.amount
    pub currency : deliver.currency ≡ receive.currency

  -- What the settlement of a trade leaves: both legs settled, the amount moved from the wallet of the
  -- receive leg to that of the deliver leg on behalf of the owner of the former, and exactly one
  -- transaction appended.
  pub record Settled (trade_id : String) (m : Moment) (s t : Store) : Type 0 where
    pub deliver : Draft
    pub receive : Draft
    pub deliver_found : get_draft (deliver_id trade_id) none s ≡ some deliver
    pub receive_found : get_draft (receive_id trade_id) none s ≡ some receive
    pub matching : AreMatching m deliver receive
    pub deliver_settled : IsSettled (deliver_id trade_id) t
    pub receive_settled : IsSettled (receive_id trade_id) t
    pub moved :
        (move_funds
          (build_record pfod_workflow (leg_payment trade_id deliver receive) settled m)
          (leg_actor receive s).caller
          m
          s).0
        ≡ ok tt
    pub wallets :
        t.wallets
        ≡ (move_funds
            (build_record pfod_workflow (leg_payment trade_id deliver receive) settled m)
            (leg_actor receive s).caller
            m
            s).1.wallets
    pub transactions :
        t.transactions
        ≡ push s.transactions (
            settled_transaction pfod_workflow
              (build_record pfod_workflow (leg_payment trade_id deliver receive) settled m)
              m)

  -- No money moved and nothing was recorded.
  pub record IsUnpaid (s t : Store) : Type 0 where
    pub wallets : t.wallets ≡ s.wallets
    pub transactions : t.transactions ≡ s.transactions

  settle_legs-run :
      (trade_id : String) (m : Moment) (deliver receive d : Draft) (s t : Store)
      → execute pfod_workflow (leg_payment trade_id deliver receive) (leg_actor receive s) m s
        ≡ (ok d, t)
      → settle_legs trade_id m deliver receive s ≡ (
        ok (record {
          status_code = 201;
          body =
              matched trade_id receive.credited_wallet_alias deliver.debited_wallet_alias
                deliver.amount deliver.currency;
        }),
        update_draft m.now receive.id
            (λ e. record e { status = settled })
            (update_draft m.now deliver.id (λ e. record e { status = settled }) t),
      )
  unfolding settle_legs
  settle_legs-run trade_id m deliver receive d s t e = rw e refl

  settle_legs-threw :
      (trade_id : String) (m : Moment) (deliver receive : Draft) (f : Failure) (s : Store)
      → execute pfod_workflow (leg_payment trade_id deliver receive) (leg_actor receive s) m s
        ≡ (err f, s)
      → settle_legs trade_id m deliver receive s ≡ (err f, s)
  unfolding settle_legs
  settle_legs-threw trade_id m deliver receive f s e = rw e refl

  -- Both legs stand under their own identifiers, and the deliver leg names its wallet, as the handlers
  -- store them.
  pub record AreLegs (trade_id : String) (deliver receive : Draft) : Type 0 where
    pub deliver_key : deliver.id ≡ deliver_id trade_id
    pub receive_key : receive.id ≡ receive_id trade_id
    pub named : deliver.debited_wallet_alias ≢ ""

  pub settle_legs-cases :
      (trade_id : String) (m : Moment) (deliver receive : Draft) (s : Store)
      → AreLegs trade_id deliver receive
      → get_draft (deliver_id trade_id) none s ≡ some deliver
      → get_draft (receive_id trade_id) none s ≡ some receive
      → AreMatching m deliver receive
      → Settled trade_id m s (settle_legs trade_id m deliver receive s).1
        ⊎ (((settle_legs trade_id m deliver receive s).1 ≡ s)
            × (CanPay pfod_workflow (leg_payment trade_id deliver receive) (leg_actor receive s) m s
                → ⊥))
  unfolding get_draft
  settle_legs-cases trade_id m deliver receive s legs found found' matching =
      let init = leg_payment trade_id deliver receive in
      let actor = leg_actor receive s in
      let now = m.now in
      let d = build_record pfod_workflow init settled m in
      let t = (execute pfod_workflow init actor m s).1 in
      let u = update_draft now deliver.id (marked settled) t in
      let v = update_draft now receive.id (marked settled) u in
      elim (execute-Paid pfod_workflow pfod-MovesFunds init actor m s legs.named) [
        | inr (f, e, cannot) ↦
            inr (ap (λ x. x.1) (settle_legs-threw trade_id m deliver receive f s e), cannot)
        | inl (done, paid) ↦
            let run =
              ap (λ x. x.1)
                (settle_legs-run trade_id m deliver receive d s t
                  (ran (execute pfod_workflow init actor m s) done refl)) in
            let (settled_first, settled_second) =
              mark_both now deliver.id receive.id deliver receive t
                (ap (λ k. get_draft k none t) legs.deliver_key
                  ∙ ap (lookup (deliver_id trade_id)) paid.drafts
                  ∙ found)
                (ap (λ k. get_draft k none t) legs.receive_key
                  ∙ ap (lookup (receive_id trade_id)) paid.drafts
                  ∙ found') in
            let first = update_draft-KeepsAllButDrafts now deliver.id (marked settled) t in
            let second = update_draft-KeepsAllButDrafts now receive.id (marked settled) u in
            inl (record {
              deliver = deliver;
              receive = receive;
              deliver_found = found;
              receive_found = found';
              matching = matching;
              deliver_settled =
                  subst (λ x. IsSettled (deliver_id trade_id) x) (sym run)
                    (subst (λ k. IsSettled k v) legs.deliver_key settled_first);
              receive_settled =
                  subst (λ x. IsSettled (receive_id trade_id) x) (sym run)
                    (subst (λ k. IsSettled k v) legs.receive_key settled_second);
              moved = paid.moved;
              wallets = ap (λ x. x.wallets) run ∙ second.wallets ∙ first.wallets ∙ paid.wallets;
              transactions =
                  ap (λ x. x.transactions) run
                  ∙ second.transactions
                  ∙ first.transactions
                  ∙ paid.transactions;
            })
      ]
