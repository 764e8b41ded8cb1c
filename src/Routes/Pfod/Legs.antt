-- ===== src/Routes/Pfod/Legs.antt =====
-- The matching of the two legs of a trade, on all its branches.
use mock_pontes.Base.{
  String, ◌≡◌, refl, sym, ◌∙◌, ap, ◌⊎◌, inl, inr, ◌==◌, ◌||◌, not, true, false, Option, some, none,
  arith, eq_iff, Bool-cases,
}
use mathlib.Core.Path.{subst}
use mock_pontes.Platform.{Platform}
use mock_pontes.Exec.{pure, >>=-keeps, ◌>>◌}
use mock_pontes.State.Types.{Draft, DraftStatus, expired, pending_match}
use mock_pontes.State.Record.{Store}
use mock_pontes.State.Store.{get_draft}
use mock_pontes.State.Store.Frame.{update_draft-KeepsAllButDrafts}
use mock_pontes.Workflow.{Moment}
use mock_pontes.Kinds.{pfod_workflow}
use mock_pontes.Kinds.Payments.{CanPay}
use mock_pontes.Http.{Reply}
use mock_pontes.Routes.Pfod.{
  Match, deliver_id, receive_id, leg_expired, is_pending_match, match_legs, try_match,
  mark_if_expired,
}
use mock_pontes.Routes.Pfod.Settlement.{
  leg_payment, leg_actor, marked, AreMatching, Settled, IsUnpaid, AreLegs, settle_legs-cases,
}

is_pending_match→≡ : (x : DraftStatus) → is_pending_match x ≡ true → x ≡ pending_match
is_pending_match→≡ x h = ground arith

module _ ⦃js : Platform⦄ where
  mark_if_expired-IsUnpaid :
      (m : Moment) (leg : Draft) (s : Store) → IsUnpaid s (mark_if_expired m leg s).1
  unfolding mark_if_expired
  mark_if_expired-IsUnpaid m leg s = elim (Bool-cases (leg_expired leg m.now)) [
    | inl late ↦
        let kept = update_draft-KeepsAllButDrafts m.now leg.id (marked expired) s in
        rw late (record { wallets = kept.wallets; transactions = kept.transactions })
    | inr open_still ↦ rw open_still (record { wallets = refl; transactions = refl })
  ]

  expire_then :
      (m : Moment) (leg : Draft) (s t : Store)
      → IsUnpaid s t
      → IsUnpaid s (mark_if_expired m leg t).1
  expire_then m leg s t before =
      let after = mark_if_expired-IsUnpaid m leg t in
      record {
        wallets = after.wallets ∙ before.wallets;
        transactions = after.transactions ∙ before.transactions;
      }

  expire_both-IsUnpaid :
      (m : Moment) (deliver receive : Draft) (r : Reply Match) (s : Store)
      → IsUnpaid s ((mark_if_expired m deliver >> (mark_if_expired m receive >> pure r)) s).1
  expire_both-IsUnpaid m deliver receive r s =
      let t = (mark_if_expired m deliver s).1 in
      let first = mark_if_expired-IsUnpaid m deliver s in
      let second = expire_then m receive s t first in
      >>=-keeps (IsUnpaid s) (mark_if_expired m deliver) (λ _. mark_if_expired m receive >> pure r)
        s first
        (λ _ _.
          >>=-keeps (IsUnpaid s) (mark_if_expired m receive) (λ _. pure r) t second (λ _ _. second))

  timely_of :
      (m : Moment) (deliver receive : Draft)
      → AreMatching m deliver receive
      → (leg_expired deliver m.now || leg_expired receive m.now) ≡ true
      → ⊥
  timely_of m deliver receive a h = ground (arith, h, a.deliver_open, a.receive_open)

  waiting_of :
      (m : Moment) (deliver receive : Draft)
      → AreMatching m deliver receive
      → (not (is_pending_match deliver.status) || not (is_pending_match receive.status)) ≡ true
      → ⊥
  waiting_of m deliver receive a h =
      let both : (not (is_pending_match deliver.status) || not (is_pending_match receive.status))
          ≡ false =
        rw (a.deliver_waits, a.receive_waits) refl in
      cc (h, both)

  agree_of :
      (m : Moment) (deliver receive : Draft)
      → AreMatching m deliver receive
      → (not (deliver.amount == receive.amount) || not (deliver.currency == receive.currency))
        ≡ true
      → ⊥
  agree_of m deliver receive a h = ground (
    arith,
    h,
    a.amount,
    a.currency,
    eq_iff deliver.amount receive.amount,
    eq_iff deliver.currency receive.currency,
  )

  matching_of :
      (m : Moment) (deliver receive : Draft)
      → (leg_expired deliver m.now || leg_expired receive m.now) ≡ false
      → (not (is_pending_match deliver.status) || not (is_pending_match receive.status)) ≡ false
      → (not (deliver.amount == receive.amount) || not (deliver.currency == receive.currency))
        ≡ false
      → AreMatching m deliver receive
  matching_of m deliver receive timely waiting agree = record {
    deliver_waits = is_pending_match→≡ deliver.status (ground arith);
    receive_waits = is_pending_match→≡ receive.status (ground arith);
    deliver_open = ground arith;
    receive_open = ground arith;
    amount = (eq_iff deliver.amount receive.amount).0 (ground arith);
    currency = (eq_iff deliver.currency receive.currency).0 (ground arith);
  }

  -- Both legs are there and matching, and the payment between them can be made.
  abbrev pub IsSettleable : String → Moment → Store → Type 0
  IsSettleable trade_id m s =
      (deliver receive : Draft) × (get_draft (deliver_id trade_id) none s ≡ some deliver)
      × (get_draft (receive_id trade_id) none s ≡ some receive)
      × AreMatching m deliver receive
      × CanPay pfod_workflow (leg_payment trade_id deliver receive) (leg_actor receive s) m s

  draft_of : Draft → Option Draft → Draft
  draft_of d none = d
  draft_of _ (some e) = e

  -- The legs of a settleable trade are the ones the store holds.
  settleable_legs :
      (trade_id : String) (m : Moment) (deliver receive : Draft) (s : Store)
      → get_draft (deliver_id trade_id) none s ≡ some deliver
      → get_draft (receive_id trade_id) none s ≡ some receive
      → IsSettleable trade_id m s
      → AreMatching m deliver receive
        × CanPay pfod_workflow (leg_payment trade_id deliver receive) (leg_actor receive s) m s
  unfolding draft_of
  settleable_legs trade_id m deliver receive s found found' (d, r, h, h', matching, can) =
      let same : d ≡ deliver = ap (draft_of deliver) (sym h ∙ found) in
      let same' : r ≡ receive = ap (draft_of receive) (sym h' ∙ found') in
      let P : Draft → Draft → Type 0 = λ x y.
        AreMatching m x y × CanPay pfod_workflow (leg_payment trade_id x y) (leg_actor y s) m s in
      subst (P deliver) same' (subst (λ x. P x r) same (matching, can))

  -- The matching left no money moved, and there was none to move.
  abbrev pub IsRefused : String → Moment → Store → Store → Type 0
  IsRefused trade_id m s t = IsUnpaid s t × (IsSettleable trade_id m s → ⊥)

  -- Every way through `tryMatch` with both legs there.
  match_legs-cases :
      (trade_id : String) (m : Moment) (deliver receive : Draft) (s : Store)
      → AreLegs trade_id deliver receive
      → get_draft (deliver_id trade_id) none s ≡ some deliver
      → get_draft (receive_id trade_id) none s ≡ some receive
      → let t = (match_legs trade_id m (some deliver) (some receive) s).1 in
        Settled trade_id m s t ⊎ IsRefused trade_id m s t
  unfolding match_legs
  match_legs-cases trade_id m deliver receive s legs found found' =
      let legs_of = settleable_legs trade_id m deliver receive s found found' in
      elim (Bool-cases (leg_expired deliver m.now || leg_expired receive m.now)) [
        | inl late ↦ inr (
          rw late (expire_both-IsUnpaid m deliver receive _ s),
          λ g. timely_of m deliver receive (legs_of g).0 late,
        )
        | inr timely ↦
            elim (Bool-cases
              (not (is_pending_match deliver.status) || not (is_pending_match receive.status))) [
                | inl closed ↦ inr (
                  rw (timely, closed) (record { wallets = refl; transactions = refl }),
                  λ g. waiting_of m deliver receive (legs_of g).0 closed,
                )
                | inr waiting ↦
                    elim (Bool-cases (
                      not (deliver.amount == receive.amount)
                      || not (deliver.currency == receive.currency))) [
                        | inl differ ↦ inr (
                          rw (timely, waiting, differ)
                              (record { wallets = refl; transactions = refl }),
                          λ g. agree_of m deliver receive (legs_of g).0 differ,
                        )
                        | inr agree ↦
                            rw (timely, waiting, agree)
                              (elim (settle_legs-cases trade_id m deliver receive s legs found
                                found' (matching_of m deliver receive timely waiting agree)) [
                                  | inl done ↦ inl done
                                  | inr (kept, cannot) ↦ inr (
                                    record {
                                      wallets = ap (λ x. x.wallets) kept;
                                      transactions = ap (λ x. x.transactions) kept;
                                    },
                                    λ g. cannot (legs_of g).1,
                                  )
                                ])
                      ]
              ]
      ]

  -- The legs that the store holds for the trade.
  abbrev pub HasLegs : String → Store → Type 0
  HasLegs trade_id s =
      (deliver receive : Draft)
      → get_draft (deliver_id trade_id) none s ≡ some deliver
      → get_draft (receive_id trade_id) none s ≡ some receive
      → AreLegs trade_id deliver receive

  cases_of :
      (trade_id : String) (m : Moment) (o p : Option Draft) (s : Store)
      → HasLegs trade_id s
      → get_draft (deliver_id trade_id) none s ≡ o
      → get_draft (receive_id trade_id) none s ≡ p
      → let t = (match_legs trade_id m o p s).1 in Settled trade_id m s t ⊎ IsRefused trade_id m s t
  unfolding match_legs
  cases_of trade_id m none p s legs h h' =
      inr (record { wallets = refl; transactions = refl }, λ g. cc (h, g.2))
  cases_of trade_id m (some deliver) none s legs h h' =
      inr (record { wallets = refl; transactions = refl }, λ g. cc (h', g.3))
  cases_of trade_id m (some deliver) (some receive) s legs h h' =
      match_legs-cases trade_id m deliver receive s (legs deliver receive h h') h h'

  -- The matching of a trade, whose legs stand under their own identifiers and whose deliver leg names a
  -- wallet, settles both legs or moves no money. Either both legs were waiting within their
  -- windows for one amount and currency: then both are settled, the amount has gone from the wallet of
  -- the receive leg to that of the deliver leg, and exactly one transaction is appended. Or the wallets
  -- and the transactions are as they were, and a leg was missing or not matching, the workflow did not
  -- admit the payment, or the amount could not move.
  pub try_match-cases :
      (trade_id : String) (m : Moment) (s : Store)
      → HasLegs trade_id s
      → let t = (try_match trade_id m s).1 in Settled trade_id m s t ⊎ IsRefused trade_id m s t
  unfolding try_match
  try_match-cases trade_id m s legs =
      cases_of trade_id m (get_draft (deliver_id trade_id) none s)
        (get_draft (receive_id trade_id) none s) s legs refl refl
