-- ===== src/Routes/Pfod/Order.antt =====
-- The order of the legs: the receive leg needs a deliver leg that waits for it.
use mock_pontes.Base.{
  ℕ, String, ◌≡◌, refl, true, not, ◌&&◌, Option, none, or_else, given, Bool-cases, Option-cases,
  inl, inr,
}
use mock_pontes.Platform.{Platform}
use mock_pontes.Result.{Rejection, rejected, err}
use mock_pontes.State.Record.{Store}
use mock_pontes.State.Store.{get_draft, get_wallet}
use mock_pontes.Workflow.{Moment}
use mock_pontes.Http.Validation.{supplementary_data_error}
use mock_pontes.Routes.{validation_error}
use mock_pontes.Routes.Pfod.{
  ReceiveRequest, deliver_id, no_open_leg, no_deliver_leg, init_receive, receive_leg, absent,
  unknown_wallet,
}

module _ ⦃js : Platform⦄ where
  receive_leg-refused :
      (window : ℕ) (user : Option String) (m : Moment) (trade_id amount currency wallet : String)
      (s : Store)
      → no_open_leg (get_draft (deliver_id trade_id) none s) ≡ true
      → (r : Rejection) × (receive_leg window user m trade_id amount currency wallet s
          ≡ (err (rejected r), s))
  unfolding receive_leg
  receive_leg-refused window user m trade_id amount currency wallet s early =
      elim (Bool-cases (absent (get_wallet wallet none s))) [
        | inl gone ↦ (unknown_wallet "HL-WAL-003" "Credit" wallet, rw gone refl)
        | inr there ↦ (no_deliver_leg trade_id, rw (there, early) refl)
      ]

  -- A receive leg for a trade without a deliver leg that waits for it is refused, whatever else the
  -- request says, and nothing is stored: a receive leg never comes first.
  pub init_receive-early :
      (window : ℕ) (user : Option String) (q : ReceiveRequest) (m : Moment) (s : Store)
      → no_open_leg (get_draft (deliver_id (or_else q.trade_id "")) none s) ≡ true
      → (r : Rejection) × (init_receive window user q m s ≡ (err (rejected r), s))
  unfolding init_receive
  init_receive-early window user q m s early =
      let all =
        given q.trade_id
        && given q.amount
        && given q.currency
        && given q.buyer_wallet
        && given q.seller_cam_bic in
      elim (Bool-cases (not all)) [
        | inl missing ↦ (
          validation_error
              "Missing required fields: tradeID, amount, currency, buyerCashTokenWalletRef, sellerCAMBIC",
          rw missing refl,
        )
        | inr complete ↦ elim (Option-cases (supplementary_data_error q.supplementary_data)) [
          | inr (r, wrong) ↦ (r, rw (complete, wrong) refl)
          | inl fine ↦
              let (r, e) =
                receive_leg-refused window user m (or_else q.trade_id "") (or_else q.amount "")
                  (or_else q.currency "") (or_else q.buyer_wallet "") s early in
              (r, rw (complete, fine, e) refl)
        ]
      ]
