-- ===== src/Routes/Pfod.antt =====
-- routes/pfod.ts: the two legs of a payment free of delivery, matched on the trade. The deliver leg is
-- credited and the receive leg debited when they settle.
pub mod Settlement
pub mod Legs
pub mod Order
use mock_pontes.Base.{
  ℕ, ◌+◌, ◌*◌, String, ◌++◌, ◌==◌, Bool, true, false, not, ◌&&◌, ◌||◌, Option, none, some,
  if◌then◌else◌, truthy, given, or_else, ltb,
}
use mock_pontes.Platform.{Platform}
use mock_pontes.Result.{Result, Rejection, rejected, ok, err}
use mock_pontes.Exec.{Exec, pure, throw, throw_if, gets, modify, ◌>>=◌, ◌>>◌}
use mock_pontes.State.Types.{
  Draft, DraftStatus, DraftType, Caller, Wallet, pending_match, expired, settled, pfod,
  nothing_carried,
}
use mock_pontes.State.Record.{Store}
use mock_pontes.State.Store.{get_draft, get_wallet, add_draft, update_draft}
use mock_pontes.Workflow.{Moment, Actor, execute, unknown_wallet_message}
use mock_pontes.Kinds.{pfod_workflow}
use mock_pontes.Http.{Reply}
use mock_pontes.Http.Validation.{supplementary_data_error}
use mock_pontes.Routes.{validation_error, refuse_with, plain_init}

pub record DeliverRequest : Type 0 where
  pub trade_id : Option String
  pub amount : Option String
  pub currency : Option String
  pub seller_wallet : Option String
  pub supplementary_data : Option String

pub record ReceiveRequest : Type 0 where
  pub trade_id : Option String
  pub amount : Option String
  pub currency : Option String
  pub buyer_wallet : Option String
  pub seller_cam_bic : Option String
  pub supplementary_data : Option String

-- What `tryMatch` answers: the state of the trade, or its settlement.
pub data Match : Type 0 where
  reported : String → DraftStatus → Match
  matched : (trade_id debited credited amount currency : String) → Match

-- The body of an answer: a text, or what `tryMatch` answered.
pub data PfodBody : Type 0 where
  message : String → PfodBody
  state : Match → PfodBody

abbrev pub deliver_id : String → String
deliver_id trade_id = "PFOD-" ++ trade_id ++ "-DELI"

abbrev pub receive_id : String → String
receive_id trade_id = "PFOD-" ++ trade_id ++ "-RECE"

abbrev pub is_pending_match : DraftStatus → Bool
is_pending_match pending_match = true
is_pending_match _ = false

abbrev inconsistent : String → Rejection
inconsistent trade_id = record {
  status_code = 422;
  error_code = "HL-PFOD-001";
  error_description = "PFoD legs for trade " ++ trade_id ++ " are inconsistent (amount/currency)";
}

abbrev pub no_deliver_leg : String → Rejection
no_deliver_leg trade_id = record {
  status_code = 500;
  error_code = "HL-GER-000";
  error_description =
      "No matching DELI leg found for trade " ++ trade_id ++ "; RECE must be submitted after DELI";
}

abbrev unknown_wallet : String → String → String → Rejection
unknown_wallet code role alias = record {
  status_code = 422;
  error_code = code;
  error_description = unknown_wallet_message role alias;
}

-- `isn't there`
abbrev absent : Option Wallet → Bool
absent none = true
absent (some w) = false

-- `debitedWallet?.ownerEntityID ? { entityBIC: debitedWallet.ownerEntityID } : undefined`
abbrev pub owner_caller : Option Wallet → Option Caller
owner_caller none = none
owner_caller (some w) =
    if truthy w.owner_entity_id
    then some (record { entity_bic = some w.owner_entity_id; market_dlt_operator = none })
    else none

abbrev reply : ℕ → PfodBody → Exec Store (Reply PfodBody)
reply status body = pure (record { status_code = status; body = body })

module _ ⦃js : Platform⦄ where
  unfoldable pub leg_expired : Draft → ℕ → Bool
  leg_expired leg now = elim leg.expires_at [
    | none ↦ false
    | some s ↦ truthy s && elim (js.date_ms s) [ none ↦ false | some t ↦ ltb t now ]
  ]

  -- The leg that `storeLeg` writes; the window is in seconds.
  unfoldable pub new_leg :
      ℕ → String → String → String → String → String → String → Option String → Moment → Draft
  new_leg window id trade_id amount currency debited credited initiator m = record {
    id = id;
    type = pfod;
    status = pending_match;
    amount = amount;
    currency = currency;
    credited_wallet_alias = credited;
    debited_wallet_alias = debited;
    created_at = js.iso m.now;
    updated_at = js.iso m.now;
    initiator_user_uuid = initiator;
    approver_user_uuid = none;
    expires_at = some (js.iso (m.now + window * 1000));
    supplementary_data = some trade_id;
    debited_cash_wallet_manager_id = none;
    credited_cash_wallet_manager_id = none;
    instructing_party_id = none;
    cbdc_request_type = none;
    operation_context = none;
    funding_request_id = none;
    historic_status = none;
    timestamps = none;
    approver_user_name = none;
    carried = nothing_carried;
  }

  abbrev mark : DraftStatus → Moment → Draft → Exec Store (Unit {0})
  mark status m leg = modify (update_draft m.now leg.id (λ e. record e { status = status }))

  -- `if (expired(leg, now)) store.updateDraft(leg.id, { status: "EXPIRED" })`
  mark_if_expired : Moment → Draft → Exec Store (Unit {0})
  mark_if_expired m leg = if leg_expired leg m.now then mark expired m leg else pure tt

  -- The settlement of two legs that match.
  unfoldable pub settle_legs : String → Moment → Draft → Draft → Exec Store (Reply Match)
  settle_legs trade_id m deliver receive = do
    debited ← gets (get_wallet receive.credited_wallet_alias none)
    execute pfod_workflow
        (plain_init ("PFOD-" ++ trade_id) deliver.amount deliver.currency
          deliver.debited_wallet_alias receive.credited_wallet_alias)
        (record {
          caller = owner_caller debited;
          approver_user_uuid = none;
          approver_user_name = none;
        })
        m
    mark settled m deliver
    mark settled m receive
    pure (record {
      status_code = 201;
      body =
          matched trade_id receive.credited_wallet_alias deliver.debited_wallet_alias deliver.amount
            deliver.currency;
    })

  -- `tryMatch` after the lookups, under the status 201 that its callers set.
  unfoldable pub match_legs :
      String → Moment → Option Draft → Option Draft → Exec Store (Reply Match)
  unfolding mark_if_expired
  match_legs trade_id m (some deliver) (some receive) =
      if leg_expired deliver m.now || leg_expired receive m.now
      then (do
        mark_if_expired m deliver
        mark_if_expired m receive
        pure (record { status_code = 410; body = reported trade_id expired }))
      else if not (is_pending_match deliver.status) || not (is_pending_match receive.status)
      then pure (record { status_code = 201; body = reported trade_id deliver.status })
      else if not (deliver.amount == receive.amount) || not (deliver.currency == receive.currency)
      then throw (rejected (inconsistent trade_id))
      else settle_legs trade_id m deliver receive
  match_legs trade_id m deliver receive =
      pure (record { status_code = 201; body = reported trade_id pending_match })

  unfoldable pub try_match : String → Moment → Exec Store (Reply Match)
  try_match trade_id m = do
    deliver ← gets (get_draft (deliver_id trade_id) none)
    receive ← gets (get_draft (receive_id trade_id) none)
    match_legs trade_id m deliver receive

  -- The answer to a deliver leg.
  deliver_answer : Reply Match → Exec Store (Reply PfodBody)
  deliver_answer r = elim r.body [
    | reported trade_id pending_match ↦
        reply r.status_code
          (message "PFoD DELI leg created successfully and awaiting corresponding RECE leg")
    | _ ↦ reply r.status_code (state r.body)
  ]

  -- The answer to a receive leg: 200 if it settled.
  receive_answer : Reply Match → Exec Store (Reply PfodBody)
  receive_answer r = elim r.body [
    | matched trade_id d c a y ↦ reply 200 (message "PFoD RECE leg created an settled successfully")
    | reported trade_id settled ↦
        reply 200 (message "PFoD RECE leg created an settled successfully")
    | _ ↦ reply r.status_code (state r.body)
  ]

  -- The part of the deliver handler after the tests on the body.
  deliver_leg :
      ℕ → Option String → Moment → String → String → String → String → Exec Store (Reply PfodBody)
  deliver_leg window user m trade_id amount currency wallet = do
    found ← gets (get_wallet wallet none)
    throw_if (absent found) (unknown_wallet "HL-WAL-002" "Debit" wallet)
    modify
        (add_draft (new_leg window (deliver_id trade_id) trade_id amount currency wallet "" user m))
    r ← try_match trade_id m
    deliver_answer r

  -- `POST bridge/initpfoddeli`
  unfoldable init_deliver :
      ℕ → Option String → DeliverRequest → Moment → Exec Store (Reply PfodBody)
  unfolding deliver_leg deliver_answer
  init_deliver window user q m = do
    throw_if (not (given q.trade_id && given q.amount && given q.currency && given q.seller_wallet))
        (validation_error
          "Missing required fields: tradeID, amount, currency, sellerCashTokenWalletRef")
    refuse_with (supplementary_data_error q.supplementary_data)
    deliver_leg window user m (or_else q.trade_id "") (or_else q.amount "") (or_else q.currency "")
        (or_else q.seller_wallet "")

  -- `!deliverLeg || deliverLeg.status !== "PENDING_MATCH"`
  abbrev pub no_open_leg : Option Draft → Bool
  no_open_leg none = true
  no_open_leg (some leg) = not (is_pending_match leg.status)

  receive_leg :
      ℕ → Option String → Moment → String → String → String → String → Exec Store (Reply PfodBody)
  receive_leg window user m trade_id amount currency wallet = do
    found ← gets (get_wallet wallet none)
    throw_if (absent found) (unknown_wallet "HL-WAL-003" "Credit" wallet)
    deliver ← gets (get_draft (deliver_id trade_id) none)
    throw_if (no_open_leg deliver) (no_deliver_leg trade_id)
    modify
        (add_draft (new_leg window (receive_id trade_id) trade_id amount currency "" wallet user m))
    r ← try_match trade_id m
    receive_answer r

  -- `POST bridge/initpfodrece`
  unfoldable pub init_receive :
      ℕ → Option String → ReceiveRequest → Moment → Exec Store (Reply PfodBody)
  unfolding receive_leg receive_answer
  init_receive window user q m = do
    throw_if
        (not (
          given q.trade_id
          && given q.amount
          && given q.currency
          && given q.buyer_wallet
          && given q.seller_cam_bic))
        (validation_error
          "Missing required fields: tradeID, amount, currency, buyerCashTokenWalletRef, sellerCAMBIC")
    refuse_with (supplementary_data_error q.supplementary_data)
    receive_leg window user m (or_else q.trade_id "") (or_else q.amount "") (or_else q.currency "")
        (or_else q.buyer_wallet "")
