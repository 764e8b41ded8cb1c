-- ===== src/Xvp.antt =====
-- workflows/xvp.ts: the hash-linked cash leg. `pay` awaits once between the checks and the settlement,
-- so it is two steps, `admit_payment` and `settle_payment`, each with its own reading of the clock.
-- What runs under the lock of one XvP is one step of the model.
pub mod Types
pub mod Commitment
pub mod Wallet
pub mod Disclosure
pub mod Expiry
pub mod Registration
pub mod Admission
use mock_pontes.Base.{
  ℕ, ◌+◌, ◌*◌, String, ◌++◌, ◌==◌, Bool, true, false, not, ◌&&◌, ◌||◌, Option, none, some,
  if◌then◌else◌, or_else, truthy, given, ltb, is_text,
}
use mock_pontes.Platform.{Platform}
use mock_pontes.Result.{Result, Rejection, rejected, thrown, ok, err}
use mock_pontes.Exec.{Exec, pure, throw, throw_if, gets, lift, modify, ◌>>=◌, ◌>>◌}
use mock_pontes.State.Types.{
  Draft, DraftStatus, DraftType, Transaction, TransactionStatus, Caller, initialized, expired, xvp,
  nothing_carried,
}
use mock_pontes.State.Record.{Store}
use mock_pontes.State.Store.{get_draft, add_draft, update_draft, add_transaction}
use mock_pontes.Workflow.{
  Moment, status_text, same_type, require_credit_wallet, checked_debit, raw_credit,
}
use mock_pontes.Xvp.Types.{
  Meta, no_meta, XvpInitParams, XvpPaymentParams, XvpInitResult, XvpPaymentResult, XvpRecord,
  Services,
}
use mock_pontes.Xvp.Commitment.{HashMethod, CommitmentPair, generate_xvp_commitments}

-- `XvpWorkflowOptions`, with the default of `PONTES_XVP_TIMEOUT_SEC`
module _ ⦃js : Platform⦄ where
  pub record XvpOptions : Type 0 where
    pub hash_method : HashMethod
    pub default_timeout_sec : js.Num

abbrev bad_type : String → Rejection
bad_type given_type = record {
  status_code = 400;
  error_code = "HL-XVP-001";
  error_description = "Invalid XvP transactionType '" ++ given_type ++ "'";
}

abbrev pub xvp_not_found : String → Rejection
xvp_not_found id = record {
  status_code = 404;
  error_code = "HL-XVP-002";
  error_description = "XvP transaction " ++ id ++ " not found";
}

abbrev pub xvp_closed : String → DraftStatus → Rejection
xvp_closed id status = record {
  status_code = 409;
  error_code = "HL-XVP-003";
  error_description = "XvP " ++ id ++ " is already " ++ status_text status;
}

abbrev mismatch : String → String → Rejection
mismatch what why = record {
  status_code = 400;
  error_code = "HL-XVP-006";
  error_description = what ++ why;
}

abbrev pub is_initialized : DraftStatus → Bool
is_initialized initialized = true
is_initialized _ = false

-- `a && b && b !== a`
abbrev differs : Option String → Option String → Bool
differs (some a) (some b) = truthy a && truthy b && not (b == a)
differs _ _ = false

-- The four tests of `pay` that the request matches the initialisation.
unfoldable pub check_terms : XvpPaymentParams → XvpRecord → Exec Store (Unit {0})
check_terms params rec = do
  throw_if (differs rec.buyer_bic params.buyer_bic) (
      mismatch ("Buyer BIC '" ++ or_else params.buyer_bic "undefined")
        ("' does not match the XvP buyer '" ++ or_else rec.buyer_bic "undefined" ++ "'"))
  throw_if (differs rec.seller_bic params.seller_bic) (
      mismatch ("Seller BIC '" ++ or_else params.seller_bic "undefined")
        ("' does not match the XvP seller '" ++ or_else rec.seller_bic "undefined" ++ "'"))
  throw_if (not (params.amount == rec.amount)) (
      mismatch ("Payment amount '" ++ params.amount)
        ("' does not match the XvP amount '" ++ rec.amount ++ "'"))
  throw_if (not (params.currency == rec.currency)) (
      mismatch ("Payment currency '" ++ params.currency)
        ("' does not match the XvP currency '" ++ rec.currency ++ "'"))

module _ ⦃js : Platform⦄ ⦃sv : Services⦄ where
  -- `d.supplementaryData ? JSON.parse(d.supplementaryData) : {}`
  unfoldable pub read_meta : Option String → Result Meta
  read_meta none = ok no_meta
  read_meta (some s) = if truthy s then sv.parse s else ok no_meta

  shape_with : Draft → Meta → XvpRecord
  shape_with d x = record {
    id = d.id;
    status = d.status;
    amount = d.amount;
    currency = d.currency;
    seller_wallet_alias = d.credited_wallet_alias;
    buyer_wallet_alias = d.debited_wallet_alias;
    timeout = d.expires_at;
    execution_hash = x.execution_hash;
    cancellation_hash = x.cancellation_hash;
    transaction_type = x.transaction_type;
    execution_key = x.execution_key;
    cancellation_key = x.cancellation_key;
    payment_id = x.payment_id;
    seller_bic = x.seller_bic;
    buyer_bic = x.buyer_bic;
    seller = x.seller;
    buyer = x.buyer;
    payment_attempted = x.payment_attempted;
  }

  unfoldable pub shape : Draft → Result XvpRecord
  unfolding shape_with read_meta
  shape d = elim (read_meta d.supplementary_data) [ ok x ↦ ok (shape_with d x) | err e ↦ err e ]

  -- The deadline is there and `!(Date.parse(it) >= now)`, which an invalid date satisfies.
  deadline_passed : Option String → ℕ → Bool
  deadline_passed none now = false
  deadline_passed (some s) now =
      truthy s && elim (js.date_ms s) [ none ↦ true | some t ↦ ltb t now ]

  -- `maybeExpire`: the draft as it is from now on.
  unfoldable pub maybe_expire : Moment → Draft → Exec Store Draft
  unfolding deadline_passed
  maybe_expire m d =
      if is_initialized d.status && deadline_passed d.expires_at m.now
      then (do
        modify (update_draft m.now d.id (λ e. record e { status = expired }))
        pure (record d { status = expired }))
      else pure d

  the_draft : XvpOptions → XvpInitParams → CommitmentPair → String → Moment → Draft
  the_draft o p keys timeout m = record {
    id = p.xvp_transaction_id;
    type = xvp;
    status = initialized;
    amount = p.amount;
    currency = p.currency;
    credited_wallet_alias = p.seller_wallet_alias;
    debited_wallet_alias = "";
    created_at = js.iso m.now;
    updated_at = js.iso m.now;
    initiator_user_uuid = none;
    approver_user_uuid = none;
    expires_at = some timeout;
    supplementary_data = some (
        sv.stringify (record {
          transaction_type = some p.transaction_type;
          execution_hash = some keys.execution_hash;
          cancellation_hash = some keys.cancellation_hash;
          execution_key = some keys.execution_key;
          cancellation_key = some keys.cancellation_key;
          payment_id = some m.uuid;
          seller_bic = p.seller_bic;
          buyer_bic = p.buyer_bic;
          seller = p.seller;
          buyer = p.buyer;
          payment_attempted = none;
        }));
    debited_cash_wallet_manager_id = none;
    credited_cash_wallet_manager_id = none;
    instructing_party_id = none;
    cbdc_request_type = none;
    operation_context = none;
    funding_request_id = none;
    historic_status = none;
    timestamps = none;
    approver_user_name = none;
    carried = nothing_carried;
  }

  -- `new Date(now + seconds * 1000).toISOString()`
  abbrev pub deadline_of : XvpOptions → XvpInitParams → Moment → Option String
  deadline_of o p m = js.iso_time (
      js.add (js.time_of m.now)
        (js.mul (or_else p.timeout_sec o.default_timeout_sec) (js.num_of 1000)))

  -- The rest of `init`, after its date; a date that there is not throws.
  init_until :
      XvpOptions
      → XvpInitParams
      → CommitmentPair
      → Option String
      → Moment
      → Exec Store XvpInitResult
  init_until o p keys none m = throw (thrown "Invalid time value")
  init_until o p keys (some timeout) m = do
    modify (add_draft (the_draft o p keys timeout m))
    pure (record {
      xvp_transaction_id = p.xvp_transaction_id;
      status = initialized;
      execution_hash = keys.execution_hash;
      cancellation_hash = keys.cancellation_hash;
      execution_key = keys.execution_key;
      cancellation_key = keys.cancellation_key;
      timeout = timeout;
    })

  -- `init`, with its two random keys.
  unfoldable pub init :
      XvpOptions → XvpInitParams → String → String → Moment → Exec Store XvpInitResult
  unfolding the_draft init_until
  init o p execution cancellation m =
      if not (p.transaction_type == "DVP") && not (p.transaction_type == "PVP")
      then throw (rejected (bad_type p.transaction_type))
      else init_until o p (generate_xvp_commitments o.hash_method execution cancellation)
          (deadline_of o p m) m

  -- `get` after the lookup.
  observe : Moment → Option Draft → Exec Store (Option XvpRecord)
  observe m none = pure none
  observe m (some d) =
      if not (same_type d.type xvp)
      then pure none
      else (do d' ← maybe_expire m d; rec ← lift (shape d'); pure (some rec))

  unfoldable pub get : String → Moment → Exec Store (Option XvpRecord)
  unfolding observe
  get id m = do found ← gets (get_draft id none); observe m found

  -- The checks of `pay` after the lookup.
  check_payment : String → XvpPaymentParams → Moment → Option Draft → Exec Store XvpRecord
  check_payment id params m none = throw (rejected (xvp_not_found id))
  check_payment id params m (some d) =
      if not (same_type d.type xvp) then throw (rejected (xvp_not_found id)) else (do
        d' ← maybe_expire m d
        rec ← lift (shape d')
        throw_if (not (is_initialized rec.status)) (xvp_closed id rec.status)
        check_terms params rec
        pure rec)

  -- `pay` up to `onPaymentAdmitted`.
  unfoldable pub admit_payment : String → XvpPaymentParams → Moment → Exec Store XvpRecord
  unfolding check_payment
  admit_payment id params m = do found ← gets (get_draft id none); check_payment id params m found

  mark_with : Moment → String → Meta → Exec Store (Unit {0})
  mark_with m id x =
      if or_else x.payment_attempted false
      then pure tt
      else modify (
          update_draft m.now id (λ e. record e {
            supplementary_data = some (sv.stringify (record x { payment_attempted = some true }));
          }))

  mark_found : Moment → String → Option Draft → Exec Store (Unit {0})
  mark_found m id none = pure tt
  mark_found m id (some d) = do x ← lift (read_meta d.supplementary_data); mark_with m id x

  unfoldable pub mark_payment_attempted : Moment → String → Exec Store (Unit {0})
  unfolding mark_found mark_with
  mark_payment_attempted m id = do found ← gets (get_draft id none); mark_found m id found

  payment_transaction : String → XvpPaymentParams → XvpRecord → Moment → Transaction
  payment_transaction id params rec m = record {
    id = or_else rec.payment_id ("TX-" ++ rec.id);
    type = xvp;
    status = TransactionStatus.settled;
    amount = rec.amount;
    currency = rec.currency;
    credited_wallet_alias = rec.seller_wallet_alias;
    debited_wallet_alias = params.buyer_wallet_alias;
    created_at = js.iso m.now;
    settled_at = some (js.iso m.now);
    supplementary_data = some id;
    instructing_party_id = none;
    funding_request_id = none;
    operation_context = none;
  }

  -- `pay` from `markPaymentAttempted` on.
  unfoldable pub settle_payment :
      String → XvpPaymentParams → XvpRecord → Moment → Exec Store XvpPaymentResult
  unfolding payment_transaction
  settle_payment id params rec m = do
    mark_payment_attempted m rec.id
    require_credit_wallet rec.seller_wallet_alias
    checked_debit params.buyer_wallet_alias rec.amount params.caller m
    raw_credit rec.seller_wallet_alias rec.amount
    modify (
        update_draft m.now rec.id (λ e. record e {
          status = DraftStatus.settled;
          debited_wallet_alias = params.buyer_wallet_alias;
        }))
    modify (add_transaction (payment_transaction id params rec m))
    pure (record {
      xvp_transaction_id = id;
      status = DraftStatus.settled;
      execution_key = rec.execution_key;
      cancellation_key = rec.cancellation_key;
      payment_id = rec.payment_id;
    })

  -- `pay` without another call in between, admitted at one moment and settled at the other.
  unfoldable pub pay : String → XvpPaymentParams → Moment → Moment → Exec Store XvpPaymentResult
  pay id params m m' = do rec ← admit_payment id params m; settle_payment id params rec m'
