-- ===== src/Routes/Xvp.antt =====
-- routes/xvp.ts: the handlers that register an XvP, read its status and pay it. The query of its
-- outcome, with the keys, is in Xvp/Disclosure. A participant of a request is kept as its JSON text,
-- beside the BIC and the alias in it.
use mock_pontes.Base.{
  String, ◌++◌, Bool, Option, none, some, ◌||◌, not, if◌then◌else◌, given, or_else,
}
use mock_pontes.Platform.{Platform}
use mock_pontes.Exec.{Exec, pure, throw, throw_if, gets, lift, modify, ◌>>=◌, ◌>>◌}
use mock_pontes.Result.{rejected}
use mock_pontes.State.Types.{DraftStatus}
use mock_pontes.State.Record.{Store}
use mock_pontes.Workflow.{Moment}
use mock_pontes.Xvp.{XvpOptions, init, get, pay, xvp_not_found}
use mock_pontes.Xvp.Types.{
  XvpInitParams, XvpPaymentParams, XvpInitResult, XvpPaymentResult, XvpRecord, Services,
}
use mock_pontes.Xvp.Wallet.{resolve_xvp_wallet, ensure_seller_wallet, credit_side, debit_side}
use mock_pontes.Http.{Reply, AuthContext, entity_caller}
use mock_pontes.Routes.{validation_error}

-- A participant of the body, with the BIC that stands beside it (`sellerBIC`, `buyerBIC`).
pub record Participant : Type 0 where
  pub json : Option String
  pub bic : Option String
  pub cash_wallet_alias : Option String
  pub outer_bic : Option String

-- `a || b`
abbrev either_given : Option String → Option String → Option String
either_given a b = if given a then a else b

abbrev bic_of : Participant → Option String
bic_of p = either_given p.bic p.outer_bic

module _ ⦃js : Platform⦄ where
  pub record XvpRequest : Type 0 where
    pub xvp_transaction_id : Option String
    pub type : Option String
    pub transaction_type : Option String
    pub amount : Option String
    pub currency : Option String
    pub seller : Participant
    pub buyer : Participant
    -- the number that arithmetic takes it for
    pub timeout_sec : Option js.Num

  -- What the registration shows: the locks, never the keys.
  pub record XvpInitView : Type 0 where
    pub xvp_transaction_id : String
    pub execution_hash : Option String
    pub cancellation_hash : Option String
    pub timeout : Option String
    pub buyer : Option String
    pub seller : Option String
    pub amount : Option String
    pub currency : Option String
    pub type : Option String
    -- only the registration shows it
    pub status : Option DraftStatus

  pub record XvpPaymentView : Type 0 where
    pub xvp_transaction_id : String
    pub payment_id : Option String
    pub execution_key : Option String

  abbrev named_type : XvpRequest → String
  named_type q =
      if given q.type
      then or_else q.type ""
      else if given q.transaction_type
      then or_else q.transaction_type ""
      else "DVP"

  -- `runInit`, up to the call; a fresh UUID names an XvP that the request does not name
  unfoldable xvp_init_params : String → String → XvpRequest → XvpInitParams
  xvp_init_params fresh seller_wallet q = record {
    xvp_transaction_id = or_else (either_given q.xvp_transaction_id (some fresh)) fresh;
    transaction_type = named_type q;
    amount = or_else q.amount "";
    currency = or_else q.currency "";
    seller_wallet_alias = seller_wallet;
    seller_bic = bic_of q.seller;
    buyer_bic = bic_of q.buyer;
    seller = q.seller.json;
    buyer = q.buyer.json;
    timeout_sec = q.timeout_sec;
  }

  abbrev init_view : XvpRequest → XvpInitResult → XvpInitView
  init_view q r = record {
    xvp_transaction_id = r.xvp_transaction_id;
    execution_hash = some r.execution_hash;
    cancellation_hash = some r.cancellation_hash;
    timeout = some r.timeout;
    buyer = q.buyer.json;
    seller = q.seller.json;
    amount = q.amount;
    currency = q.currency;
    type = some (named_type q);
    status = some r.status;
  }

  -- The answer of `GET /igw/{ncb}/v1/xvps/{id}`
  abbrev status_view : XvpRecord → XvpInitView
  status_view rec = record {
    xvp_transaction_id = rec.id;
    execution_hash = rec.execution_hash;
    cancellation_hash = rec.cancellation_hash;
    timeout = rec.timeout;
    buyer = rec.buyer;
    seller = rec.seller;
    amount = some rec.amount;
    currency = some rec.currency;
    type = rec.transaction_type;
    status = none;
  }

  abbrev status_answer : String → Option XvpRecord → Exec Store XvpInitView
  status_answer id none = throw (rejected (xvp_not_found id))
  status_answer id (some rec) = pure (status_view rec)

  -- `body.seller?.cashWalletAlias || (sellerBic ? `${sellerBic}-XVP-CASH` : undefined)`
  abbrev rtgs_wallet : XvpRequest → Option String
  rtgs_wallet q =
      if given q.seller.cash_wallet_alias
      then q.seller.cash_wallet_alias
      else if given (bic_of q.seller)
      then some (or_else (bic_of q.seller) "" ++ "-XVP-CASH")
      else none

  -- The common test of the two registrations.
  abbrev lacks_terms : XvpRequest → Bool
  lacks_terms q =
      not (given q.amount)
      || (not (given q.currency) || (not (given (bic_of q.seller)) || not (given (bic_of q.buyer))))

  pub record XvpPaymentRequest : Type 0 where
    pub amount : Option String
    pub currency : Option String
    pub seller : Participant
    pub buyer : Participant

  abbrev payment_params : AuthContext → String → XvpPaymentRequest → XvpPaymentParams
  payment_params auth buyer_wallet q = record {
    buyer_wallet_alias = buyer_wallet;
    buyer_bic = bic_of q.buyer;
    seller_bic = bic_of q.seller;
    amount = or_else q.amount "";
    currency = or_else q.currency "";
    caller = entity_caller auth;
  }

  abbrev payment_view : String → XvpPaymentResult → XvpPaymentView
  payment_view id r = record {
    xvp_transaction_id = id;
    payment_id = r.payment_id;
    execution_key = r.execution_key;
  }

module _ ⦃js : Platform⦄ ⦃sv : Services⦄ where
  -- `runInit`, with the fresh identifier and the two random keys
  unfoldable run_init :
      XvpOptions
      → String
      → String
      → String
      → String
      → XvpRequest
      → Moment
      → Exec Store (Reply XvpInitView)
  unfolding xvp_init_params
  run_init o fresh execution cancellation seller_wallet q m = do
    r ← init o (xvp_init_params fresh seller_wallet q) execution cancellation m
    pure (record { status_code = 200; body = init_view q r })

  -- `POST /igw/{ncb}/v1/xvps`
  unfoldable register_xvp :
      XvpOptions → String → String → String → XvpRequest → Moment → Exec Store (Reply XvpInitView)
  register_xvp o fresh execution cancellation q m = do
    throw_if (lacks_terms q)
        (validation_error "Missing required fields: amount, currency, seller.bic, buyer.bic")
    found ←
        gets (λ s. resolve_xvp_wallet s (bic_of q.seller) q.seller.cash_wallet_alias credit_side)
    alias ← lift found
    run_init o fresh execution cancellation alias q m

  -- `POST /igw/{ncb}/v1/direct-rtgs/xvps`
  unfoldable register_rtgs_xvp :
      XvpOptions → String → String → String → XvpRequest → Moment → Exec Store (Reply XvpInitView)
  register_rtgs_xvp o fresh execution cancellation q m = do
    throw_if (lacks_terms q || not (given (rtgs_wallet q))) (
        validation_error (
          "Missing required fields: amount, currency, seller (bic + cashWalletAlias), "
          ++ "buyer bic"))
    modify (ensure_seller_wallet m.now (or_else (rtgs_wallet q) "") (bic_of q.seller))
    run_init o fresh execution cancellation (or_else (rtgs_wallet q) "") q m

  -- `GET /igw/{ncb}/v1/xvps/{id}`
  unfoldable read_xvp : String → Moment → Exec Store XvpInitView
  read_xvp id m = do rec ← get id m; status_answer id rec

  -- `POST /igw/{ncb}/v1/xvps/{id}/payment`, admitted at one moment and settled at the other
  unfoldable pay_xvp :
      AuthContext → String → XvpPaymentRequest → Moment → Moment → Exec Store XvpPaymentView
  unfolding entity_caller
  pay_xvp auth id q m m' = do
    throw_if (not (given (bic_of q.buyer)) || (not (given q.amount) || not (given q.currency)))
        (validation_error "Missing required fields: buyer.bic, amount, currency")
    found ← gets (λ s. resolve_xvp_wallet s (bic_of q.buyer) q.buyer.cash_wallet_alias debit_side)
    alias ← lift found
    r ← pay id (payment_params auth alias q) m m'
    pure (payment_view id r)
