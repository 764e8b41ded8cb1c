-- ===== src/Xvp/Types.antt =====
-- The records of workflows/xvp.ts, and what it takes from the runtime: JSON texts and SHA-256.
use mock_pontes.Base.{String, Bool, Option, none}
use mock_pontes.Platform.{Platform}
use mock_pontes.Result.{Result}
use mock_pontes.State.Types.{Caller, DraftStatus}

-- The object in a draft's `supplementaryData`. A participant is kept as its JSON text.
pub record Meta : Type 0 where
  pub transaction_type : Option String
  pub execution_hash : Option String
  pub cancellation_hash : Option String
  pub execution_key : Option String
  pub cancellation_key : Option String
  pub payment_id : Option String
  pub seller_bic : Option String
  pub buyer_bic : Option String
  pub seller : Option String
  pub buyer : Option String
  pub payment_attempted : Option Bool

-- `{}`
abbrev pub no_meta : Meta
no_meta = record {
  transaction_type = none;
  execution_hash = none;
  cancellation_hash = none;
  execution_key = none;
  cancellation_key = none;
  payment_id = none;
  seller_bic = none;
  buyer_bic = none;
  seller = none;
  buyer = none;
  payment_attempted = none;
}

module _ ⦃js : Platform⦄ where
  pub record XvpInitParams : Type 0 where
    pub xvp_transaction_id : String
    pub transaction_type : String
    pub amount : String
    pub currency : String
    pub seller_wallet_alias : String
    pub seller_bic : Option String
    pub buyer_bic : Option String
    pub seller : Option String
    pub buyer : Option String
    pub timeout_sec : Option js.Num

pub record XvpPaymentParams : Type 0 where
  pub buyer_wallet_alias : String
  pub buyer_bic : Option String
  pub seller_bic : Option String
  pub amount : String
  pub currency : String
  pub caller : Option Caller

pub record XvpInitResult : Type 0 where
  pub xvp_transaction_id : String
  pub status : DraftStatus
  pub execution_hash : String
  pub cancellation_hash : String
  pub execution_key : String
  pub cancellation_key : String
  pub timeout : String

pub record XvpPaymentResult : Type 0 where
  pub xvp_transaction_id : String
  pub status : DraftStatus
  pub execution_key : Option String
  pub cancellation_key : Option String
  pub payment_id : Option String

pub record XvpRecord : Type 0 where
  pub id : String
  pub status : DraftStatus
  pub amount : String
  pub currency : String
  pub seller_wallet_alias : String
  pub buyer_wallet_alias : String
  pub timeout : Option String
  pub execution_hash : Option String
  pub cancellation_hash : Option String
  pub transaction_type : Option String
  pub execution_key : Option String
  pub cancellation_key : Option String
  pub payment_id : Option String
  pub seller_bic : Option String
  pub buyer_bic : Option String
  pub seller : Option String
  pub buyer : Option String
  pub payment_attempted : Option Bool

-- `JSON.stringify` and `JSON.parse` on such objects, and the hexadecimal SHA-256 of the UTF-8 bytes of
-- a text, and of the bytes that a hexadecimal text spells.
pub record Services : Type 0 where
  pub stringify : Meta → String
  pub parse : String → Result Meta
  pub hash_text : String → String
  pub hash_hex : String → String
