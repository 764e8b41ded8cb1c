-- ===== src/Examples/Hashlock.antt =====
-- The theorems on hash-linked payments, at an XvP that awaits payment and one that is settled.
use mock_pontes.Base.{String, ◌++◌, ◌≡◌, refl, ◌⊎◌, inl, none, some, [], ◌∷◌, arith}
use mock_pontes.Base.Dict.{lookup}
use mock_pontes.Result.{Result, ok, err, Failure, rejected, thrown}
use mock_pontes.State.Types.{Draft, DraftStatus, xvp, initialized, expired}
use mock_pontes.State.Record.{Store}
use mock_pontes.State.Store.{get_draft, update_draft}
use mock_pontes.Workflow.{Moment}
use mock_pontes.Xvp.{
  init, XvpOptions, maybe_expire, shape, get, pay, admit_payment, xvp_closed, read_meta,
}
use mock_pontes.Xvp.Types.{XvpInitParams, XvpInitResult, Meta, no_meta, Services, XvpPaymentParams}
use mock_pontes.Xvp.Expiry.{IsClosed, IsLate, Expiry, closed_for_good, pay_late}
use mock_pontes.Xvp.Disclosure.{PaymentAnswer, get_payment, disclose, outcome_of}
use mock_pontes.Xvp.Registration.{Registered, seconds_later, init-Registered}
use mock_pontes.Xvp.Commitment.{HashMethod}
use mock_pontes.Xvp.Disclosure.Secrets.{IdKeyed, keys_exclusive}
use mock_pontes.Examples.Machine.{machine, number_of}
use mock_pontes.Examples.Books.{books, draft, payer, moment}

-- Every text stands for an object with two keys that are derived from it.
abbrev pub meta_of : String → Meta
meta_of s = record no_meta { execution_key = some ("E" ++ s); cancellation_key = some ("C" ++ s) }

instance unfoldable pub services : Services
services = record {
  stringify = λ x. "written";
  parse = λ s. ok (meta_of s);
  hash_text = λ s. "#" ++ s;
  hash_hex = λ s. "%" ++ s;
}

-- An XvP with its deadline on New Year's Day.
abbrev pub hashlocked : String → DraftStatus → Draft
hashlocked id status = record (draft id status "BETA") {
  type = xvp;
  debited_wallet_alias = "";
  expires_at = some "2024-01-01";
  supplementary_data = some id;
}

abbrev pub trades : Store
trades = record books {
  drafts = ("X1", hashlocked "X1" initialized) ∷ ("X2", hashlocked "X2" DraftStatus.settled) ∷ [];
}

abbrev pub payment : XvpPaymentParams
payment = record {
  buyer_wallet_alias = "ALPHA";
  buyer_bic = none;
  seller_bic = none;
  amount = "1.25";
  currency = "EUR";
  caller = some payer;
}

IsClosed-sample : IsClosed "X2" trades (hashlocked "X2" DraftStatus.settled)
unfolding get_draft lookup
IsClosed-sample = record { found = refl; typed = refl; closed = λ p. cc (p) }

closed_for_good_example :
    ((m : Moment) → (get "X2" m trades).1 ≡ trades)
    × ((params : XvpPaymentParams) (m m' : Moment)
        → (f : Failure) × (pay "X2" params m m' trades ≡ (err f, trades)))
closed_for_good_example =
    closed_for_good "X2" trades (hashlocked "X2" DraftStatus.settled) IsClosed-sample

IsLate-sample : IsLate "X1" moment.now trades (hashlocked "X1" initialized)
unfolding get_draft lookup machine number_of
IsLate-sample = record {
  found = refl;
  named = refl;
  typed = refl;
  waiting = refl;
  deadline = 20240101;
  date = "2024-01-01";
  timeout = refl;
  dated = (refl, refl);
  passed = omega arith;
}

pay_late_example :
    ((pay "X1" payment moment moment trades).0 ≡ err (rejected (xvp_closed "X1" expired)))
    × Expiry "X1" trades (pay "X1" payment moment moment trades).1 (hashlocked "X1" initialized)
    × Expiry "X1" trades (get "X1" moment trades).1 (hashlocked "X1" initialized)
unfolding read_meta services
pay_late_example =
    pay_late "X1" payment moment moment trades (hashlocked "X1" initialized) (meta_of "X1")
      IsLate-sample refl

ids_keyed : IdKeyed trades
ids_keyed = (refl, (refl, tt))

value_of : Result PaymentAnswer → PaymentAnswer
value_of (ok a) = a
value_of (err f) = record {
  xvp_transaction_id = "";
  payment_id = none;
  status = mock_pontes.Xvp.Disclosure.Outcome.pending;
  execution_key = none;
  cancellation_key = none;
}

-- What the seller learns after the deadline, and the buyer next.
unfoldable first_answer : PaymentAnswer
unfolding value_of get_payment get maybe_expire shape disclose outcome_of update_draft get_draft
    lookup machine number_of services read_meta
first_answer = value_of (get_payment (some "CANCELLATION") "X1" moment trades).0

unfoldable second_answer : PaymentAnswer
unfolding first_answer pay
second_answer =
    value_of
      (get_payment (some "EXECUTION") "X1" moment
        (pay "X1" payment moment moment
          (get_payment (some "CANCELLATION") "X1" moment trades).1).1).0

keys_exclusive_example :
    ((first_answer.execution_key ≡ none) ⊎ (second_answer.cancellation_key ≡ none))
    × ((first_answer.cancellation_key ≡ none) ⊎ (second_answer.execution_key ≡ none))
unfolding second_answer admit_payment
keys_exclusive_example =
    keys_exclusive (some "CANCELLATION") (some "EXECUTION") "X1" payment moment moment moment moment
      trades first_answer second_answer ids_keyed refl refl

abbrev options : XvpOptions
options = record { hash_method = HashMethod.hex_string; default_timeout_sec = machine.num_of 3600 }

-- A registration under the identifier of the settled trade.
abbrev again : XvpInitParams
again = record {
  xvp_transaction_id = "X2";
  transaction_type = "DVP";
  amount = "1.25";
  currency = "EUR";
  seller_wallet_alias = "BETA";
  seller_bic = none;
  buyer_bic = none;
  seller = none;
  buyer = none;
  timeout_sec = none;
}

init-Registered_example :
    ((r : XvpInitResult) × ((init options again "k1" "k2" moment trades).0 ≡ ok r)
      × Registered options again "k1" "k2" moment trades
          (init options again "k1" "k2" moment trades).1
          r)
    ⊎ ((seconds_later options again moment ≡ none)
        × (init options again "k1" "k2" moment trades
            ≡ (err (thrown "Invalid time value"), trades)))
init-Registered_example = init-Registered options again "k1" "k2" moment trades (inl refl)
