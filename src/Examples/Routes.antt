-- ===== src/Examples/Routes.antt =====
-- The theorems on the handlers of routes/, at the books of the example.
use mock_pontes.Base.{arith, ◌≡◌, refl, sym, ap, ◌⊎◌, false, Option, none, some, [], ◌∷◌}
use mock_pontes.Base.Dict.{lookup}
use mock_pontes.Result.{Failure, Rejection, rejected, ok, err}
use mock_pontes.State.Types.{Draft, DraftStatus, Wallet, pending_match, pfod, xvp}
use mock_pontes.State.Record.{Store}
use mock_pontes.State.Store.{get_draft}
use mock_pontes.Http.{AuthContext}
use mock_pontes.Routes.Pfod.{ReceiveRequest, init_receive, try_match}
use mock_pontes.Routes.Pfod.Settlement.{Settled}
use mock_pontes.Routes.Pfod.Legs.{HasLegs, IsRefused, try_match-cases}
use mock_pontes.Routes.Pfod.Order.{init_receive-early}
use mock_pontes.Routes.Transfers.{TransferRequest, list_transactions}
use mock_pontes.Routes.Transfers.Secrecy.{list_transactions-independent}
use mock_pontes.Routes.Payments.{PaymentRequest, payment_settled, pay_bridge}
use mock_pontes.Routes.Payments.Settlement.{IsPayable, pay_bridge-Paid}
use mock_pontes.Routes.Payments.Settlement as Bridge
use mock_pontes.Routes.Wallets.{no_owner, WalletRequest, add_own_wallet}
use mock_pontes.Routes.Wallets.Views.{Directory}
use mock_pontes.Routes.Wallets.Ownership.{Opened, IsGrantable, add_own_wallet-Opened}
use mock_pontes.Examples.Machine.{machine, exact}
use mock_pontes.Examples.Funds.{keyed, asked}
use mock_pontes.Examples.Calls.{ledger, represented}
use mock_pontes.Examples.Books.{books, draft, moment}

abbrev bank : AuthContext
bank = record {
  entity_bic = some "BANKFRPP";
  user_uuid = some "maker";
  username = none;
  market_dlt_operator = none;
}

-- Two legs that wait for each other.
abbrev deliver : Draft
deliver = record (draft "PFOD-7-DELI" pending_match "") {
  type = pfod;
  debited_wallet_alias = "BETA";
}

abbrev receive : Draft
receive = record (draft "PFOD-7-RECE" pending_match "ALPHA") {
  type = pfod;
  debited_wallet_alias = "";
}

abbrev trade : Store
trade = record books { drafts = ("PFOD-7-DELI", deliver) ∷ ("PFOD-7-RECE", receive) ∷ [] }

leg_or : Draft → Option Draft → Draft
leg_or d none = d
leg_or d (some e) = e

has_legs : HasLegs "7" trade
unfolding get_draft lookup leg_or
has_legs d r h h' =
    let e : deliver ≡ d = ap (leg_or deliver) h in
    let e' : receive ≡ r = ap (leg_or receive) h' in
    record {
      deliver_key = ap (λ (x : Draft). x.id) (sym e);
      receive_key = ap (λ (x : Draft). x.id) (sym e');
      named = λ p. cc (p, ap (λ (x : Draft). x.debited_wallet_alias) e);
    }

try_match-cases_example :
    let t = (try_match "7" moment trade).1 in
    Settled "7" moment trade t ⊎ IsRefused "7" moment trade t
try_match-cases_example = try_match-cases "7" moment trade has_legs

abbrev early : ReceiveRequest
early = record {
  trade_id = some "7";
  amount = some "1.25";
  currency = some "EUR";
  buyer_wallet = some "ALPHA";
  seller_cam_bic = some "BANKDEFF";
  supplementary_data = none;
}

init_receive-early_example :
    (r : Rejection) × (init_receive 3600 (some "maker") early moment books
      ≡ (err (rejected r), books))
unfolding get_draft lookup
init_receive-early_example = init_receive-early 3600 (some "maker") early moment books refl

-- The books with an XvP that holds its keys.
abbrev with_secret : Store
with_secret = record books {
  drafts =
      (
        "X9",
        record (draft "X9" DraftStatus.initialized "BETA") {
          type = xvp;
          supplementary_data = some "the key";
        },
      )
      ∷ books.drafts;
}

list_transactions-independent_example :
    list_transactions "net" bank books ≡ list_transactions "net" bank with_secret
list_transactions-independent_example =
    list_transactions-independent "net" bank books with_secret refl refl refl

abbrev transfer_request : TransferRequest
transfer_request = record {
  currency = some "EUR";
  instructing_party_id = some "BANKFRPP";
  cbdc_request_type = some "OPERATION";
  isd = none;
  supplementary_data = none;
  instruction_id = none;
  amount_transferred = some "1.25";
  credited_cash_wallet_alias = some "BETA";
  debited_cash_wallet_alias = some "ALPHA";
  debited_cash_wallet_manager_id = none;
  credited_cash_wallet_manager_id = none;
  on_behalf_user = none;
  operation_context = none;
  funding_request_id = none;
  payment_instruction_id = none;
}

abbrev payment_request : PaymentRequest
payment_request = record {
  payment_id = some "P1";
  debited_cash_wallet_alias = some "ALPHA";
  credited_cash_wallet_alias = some "BETA";
  credited_cash_wallet_manager_id = some "BDF";
  amount = some "1.25";
  currency = some "EUR";
  supplementary_data = some "INV-2024_01";
}

pay_bridge-Paid_example :
    (((pay_bridge bank payment_request moment books).0 ≡ ok payment_settled)
      × Bridge.Settled exact payment_request 125 ledger books
          (pay_bridge bank payment_request moment books).1)
    ⊎ ((f : Failure) × (pay_bridge bank payment_request moment books ≡ (err f, books))
        × (IsPayable bank payment_request moment books → ⊥))
unfolding exact
pay_bridge-Paid_example =
    pay_bridge-Paid exact bank payment_request moment books ledger 125 keyed represented asked
      (omega arith)

instance abbrev no_entities : Directory
no_entities = record { entities = []; sha256_base64 = λ s. s; upper = λ s. s; lower = λ s. s }

abbrev wallet_request : WalletRequest
wallet_request = record {
  wallet_alias = some "GAMMA";
  owner_entity_id = no_owner;
  manager_ncb = none;
  currency = none;
  is_main_wallet = false;
  valid_from = none;
  valid_to = none;
}

add_own_wallet-Opened_example :
    ((w : Wallet) × ((add_own_wallet bank "BDF" wallet_request moment books).0 ≡ ok w)
      × Opened bank w books (add_own_wallet bank "BDF" wallet_request moment books).1)
    ⊎ ((f : Failure) × (add_own_wallet bank "BDF" wallet_request moment books ≡ (err f, books))
        × (IsGrantable bank wallet_request books → ⊥))
add_own_wallet-Opened_example = add_own_wallet-Opened bank "BDF" wallet_request moment books
