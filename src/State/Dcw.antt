-- ===== src/State/Dcw.antt =====
-- state/dcw.ts: the wallet model and its pure operations. A throw is an `err`.
pub mod Rights
pub mod Balances
use mock_pontes.Base.{
  ℕ, String, Bool, true, false, ◌&&◌, ◌||◌, Option, none, some, List, [], if◌then◌else◌, ltb, given,
  is_text, or_text, or_else, truthy,
}
use mock_pontes.Base.Lists.{includes}
use mock_pontes.Platform.{Platform}
use mock_pontes.Result.{
  Result, ok, err, dcw_error, invalid_amount, negative_amount, insufficient_available,
  insufficient_locked, ◌>>=◌,
}
use mock_pontes.State.Types.{Wallet, Caller, Verdict, CreateDcwOptions}

abbrev allowed : Verdict
allowed = record { ok = true; reason = none }

abbrev denied : String → Verdict
denied reason = record { ok = false; reason = some reason }

-- `!!o && list.includes(o)`
listed : Option String → List String → Bool
listed none list = false
listed (some s) list = truthy s && includes list s

-- the tests `byEntity || byPoa || byOperator`
has_rights : Wallet → Caller → Bool
unfolding listed
has_rights w caller =
    (given caller.entity_bic && is_text caller.entity_bic w.owner_entity_id)
    || listed caller.entity_bic w.poa_grantees
    || listed caller.market_dlt_operator w.whitelisted_operators

unfoldable pub can_read : Wallet → Caller → Verdict
unfolding has_rights
can_read w caller = if has_rights w caller then allowed else denied "NOT_AUTHORISED_TO_READ"

module _ ⦃js : Platform⦄ where
  to_number : String → Result js.Num
  to_number s =
      let n = js.parse_float s in
      if js.is_finite n then ok n else err (dcw_error (invalid_amount s))

  -- `n.toFixed(2)`
  abbrev money : js.Num → String
  money n = js.to_fixed n

  positive_amount : String → Result js.Num
  unfolding to_number
  positive_amount amount = do
    a ← to_number amount
    if js.lt a js.num_zero then err (dcw_error negative_amount) else ok a

  unfoldable pub parse_amount : String → Result js.Num
  unfolding positive_amount
  parse_amount amount = positive_amount amount

  unfoldable pub available_of : Wallet → Result js.Num
  unfolding to_number
  available_of w = to_number w.balance

  unfoldable pub locked_of : Wallet → Result js.Num
  unfolding to_number
  locked_of w = to_number w.locked_balance

  unfoldable pub total_of : Wallet → Result js.Num
  unfolding available_of locked_of
  total_of w = do a ← available_of w; l ← locked_of w; ok (js.add a l)

  unfoldable pub create_dcw : ℕ → String → CreateDcwOptions → Wallet
  create_dcw now alias opts =
      let owner = or_text opts.owner_entity_id (or_text opts.owner_bic "UNKNOWN") in
      record {
        alias = alias;
        owner_bic = or_text opts.owner_bic owner;
        owner_entity_id = owner;
        manager_ncb = or_text opts.manager_ncb "UNKNOWN";
        balance = or_text opts.available_balance "0.00";
        locked_balance = or_text opts.locked_balance "0.00";
        currency = or_text opts.currency "EUR";
        is_main_wallet = or_else opts.is_main_wallet false;
        is_blocked = false;
        valid_from = or_text opts.valid_from (js.iso now);
        valid_to = opts.valid_to;
        poa_grantees = [];
        whitelisted_operators = [];
        created_at = js.iso now;
      }

  -- `new Date(s) > now`, false where the date is invalid
  date_after : String → ℕ → Bool
  date_after s now = elim (js.date_ms s) [ none ↦ false | some t ↦ ltb now t ]

  date_before : String → ℕ → Bool
  date_before s now = elim (js.date_ms s) [ none ↦ false | some t ↦ ltb t now ]

  -- `w.validTo && new Date(w.validTo) < now`
  ended : Option String → ℕ → Bool
  unfolding date_before
  ended none now = false
  ended (some s) now = truthy s && date_before s now

  unfoldable pub can_debit : Wallet → Caller → ℕ → Verdict
  unfolding date_after ended has_rights
  can_debit w caller now =
      if w.is_blocked
      then denied "WALLET_BLOCKED"
      else if truthy w.valid_from && date_after w.valid_from now
      then denied "WALLET_NOT_YET_VALID"
      else if ended w.valid_to now
      then denied "WALLET_EXPIRED"
      else if has_rights w caller
      then allowed
      else denied "NOT_AUTHORISED_TO_DEBIT"

  unfoldable pub with_credit : Wallet → String → Result Wallet
  unfolding positive_amount available_of
  with_credit w amount = do
    a ← positive_amount amount
    available ← available_of w
    ok (record w { balance = money (js.add available a) })

  unfoldable pub with_debit : Wallet → String → Result Wallet
  unfolding positive_amount available_of
  with_debit w amount = do
    a ← positive_amount amount
    available ← available_of w
    if js.lt available a
        then err (dcw_error insufficient_available)
        else ok (record w { balance = money (js.sub available a) })

  unfoldable pub with_lock : Wallet → String → Result Wallet
  unfolding positive_amount available_of locked_of
  with_lock w amount = do
    a ← positive_amount amount
    available ← available_of w
    if js.lt available a then err (dcw_error insufficient_available) else do
      locked ← locked_of w
      ok (record w {
        balance = money (js.sub available a);
        locked_balance = money (js.add locked a);
      })

  unfoldable pub with_release : Wallet → String → Result Wallet
  unfolding positive_amount available_of locked_of
  with_release w amount = do
    a ← positive_amount amount
    locked ← locked_of w
    if js.lt locked a then err (dcw_error insufficient_locked) else do
      available ← available_of w
      ok (record w {
        balance = money (js.add available a);
        locked_balance = money (js.sub locked a);
      })

  unfoldable pub with_settle_locked : Wallet → String → Result Wallet
  unfolding positive_amount locked_of
  with_settle_locked w amount = do
    a ← positive_amount amount
    locked ← locked_of w
    if js.lt locked a
        then err (dcw_error insufficient_locked)
        else ok (record w { locked_balance = money (js.sub locked a) })
