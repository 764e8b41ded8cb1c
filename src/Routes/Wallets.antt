-- ===== src/Routes/Wallets.antt =====
-- routes/wallets.ts: the queries on wallets and their transactions, and the creation of a wallet in one
-- step.
pub mod Views
pub mod Ownership
use mock_pontes.Base.{
  String, ◌++◌, ◌==◌, ◌||◌, ◌&&◌, Bool, true, false, not, Option, none, some, List, [], ◌∷◌, map,
  if◌then◌else◌, given, or_else, is_text, truthy,
}
use mock_pontes.Base.Lists.{filter, includes}
use mock_pontes.Platform.{Platform}
use mock_pontes.Result.{Result, Rejection, rejected, ok, err}
use mock_pontes.Exec.{Exec, pure, throw, throw_if, gets, lift, ◌>>=◌, ◌>>◌}
use mock_pontes.State.Types.{Wallet, Caller, CreateDcwOptions}
use mock_pontes.State.Record.{Store}
use mock_pontes.State.Store.{get_wallet, get_wallets, get_wallet_transactions, ensure_wallet}
use mock_pontes.Workflow.{Moment}
use mock_pontes.Http.{Reply, AuthContext}
use mock_pontes.Routes.{validation_error}
use mock_pontes.Routes.Funding.{Issuance}
use mock_pontes.Routes.Wallets.Views.{
  Directory, SettlementView, WalletView, wallet_caller, to_settlement, to_wallet_response,
}

abbrev pub wallet_not_found_here : String → Rejection
wallet_not_found_here alias = record {
  status_code = 404;
  error_code = "HL-GER-001";
  error_description = "Wallet " ++ alias ++ " not found";
}

abbrev wallet_scopes : List String
wallet_scopes = "ownedcustody" ∷ "owned" ∷ "used" ∷ "managed" ∷ "managedcustody" ∷ "poa" ∷ []

scope_of : String → Wallet → String → Bool
scope_of scope w entity =
    if scope == "ownedcustody" || scope == "owned" || scope == "used"
    then w.owner_entity_id == entity
    else if scope == "managed" || scope == "managedcustody"
    then w.manager_ncb == entity
    else if scope == "poa"
    then includes w.poa_grantees entity
    else false

unfoldable in_scope : String → Wallet → Caller → Bool
unfolding scope_of
in_scope scope w caller =
    if given caller.entity_bic then scope_of scope w (or_else caller.entity_bic "") else false

-- `s !== undefined && !p(s)`
abbrev given_other : Option String → (String → Bool) → Bool
given_other none p = false
given_other (some s) p = not (p s)

-- `s === undefined`
abbrev is_absent : Option String → Bool
is_absent none = true
is_absent (some s) = false

-- The tests on `wallettype`, `type` and `scope`.
unfoldable check_query :
    ⦃dir : Directory⦄ → Option String → Option String → Option String → Exec Store (Unit {0})
check_query ⦃dir⦄ wallet_type type scope = do
  throw_if (given_other wallet_type (λ s. dir.upper s == "CASH"))
      (validation_error ("Unknown wallettype '" ++ or_else wallet_type "" ++ "'. Expected: CASH"))
  throw_if (given_other type (λ s. dir.upper s == "NORMAL" || dir.upper s == "DRAFT"))
      (validation_error ("Unknown type '" ++ or_else type "" ++ "'. Expected: NORMAL, DRAFT"))
  throw_if (is_absent scope) (validation_error "scope is required")
  throw_if (given_other scope (λ s. includes wallet_scopes (dir.lower s))) (
      validation_error (
        "Unknown scope '"
        ++ or_else scope ""
        ++ "'. Expected: ownedcustody, owned, used, managed, managedcustody, poa"))

-- `ownerEntityID` of a body: nothing or what counts as false, a text, or something else that counts as
-- true.
pub data NamedOwner : Type 0 where
  no_owner : NamedOwner
  owner : String → NamedOwner
  no_text : NamedOwner

-- What the body of a creation holds: texts where they are texts, and the flag as a Boolean.
pub record WalletRequest : Type 0 where
  pub wallet_alias : Option String
  pub owner_entity_id : NamedOwner
  pub manager_ncb : Option String
  pub currency : Option String
  pub is_main_wallet : Bool
  pub valid_from : Option String
  pub valid_to : Option String

abbrev not_authorised : String → Rejection
not_authorised why = record {
  status_code = 403;
  error_code = "HL-ATH-002";
  error_description = why;
}

abbrev foreign_wallet : String → Rejection
foreign_wallet entity =
    not_authorised ("You may only create wallets for your own entity (" ++ entity ++ ")")

abbrev wallet_exists : String → Rejection
wallet_exists alias = record {
  status_code = 409;
  error_code = "HL-GER-004";
  error_description = "Wallet " ++ alias ++ " already exists";
}

-- `body.ownerEntityID && body.ownerEntityID !== caller.entityBIC`
abbrev pub foreign_owner : NamedOwner → String → Bool
foreign_owner no_owner entity = false
foreign_owner (owner e) entity = truthy e && not (e == entity)
foreign_owner no_text entity = true

abbrev is_stored : Option Wallet → Bool
is_stored none = false
is_stored (some w) = true

abbrev unreadable : String → Option Wallet → Exec Store Wallet
unreadable alias none = throw (rejected (wallet_not_found_here alias))
unreadable alias (some w) = pure w

module _ ⦃js : Platform⦄ ⦃dir : Directory⦄ where
  shape_all : List Wallet → Result (List WalletView)
  shape_all [] = ok []
  shape_all (w ∷ ws) = elim (to_wallet_response w) [
    | err e ↦ err e
    | ok v ↦ elim (shape_all ws) [ err e ↦ err e | ok vs ↦ ok (v ∷ vs) ]
  ]

  upper_of : Option String → Option String
  upper_of none = none
  upper_of (some s) = some (dir.upper s)

  -- the wallets in the answer to a query
  wallets_in : Option String → String → Caller → Store → List Wallet
  wallets_in type scope caller s =
      if is_text type "DRAFT"
      then []
      else filter (λ w. in_scope scope w caller) (get_wallets none s)

  -- `GET ams/wallets`
  unfoldable list_wallets :
      AuthContext → Option String → Option String → Option String → Exec Store (List WalletView)
  unfolding check_query wallets_in shape_all upper_of wallet_caller
  list_wallets auth wallet_type type scope = do
    check_query wallet_type type scope
    found ← gets (wallets_in (upper_of type) (dir.lower (or_else scope "")) (wallet_caller auth))
    lift (shape_all found)

  abbrev own_options : String → String → WalletRequest → CreateDcwOptions
  own_options entity ncb q = record {
    owner_entity_id = some entity;
    owner_bic = some entity;
    manager_ncb = some (if given q.manager_ncb then or_else q.manager_ncb "" else dir.upper ncb);
    currency = some (if given q.currency then or_else q.currency "" else "EUR");
    is_main_wallet = some q.is_main_wallet;
    available_balance = none;
    locked_balance = none;
    valid_from = q.valid_from;
    valid_to = q.valid_to;
  }

  -- the creation after its tests
  create_own : String → String → String → WalletRequest → Moment → Exec Store Wallet
  create_own entity alias ncb q m s =
      let (w, t) = ensure_wallet m.now alias (own_options entity ncb q) s in (ok w, t)

  -- The creation for the entity of the caller.
  own_wallet : String → String → WalletRequest → Moment → Exec Store Wallet
  own_wallet entity ncb q m =
      throw_if (not (given q.wallet_alias)) (validation_error "walletAlias is required")
      >> (throw_if (foreign_owner q.owner_entity_id entity) (foreign_wallet entity)
          >> (gets (get_wallet (or_else q.wallet_alias "") none) >>= λ found.
              throw_if (is_stored found) (wallet_exists (or_else q.wallet_alias ""))
              >> create_own entity (or_else q.wallet_alias "") ncb q m))

  -- `POST ams/wallets/one-step` up to the shaping of the answer
  unfoldable pub add_own_wallet : AuthContext → String → WalletRequest → Moment → Exec Store Wallet
  unfolding own_wallet create_own wallet_caller
  add_own_wallet auth ncb q m =
      throw_if (not (given (wallet_caller auth).entity_bic))
        (not_authorised "An authenticated entity is required to create a wallet")
      >> own_wallet (or_else (wallet_caller auth).entity_bic "") ncb q m

  -- `POST ams/wallets/one-step`
  unfoldable create_wallet :
      AuthContext → String → WalletRequest → Moment → Exec Store (Reply WalletView)
  unfolding add_own_wallet
  create_wallet auth ncb q m = do
    w ← add_own_wallet auth ncb q m
    view ← lift (to_wallet_response w)
    pure (record { status_code = 201; body = view })

  -- `GET ams/wallets/:walias`
  unfoldable read_wallet : AuthContext → String → Exec Store WalletView
  unfolding wallet_caller
  read_wallet auth alias = do
    found ← gets (get_wallet alias (some (wallet_caller auth)))
    w ← unreadable alias found
    lift (to_wallet_response w)

  -- `GET ams/wallets/:walias/transactions`
  unfoldable read_wallet_transactions :
      Issuance → String → AuthContext → String → Exec Store (List SettlementView)
  unfolding wallet_caller to_settlement
  read_wallet_transactions iss network auth alias = do
    found ← gets (get_wallet alias (some (wallet_caller auth)))
    unreadable alias found
    gets (λ s.
        map (λ tx. to_settlement iss network tx alias s)
          (get_wallet_transactions alias (some (wallet_caller auth)) s))
