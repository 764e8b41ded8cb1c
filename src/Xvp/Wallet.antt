-- ===== src/Xvp/Wallet.antt =====
-- routes/xvp.ts: the wallet of a participant, with the route's answer where there is none, and the
-- wallet that the direct-RTGS route creates.
use mock_pontes.Base.{ℕ, String, ◌++◌, ◌==◌, Option, none, some, if◌then◌else◌, or_else, truthy}
use mock_pontes.Platform.{Platform}
use mock_pontes.Result.{Rejection, Result, ok, err, rejected}
use mock_pontes.State.Record.{Store}
use mock_pontes.State.Store.{get_wallet, ensure_wallet}
use mock_pontes.State.Participant.{
  FailureReason, resolved, unresolved, wallet_not_found, no_participant_wallet,
  resolve_participant_wallet,
}
use mock_pontes.Workflow.{unknown_wallet_message}

pub data Side : Type 0 where
  debit_side credit_side : Side

abbrev side_text : Side → String
side_text debit_side = "Debit"
side_text credit_side = "Credit"

abbrev side_code : Side → String
side_code debit_side = "HL-WAL-002"
side_code credit_side = "HL-WAL-003"

abbrev unresolved_answer : Side → Option String → Option String → FailureReason → Rejection
unresolved_answer side bic alias no_participant_wallet = record {
  status_code = 422;
  error_code = "HL-WAL-007";
  error_description =
      "No cash wallet found for participant "
      ++ or_else bic "(unknown BIC)"
      ++ ". Supply an explicit cashWalletAlias or create one first via "
      ++ "POST /dlt/{ncb}/api/octopus/ams/wallets/one-step.";
}
unresolved_answer side bic alias wallet_not_found = record {
  status_code = 422;
  error_code = side_code side;
  error_description = unknown_wallet_message (side_text side) (or_else alias "");
}

-- `typeof explicitAlias === "string" && explicitAlias ? explicitAlias : undefined`
abbrev not_empty : Option String → Option String
not_empty none = none
not_empty (some s) = if truthy s then some s else none

unfoldable pub resolve_xvp_wallet : Store → Option String → Option String → Side → Result String
resolve_xvp_wallet s bic explicit_alias side =
    let alias = not_empty explicit_alias in
    elim (resolve_participant_wallet s bic alias) [
      | resolved w ↦ ok w.alias
      | unresolved reason ↦ err (rejected (unresolved_answer side bic alias reason))
    ]

module _ ⦃js : Platform⦄ where
  -- `ensureWallet` of the direct-RTGS route
  unfoldable pub ensure_seller_wallet : ℕ → String → Option String → Store → Store
  ensure_seller_wallet now alias owner s =
      if alias == "" then s else elim (get_wallet alias none s) [
        | some w ↦ s
        | none ↦
            (ensure_wallet now alias
              (record {
                owner_entity_id = owner;
                owner_bic = owner;
                manager_ncb = none;
                currency = none;
                is_main_wallet = none;
                available_balance = none;
                locked_balance = none;
                valid_from = none;
                valid_to = none;
              })
              s).1
      ]
