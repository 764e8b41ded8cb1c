-- ===== src/State/Store.antt =====
-- The operations of state/memory-store.ts on wallets, transactions, drafts and sequences. Those that
-- read the clock take it as an argument.
pub mod Frame
pub mod Sync
use mock_pontes.Base.{
  ℕ, ◌+◌, String, ◌++◌, Bool, false, ◌||◌, ◌&&◌, ◌==◌, Option, none, some, List, [], if◌then◌else◌,
  or_else, truthy,
}
use mock_pontes.Base.Dict.{lookup, insert, values}
use mock_pontes.Base.Lists.{filter, push}
use mock_pontes.Base.Text.{slice_text, remove_char, decimal, pad_start}
use mock_pontes.Platform.{Platform}
use mock_pontes.Result.{Result, ok, err, dcw_error, wallet_not_found, debit_denied}
use mock_pontes.Exec.{Exec, ◌>>=◌, ◌>>◌}
use mock_pontes.State.Types.{Wallet, Transaction, Draft, Caller, Verdict, CreateDcwOptions}
use mock_pontes.State.Record.{
  Store, persist_wallets, persist_drafts, persist_transactions, persist_sequences,
}
use mock_pontes.State.Dcw.{
  can_read, can_debit, create_dcw, with_credit, with_debit, with_lock, with_release,
  with_settle_locked,
}

-- `caller ? all.filter(p) : all`
abbrev pub scoped {ℓ} : {A : Type ℓ} → (Caller → A → Bool) → Option Caller → List A → List A
scoped p none all = all
scoped p (some c) all = filter (p c) all

-- `if (caller && !p) return undefined`
abbrev masked {ℓ} : {A : Type ℓ} → (Caller → A → Bool) → Option Caller → Option A → Option A
masked p none found = found
masked p (some c) none = none
masked p (some c) (some a) = if p c a then some a else none

abbrev readable : Caller → Wallet → Bool
readable c w = (can_read w c).ok

unfoldable pub get_wallets : Option Caller → Store → List Wallet
get_wallets caller s = scoped readable caller (values s.wallets)

unfoldable pub get_wallet : String → Option Caller → Store → Option Wallet
get_wallet alias caller s = masked readable caller (lookup alias s.wallets)

unfoldable pub upsert_wallet : Wallet → Store → Store
unfolding persist_wallets insert
upsert_wallet w s = persist_wallets (record s { wallets = insert w.alias w s.wallets })

unfoldable require_wallet : String → Exec Store Wallet
require_wallet alias s = elim (lookup alias s.wallets) [
  | none ↦ (err (dcw_error (wallet_not_found alias)), s)
  | some w ↦ (ok w, s)
]

-- A wallet operation on the stored wallet: nothing is written if it throws.
store_wallet : Result Wallet → Exec Store Wallet
store_wallet (err e) s = (err e, s)
store_wallet (ok w) s = (ok w, upsert_wallet w s)

unfoldable get_transactions : Store → List Transaction
get_transactions s = s.transactions

unfoldable pub add_transaction : Transaction → Store → Store
unfolding persist_transactions
add_transaction tx s = persist_transactions (record s { transactions = push s.transactions tx })

abbrev touches : String → Transaction → Bool
touches alias tx = tx.credited_wallet_alias == alias || tx.debited_wallet_alias == alias

unfoldable pub get_wallet_transactions : String → Option Caller → Store → List Transaction
get_wallet_transactions alias caller s =
    let found = filter (touches alias) s.transactions in
    elim caller [
      | none ↦ found
      | some c ↦ elim (lookup alias s.wallets) [
        | none ↦ []
        | some w ↦ if readable c w then found else []
      ]
    ]

-- One round of the loop in `canReadDraft`.
can_read_alias : Store → Caller → String → Bool
can_read_alias s c alias =
    truthy alias && elim (lookup alias s.wallets) [ none ↦ false | some w ↦ readable c w ]

unfoldable pub can_read_draft : Store → Caller → Draft → Bool
unfolding can_read_alias
can_read_draft s c d =
    can_read_alias s c d.credited_wallet_alias || can_read_alias s c d.debited_wallet_alias

unfoldable pub get_draft : String → Option Caller → Store → Option Draft
get_draft id caller s = masked (can_read_draft s) caller (lookup id s.drafts)

unfoldable pub get_drafts : Option Caller → Store → List Draft
get_drafts caller s = scoped (can_read_draft s) caller (values s.drafts)

unfoldable pub add_draft : Draft → Store → Store
unfolding persist_drafts insert
add_draft d s = persist_drafts (record s { drafts = insert d.id d s.drafts })

module _ ⦃js : Platform⦄ where
  unfoldable pub ensure_wallet : ℕ → String → CreateDcwOptions → Store → Wallet × Store
  ensure_wallet now alias opts s = elim (lookup alias s.wallets) [
    | some existing ↦ (existing, s)
    | none ↦ let w = create_dcw now alias opts in (w, upsert_wallet w s)
  ]

  unfoldable pub credit : String → String → Exec Store Wallet
  unfolding require_wallet store_wallet
  credit alias amount = do w ← require_wallet alias; store_wallet (with_credit w amount)

  -- `if (!permitted.ok) throw new Error(...)`
  permit : Verdict → Exec Store (Unit {0})
  permit v s =
      if v.ok
      then (ok tt, s)
      else (err (dcw_error (debit_denied (or_else v.reason "undefined"))), s)

  unfoldable pub debit : ℕ → String → String → Caller → Exec Store Wallet
  unfolding require_wallet permit store_wallet
  debit now alias amount caller = do
    w ← require_wallet alias
    permit (can_debit w caller now)
    store_wallet (with_debit w amount)

  unfoldable lock : String → String → Exec Store Wallet
  unfolding require_wallet store_wallet
  lock alias amount = do w ← require_wallet alias; store_wallet (with_lock w amount)

  unfoldable release : String → String → Exec Store Wallet
  unfolding require_wallet store_wallet
  release alias amount = do w ← require_wallet alias; store_wallet (with_release w amount)

  unfoldable settle_locked : String → String → Exec Store Wallet
  unfolding require_wallet store_wallet
  settle_locked alias amount = do
    w ← require_wallet alias
    store_wallet (with_settle_locked w amount)

  unfoldable pub store_can_debit : ℕ → String → Caller → Store → Verdict
  store_can_debit now alias caller s = elim (lookup alias s.wallets) [
    | none ↦ record { ok = false; reason = some "WALLET_NOT_FOUND" }
    | some w ↦ can_debit w caller now
  ]

  replace_draft : ℕ → String → (Draft → Draft) → Option Draft → Store → Store
  replace_draft now id update none s = s
  replace_draft now id update (some existing) s = persist_drafts (record s {
    drafts = insert id (record (update existing) { updated_at = js.iso now }) s.drafts;
  })

  -- `updateDraft`: the third argument is the spread of the partial draft.
  unfoldable pub update_draft : ℕ → String → (Draft → Draft) → Store → Store
  unfolding persist_drafts insert replace_draft
  update_draft now id update s = replace_draft now id update (lookup id s.drafts) s

  -- the day as yyMMdd
  pub day_text : ℕ → String
  unfolding slice_text remove_char
  day_text now = remove_char b'-' (slice_text 2 10 (js.iso now))

  abbrev pub sequence_key : ℕ → String → String
  sequence_key now prefix = prefix ++ ":" ++ day_text now

  unfoldable pub next_id : ℕ → String → Store → String × Store
  unfolding day_text decimal pad_start persist_sequences insert lookup
  next_id now prefix s =
      let day = day_text now in
      let key = prefix ++ ":" ++ day in
      let next = or_else (lookup key s.sequences) 0 + 1 in
      (
        prefix ++ day ++ pad_start 6 (decimal next),
        persist_sequences (record s { sequences = insert key next s.sequences }),
      )
