-- ===== src/Kinds/Refinement.antt =====
-- The books as an abstract ledger: a number of cents for every alias. Where doubles are exact, the
-- effects of the workflows are the moves of the ledger.
use mathlib.Core.Path.{subst}
use mock_pontes.Base.{
  ℕ, ◌+◌, ◌-◌, ◌≤◌, String, ◌≡◌, refl, sym, ◌∙◌, ap, ◌==◌, Option, some, none, arith, eq_iff, inl,
  inr, if◌then◌else◌, ◌⊎◌, Bool, true, false, eq_refl,
}
use mock_pontes.Base.Dict.{lookup}
use mock_pontes.Platform.{Platform, IsExact}
use mock_pontes.Result.{ok}
use mock_pontes.Exec.{>>=-ok}
use mock_pontes.State.Types.{Wallet, Draft, Caller}
use mock_pontes.State.Record.{Store}
use mock_pontes.State.Dcw.Balances.{Denotes, text-Denotes}
use mock_pontes.State.Keyed.{lookup-IsKeyed}
use mock_pontes.State.Store.{upsert_wallet, get_draft}
use mock_pontes.State.Store.Frame.{lookup-upsert_wallet}
use mock_pontes.Workflow.{Workflow, Actor, Moment, checked_debit, raw_credit, approve}
use mock_pontes.Workflow.Funds.{checked_debit-cases, raw_credit-cases}
use mock_pontes.Workflow.Approval.{approve-Approved}
use mock_pontes.Workflow.Outcome.{wallets-approve}
use mock_pontes.Kinds.{move_funds}
use mock_pontes.Kinds.Atomicity.{MovesFunds}
use mock_pontes.Kinds.Conservation.{
  AliasKeyed, upsert_wallet-AliasKeyed, with_debit_ok, added_exact,
}

-- A number of cents for every alias.
abbrev pub Ledger : Type 0
Ledger = String → ℕ

abbrev pub withdraw : String → ℕ → Ledger → Ledger
withdraw k a L j = if k == j then L j - a else L j

abbrev pub deposit : String → ℕ → Ledger → Ledger
deposit k a L j = if k == j then L j + a else L j

-- The amount goes from the first alias to the second.
abbrev pub transfer : String → String → ℕ → Ledger → Ledger
transfer source target a L = deposit target a (withdraw source a L)

module _ ⦃js : Platform⦄ (ex : IsExact js) where
  -- The available balance of every wallet is what the ledger says.
  abbrev pub Represents : Store → Ledger → Type 0
  Represents s L =
      (k : String) (w : Wallet) → lookup k s.wallets ≡ some w → Denotes ex w.balance (L k)

  either :
      (b : Bool) (w v : Wallet) (o : Option Wallet)
      → (if b then some w else o) ≡ some v
      → ((b ≡ true) × (w ≡ v)) ⊎ ((b ≡ false) × (o ≡ some v))
  either true w v o h = inl (refl, ground arith)
  either false w v o h = inr (refl, h)

  some_inj : (d e : Draft) → some d ≡ some e → d ≡ e
  some_inj d e h = cc

  at_key : (k : String) (x y : ℕ) → (if k == k then x else y) ≡ x
  at_key k x y = rw (eq_refl k) refl

  upsert_wallet-Represents :
      (w : Wallet) (s : Store) (L M : Ledger) (k : String)
      → w.alias ≡ k
      → Represents s L
      → Denotes ex w.balance (M k)
      → ((j : String) → (k == j) ≡ false → M j ≡ L j)
      → Represents (upsert_wallet w s) M
  upsert_wallet-Represents w s L M k e rep den others j v there =
      elim (either (w.alias == j) w v (lookup j s.wallets)
        (sym (lookup-upsert_wallet w j s) ∙ there)) [
          | inl (same, this) ↦
              let key : k ≡ j = sym e ∙ (eq_iff w.alias j).0 same in
              subst (λ (x : Wallet). Denotes ex x.balance (M j)) this
                (subst (λ i. Denotes ex w.balance (M i)) key den)
          | inr (other, before) ↦
              let apart : (k == j) ≡ false = ap (λ i. i == j) (sym e) ∙ other in
              subst (λ n. Denotes ex v.balance n) (sym (others j apart)) (rep j v before)
        ]

  debit-Represents :
      (alias amount : String) (c : Option Caller) (m : Moment) (s : Store) (L : Ledger) (a : ℕ)
      → AliasKeyed s
      → Represents s L
      → Denotes ex amount a
      → (checked_debit alias amount c m s).0 ≡ ok tt
      → let t = (checked_debit alias amount c m s).1 in
        AliasKeyed t × (a ≤ L alias) × Represents t (withdraw alias a L)
  debit-Represents alias amount c m s L a keyed rep den h =
      elim (checked_debit-cases alias amount c m s) [
        | inr (f, e) ↦ absurd (cc (ap (λ x. x.0) e))
        | inl d ↦
            let (left, cover) =
              with_debit_ok ex d.before d.after amount (L alias) a (rep alias d.before d.there) den
                d.debited in
            let key =
              lookup-IsKeyed (λ (w : Wallet). w.alias) alias d.before s.wallets keyed d.there in
            let same : d.after.alias ≡ alias = ap (λ (w : Wallet). w.alias) left ∙ key in
            let small : L alias - a ≤ ex.limit = omega (arith, (rep alias d.before d.there).1) in
            let value : Denotes ex d.after.balance (withdraw alias a L alias) =
              rw (left, eq_refl alias) (text-Denotes ex (L alias - a) small) in
            rw d.effect (
              upsert_wallet-AliasKeyed d.after s keyed,
              cover,
              upsert_wallet-Represents d.after s L (withdraw alias a L) alias same rep value
                  (λ j apart. rw apart refl),
            )
      ]

  credit-Represents :
      (alias amount : String) (s : Store) (L : Ledger) (a : ℕ)
      → AliasKeyed s
      → Represents s L
      → L alias + a ≤ ex.limit
      → Denotes ex amount a
      → (raw_credit alias amount s).0 ≡ ok tt
      → Represents (raw_credit alias amount s).1 (deposit alias a L)
  credit-Represents alias amount s L a keyed rep fits den h =
      elim (raw_credit-cases alias amount s) [
        | inr (why, (f, e)) ↦ absurd (cc (ap (λ x. x.0) e))
        | inl c ↦
            let key =
              lookup-IsKeyed (λ (w : Wallet). w.alias) alias c.before s.wallets keyed c.there in
            let sum : js.to_fixed (js.add (js.parse_float c.before.balance) c.added)
                ≡ ex.text (L alias + a) =
              rw ((rep alias c.before c.there).0, added_exact ex amount a c.added den c.parsed)
                (ex.fixed_add (L alias) a fits) in
            let after : Wallet = record c.before {
              balance = js.to_fixed (js.add (js.parse_float c.before.balance) c.added);
            } in
            let value : Denotes ex after.balance (deposit alias a L alias) =
              rw (sum, eq_refl alias) (text-Denotes ex (L alias + a) fits) in
            rw c.effect (
              upsert_wallet-Represents after s L (deposit alias a L) alias key rep value
                (λ j apart. rw apart refl))
      ]

  pub move_funds-Represents :
      (d : Draft) (c : Option Caller) (m : Moment) (s : Store) (L : Ledger) (a : ℕ)
      → AliasKeyed s
      → Represents s L
      → L d.credited_wallet_alias + a ≤ ex.limit
      → Denotes ex d.amount a
      → (move_funds d c m s).0 ≡ ok tt
      → (a ≤ L d.debited_wallet_alias)
        × Represents
            (move_funds d c m s).1
            (transfer d.debited_wallet_alias d.credited_wallet_alias a L)
  unfolding move_funds
  move_funds-Represents d c m s L a keyed rep fits den h =
      let debit = checked_debit d.debited_wallet_alias d.amount c m in
      let credit = raw_credit d.credited_wallet_alias d.amount in
      let (_, debited, q) = >>=-ok debit (λ _. credit) s h in
      let (keyed', cover, left) =
        debit-Represents d.debited_wallet_alias d.amount c m s L a keyed rep den debited in
      let credited : (credit (debit s).1).0 ≡ ok tt = ap (λ x. x.0) (sym q) ∙ h in
      (
        cover,
        rw q (
            credit-Represents d.credited_wallet_alias d.amount (debit s).1
              (withdraw d.debited_wallet_alias a L) a keyed' left (ground arith) den credited),
      )

  -- A successful approval refines the move of an abstract ledger. Where doubles are exact, every wallet
  -- stands under its alias, the ledger gives the available balance of every wallet, the draft's amount
  -- is a number of cents and crediting it stays within exact doubles, a successful approval by a
  -- workflow that debits one wallet and credits another had the cash to take, and leaves the ledger in
  -- which the amount has moved from the debited to the credited alias.
  pub approve-Represents :
      (w : Workflow) (funds : MovesFunds w) (id : String) (actor : Actor) (m : Moment) (s : Store)
      (r : Option Draft) (d : Draft) (L : Ledger) (a : ℕ)
      → AliasKeyed s
      → Represents s L
      → get_draft id none s ≡ some d
      → Denotes ex d.amount a
      → L d.credited_wallet_alias + a ≤ ex.limit
      → (approve w id actor m s).0 ≡ ok r
      → (a ≤ L d.debited_wallet_alias)
        × Represents
            (approve w id actor m s).1
            (transfer d.debited_wallet_alias d.credited_wallet_alias a L)
  approve-Represents w funds id actor m s r d L a keyed rep there den fits h =
      let p = approve-Approved w funds.lawful id actor m s r h in
      let this : p.draft ≡ d = some_inj p.draft d (sym p.pending.found ∙ there) in
      let same : w.apply p.draft actor.caller m ≡ move_funds d actor.caller m =
        ap (λ x. x p.draft actor.caller m) funds.apply
        ∙ ap (λ x. move_funds x actor.caller m) this in
      let moved : (move_funds d actor.caller m s).0 ≡ ok tt =
        ap (λ x. (x s).0) (sym same) ∙ p.applied in
      let wallets =
        wallets-approve w funds.lawful id actor m s (approve w id actor m s).1 r p
        ∙ ap (λ x. (x s).1.wallets) same in
      let (cover, after) = move_funds-Represents d actor.caller m s L a keyed rep fits den moved in
      (cover, λ k v found. after k v (ap (lookup k) (sym wallets) ∙ found))
