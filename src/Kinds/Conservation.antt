-- ===== src/Kinds/Conservation.antt =====
-- Conservation of cash: what the effects of the concrete workflows do to the sum of the available
-- balances, where doubles are exact.
use mock_pontes.Base.{
  ℕ, ◌+◌, ◌-◌, ◌≤◌, String, ◌≡◌, refl, sym, ◌∙◌, ap, Option, some, arith, inl, inr,
}
use mathlib.Core.Path.{subst}
use mock_pontes.Base.Dict.{lookup, insert}
use mock_pontes.Platform.{Platform, IsExact}
use mock_pontes.Result.{ok}
use mock_pontes.Exec.{>>=-ok}
use mock_pontes.State.Types.{Wallet, Draft, Caller}
use mock_pontes.State.Record.{Store}
use mock_pontes.State.Dcw.{parse_amount, with_debit}
use mock_pontes.State.Dcw.Balances.{Denotes, text-Denotes, parse_amount_exact, with_debit_exact}
use mock_pontes.State.Keyed.{IsKeyed, lookup-IsKeyed, insert-IsKeyed}
use mock_pontes.State.Worth.{Worth, Share, Worth-Share}
use mock_pontes.State.Store.{upsert_wallet}
use mock_pontes.Workflow.{Moment, checked_debit, raw_credit}
use mock_pontes.Workflow.Funds.{checked_debit-cases, raw_credit-cases}
use mock_pontes.Kinds.{move_funds}

abbrev pub AliasKeyed : Store → Type 0
AliasKeyed s = IsKeyed (λ (w : Wallet). w.alias) s.wallets

pub upsert_wallet-AliasKeyed :
    (w : Wallet) (s : Store) → AliasKeyed s → AliasKeyed (upsert_wallet w s)
unfolding upsert_wallet
upsert_wallet-AliasKeyed w s h = insert-IsKeyed (λ (w : Wallet). w.alias) w.alias w s.wallets refl h

module _ ⦃js : Platform⦄ (ex : IsExact js) where
  pub with_debit_ok :
      (w w' : Wallet) (amount : String) (b a : ℕ)
      → Denotes ex w.balance b
      → Denotes ex amount a
      → with_debit w amount ≡ ok w'
      → (w' ≡ record w { balance = ex.text (b - a) }) × (a ≤ b)
  with_debit_ok w w' amount b a hb ha h = ground (arith, with_debit_exact ex w amount b a hb ha)

  pub added_exact :
      (amount : String) (a : ℕ) (x : js.Num)
      → Denotes ex amount a
      → parse_amount amount ≡ ok x
      → x ≡ ex.cents a
  added_exact amount a x den h = cc (h, parse_amount_exact ex amount a den)

  -- Writing a wallet in the place of the one that is stored under its alias.
  upsert_wallet-Worth :
      (k : String) (w w' : Wallet) (s : Store) (n m b' : ℕ)
      → AliasKeyed s
      → lookup k s.wallets ≡ some w
      → (share : Share ex k w s.wallets n) → w'.alias ≡ w.alias
      → Denotes ex w'.balance b'
      → m + share.held ≡ n + b'
      → Worth ex (upsert_wallet w' s).wallets m
  unfolding upsert_wallet
  upsert_wallet-Worth k w w' s n m b' keyed there share same den q =
      let key : k ≡ w'.alias =
        sym (same ∙ lookup-IsKeyed (λ (w : Wallet). w.alias) k w s.wallets keyed there) in
      subst (λ j. Worth ex (insert j w' s.wallets) m) key (share.write w' b' m den q)

  -- Where doubles are exact up to a limit, every wallet stands under its alias, the available balances
  -- are numbers of cents whose sum is within the limit and the amount is a number of cents within it, a
  -- checked debit that goes through was covered by the sum and takes the amount out of it, and every
  -- wallet still stands under its alias.
  pub checked_debit-Worth :
      (alias amount : String) (c : Option Caller) (m : Moment) (s : Store) (n a : ℕ)
      → AliasKeyed s
      → Worth ex s.wallets n
      → n ≤ ex.limit
      → Denotes ex amount a
      → (checked_debit alias amount c m s).0 ≡ ok tt
      → let t = (checked_debit alias amount c m s).1 in
        AliasKeyed t × (a ≤ n) × Worth ex t.wallets (n - a)
  checked_debit-Worth alias amount c m s n a keyed worth fits den h =
      elim (checked_debit-cases alias amount c m s) [
        | inr (f, e) ↦ absurd (cc (ap (λ x. x.0) e))
        | inl d ↦
            let share = Worth-Share ex alias d.before s.wallets n d.there worth in
            let (left, cover) =
              with_debit_ok d.before d.after amount share.held a share.denotes den d.debited in
            let small : share.held - a ≤ ex.limit = omega (arith, share.part) in
            rw d.effect (
              upsert_wallet-AliasKeyed d.after s keyed,
              omega (arith, share.part),
              upsert_wallet-Worth alias d.before d.after s n (n - a) (share.held - a) keyed d.there
                  share (ap (λ (w : Wallet). w.alias) left)
                  (rw left (text-Denotes ex (share.held - a) small)) (omega (arith, share.part)),
            )
      ]

  -- Where doubles are exact up to a limit, every wallet stands under its alias, the available balances
  -- and the amount are numbers of cents and their sum with the amount is within the limit, a credit
  -- that goes through adds the amount to the sum, and every wallet still stands under its alias.
  pub raw_credit-Worth :
      (alias amount : String) (s : Store) (n a : ℕ)
      → AliasKeyed s
      → Worth ex s.wallets n
      → n + a ≤ ex.limit
      → Denotes ex amount a
      → (raw_credit alias amount s).0 ≡ ok tt
      → let t = (raw_credit alias amount s).1 in AliasKeyed t × Worth ex t.wallets (n + a)
  raw_credit-Worth alias amount s n a keyed worth fits den h =
      elim (raw_credit-cases alias amount s) [
        | inr (why, (f, e)) ↦ absurd (cc (ap (λ x. x.0) e))
        | inl c ↦
            let share = Worth-Share ex alias c.before s.wallets n c.there worth in
            let small : share.held + a ≤ ex.limit = omega (arith, share.part) in
            let sum : js.to_fixed (js.add (js.parse_float c.before.balance) c.added)
                ≡ ex.text (share.held + a) =
              rw (share.denotes.0, added_exact amount a c.added den c.parsed)
                (ex.fixed_add share.held a small) in
            rw c.effect (
              upsert_wallet-AliasKeyed _ s keyed,
              upsert_wallet-Worth alias c.before _ s n (n + a) (share.held + a) keyed c.there share
                  refl (rw sum (text-Denotes ex (share.held + a) small))
                  (omega (arith, share.part)),
            )
      ]

  -- A debit and a credit of the same amount leave the sum as it was.
  pub move_funds-Worth :
      (d : Draft) (c : Option Caller) (m : Moment) (s : Store) (n a : ℕ)
      → AliasKeyed s
      → Worth ex s.wallets n
      → n ≤ ex.limit
      → Denotes ex d.amount a
      → (move_funds d c m s).0 ≡ ok tt
      → Worth ex (move_funds d c m s).1.wallets n
  unfolding move_funds
  move_funds-Worth d c m s n a keyed worth fits den h =
      let debit = checked_debit d.debited_wallet_alias d.amount c m in
      let credit = raw_credit d.credited_wallet_alias d.amount in
      let (_, debited, q) = >>=-ok debit (λ _. credit) s h in
      let (keyed', cover, left) =
        checked_debit-Worth d.debited_wallet_alias d.amount c m s n a keyed worth fits den
          debited in
      let credited : (credit (debit s).1).0 ≡ ok tt = ap (λ x. x.0) (sym q) ∙ h in
      let (_, total) =
        raw_credit-Worth d.credited_wallet_alias d.amount (debit s).1 (n - a) a keyed' left
          (omega arith) den credited in
      let back : n - a + a ≡ n = omega arith in rw q (rw back at total)
