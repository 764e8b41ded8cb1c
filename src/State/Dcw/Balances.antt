-- ===== src/State/Dcw/Balances.antt =====
-- What the wallet operations of state/dcw.ts do to the available and locked balances, in whole
-- cents, where doubles are exact.
use mock_pontes.Base.{inl, inr, ℕ, ◌+◌, ◌-◌, ◌≤◌, String, ◌≡◌, arith, ltb, if◌then◌else◌}
use mock_pontes.Platform.{Platform, IsExact}
use mock_pontes.Result.{
  Result-cases, ok, err, dcw_error, insufficient_available, insufficient_locked, ◌>>=◌,
}
use mock_pontes.State.Types.{Wallet}
use mock_pontes.State.Dcw.{
  to_number, positive_amount, parse_amount, available_of, locked_of, with_credit, with_debit,
  with_lock, with_release, with_settle_locked,
}

module _ ⦃js : Platform⦄ where
  -- A debit that went through has parsed its amount.
  pub with_debit-parsed :
      (w w' : Wallet) (amount : String)
      → with_debit w amount ≡ ok w'
      → (a : js.Num) × (parse_amount amount ≡ ok a)
  unfolding with_debit parse_amount
  with_debit-parsed w w' amount h = elim (Result-cases (positive_amount amount)) [
    | inl (a, parsed) ↦ (a, parsed)
    | inr (e, failed) ↦ absurd (ground (arith, failed))
  ]

  -- A debit keeps the alias.
  pub alias-with_debit :
      (w w' : Wallet) (amount : String) → with_debit w amount ≡ ok w' → w'.alias ≡ w.alias
  unfolding with_debit
  alias-with_debit w w' amount h = ground arith

module _ ⦃js : Platform⦄ (ex : IsExact js) where
  -- The string stands for that number of cents.
  abbrev pub Denotes : String → ℕ → Type 0
  Denotes s n = Path js.Num (js.parse_float s) (ex.cents n) × (n ≤ ex.limit)

  pub text-Denotes : (n : ℕ) → n ≤ ex.limit → Denotes (ex.text n) n
  text-Denotes n h = (ex.parse_text n h, h)

  to_number_exact : (s : String) (n : ℕ) → Denotes s n → to_number s ≡ ok (ex.cents n)
  unfolding to_number
  to_number_exact s n (e, h) = rw (e, ex.finite_cents n h)

  positive_amount_exact : (s : String) (n : ℕ) → Denotes s n → positive_amount s ≡ ok (ex.cents n)
  unfolding positive_amount
  positive_amount_exact s n d =
      rw (to_number_exact s n d)
        (rw (ex.zero_cents, ex.lt_cents n 0 d.1 (omega arith)) (ground arith))

  pub parse_amount_exact : (s : String) (n : ℕ) → Denotes s n → parse_amount s ≡ ok (ex.cents n)
  unfolding parse_amount
  parse_amount_exact s n d = positive_amount_exact s n d

  -- A credit adds the amount to what is available.
  pub with_credit_exact :
      (w : Wallet) (amount : String) (b a : ℕ)
      → Denotes w.balance b
      → Denotes amount a
      → b + a ≤ ex.limit
      → with_credit w amount ≡ ok (record w { balance = ex.text (b + a) })
  unfolding with_credit available_of
  with_credit_exact w amount b a hb ha fits =
      rw (positive_amount_exact amount a ha, to_number_exact w.balance b hb, ex.fixed_add b a fits)

  -- Where doubles are exact up to a limit, and the available balance and the amount are numbers of
  -- cents within it, a debit leaves the difference, or is refused where the amount is more than what
  -- is available.
  pub with_debit_exact :
      (w : Wallet) (amount : String) (b a : ℕ)
      → Denotes w.balance b
      → Denotes amount a
      → with_debit w amount ≡ (
          if ltb b a
          then err (dcw_error insufficient_available)
          else ok (record w { balance = ex.text (b - a) }))
  unfolding with_debit available_of
  with_debit_exact w amount b a hb ha =
      rw (positive_amount_exact amount a ha, to_number_exact w.balance b hb)
        (ground (arith, ex.lt_cents b a hb.1 ha.1, ex.fixed_sub b a hb.1))

  -- Where doubles are exact up to a limit, and the two balances, the amount and the sum of the locked
  -- balance and the amount are numbers of cents within it, a reservation moves the amount from the
  -- available to the locked balance, or is refused where the amount is more than what is available.
  pub with_lock_exact :
      (w : Wallet) (amount : String) (b l a : ℕ)
      → Denotes w.balance b
      → Denotes w.locked_balance l
      → Denotes amount a
      → l + a ≤ ex.limit
      → with_lock w amount ≡ (
          if ltb b a
          then err (dcw_error insufficient_available)
          else ok (record w { balance = ex.text (b - a); locked_balance = ex.text (l + a) }))
  unfolding with_lock available_of locked_of
  with_lock_exact w amount b l a hb hl ha fits =
      rw
        (
          positive_amount_exact amount a ha,
          to_number_exact w.balance b hb,
          to_number_exact w.locked_balance l hl,
        )
        (ground (arith, ex.lt_cents b a hb.1 ha.1, ex.fixed_sub b a hb.1, ex.fixed_add l a fits))

  -- Where doubles are exact up to a limit, and the two balances, the amount and the sum of the
  -- available balance and the amount are numbers of cents within it, a release moves the amount back
  -- from the locked to the available balance, or is refused where the amount is more than what is
  -- locked.
  pub with_release_exact :
      (w : Wallet) (amount : String) (b l a : ℕ)
      → Denotes w.balance b
      → Denotes w.locked_balance l
      → Denotes amount a
      → b + a ≤ ex.limit
      → with_release w amount ≡ (
          if ltb l a
          then err (dcw_error insufficient_locked)
          else ok (record w { balance = ex.text (b + a); locked_balance = ex.text (l - a) }))
  unfolding with_release available_of locked_of
  with_release_exact w amount b l a hb hl ha fits =
      rw
        (
          positive_amount_exact amount a ha,
          to_number_exact w.locked_balance l hl,
          to_number_exact w.balance b hb,
        )
        (ground (arith, ex.lt_cents l a hl.1 ha.1, ex.fixed_sub l a hl.1, ex.fixed_add b a fits))

  -- Settling a reservation removes the amount from what is locked, or is refused where the amount
  -- is more than that.
  pub with_settle_locked_exact :
      (w : Wallet) (amount : String) (l a : ℕ)
      → Denotes w.locked_balance l
      → Denotes amount a
      → with_settle_locked w amount ≡ (
          if ltb l a
          then err (dcw_error insufficient_locked)
          else ok (record w { locked_balance = ex.text (l - a) }))
  unfolding with_settle_locked locked_of
  with_settle_locked_exact w amount l a hl ha =
      rw (positive_amount_exact amount a ha, to_number_exact w.locked_balance l hl)
        (ground (arith, ex.lt_cents l a hl.1 ha.1, ex.fixed_sub l a hl.1))

  -- Where doubles are exact up to a limit, in a wallet whose balances are numbers of cents printed in
  -- canonical form, the available one within the limit, a reservation of a number of cents that the
  -- available balance covers, and that keeps the locked balance within the limit, can be released in
  -- full, and the wallet is then what it was before; or it can be settled, and then the wallet is what
  -- a debit of the same amount leaves.
  pub lock_then :
      (w : Wallet) (amount : String) (b l a : ℕ)
      → w.balance ≡ ex.text b
      → w.locked_balance ≡ ex.text l
      → Denotes amount a
      → a ≤ b
      → b ≤ ex.limit
      → l + a ≤ ex.limit
      → ((with_lock w amount >>= λ v. with_release v amount) ≡ ok w)
        × ((with_lock w amount >>= λ v. with_settle_locked v amount) ≡ with_debit w amount)
  lock_then w amount b l a hb hl ha cover fits room =
      let d : Denotes w.balance b = rw hb (text-Denotes b fits) in
      let e : Denotes w.locked_balance l = rw hl (text-Denotes l (omega arith)) in
      let mid : Wallet = record w { balance = ex.text (b - a); locked_balance = ex.text (l + a) } in
      let d' : Denotes mid.balance (b - a) = text-Denotes (b - a) (omega arith) in
      let e' : Denotes mid.locked_balance (l + a) = text-Denotes (l + a) room in
      let locked = with_lock_exact w amount b l a d e ha room in
      (
        ground (arith, locked, with_release_exact mid amount (b - a) (l + a) a d' e' ha),
        ground (
          arith,
          locked,
          with_settle_locked_exact mid amount (l + a) a e' ha,
          with_debit_exact w amount b a d ha,
        ),
      )
