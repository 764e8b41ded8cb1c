-- ===== src/Examples/Wallets.antt =====
-- The theorems on one wallet, at the first wallet of the example.
use mock_pontes.Base.{◌≡◌, refl, ◌↔◌, true, false, none, arith}
use mock_pontes.Result.{ok, err, dcw_error, insufficient_locked, ◌>>=◌}
use mock_pontes.State.Types.{Wallet}
use mock_pontes.State.Dcw.{
  can_read, can_debit, with_credit, with_debit, with_lock, with_release, with_settle_locked,
}
use mock_pontes.State.Dcw.Rights.{can_read_iff, can_debit_iff, MayAct, HasBegun, HasNotEnded}
use mock_pontes.State.Dcw.Balances.{
  Denotes, with_credit_exact, with_debit_exact, with_lock_exact, with_release_exact,
  with_settle_locked_exact, lock_then,
}
use mock_pontes.Examples.Machine.{machine, exact, number_of}
use mock_pontes.Examples.Books.{wallet, payer}

-- An available balance of 5.00 and a locked one of 0.50.
abbrev alpha : Wallet
alpha = wallet "ALPHA" "BANKFRPP" "5.00"

can_read_iff_example : ((can_read alpha payer).ok ≡ true) ↔ MayAct alpha payer
can_read_iff_example = can_read_iff alpha payer

can_debit_iff_example : ((can_debit alpha payer 20240202).ok ≡ true) ↔ (
    (false ≡ false)
    × HasBegun "2024-01-01" 20240202
    × HasNotEnded none 20240202
    × MayAct alpha payer)
can_debit_iff_example = can_debit_iff alpha payer 20240202

available : Denotes exact "5.00" 500
unfolding exact machine number_of
available = (refl, omega arith)

locked : Denotes exact "0.50" 50
unfolding exact machine number_of
locked = (refl, omega arith)

asked : Denotes exact "1.25" 125
unfolding exact machine number_of
asked = (refl, omega arith)

with_credit_exact_example :
    with_credit alpha "1.25" ≡ ok (record alpha { balance = exact.text 625 })
unfolding exact
with_credit_exact_example =
    with_credit_exact exact alpha "1.25" 500 125 available asked (omega arith)

with_debit_exact_example : with_debit alpha "1.25" ≡ ok (record alpha { balance = exact.text 375 })
with_debit_exact_example = with_debit_exact exact alpha "1.25" 500 125 available asked

with_lock_exact_example :
    with_lock alpha "1.25"
    ≡ ok (record alpha { balance = exact.text 375; locked_balance = exact.text 175 })
unfolding exact
with_lock_exact_example =
    with_lock_exact exact alpha "1.25" 500 50 125 available locked asked (omega arith)

with_release_exact_example : with_release alpha "1.25" ≡ err (dcw_error insufficient_locked)
unfolding exact
with_release_exact_example =
    with_release_exact exact alpha "1.25" 500 50 125 available locked asked (omega arith)

with_settle_locked_exact_example :
    with_settle_locked alpha "0.50" ≡ ok (record alpha { locked_balance = exact.text 0 })
with_settle_locked_exact_example = with_settle_locked_exact exact alpha "0.50" 50 50 locked locked

lock_then_example :
    ((with_lock alpha "1.25" >>= λ v. with_release v "1.25") ≡ ok alpha)
    × ((with_lock alpha "1.25" >>= λ v. with_settle_locked v "1.25") ≡ with_debit alpha "1.25")
unfolding exact
lock_then_example =
    lock_then exact alpha "1.25" 500 50 125 refl refl asked (omega arith) (omega arith)
      (omega arith)
