-- ===== src/State/Worth.antt =====
-- The cash held in a map of wallets: the sum of the available balances, in cents, and how a write to
-- one wallet changes it.
use mock_pontes.Base.{
  ℕ, ◌+◌, ◌-◌, ◌≤◌, String, ◌≡◌, ◌==◌, some, [], ◌∷◌, arith, Bool-cases, inl, inr,
}
use mock_pontes.Base.Dict.{Dict, lookup, insert}
use mock_pontes.Platform.{Platform, IsExact}
use mock_pontes.State.Types.{Wallet}
use mock_pontes.State.Dcw.Balances.{Denotes}

module _ ⦃js : Platform⦄ (ex : IsExact js) where
  -- Every available balance is a number of cents, and they sum to `n`.
  abbrev pub Worth : Dict Wallet → ℕ → Type 0
  Worth [] n = n ≡ 0
  Worth ((k, w) ∷ d) n = (b : ℕ) × (r : ℕ) × Denotes ex w.balance b × Worth d r × (n ≡ b + r)

  -- A wallet that is there holds a part of the sum, and writing another balance in its place
  -- changes the sum by the difference.
  pub record Share (k : String) (w : Wallet) (d : Dict Wallet) (n : ℕ) : Type 0 where
    pub held : ℕ
    pub denotes : Denotes ex w.balance held
    pub part : held ≤ n
    pub write :
        (w' : Wallet) (b' m : ℕ)
        → Denotes ex w'.balance b'
        → m + held ≡ n + b'
        → Worth (insert k w' d) m

  pub Worth-Share :
      (k : String) (w : Wallet) (d : Dict Wallet) (n : ℕ)
      → lookup k d ≡ some w
      → Worth d n
      → Share k w d n
  unfolding lookup insert
  Worth-Share k w [] n h worth = absurd (cc)
  Worth-Share k w ((j, v) ∷ d) n h (b, r, den, rest, sum) = elim (Bool-cases (j == k)) [
    | inl same ↦
        let e : v ≡ w = ground arith in
        record {
          held = b;
          denotes = rw (← e) den;
          part = omega arith;
          write = λ w' b' m den' q. rw same (b', r, den', rest, omega arith);
        }
    | inr other ↦
        let share = Worth-Share k w d r (ground arith) rest in
        record {
          held = share.held;
          denotes = share.denotes;
          part = omega (arith, share.part);
          write = λ w' b' m den' q. rw other (
            b,
            m - b,
            den,
            share.write w' b' (m - b) den' (omega (arith, share.part)),
            omega (arith, share.part),
          );
        }
  ]
