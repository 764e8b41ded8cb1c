-- ===== src/State/Dcw/Rights.antt =====
-- Who may debit or read a wallet (state/dcw.ts `canDebit`, `canRead`), against a description of
-- the rights that does not follow the order of the code's tests.
use mock_pontes.Base.{
  ℕ, ◌≤◌, String, ◌≡◌, ◌≢◌, ◌↔◌, ◌⊎◌, inl, inr, true, false, Option, none, some, List, [], ◌∷◌,
  arith, eq_iff, Option-cases, truthy, ◌&&◌,
}
use mock_pontes.Base.Lists.{includes}
use mock_pontes.Platform.{Platform}
use mock_pontes.State.Types.{Wallet, Caller}
use mock_pontes.State.Dcw.{listed, has_rights, can_read, date_after, date_before, ended, can_debit}

abbrev pub Holds : String → List String → Type 0
Holds x [] = ⊥
Holds x (y ∷ ys) = (y ≡ x) ⊎ Holds x ys

-- A name that is present and not empty, and that satisfies `P`.
abbrev pub Names : Option String → (String → Type 0) → Type 0
Names none P = ⊥
Names (some s) P = (s ≢ "") × P s

-- The caller acts for the owning entity or holds a power of attorney, or is a whitelisted operator.
abbrev pub MayAct : Wallet → Caller → Type 0
MayAct w c =
    Names c.entity_bic (λ bic. (bic ≡ w.owner_entity_id) ⊎ Holds bic w.poa_grantees)
    ⊎ Names c.market_dlt_operator (λ op. Holds op w.whitelisted_operators)

includes_iff : (x : String) (ys : List String) → (includes ys x ≡ true) ↔ Holds x ys
includes_iff x [] = ground arith
includes_iff x (y ∷ ys) = ground (arith, eq_iff y x, includes_iff x ys)

listed_iff :
    (o : Option String) (ys : List String) → (listed o ys ≡ true) ↔ Names o (λ s. Holds s ys)
unfolding listed
listed_iff none ys = ground arith
listed_iff (some s) ys = ground (arith, eq_iff s "", includes_iff s ys)

has_rights_at :
    (entity operator : Option String) (w : Wallet)
    → let c : Caller = record { entity_bic = entity; market_dlt_operator = operator } in
      (has_rights w c ≡ true) ↔ MayAct w c
unfolding has_rights listed
has_rights_at none op w = ground (arith, listed_iff op w.whitelisted_operators)
has_rights_at (some bic) op w = ground (
  arith,
  eq_iff bic "",
  eq_iff bic w.owner_entity_id,
  includes_iff bic w.poa_grantees,
  listed_iff op w.whitelisted_operators,
)

has_rights_iff : (w : Wallet) (c : Caller) → (has_rights w c ≡ true) ↔ MayAct w c
has_rights_iff w c = has_rights_at c.entity_bic c.market_dlt_operator w

-- A wallet can be read exactly by a caller who may act on it, blocked or not.
pub can_read_iff : (w : Wallet) (c : Caller) → ((can_read w c).ok ≡ true) ↔ MayAct w c
unfolding can_read
can_read_iff w c = ground (arith, has_rights_iff w c)

module _ ⦃js : Platform⦄ where
  -- The wallet's validity has begun: no valid start date lies after `now`.
  abbrev pub HasBegun : String → ℕ → Type 0
  HasBegun s now = (t : ℕ) → s ≢ "" → js.date_ms s ≡ some t → t ≤ now

  -- The wallet's validity has not ended: no valid end date lies before `now`.
  abbrev pub HasNotEnded : Option String → ℕ → Type 0
  HasNotEnded none now = Unit
  HasNotEnded (some s) now = (t : ℕ) → s ≢ "" → js.date_ms s ≡ some t → now ≤ t

  begun_iff : (s : String) (now : ℕ) → ((truthy s && date_after s now) ≡ false) ↔ HasBegun s now
  unfolding date_after
  begun_iff s now = elim (Option-cases (js.date_ms s)) [
    | inl invalid ↦ (λ h t ne q. cc, λ h. ground (arith, eq_iff s ""))
    | inr (u, e) ↦ (λ h t ne q. ground (arith, eq_iff s ""), λ h. ground (arith, eq_iff s "", h u))
  ]

  ended_iff : (o : Option String) (now : ℕ) → (ended o now ≡ false) ↔ HasNotEnded o now
  unfolding ended date_before
  ended_iff none now = ground arith
  ended_iff (some s) now = elim (Option-cases (js.date_ms s)) [
    | inl invalid ↦ (λ h t ne q. cc, λ h. ground (arith, eq_iff s ""))
    | inr (u, e) ↦ (λ h t ne q. ground (arith, eq_iff s ""), λ h. ground (arith, eq_iff s "", h u))
  ]

  -- A wallet can be debited exactly if it is not blocked, its validity has begun and not ended, and
  -- the caller may act on it.
  pub can_debit_iff :
      (w : Wallet) (c : Caller) (now : ℕ)
      → ((can_debit w c now).ok ≡ true) ↔ (
          (w.is_blocked ≡ false)
          × HasBegun w.valid_from now
          × HasNotEnded w.valid_to now
          × MayAct w c)
  unfolding can_debit
  can_debit_iff w c now =
      ground (arith, begun_iff w.valid_from now, ended_iff w.valid_to now, has_rights_iff w c)
