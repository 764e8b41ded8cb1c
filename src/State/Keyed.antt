-- ===== src/State/Keyed.antt =====
-- The well-formedness of the store: the maps have distinct keys, and every wallet and every draft
-- stands under its own name.
use mock_pontes.Base.{String, ◌≡◌, ◌==◌, some, [], ◌∷◌, arith, eq_iff, Bool-cases, inl, inr}
use mock_pontes.Base.Dict.{Dict, lookup, insert, IsMap}
use mock_pontes.State.Types.{Wallet, Draft}
use mock_pontes.State.Record.{Store}

-- Every entry stands under the name that `key` reads from it.
abbrev pub IsKeyed {ℓ} : {V : Type ℓ} → (V → String) → Dict V → Type 0
IsKeyed key [] = Unit
IsKeyed key ((k, v) ∷ d) = (key v ≡ k) × IsKeyed key d

module _ {ℓ} {V : Type ℓ} (key : V → String) where
  pub lookup-IsKeyed :
      (k : String) (v : V) (d : Dict V) → IsKeyed key d → lookup k d ≡ some v → key v ≡ k
  unfolding lookup
  lookup-IsKeyed k v [] h e = absurd (cc)
  lookup-IsKeyed k v ((j, u) ∷ d) h e = ground (arith, eq_iff j k, lookup-IsKeyed k v d h.1)

  pub insert-IsKeyed :
      (k : String) (v : V) (d : Dict V) → key v ≡ k → IsKeyed key d → IsKeyed key (insert k v d)
  unfolding insert
  insert-IsKeyed k v [] e h = (e, tt)
  insert-IsKeyed k v ((j, u) ∷ d) e h = elim (Bool-cases (j == k)) [
    | inl same ↦ rw same (ground (arith, eq_iff j k), h.1)
    | inr other ↦ rw other (h.0, insert-IsKeyed k v d e h.1)
  ]

pub record IsWellFormed (s : Store) : Type 0 where
  pub wallet_map : IsMap s.wallets
  pub draft_map : IsMap s.drafts
  pub sequence_map : IsMap s.sequences
  pub wallets_keyed : IsKeyed (λ (w : Wallet). w.alias) s.wallets
  pub drafts_keyed : IsKeyed (λ (d : Draft). d.id) s.drafts
