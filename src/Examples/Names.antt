-- ===== src/Examples/Names.antt =====
-- The theorems on minted identifiers and on the wallets of participants, at the books of the example.
use mock_pontes.Base.{◌≡◌, ◌≢◌, ◌↔◌, refl, true, String, none, some, [], ◌∷◌}
use mock_pontes.Base.Dict.{lookup}
use mock_pontes.State.Types.{Wallet}
use mock_pontes.State.Store.{next_id}
use mock_pontes.State.Identifiers.{mint_all, next_id-fresh}
use mock_pontes.State.Participant.{
  resolve_participant_wallet, resolved, unresolved, FailureReason, Owns,
  resolve_participant_wallet_iff,
}
use mock_pontes.Examples.Machine.{machine}
use mock_pontes.Examples.Books.{books, wallet}

next_id-fresh_example :
    let t =
      mint_all ((20240202, "DEF") ∷ (20240202, "TRF") ∷ []) (next_id 20240202 "TRF" books).1 in
    (next_id 20240202 "TRF" books).0 ≢ (next_id 20240202 "TRF" t).0
next_id-fresh_example =
    next_id-fresh 20240202 20240202 "TRF" ((20240202, "DEF") ∷ (20240202, "TRF") ∷ []) books refl

abbrev alpha : Wallet
alpha = wallet "ALPHA" "BANKFRPP" "5.00"

resolve_participant_wallet_iff_example :
    ((alias : String)
      → alias ≢ ""
      → (resolve_participant_wallet books (some "BANKFRPP") (some alias) ≡ resolved alpha)
        ↔ ((lookup alias books.wallets ≡ some alpha) × (alpha.owner_entity_id ≡ "BANKFRPP")))
    × (resolve_participant_wallet books (some "BANKFRPP") none ≡ resolved alpha
        → Owns "BANKFRPP" books alpha
          × ((v : Wallet)
              → Owns "BANKFRPP" books v
              → v.is_main_wallet ≡ true
              → alpha.is_main_wallet ≡ true))
    × ((r : FailureReason)
        → resolve_participant_wallet books (some "BANKFRPP") none ≡ unresolved r
        → (v : Wallet) → Owns "BANKFRPP" books v
        → ⊥)
resolve_participant_wallet_iff_example =
    resolve_participant_wallet_iff books "BANKFRPP" alpha (λ p. cc p)
