-- ===== src/Routes/Wallets/Ownership.antt =====
-- Whose wallets are created in one step.
use mock_pontes.Base.{
  ℕ, String, ◌≡◌, ◌≢◌, refl, sym, ◌∙◌, ap, ◌⊎◌, inl, inr, ◌==◌, Option, some, none, given, or_else,
  arith, eq_iff, eq_refl, Option-cases, Bool-cases, true, false, not, truthy,
}
use mathlib.Core.Path.{subst}
use mock_pontes.Base.Dict.{lookup}
use mock_pontes.Platform.{Platform}
use mock_pontes.Result.{Failure, ok, err, rejected}
use mock_pontes.State.Types.{Wallet, CreateDcwOptions}
use mock_pontes.State.Record.{Store}
use mock_pontes.State.Dcw.{create_dcw}
use mock_pontes.State.Store.{get_wallet, ensure_wallet, upsert_wallet}
use mock_pontes.State.Store.Frame.{lookup-upsert_wallet}
use mock_pontes.Workflow.{Moment}
use mock_pontes.Http.{AuthContext, entity_caller}
use mock_pontes.Routes.{validation_error}
use mock_pontes.Routes.Wallets.{
  NamedOwner, no_owner, owner, no_text, WalletRequest, add_own_wallet, own_wallet, create_own,
  own_options, foreign_owner, is_stored, not_authorised, wallet_exists, foreign_wallet,
}
use mock_pontes.Routes.Wallets.Views.{Directory, wallet_caller}

differ : (i j : String) → i ≢ j → (i == j) ≡ false
differ i j ne = ground (arith, eq_iff i j)

text_inj : (x y : String) → Path (Option String) (some x) (some y) → x ≡ y
text_inj x y h = cc

module _ ⦃js : Platform⦄ ⦃dir : Directory⦄ where
  -- What the creation of a wallet leaves: a wallet under an alias that was free, which belongs to the
  -- entity of the caller and holds nothing, beside the others as they were.
  pub record Opened (auth : AuthContext) (w : Wallet) (s t : Store) : Type 0 where
    pub free : get_wallet w.alias none s ≡ none
    pub stored : get_wallet w.alias none t ≡ some w
    pub owned : auth.entity_bic ≡ some w.owner_entity_id
    pub same_owner : w.owner_bic ≡ w.owner_entity_id
    pub empty : w.balance ≡ "0.00"
    pub locked : w.locked_balance ≡ "0.00"
    pub others : (j : String) → w.alias ≢ j → get_wallet j none t ≡ get_wallet j none s
    pub drafts : t.drafts ≡ s.drafts
    pub transactions : t.transactions ≡ s.transactions
    pub sequences : t.sequences ≡ s.sequences
    pub business_window : t.business_window ≡ s.business_window
    pub valid_ncbs : t.valid_ncbs ≡ s.valid_ncbs

  caller_of :
      (auth : AuthContext)
      → not (given (wallet_caller auth).entity_bic) ≡ false
      → (e : String) × (auth.entity_bic ≡ some e)
        × (truthy e ≡ true)
        × ((wallet_caller auth).entity_bic ≡ some e)
  unfolding wallet_caller entity_caller
  caller_of auth h = elim (Option-cases auth.entity_bic) [
    | inl gone ↦ absurd (ground (arith, h, gone))
    | inr (e, q) ↦ elim (Bool-cases (truthy e)) [
      | inl real ↦ (e, q, real, rw (q, real) refl)
      | inr empty ↦ absurd (ground (arith, h, q, empty))
    ]
  ]

  own_created : String → String → String → WalletRequest → Moment → Wallet
  own_created entity alias ncb q m = create_dcw m.now alias (own_options entity ncb q)

  ensure_wallet-new :
      (now : ℕ) (alias : String) (opts : CreateDcwOptions) (s : Store)
      → lookup alias s.wallets ≡ none
      → ensure_wallet now alias opts s
        ≡ (create_dcw now alias opts, upsert_wallet (create_dcw now alias opts) s)
  unfolding ensure_wallet
  ensure_wallet-new now alias opts s gone = rw (ensure_wallet, gone) refl

  create_own-run :
      (entity alias ncb : String) (q : WalletRequest) (m : Moment) (s : Store)
      → get_wallet alias none s ≡ none
      → create_own entity alias ncb q m s ≡ (
        ok (own_created entity alias ncb q m),
        upsert_wallet (own_created entity alias ncb q m) s,
      )
  unfolding create_own get_wallet own_created
  create_own-run entity alias ncb q m s gone =
      ap (λ (p : Wallet × Store). (ok p.0, p.1))
        (ensure_wallet-new m.now alias (own_options entity ncb q) s gone)

  is_stored-none : (o : Option Wallet) → is_stored o ≡ false → o ≡ none
  is_stored-none none h = refl
  is_stored-none (some w) h = absurd (cc)

  own_created-Opened :
      (auth : AuthContext) (entity alias ncb : String) (q : WalletRequest) (m : Moment) (s : Store)
      → auth.entity_bic ≡ some entity
      → truthy entity ≡ true
      → get_wallet alias none s ≡ none
      → let w = own_created entity alias ncb q m in Opened auth w s (upsert_wallet w s)
  unfolding own_created create_dcw get_wallet upsert_wallet
  own_created-Opened auth entity alias ncb q m s who real gone =
      let w = create_dcw m.now alias (own_options entity ncb q) in
      record {
        free = gone;
        stored = lookup-upsert_wallet w alias s ∙ rw (eq_refl alias) refl;
        owned = who ∙ ap (λ (e : String). some e) (rw real refl);
        same_owner = rw real refl;
        empty = refl;
        locked = refl;
        others = λ j ne. lookup-upsert_wallet w j s ∙ rw (differ alias j ne) refl;
        drafts = refl;
        transactions = refl;
        sequences = refl;
        business_window = refl;
        valid_ncbs = refl;
      }

  -- Nothing, an empty text, or the entity itself.
  abbrev pub IsOwn : NamedOwner → String → Type 0
  IsOwn no_owner e = Unit
  IsOwn (owner o) e = (o ≡ "") ⊎ (o ≡ e)
  IsOwn no_text e = ⊥

  own_of : (o : NamedOwner) (e : String) → foreign_owner o e ≡ true → IsOwn o e → ⊥
  own_of no_owner e h own = absurd (cc)
  own_of (owner o) e h own = ground (arith, h, own, eq_iff o "", eq_iff o e)
  own_of no_text e h own = own

  -- The request comes from an entity, names a free alias, and names no other owner.
  abbrev pub IsGrantable : AuthContext → WalletRequest → Store → Type 0
  IsGrantable auth q s =
      (e : String) × ((wallet_caller auth).entity_bic ≡ some e)
      × (truthy e ≡ true)
      × (given q.wallet_alias ≡ true)
      × IsOwn q.owner_entity_id e
      × (get_wallet (or_else q.wallet_alias "") none s ≡ none)

  own_grant :
      (auth : AuthContext) (q : WalletRequest) (s : Store) (e : String)
      → IsGrantable auth q s
      → (wallet_caller auth).entity_bic ≡ some e
      → foreign_owner q.owner_entity_id e ≡ true
      → ⊥
  own_grant auth q s e (e', there, real, named, own, free) same foreign =
      let this : e' ≡ e = text_inj e' e (sym there ∙ same) in
      own_of q.owner_entity_id e foreign (subst (IsOwn q.owner_entity_id) this own)

  not_anonymous :
      (auth : AuthContext) (q : WalletRequest) (s : Store)
      → IsGrantable auth q s
      → not (given (wallet_caller auth).entity_bic) ≡ true
      → ⊥
  not_anonymous auth q s g h =
      let there : (wallet_caller auth).entity_bic ≡ some g.0 = g.1 in
      let real : truthy g.0 ≡ true = g.2 in ground (arith, h, there, real)

  -- The creation of a wallet in one step opens an empty wallet for the caller's own entity under an
  -- alias that was free, and leaves every other wallet and all other parts of the store but its cache
  -- as they were; or it is refused, and nothing has changed, and this only where there is no entity, no
  -- alias, another owner or a wallet under the alias. Whatever the request says, nobody opens a wallet
  -- for another entity or overwrites one.
  pub add_own_wallet-Opened :
      (auth : AuthContext) (ncb : String) (q : WalletRequest) (m : Moment) (s : Store)
      → ((w : Wallet) × ((add_own_wallet auth ncb q m s).0 ≡ ok w)
          × Opened auth w s (add_own_wallet auth ncb q m s).1)
        ⊎ ((f : Failure) × (add_own_wallet auth ncb q m s ≡ (err f, s))
            × (IsGrantable auth q s → ⊥))
  unfolding add_own_wallet own_wallet
  add_own_wallet-Opened auth ncb q m s =
      elim (Bool-cases (not (given (wallet_caller auth).entity_bic))) [
        | inl anonymous ↦ inr (
          rejected (not_authorised "An authenticated entity is required to create a wallet"),
          rw anonymous refl,
          λ g. not_anonymous auth q s g anonymous,
        )
        | inr known ↦
            let (e, who, real, same) = caller_of auth known in
            elim (Bool-cases (not (given q.wallet_alias))) [
              | inl unnamed ↦ inr (
                rejected (validation_error "walletAlias is required"),
                rw (known, unnamed) refl,
                λ g. absurd (ground (arith, unnamed, g.3)),
              )
              | inr named ↦ elim (Bool-cases (foreign_owner q.owner_entity_id e)) [
                | inl foreign ↦ inr (
                  rejected (foreign_wallet e),
                  rw (known, same, named, foreign) refl,
                  λ g. own_grant auth q s e g same foreign,
                )
                | inr own ↦
                    let alias = or_else q.wallet_alias "" in
                    elim (Bool-cases (is_stored (get_wallet alias none s))) [
                      | inl there ↦ inr (
                        rejected (wallet_exists alias),
                        rw (known, same, named, own, there) refl,
                        λ g. cc (there, ap is_stored g.5),
                      )
                      | inr free ↦
                          let gone = is_stored-none (get_wallet alias none s) free in
                          let w = own_created e alias ncb q m in
                          let all : add_own_wallet auth ncb q m s ≡ (ok w, upsert_wallet w s) =
                            rw (known, same, named, own, free)
                              (create_own-run e alias ncb q m s gone) in
                          inl (
                            w,
                            ap (λ x. x.0) all,
                            subst (Opened auth w s) (sym (ap (λ x. x.1) all))
                                (own_created-Opened auth e alias ncb q m s who real gone),
                          )
                    ]
              ]
            ]
      ]
