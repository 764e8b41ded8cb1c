-- ===== src/State/Store/Frame.antt =====
-- What each write of the store changes, and what it leaves alone.
use mathlib.Core.Option
use mock_pontes.Base.{
  ℕ, String, ◌≡◌, refl, ap, ◌==◌, Option, none, some, eq_iff, if◌then◌else◌, Bool-cases, inl, inr,
}
use mock_pontes.Base.Dict.{lookup, lookup-insert}
use mock_pontes.Platform.{Platform}
use mock_pontes.State.Types.{Wallet, Draft, Caller}
use mock_pontes.State.Record.{Store, persist_drafts}
use mock_pontes.State.Store.{
  upsert_wallet, add_draft, update_draft, get_wallet, get_draft, replace_draft, can_read_draft,
  can_read_alias,
}

pub get_wallet-lookup :
    (alias : String) (s : Store) → get_wallet alias none s ≡ lookup alias s.wallets
unfolding get_wallet
get_wallet-lookup alias s = refl

pub get_draft-lookup : (id : String) (s : Store) → get_draft id none s ≡ lookup id s.drafts
unfolding get_draft
get_draft-lookup id s = refl

-- The parts of the store other than its cache.
pub record KeepsAllButDrafts (s t : Store) : Type 0 where
  pub wallets : t.wallets ≡ s.wallets
  pub transactions : t.transactions ≡ s.transactions
  pub sequences : t.sequences ≡ s.sequences
  pub business_window : t.business_window ≡ s.business_window

pub lookup-upsert_wallet :
    (w : Wallet) (j : String) (s : Store)
    → lookup j (upsert_wallet w s).wallets ≡ (if w.alias == j then some w else lookup j s.wallets)
unfolding upsert_wallet
lookup-upsert_wallet w j s = lookup-insert w.alias j w s.wallets

pub lookup-add_draft :
    (d : Draft) (j : String) (s : Store)
    → lookup j (add_draft d s).drafts ≡ (if d.id == j then some d else lookup j s.drafts)
unfolding add_draft
lookup-add_draft d j s = lookup-insert d.id j d s.drafts

pub add_draft-KeepsAllButDrafts : (d : Draft) (s : Store) → KeepsAllButDrafts s (add_draft d s)
unfolding add_draft
add_draft-KeepsAllButDrafts d s = record {
  wallets = refl;
  transactions = refl;
  sequences = refl;
  business_window = refl;
}

-- Who may read a draft depends on the wallets alone.
pub can_read_draft-wallets :
    (s t : Store)
    → s.wallets ≡ t.wallets
    → (c : Caller) (d : Draft) → can_read_draft s c d ≡ can_read_draft t c d
unfolding can_read_draft can_read_alias
can_read_draft-wallets s t e c d = ap (λ ws. can_read_draft (record t { wallets = ws }) c d) e

module _ ⦃js : Platform⦄ where
  lookup-replace_draft :
      (now : ℕ) (id j : String) (f : Draft → Draft) (o : Option Draft) (s : Store)
      → lookup id s.drafts ≡ o
      → lookup j (replace_draft now id f o s).drafts ≡ (
          if id == j
          then Option.map (λ d. record (f d) { updated_at = js.iso now }) o
          else lookup j s.drafts)
  unfolding replace_draft persist_drafts
  lookup-replace_draft now id j f none s e = elim (Bool-cases (id == j)) [
    | inl same ↦ rw same (rw (← (eq_iff id j).0 same) e)
    | inr other ↦ rw other
  ]
  lookup-replace_draft now id j f (some d) s e = lookup-insert id j _ s.drafts

  pub lookup-update_draft :
      (now : ℕ) (id j : String) (f : Draft → Draft) (s : Store)
      → lookup j (update_draft now id f s).drafts ≡ (
          if id == j
          then Option.map (λ d. record (f d) { updated_at = js.iso now }) (lookup id s.drafts)
          else lookup j s.drafts)
  unfolding update_draft
  lookup-update_draft now id j f s = lookup-replace_draft now id j f (lookup id s.drafts) s refl

  replace_draft-KeepsAllButDrafts :
      (now : ℕ) (id : String) (f : Draft → Draft) (o : Option Draft) (s : Store)
      → KeepsAllButDrafts s (replace_draft now id f o s)
  unfolding replace_draft persist_drafts
  replace_draft-KeepsAllButDrafts now id f none s = record {
    wallets = refl;
    transactions = refl;
    sequences = refl;
    business_window = refl;
  }
  replace_draft-KeepsAllButDrafts now id f (some d) s = record {
    wallets = refl;
    transactions = refl;
    sequences = refl;
    business_window = refl;
  }

  pub update_draft-KeepsAllButDrafts :
      (now : ℕ) (id : String) (f : Draft → Draft) (s : Store)
      → KeepsAllButDrafts s (update_draft now id f s)
  unfolding update_draft
  update_draft-KeepsAllButDrafts now id f s =
      replace_draft-KeepsAllButDrafts now id f (lookup id s.drafts) s
