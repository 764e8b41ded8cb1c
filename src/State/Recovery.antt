-- ===== src/State/Recovery.antt =====
-- The write-through to the cache: every write of the store leaves in the cache what a later start of
-- the program recovers the store from.
use mathlib.Core.List.{◌++◌, append_assoc, append-nil}
use mock_pontes.Base.{
  String, ◌≡◌, refl, sym, ◌∙◌, ap, ◌==◌, Option, some, none, List, [], ◌∷◌, arith, eq_iff, eq_refl,
  Bool-cases, inl, inr, ◌⊎◌,
}
use mock_pontes.Base.Dict.{Dict, lookup, insert, values, lookup-insert, IsMap}
use mock_pontes.State.Types.{Wallet, Draft}
use mock_pontes.State.Record.{Store, Cache, new_store, hydrate, index, from_entries}
use mock_pontes.State.Keyed.{IsKeyed, IsWellFormed}

module _ {V : Type 0} where
  insert-end :
      (k : String) (v : V) (d : Dict V) → lookup k d ≡ none → insert k v d ≡ d ++ (k, v) ∷ []
  unfolding lookup insert
  insert-end k v [] h = refl
  insert-end k v ((j, w) ∷ d) h = ground (arith, insert-end k v d)

  -- No key of the second map is one of the first.
  abbrev AreApart : Dict V → Dict V → Type 0
  AreApart acc d = (j : String) (v : V) → lookup j d ≡ some v → lookup j acc ≡ none

  apart-head :
      (k : String) (v : V) (acc d : Dict V) → AreApart acc ((k, v) ∷ d) → lookup k acc ≡ none
  unfolding lookup
  apart-head k v acc d h = h k v (rw (eq_refl k) refl)

  apart-tail :
      (k : String) (v : V) (acc d : Dict V)
      → lookup k d ≡ none
      → AreApart acc ((k, v) ∷ d)
      → AreApart (insert k v acc) d
  unfolding lookup
  apart-tail k v acc d new h j w there = elim (Bool-cases (k == j)) [
    | inl same ↦ absurd (cc (sym new ∙ ap (λ i. lookup i d) ((eq_iff k j).0 same) ∙ there))
    | inr other ↦ lookup-insert k j v acc ∙ rw other (h j w (rw other there))
  ]

  from_entries-append : (d acc : Dict V) → IsMap d → AreApart acc d → from_entries d acc ≡ acc ++ d
  unfolding from_entries
  from_entries-append [] acc m h = sym (append-nil acc)
  from_entries-append ((k, v) ∷ d) acc m h =
      from_entries-append d (insert k v acc) m.1 (apart-tail k v acc d m.0 h)
      ∙ ap (λ x. x ++ d) (insert-end k v acc (apart-head k v acc d h))
      ∙ append_assoc acc ((k, v) ∷ []) d

  -- A map is read back from its entries.
  from_entries-back : (d : Dict V) → IsMap d → from_entries d [] ≡ d
  unfolding lookup
  from_entries-back d m = from_entries-append d [] m (λ j v there. refl)

  -- A map in which every value stands under its own name is read back from its values.
  index-values :
      (key : V → String) (d acc : Dict V)
      → IsKeyed key d
      → index key (values d) acc ≡ from_entries d acc
  unfolding index from_entries
  index-values key [] acc h = refl
  index-values key ((k, v) ∷ d) acc h =
      ap (λ j. index key (values d) (insert j v acc)) h.0 ∙ index-values key d (insert k v acc) h.1

-- The cache holds what is there, or nothing yet where nothing is there.
abbrev pub Copies {ℓ} : {A : Type ℓ} → Option (List A) → List A → Type ℓ
Copies o xs = (o ≡ some xs) ⊎ ((o ≡ none) × (xs ≡ []))

-- The store is well-formed, and the cache holds a copy of its wallets, drafts, transactions and
-- sequences.
pub record IsRecoverable (s : Store) : Type 0 where
  pub formed : IsWellFormed s
  pub cache : Cache
  pub cached : s.cache ≡ some cache
  pub wallets : Copies cache.wallets (values s.wallets)
  pub drafts : Copies cache.drafts (values s.drafts)
  pub transactions : Copies cache.transactions s.transactions
  pub sequences : Copies cache.sequences s.sequences

values_none : {V : Type 0} (d : Dict V) → values d ≡ [] → d ≡ []
values_none [] h = refl
values_none ((k, v) ∷ d) h = absurd (cc)

recovered :
    {V : Type 0} (key : V → String) (o : Option (List V)) (d : Dict V)
    → IsKeyed key d
    → IsMap d
    → Copies o (values d)
    → elim o [ none ↦ [] | some vs ↦ index key vs [] ] ≡ d
recovered key o d keyed m (inl e) = rw e (index-values key d [] keyed ∙ from_entries-back d m)
recovered key o d keyed m (inr (e, empty)) = rw e (sym (values_none d empty))

recovered_list :
    {A : Type 0} (o : Option (List A)) (xs : List A)
    → Copies o xs
    → elim o [ none ↦ [] | some ys ↦ ys ] ≡ xs
recovered_list o xs (inl e) = rw e refl
recovered_list o xs (inr (e, empty)) = rw e (sym empty)

recovered_entries :
    {V : Type 0} (o : Option (Dict V)) (d : Dict V)
    → IsMap d
    → Copies o d
    → elim o [ none ↦ [] | some es ↦ from_entries es [] ] ≡ d
recovered_entries o d m (inl e) = rw e (from_entries-back d m)
recovered_entries o d m (inr (e, empty)) = rw e (sym empty)

-- A start of the program with the cache of a recoverable store has its wallets, drafts, transactions
-- and sequences again.
pub hydrate-back :
    (today : String) (s : Store)
    → IsRecoverable s
    → let t = hydrate (new_store today s.cache) in
      (t.wallets ≡ s.wallets)
      × (t.drafts ≡ s.drafts)
      × (t.transactions ≡ s.transactions)
      × (t.sequences ≡ s.sequences)
unfolding hydrate
hydrate-back today s r = rw r.cached (
  recovered (λ (w : Wallet). w.alias) r.cache.wallets s.wallets r.formed.wallets_keyed
      r.formed.wallet_map r.wallets,
  recovered (λ (d : Draft). d.id) r.cache.drafts s.drafts r.formed.drafts_keyed r.formed.draft_map
      r.drafts,
  recovered_list r.cache.transactions s.transactions r.transactions,
  recovered_entries r.cache.sequences s.sequences r.formed.sequence_map r.sequences,
)
