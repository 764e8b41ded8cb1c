-- ===== src/State/Store/Sync.antt =====
-- Every write of the store keeps its copy in the cache exact.
use mock_pontes.Base.{ℕ, ◌+◌, or_else, String, ◌≡◌, refl, ◌∙◌, Option, some, none, inl}
use mock_pontes.Base.Dict.{lookup, insert, values, insert-IsMap}
use mock_pontes.Base.Lists.{push}
use mock_pontes.Platform.{Platform}
use mock_pontes.State.Types.{Wallet, Draft, Transaction}
use mock_pontes.State.Record.{
  Store, persist, persist_wallets, persist_drafts, persist_transactions, persist_sequences,
}
use mock_pontes.State.Keyed.{insert-IsKeyed, lookup-IsKeyed}
use mock_pontes.State.Recovery.{IsRecoverable}
use mock_pontes.State.Store.{
  upsert_wallet, add_draft, add_transaction, update_draft, replace_draft, next_id, sequence_key,
}

upsert_wallet-IsRecoverable :
    (w : Wallet) (s : Store) → IsRecoverable s → IsRecoverable (upsert_wallet w s)
unfolding upsert_wallet persist_wallets persist
upsert_wallet-IsRecoverable w s r = record {
  formed = record {
    wallet_map = insert-IsMap w.alias w s.wallets r.formed.wallet_map;
    draft_map = r.formed.draft_map;
    sequence_map = r.formed.sequence_map;
    wallets_keyed =
        insert-IsKeyed (λ (w : Wallet). w.alias) w.alias w s.wallets refl r.formed.wallets_keyed;
    drafts_keyed = r.formed.drafts_keyed;
  };
  cache = record r.cache { wallets = some (values (insert w.alias w s.wallets)) };
  cached = rw r.cached refl;
  wallets = inl refl;
  drafts = r.drafts;
  transactions = r.transactions;
  sequences = r.sequences;
}

-- A draft written under its own identifier.
put_draft-IsRecoverable :
    (id : String) (d : Draft) (s : Store)
    → d.id ≡ id
    → IsRecoverable s
    → IsRecoverable (persist_drafts (record s { drafts = insert id d s.drafts }))
unfolding persist_drafts persist
put_draft-IsRecoverable id d s key r = record {
  formed = record {
    wallet_map = r.formed.wallet_map;
    draft_map = insert-IsMap id d s.drafts r.formed.draft_map;
    sequence_map = r.formed.sequence_map;
    wallets_keyed = r.formed.wallets_keyed;
    drafts_keyed = insert-IsKeyed (λ (d : Draft). d.id) id d s.drafts key r.formed.drafts_keyed;
  };
  cache = record r.cache { drafts = some (values (insert id d s.drafts)) };
  cached = rw r.cached refl;
  wallets = r.wallets;
  drafts = inl refl;
  transactions = r.transactions;
  sequences = r.sequences;
}

add_draft-IsRecoverable : (d : Draft) (s : Store) → IsRecoverable s → IsRecoverable (add_draft d s)
unfolding add_draft
add_draft-IsRecoverable d s r = put_draft-IsRecoverable d.id d s refl r

add_transaction-IsRecoverable :
    (tx : Transaction) (s : Store) → IsRecoverable s → IsRecoverable (add_transaction tx s)
unfolding add_transaction persist_transactions persist
add_transaction-IsRecoverable tx s r = record {
  formed = record {
    wallet_map = r.formed.wallet_map;
    draft_map = r.formed.draft_map;
    sequence_map = r.formed.sequence_map;
    wallets_keyed = r.formed.wallets_keyed;
    drafts_keyed = r.formed.drafts_keyed;
  };
  cache = record r.cache { transactions = some (push s.transactions tx) };
  cached = rw r.cached refl;
  wallets = r.wallets;
  drafts = r.drafts;
  transactions = inl refl;
  sequences = r.sequences;
}

module _ ⦃js : Platform⦄ where
  next_id-IsRecoverable :
      (now : ℕ) (prefix : String) (s : Store)
      → IsRecoverable s
      → IsRecoverable (next_id now prefix s).1
  unfolding next_id persist_sequences persist
  next_id-IsRecoverable now prefix s r =
      let key = sequence_key now prefix in
      let n = or_else (lookup key s.sequences) 0 + 1 in
      record {
        formed = record {
          wallet_map = r.formed.wallet_map;
          draft_map = r.formed.draft_map;
          sequence_map = insert-IsMap key n s.sequences r.formed.sequence_map;
          wallets_keyed = r.formed.wallets_keyed;
          drafts_keyed = r.formed.drafts_keyed;
        };
        cache = record r.cache { sequences = some (insert key n s.sequences) };
        cached = rw r.cached refl;
        wallets = r.wallets;
        drafts = r.drafts;
        transactions = r.transactions;
        sequences = inl refl;
      }

  replace_draft-IsRecoverable :
      (now : ℕ) (id : String) (f : Draft → Draft) (o : Option Draft) (s : Store)
      → ((d : Draft) → (f d).id ≡ d.id)
      → lookup id s.drafts ≡ o
      → IsRecoverable s
      → IsRecoverable (replace_draft now id f o s)
  unfolding replace_draft
  replace_draft-IsRecoverable now id f none s same there r = r
  replace_draft-IsRecoverable now id f (some d) s same there r =
      put_draft-IsRecoverable id (record (f d) { updated_at = js.iso now }) s
        (same d ∙ lookup-IsKeyed (λ (d : Draft). d.id) id d s.drafts r.formed.drafts_keyed there) r

  update_draft-IsRecoverable :
      (now : ℕ) (id : String) (f : Draft → Draft) (s : Store)
      → ((d : Draft) → (f d).id ≡ d.id)
      → IsRecoverable s
      → IsRecoverable (update_draft now id f s)
  unfolding update_draft
  update_draft-IsRecoverable now id f s same r =
      replace_draft-IsRecoverable now id f (lookup id s.drafts) s same refl r

  -- Every write of the store keeps it recoverable: writing a wallet, a draft or a transaction, updating
  -- a draft without changing its identifier, and minting an identifier all leave distinct keys, every
  -- wallet and draft under its own name, and an exact copy in the cache.
  pub writes-IsRecoverable :
      (now : ℕ) (id prefix : String) (w : Wallet) (d : Draft) (tx : Transaction) (f : Draft → Draft)
      (s : Store)
      → ((d : Draft) → (f d).id ≡ d.id)
      → IsRecoverable s
      → IsRecoverable (upsert_wallet w s)
        × IsRecoverable (add_draft d s)
        × IsRecoverable (add_transaction tx s)
        × IsRecoverable (update_draft now id f s)
        × IsRecoverable (next_id now prefix s).1
  writes-IsRecoverable now id prefix w d tx f s same r = (
    upsert_wallet-IsRecoverable w s r,
    add_draft-IsRecoverable d s r,
    add_transaction-IsRecoverable tx s r,
    update_draft-IsRecoverable now id f s same r,
    next_id-IsRecoverable now prefix s r,
  )
