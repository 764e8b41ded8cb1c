-- ===== src/State/Identifiers.antt =====
-- The identifiers that the store mints (`nextId` of state/memory-store.ts), and state/draft-id.ts, which
-- mints one for a draft.
use text.Mathlib.TextLemmas.{append_cancel_left, append_assoc}
use mock_pontes.Base.{
  ℕ, ◌+◌, ◌≤◌, String, ◌++◌, ◌≡◌, ◌≢◌, refl, ◌==◌, Option, none, some, List, [], ◌∷◌, if◌then◌else◌,
  or_else, arith, eq_iff, eq_refl, Bool-cases, Option-cases, inl, inr, ap, sym, ◌∙◌,
}
use mock_pontes.Base.Dict.{Dict, lookup, insert, lookup-insert}
use mock_pontes.Base.Text.{pad_start, decimal, pad_start-decimal_inj}
use mock_pontes.Platform.{Platform}
use mock_pontes.Result.{rejected, Rejection, Result, ok, err}
use mock_pontes.Exec.{Exec}
use mock_pontes.State.Types.{Draft}
use mock_pontes.State.Record.{Store, persist_sequences}
use mock_pontes.State.Store.{next_id, get_draft, day_text, sequence_key}

module _ ⦃js : Platform⦄ where
  abbrev duplicate : String → Rejection
  duplicate id = record {
    status_code = 409;
    error_code = "HL-GER-004";
    error_description = "Instruction id '" ++ id ++ "' already exists";
  }

  mint : ℕ → String → Exec Store String
  mint now prefix s = let (id, t) = next_id now prefix s in (ok id, t)

  mint_unless : ℕ → String → String → Store → Option Draft → Result String × Store
  mint_unless now prefix id s (some d) = (err (rejected (duplicate id)), s)
  mint_unless now prefix id s none = mint now prefix s

  check_client_id : ℕ → String → String → Exec Store String
  check_client_id now prefix id s =
      if id == "" then mint now prefix s else mint_unless now prefix id s (get_draft id none s)

  -- `resolveDraftId`
  unfoldable pub resolve_draft_id : ℕ → String → Option String → Exec Store String
  unfolding mint check_client_id mint_unless
  resolve_draft_id now prefix none s = mint now prefix s
  resolve_draft_id now prefix (some client_id) s = check_client_id now prefix (js.trim client_id) s

  ok_inj : (x y : String) → Path (Result String) (ok x) (ok y) → x ≡ y
  ok_inj x y h = cc

  -- Minting changes the sequences alone.
  pub record OnlyMints (s t : Store) : Type 0 where
    pub wallets : t.wallets ≡ s.wallets
    pub drafts : t.drafts ≡ s.drafts
    pub transactions : t.transactions ≡ s.transactions
    pub business_window : t.business_window ≡ s.business_window
    pub valid_ncbs : t.valid_ncbs ≡ s.valid_ncbs

  pub OnlyMints-refl : (s : Store) → OnlyMints s s
  OnlyMints-refl s = record {
    wallets = refl;
    drafts = refl;
    transactions = refl;
    business_window = refl;
    valid_ncbs = refl;
  }

  pub next_id-OnlyMints :
      (now : ℕ) (prefix : String) (s : Store) → OnlyMints s (next_id now prefix s).1
  unfolding next_id persist_sequences
  next_id-OnlyMints now prefix s = record {
    wallets = refl;
    drafts = refl;
    transactions = refl;
    business_window = refl;
    valid_ncbs = refl;
  }

  check_client_id-OnlyMints :
      (now : ℕ) (prefix id : String) (s : Store) (found : Option Draft)
      → OnlyMints s (mint_unless now prefix id s found).1
  unfolding mint_unless mint
  check_client_id-OnlyMints now prefix id s none = next_id-OnlyMints now prefix s
  check_client_id-OnlyMints now prefix id s (some d) = OnlyMints-refl s

  pub resolve_draft_id-OnlyMints :
      (now : ℕ) (prefix : String) (id : Option String) (s : Store)
      → OnlyMints s (resolve_draft_id now prefix id s).1
  unfolding resolve_draft_id mint check_client_id
  resolve_draft_id-OnlyMints now prefix none s = next_id-OnlyMints now prefix s
  resolve_draft_id-OnlyMints now prefix (some id) s = elim (Bool-cases (js.trim id == "")) [
    | inl blank ↦ rw blank (next_id-OnlyMints now prefix s)
    | inr other ↦
        rw other
          (check_client_id-OnlyMints now prefix (js.trim id) s (get_draft (js.trim id) none s))
  ]

  -- An identifier that is given out is minted, whatever the client asks for.
  pub resolve_draft_id-minted :
      (now : ℕ) (prefix : String) (client : Option String) (s : Store) (id : String)
      → (resolve_draft_id now prefix client s).0 ≡ ok id
      → (id ≡ (next_id now prefix s).0)
        × ((resolve_draft_id now prefix client s).1 ≡ (next_id now prefix s).1)
  unfolding resolve_draft_id mint check_client_id mint_unless
  resolve_draft_id-minted now prefix none s id h = (sym (ok_inj _ id h), refl)
  resolve_draft_id-minted now prefix (some client) s id h =
      elim (Bool-cases (js.trim client == "")) [
        | inl blank ↦ (sym (ok_inj _ id (rw blank at h)), rw blank refl)
        | inr other ↦ elim (Option-cases (get_draft (js.trim client) none s)) [
          | inl free ↦ (sym (ok_inj _ id (rw (other, free) at h)), rw (other, free) refl)
          | inr (d, taken) ↦
              let threw : Path (Result String) (err (rejected (duplicate (js.trim client))))
                  (ok id) =
                rw (other, taken) at h in
              absurd (cc threw)
        ]
      ]

  -- The last number that was minted under the key.
  abbrev count_of : String → Store → ℕ
  count_of key s = or_else (lookup key s.sequences) 0

  next_id-id :
      (now : ℕ) (prefix : String) (s : Store)
      → (next_id now prefix s).0 ≡ (
          prefix
          ++ day_text now
          ++ pad_start 6 (decimal (count_of (sequence_key now prefix) s + 1)))
  unfolding next_id
  next_id-id now prefix s = refl

  count-insert :
      (k key : String) (d : Dict ℕ)
      → or_else (lookup key (insert k (or_else (lookup k d) 0 + 1) d)) 0
        ≡ (if k == key then or_else (lookup key d) 0 + 1 else or_else (lookup key d) 0)
  count-insert k key d = elim (Bool-cases (k == key)) [
    | inl same ↦
        rw (lookup-insert k key (or_else (lookup k d) 0 + 1) d, same)
          (ap (λ j. or_else (lookup j d) 0 + 1) ((eq_iff k key).0 same))
    | inr other ↦ rw (lookup-insert k key (or_else (lookup k d) 0 + 1) d, other)
  ]

  count-next_id :
      (now : ℕ) (prefix key : String) (s : Store)
      → count_of key (next_id now prefix s).1
        ≡ (if sequence_key now prefix == key then count_of key s + 1 else count_of key s)
  unfolding next_id persist_sequences
  count-next_id now prefix key s = count-insert (sequence_key now prefix) key s.sequences

  -- The store after minting identifiers for the requests, one after the other.
  unfoldable pub mint_all : List (ℕ × String) → Store → Store
  mint_all [] s = s
  mint_all ((now, prefix) ∷ rest) s = mint_all rest (next_id now prefix s).1

  count-mint_all :
      (key : String) (rs : List (ℕ × String)) (s : Store)
      → count_of key s ≤ count_of key (mint_all rs s)
  unfolding mint_all
  count-mint_all key [] s = omega arith
  count-mint_all key ((now, prefix) ∷ rest) s =
      ground
        (arith, count-mint_all key rest (next_id now prefix s).1, count-next_id now prefix key s)

  regroup : (a b c : String) → a ++ (b ++ c) ≡ (a ++ b) ++ c
  regroup a b c = sym (append_assoc a b c)

  -- Two identifiers minted with the same prefix on the same day are different, whatever was minted
  -- between them.
  pub next_id-fresh :
      (now later : ℕ) (prefix : String) (between : List (ℕ × String)) (s : Store)
      → day_text now ≡ day_text later
      → let t = mint_all between (next_id now prefix s).1 in
        (next_id now prefix s).0 ≢ (next_id later prefix t).0
  next_id-fresh now later prefix between s same e =
      let key = sequence_key now prefix in
      let u = (next_id now prefix s).1 in
      let t = mint_all between u in
      let counted : count_of key u ≡ count_of key s + 1 =
        count-next_id now prefix key s ∙ rw (eq_refl key) in
      let start = prefix ++ day_text now in
      let second : (next_id later prefix t).0
          ≡ start ++ pad_start 6 (decimal (count_of key t + 1)) =
        next_id-id later prefix t
        ∙ ap (λ day. prefix ++ day ++ pad_start 6 (decimal (count_of (prefix ++ ":" ++ day) t + 1)))
            (sym same)
        ∙ regroup prefix (day_text now) _ in
      let first = next_id-id now prefix s ∙ regroup prefix (day_text now) _ in
      let padded = append_cancel_left start _ _ (sym first ∙ e ∙ second) in
      let number = pad_start-decimal_inj 6 (count_of key s + 1) (count_of key t + 1) padded in
      omega (arith, number, counted, count-mint_all key between u)
