-- ===== src/Xvp/Disclosure/Secrets.antt =====
-- The two secrets of an XvP: never are both disclosed.
use mock_pontes.Base.{
  String, ◌≡◌, refl, sym, ◌∙◌, ap, ◌≢◌, ◌⊎◌, inl, inr, true, false, Option, none, some, arith,
  Bool-cases, Option-cases, ◌&&◌,
}
use mathlib.Core.Path.{subst}
use mock_pontes.Base.Dict.{lookup}
use mock_pontes.Platform.{Platform}
use mock_pontes.Result.{Result, ok, err, Result-cases, Failure}
use mock_pontes.Exec.{continue, pure}
use mock_pontes.State.Types.{Draft, DraftStatus, xvp, initialized, expired}
use mock_pontes.State.Record.{Store}
use mock_pontes.State.Keyed.{IsKeyed, lookup-IsKeyed}
use mock_pontes.State.Store.{get_draft}
use mock_pontes.Workflow.{Moment, same_type}
use mock_pontes.Workflow.FourEyes.{same_type→≡}
use mock_pontes.Xvp.Types.{XvpRecord, XvpPaymentParams, XvpPaymentResult, Services}
use mock_pontes.Xvp.{maybe_expire, shape, get, observe, pay, is_initialized, deadline_passed}
use mock_pontes.Xvp.Disclosure.{
  KeyType, PaymentAnswer, disclose, outcome_of, get_payment, get_for, answer, key_type,
}
use mock_pontes.Xvp.Expiry.{IsClosed, status-shape, closed_for_good, get_closed, stored-expire}

execution-disclose :
    (k : KeyType) (rec : XvpRecord)
    → (rec.status ≡ DraftStatus.settled) ⊎ ((disclose k rec).execution_key ≡ none)
unfolding disclose outcome_of
execution-disclose k rec = ground arith

cancellation-disclose :
    (k : KeyType) (rec : XvpRecord)
    → ((rec.status ≢ DraftStatus.settled) × (rec.status ≢ initialized))
      ⊎ ((disclose k rec).cancellation_key ≡ none)
unfolding disclose outcome_of
cancellation-disclose k rec = ground arith

abbrev pub IdKeyed : Store → Type 0
IdKeyed s = IsKeyed (λ (d : Draft). d.id) s.drafts

module _ ⦃js : Platform⦄ ⦃sv : Services⦄ where
  -- The record that was read is that of the draft which is stored afterwards.
  record Observed (id : String) (t : Store) (rec : XvpRecord) : Type 0 where
    draft : Draft
    found : get_draft id none t ≡ some draft
    typed : draft.type ≡ xvp
    same : rec.status ≡ draft.status

  maybe_expire-stored :
      (m : Moment) (s : Store) (d : Draft)
      → get_draft d.id none s ≡ some d
      → (d' : Draft) × ((maybe_expire m d s).0 ≡ ok d')
        × ((e : Draft) × (get_draft d.id none (maybe_expire m d s).1 ≡ some e)
            × (e.type ≡ d.type)
            × (e.status ≡ d'.status))
  unfolding maybe_expire
  maybe_expire-stored m s d found =
      elim (Bool-cases (is_initialized d.status && deadline_passed d.expires_at m.now)) [
        | inl late ↦ rw late (
          record d { status = expired },
          refl,
          (
            record d { status = expired; updated_at = js.iso m.now },
            stored-expire d.id m s d found,
            refl,
            refl,
          ),
        )
        | inr early ↦ rw early (d, refl, (d, found, refl, refl))
      ]

  observe-shaped :
      (m : Moment) (s : Store) (d d' : Draft) (r : XvpRecord)
      → same_type d.type xvp ≡ true
      → (maybe_expire m d s).0 ≡ ok d'
      → shape d' ≡ ok r
      → observe m (some d) s ≡ (ok (some r), (maybe_expire m d s).1)
  unfolding observe
  observe-shaped m s d d' r same ran shaped = rw (same, ran, shaped)

  observe-failed :
      (m : Moment) (s : Store) (d d' : Draft) (f : Failure)
      → same_type d.type xvp ≡ true
      → (maybe_expire m d s).0 ≡ ok d'
      → shape d' ≡ err f
      → (observe m (some d) s).0 ≡ err f
  unfolding observe
  observe-failed m s d d' f same ran failed = rw (same, ran, failed)

  observe-other :
      (m : Moment) (s : Store) (d : Draft)
      → same_type d.type xvp ≡ false
      → (observe m (some d) s).0 ≡ ok none
  unfolding observe
  observe-other m s d other = rw other

  observe-Observed :
      (m : Moment) (s : Store) (d : Draft) (rec : XvpRecord)
      → get_draft d.id none s ≡ some d
      → (observe m (some d) s).0 ≡ ok (some rec)
      → Observed d.id (observe m (some d) s).1 rec
  observe-Observed m s d rec found h = elim (Bool-cases (same_type d.type xvp)) [
    | inr other ↦ absurd (cc (h, observe-other m s d other))
    | inl same ↦
        let (d', ran, (e, stored, etyped, estatus)) = maybe_expire-stored m s d found in
        elim (Result-cases (shape d')) [
          | inr (f, failed) ↦ absurd (cc (h, observe-failed m s d d' f same ran failed))
          | inl (r, shaped) ↦
              let q = observe-shaped m s d d' r same ran shaped in
              let agree : r ≡ rec = cc (h, ap (λ x. x.0) q) in
              rw (ap (λ x. x.1) q) (record {
                draft = e;
                found = stored;
                typed = etyped ∙ same_type→≡ d.type xvp same;
                same =
                    ap (λ (x : XvpRecord). x.status) (sym agree)
                    ∙ status-shape d' r shaped
                    ∙ sym estatus;
              })
        ]
  ]

  get-Observed :
      (id : String) (m : Moment) (s : Store) (rec : XvpRecord)
      → IdKeyed s
      → (get id m s).0 ≡ ok (some rec)
      → Observed id (get id m s).1 rec
  unfolding get get_draft
  get-Observed id m s rec keyed h = elim (Option-cases (lookup id s.drafts)) [
    | inl gone ↦ absurd (cc (h, ap (λ o. (observe m o s).0) gone))
    | inr (d, found) ↦
        let named = lookup-IsKeyed (λ (d : Draft). d.id) id d s.drafts keyed found in
        let here : get_draft d.id none s ≡ some d =
          subst (λ j. lookup j s.drafts ≡ some d) (sym named) found in
        let h' : (observe m (some d) s).0 ≡ ok (some rec) =
          ap (λ o. (observe m o s).0) (sym found) ∙ h in
        rw found (
          subst (λ j. Observed j (observe m (some d) s).1 rec) named
            (observe-Observed m s d rec here h'))
  ]

  -- What an answer discloses, by the state of the XvP that is stored when it is given.
  get_payment-Observed :
      (raw : Option String) (id : String) (m : Moment) (s : Store) (a : PaymentAnswer)
      → IdKeyed s
      → (get_payment raw id m s).0 ≡ ok a
      → (k : KeyType) × (rec : XvpRecord) × (a ≡ disclose k rec)
        × Observed id (get_payment raw id m s).1 rec
  unfolding get_payment get_for answer
  get_payment-Observed raw id m s a keyed h = go (key_type raw) h
    where
      read :
          (k : KeyType)
          → (r : Result (Option XvpRecord)) → (get id m s).0 ≡ r
          → (continue r (answer id k) (get id m s).1).0 ≡ ok a
          → (k' : KeyType) × (rec : XvpRecord) × (a ≡ disclose k' rec)
            × Observed id (continue r (answer id k) (get id m s).1).1 rec
      read k (ok none) e h = absurd (cc)
      read k (ok (some rec)) e h = (k, rec, cc, get-Observed id m s rec keyed e)
      read k (err f) e h = absurd (cc)

      go :
          (o : Option KeyType)
          → (get_for o id m s).0 ≡ ok a
          → (k : KeyType) × (rec : XvpRecord) × (a ≡ disclose k rec)
            × Observed id (get_for o id m s).1 rec
      go none h = absurd (cc)
      go (some k) h = read k (get id m s).0 refl h

  -- An answer about an XvP that is closed speaks of the state in which it is.
  answer_closed :
      (raw : Option String) (id : String) (m : Moment) (t : Store) (d : Draft) (b : PaymentAnswer)
      → IsClosed id t d
      → (get_payment raw id m t).0 ≡ ok b
      → (k : KeyType) × (rec : XvpRecord) × (b ≡ disclose k rec) × (rec.status ≡ d.status)
  unfolding get_payment get_for answer
  answer_closed raw id m t d b closed h = go (key_type raw) h
    where
      reply : KeyType → Result (Option XvpRecord) × Store → Result PaymentAnswer
      reply k p = (continue p.0 (answer id k) p.1).0

      read :
          (k : KeyType) (r : Result XvpRecord)
          → shape d ≡ r
          → reply k (continue r (λ rec. pure (some rec)) t) ≡ ok b
          → (k' : KeyType) × (rec : XvpRecord) × (b ≡ disclose k' rec) × (rec.status ≡ d.status)
      read k (ok rec) e q = (k, rec, cc, status-shape d rec e)
      read k (err f) e q = absurd (cc)

      go :
          (o : Option KeyType)
          → (get_for o id m t).0 ≡ ok b
          → (k : KeyType) × (rec : XvpRecord) × (b ≡ disclose k rec) × (rec.status ≡ d.status)
      go none q = absurd (cc)
      go (some k) q = read k (shape d) refl (ap (reply k) (sym (get_closed id m t d closed)) ∙ q)

  -- The same, where a payment was attempted first.
  steady :
      (raw : Option String) (id : String) (params : XvpPaymentParams) (m m' m'' : Moment)
      (t : Store) (d : Draft) (b : PaymentAnswer)
      → IsClosed id t d
      → (get_payment raw id m'' (pay id params m m' t).1).0 ≡ ok b
      → (k : KeyType) × (rec : XvpRecord) × (b ≡ disclose k rec) × (rec.status ≡ d.status)
  steady raw id params m m' m'' t d b h q =
      let (f, refused) = (closed_for_good id t d h).1 params m m' in
      answer_closed raw id m'' t d b h (
        ap (λ (x : Result XvpPaymentResult × Store). (get_payment raw id m'' x.1).0) (sym refused)
        ∙ q)

  -- Where every draft stands under its own identifier: of two answers about the same XvP, whatever keys they ask for, at whatever times and with a
  -- payment attempted between them, never does one disclose the execution key and the other the
  -- cancellation key.
  pub keys_exclusive :
      (raw raw' : Option String) (id : String) (params : XvpPaymentParams) (m n n' m' : Moment)
      (s : Store) (a b : PaymentAnswer)
      → IdKeyed s
      → (get_payment raw id m s).0 ≡ ok a
      → (get_payment raw' id m' (pay id params n n' (get_payment raw id m s).1).1).0 ≡ ok b
      → ((a.execution_key ≡ none) ⊎ (b.cancellation_key ≡ none))
        × ((a.cancellation_key ≡ none) ⊎ (b.execution_key ≡ none))
  keys_exclusive raw raw' id params m n n' m' s a b keyed h q =
      let (k, rec, e, o) = get_payment-Observed raw id m s a keyed h in
      let closed : (rec.status ≢ initialized) → IsClosed id (get_payment raw id m s).1 o.draft =
        λ ne. record { found = o.found; typed = o.typed; closed = λ p. ne (o.same ∙ p) } in
      let second = λ (ne : rec.status ≢ initialized).
        steady raw' id params n n' m' (get_payment raw id m s).1 o.draft b (closed ne) q in
      (
        elim (execution-disclose k rec) [
          | inr nothing ↦ inl (ap (λ (x : PaymentAnswer). x.execution_key) e ∙ nothing)
          | inl settled ↦
              let (k', rec', e', same) = second (λ p. cc (p, settled)) in
              elim (cancellation-disclose k' rec') [
                | inr nothing ↦ inr (ap (λ (x : PaymentAnswer). x.cancellation_key) e' ∙ nothing)
                | inl (unsettled, _) ↦ absurd (unsettled (same ∙ sym o.same ∙ settled))
              ]
        ],
        elim (cancellation-disclose k rec) [
          | inr nothing ↦ inl (ap (λ (x : PaymentAnswer). x.cancellation_key) e ∙ nothing)
          | inl (unsettled, begun) ↦
              let (k', rec', e', same) = second begun in
              elim (execution-disclose k' rec') [
                | inr nothing ↦ inr (ap (λ (x : PaymentAnswer). x.execution_key) e' ∙ nothing)
                | inl settled ↦ absurd (unsettled (o.same ∙ sym same ∙ settled))
              ]
        ],
      )
