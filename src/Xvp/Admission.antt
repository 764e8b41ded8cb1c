-- ===== src/Xvp/Admission.antt =====
-- What a payment that goes through has satisfied.
use mock_pontes.Base.{
  ℕ, ◌≤◌, String, ◌≡◌, sym, ◌∙◌, ap, ◌≢◌, inl, inr, true, false, Bool, none, some, arith,
  Bool-cases, ◌&&◌, if◌then◌else◌, not, Option-cases, eq_iff,
}
use mock_pontes.Base.Dict.{lookup}
use mock_pontes.Platform.{Platform}
use mock_pontes.Result.{ok, err, Failure, Result-cases}
use mock_pontes.Exec.{pure, >>=-ok, Exec, throw_if, ◌>>◌}
use mock_pontes.State.Types.{Draft, DraftStatus, xvp, initialized, expired}
use mock_pontes.State.Record.{Store}
use mock_pontes.State.Store.{get_draft}
use mock_pontes.Workflow.{Moment, same_type}
use mock_pontes.Workflow.FourEyes.{same_type→≡}
use mock_pontes.Xvp.Types.{XvpRecord, XvpPaymentParams, XvpPaymentResult, Services}
use mock_pontes.Xvp.{
  is_initialized, deadline_passed, maybe_expire, shape, check_payment, check_terms, admit_payment,
  pay, settle_payment, shape_with, xvp_closed,
}
use mock_pontes.Xvp.Expiry.{status-shape}

check_terms_ok :
    (params : XvpPaymentParams) (rec : XvpRecord) (s : Store) {u : Unit {0}}
    → (check_terms params rec s).0 ≡ ok u
    → (params.amount ≡ rec.amount) × (params.currency ≡ rec.currency)
unfolding check_terms
check_terms_ok params rec s h =
    ground (arith, eq_iff params.amount rec.amount, eq_iff params.currency rec.currency)

check_terms_state :
    (params : XvpPaymentParams) (rec : XvpRecord) (s : Store) → (check_terms params rec s).1 ≡ s
unfolding check_terms
check_terms_state params rec s = ground arith

is_initialized→≡ : (x : DraftStatus) → is_initialized x ≡ true → x ≡ initialized
is_initialized→≡ x h = ground arith

module _ ⦃js : Platform⦄ ⦃sv : Services⦄ where
  -- The XvP is there and awaits payment, its deadline has not passed, and the payment is for its
  -- amount in its currency.
  pub record Admitted (id : String) (params : XvpPaymentParams) (m : Moment) (s : Store)
      : Type 0 where
    pub draft : Draft
    pub found : get_draft id none s ≡ some draft
    pub typed : draft.type ≡ xvp
    pub waiting : draft.status ≡ initialized
    pub timely :
        (date : String) (t : ℕ)
        → draft.expires_at ≡ some date
        → date ≢ ""
        → js.date_ms date ≡ some t
        → m.now ≤ t
    pub amount : params.amount ≡ draft.amount
    pub currency : params.currency ≡ draft.currency

  amounts-shape :
      (d : Draft) (rec : XvpRecord)
      → shape d ≡ ok rec
      → (rec.amount ≡ d.amount) × (rec.currency ≡ d.currency)
  unfolding shape shape_with
  amounts-shape d rec h = ground arith

  last_checks :
      (id : String) (params : XvpPaymentParams) (d : Draft) (rec : XvpRecord) (s : Store)
      (r : XvpRecord)
      → shape d ≡ ok rec
      → ((throw_if (not (is_initialized rec.status)) (xvp_closed id rec.status)
            >> check_terms params rec
            >> pure rec)
          s).0
        ≡ ok r
      → (d.status ≡ initialized) × (params.amount ≡ d.amount) × (params.currency ≡ d.currency)
  last_checks id params d rec s r e h = elim (Bool-cases (is_initialized rec.status)) [
    | inr closed ↦ absurd (ground (arith, closed))
    | inl waits ↦
        let rest : ((check_terms params rec >> pure rec) s).0 ≡ ok r = ground (arith, waits) in
        let (_, passed, _) = >>=-ok (check_terms params rec) (λ _. pure rec) s rest in
        let (amount, currency) = check_terms_ok params rec s passed in
        let (a, c) = amounts-shape d rec e in
        (sym (status-shape d rec e) ∙ is_initialized→≡ rec.status waits, amount ∙ a, currency ∙ c)
  ]

  timely_of :
      (d : Draft) (now : ℕ)
      → deadline_passed d.expires_at now ≡ false
      → (date : String) (t : ℕ) → d.expires_at ≡ some date
      → date ≢ ""
      → js.date_ms date ≡ some t
      → now ≤ t
  unfolding deadline_passed
  timely_of d now h date t e ne q =
      let h' : deadline_passed (some date) now ≡ false =
        ap (λ o. deadline_passed o now) (sym e) ∙ h in
      ground (arith, h', q, eq_iff date "")

  abbrev rest_of : String → XvpPaymentParams → XvpRecord → Exec Store XvpRecord
  rest_of id params rec =
      throw_if (not (is_initialized rec.status)) (xvp_closed id rec.status)
      >> check_terms params rec
      >> pure rec

  check_payment-shaped :
      (id : String) (params : XvpPaymentParams) (m : Moment) (s : Store) (d d' : Draft)
      (rec : XvpRecord)
      → same_type d.type xvp ≡ true
      → (maybe_expire m d s).0 ≡ ok d'
      → shape d' ≡ ok rec
      → check_payment id params m (some d) s ≡ rest_of id params rec (maybe_expire m d s).1
  unfolding check_payment
  check_payment-shaped id params m s d d' rec same ran shaped = rw (same, ran, shaped)

  check_payment-failed :
      (id : String) (params : XvpPaymentParams) (m : Moment) (s : Store) (d d' : Draft)
      (f : Failure)
      → same_type d.type xvp ≡ true
      → (maybe_expire m d s).0 ≡ ok d'
      → shape d' ≡ err f
      → (check_payment id params m (some d) s).0 ≡ err f
  unfolding check_payment
  check_payment-failed id params m s d d' f same ran failed = rw (same, ran, failed)

  -- The draft that the checks go on with awaits payment, on the terms of the request.
  checked_terms :
      (id : String) (params : XvpPaymentParams) (m : Moment) (s : Store) (d d' : Draft)
      (r : XvpRecord)
      → same_type d.type xvp ≡ true
      → (maybe_expire m d s).0 ≡ ok d'
      → (check_payment id params m (some d) s).0 ≡ ok r
      → (d'.status ≡ initialized) × (params.amount ≡ d'.amount) × (params.currency ≡ d'.currency)
  checked_terms id params m s d d' r same ran h = elim (Result-cases (shape d')) [
    | inr (f, failed) ↦ absurd (cc (h, check_payment-failed id params m s d d' f same ran failed))
    | inl (rec, shaped) ↦
        last_checks id params d' rec (maybe_expire m d s).1 r shaped
          (ap (λ x. x.0) (sym (check_payment-shaped id params m s d d' rec same ran shaped)) ∙ h)
  ]

  maybe_expire-value :
      (m : Moment) (d : Draft) (s : Store) (late : Bool)
      → (is_initialized d.status && deadline_passed d.expires_at m.now) ≡ late
      → (maybe_expire m d s).0 ≡ ok (if late then record d { status = expired } else d)
  unfolding maybe_expire
  maybe_expire-value m d s true h = rw h
  maybe_expire-value m d s false h = rw h

  check_payment_ok :
      (id : String) (params : XvpPaymentParams) (m : Moment) (s : Store) (d : Draft) (r : XvpRecord)
      → get_draft id none s ≡ some d
      → (check_payment id params m (some d) s).0 ≡ ok r
      → Admitted id params m s
  unfolding check_payment
  check_payment_ok id params m s d r found h = elim (Bool-cases (same_type d.type xvp)) [
    | inr other ↦ absurd (ground (arith, other))
    | inl same ↦ elim (Bool-cases (is_initialized d.status && deadline_passed d.expires_at m.now)) [
      | inl late ↦
          let (waits, _, _) =
            checked_terms id params m s d (record d { status = expired }) r same
              (maybe_expire-value m d s true late) h in
          absurd (cc (waits))
      | inr early ↦
          let (waits, amount, currency) =
            checked_terms id params m s d d r same (maybe_expire-value m d s false early) h in
          record {
            draft = d;
            found = found;
            typed = same_type→≡ d.type xvp same;
            waiting = waits;
            timely = timely_of d m.now (ground (arith, early, waits));
            amount = amount;
            currency = currency;
          }
    ]
  ]

  -- A payment goes through only if its XvP awaits payment, no deadline of it lies in the past, and
  -- the payment is for its amount in its currency.
  pub pay-Admitted :
      (id : String) (params : XvpPaymentParams) (m m' : Moment) (s : Store) (r : XvpPaymentResult)
      → (pay id params m m' s).0 ≡ ok r
      → Admitted id params m s
  unfolding pay admit_payment check_payment get_draft
  pay-Admitted id params m m' s r h =
      let (rec, admitted, _) =
        >>=-ok (admit_payment id params m) (λ rec. settle_payment id params rec m') s h in
      elim (Option-cases (lookup id s.drafts)) [
        | inl gone ↦ absurd (cc (admitted, ap (λ o. (check_payment id params m o s).0) gone))
        | inr (d, found) ↦
            check_payment_ok id params m s d rec found
              (ap (λ o. (check_payment id params m o s).0) (sym found) ∙ admitted)
      ]
