-- ===== src/Xvp/Expiry.antt =====
-- The expiry of an XvP, and that a settled or expired one is closed for good.
use mock_pontes.Base.{
  ℕ, ◌<◌, String, ◌≡◌, refl, sym, ◌∙◌, ◌≢◌, inl, inr, true, false, none, some, arith, truthy,
  eq_refl,
}
use mock_pontes.Platform.{Platform}
use mock_pontes.Result.{ok, err, rejected, Failure, Result-cases}
use mock_pontes.Exec.{continue, pure}
use mock_pontes.State.Types.{Draft, DraftStatus, DraftType, xvp, initialized, expired}
use mock_pontes.State.Record.{Store}
use mock_pontes.State.Store.{get_draft, update_draft}
use mock_pontes.State.Store.Frame.{
  KeepsAllButDrafts, update_draft-KeepsAllButDrafts, lookup-update_draft,
}
use mock_pontes.Workflow.{Moment, same_type}
use mock_pontes.Xvp.Types.{XvpRecord, XvpPaymentParams, Services, Meta}
use mock_pontes.Xvp.{
  is_initialized, deadline_passed, maybe_expire, shape, shape_with, read_meta, get, observe,
  check_payment, admit_payment, pay, xvp_closed,
}

same_xvp : (t : DraftType) → t ≡ xvp → same_type t xvp ≡ true
same_xvp t h = ground arith

not_initialized : (x : DraftStatus) → x ≢ initialized → is_initialized x ≡ false
not_initialized x h = ground arith

module _ ⦃js : Platform⦄ ⦃sv : Services⦄ where
  -- The XvP under `id` is there, and is settled, expired or otherwise past its initial state.
  pub record IsClosed (id : String) (s : Store) (d : Draft) : Type 0 where
    pub found : get_draft id none s ≡ some d
    pub typed : d.type ≡ xvp
    pub closed : d.status ≢ initialized

  pub maybe_expire_closed :
      (m : Moment) (d : Draft) (s : Store) → d.status ≢ initialized → maybe_expire m d s ≡ (ok d, s)
  unfolding maybe_expire
  maybe_expire_closed m d s h = rw (not_initialized d.status h)

  pub get_closed :
      (id : String) (m : Moment) (s : Store) (d : Draft)
      → IsClosed id s d
      → get id m s ≡ continue (shape d) (λ rec. pure (some rec)) s
  unfolding get observe
  get_closed id m s d h = rw (h.found, same_xvp d.type h.typed, maybe_expire_closed m d s h.closed)

  pub status-shape : (d : Draft) (rec : XvpRecord) → shape d ≡ ok rec → rec.status ≡ d.status
  unfolding shape shape_with
  status-shape d rec h = ground arith

  admit_closed :
      (id : String) (params : XvpPaymentParams) (m : Moment) (s : Store) (d : Draft)
      → IsClosed id s d
      → (f : Failure) × (admit_payment id params m s ≡ (err f, s))
  unfolding admit_payment check_payment
  admit_closed id params m s d h = elim (Result-cases (shape d)) [
    | inl (rec, e) ↦
        let shut : is_initialized rec.status ≡ false =
          not_initialized rec.status (λ p. h.closed (sym (status-shape d rec e) ∙ p)) in
        (
          rejected (xvp_closed id rec.status),
          rw (h.found, same_xvp d.type h.typed, maybe_expire_closed m d s h.closed, e, shut),
        )
    | inr (f, e) ↦ (f, rw (h.found, same_xvp d.type h.typed, maybe_expire_closed m d s h.closed, e))
  ]

  -- A settled or expired XvP is closed for good: whatever the clock says, reading it changes
  -- nothing, and every payment is refused and changes nothing.
  pub closed_for_good :
      (id : String) (s : Store) (d : Draft)
      → IsClosed id s d
      → ((m : Moment) → (get id m s).1 ≡ s)
        × ((params : XvpPaymentParams) (m m' : Moment)
            → (f : Failure) × (pay id params m m' s ≡ (err f, s)))
  unfolding pay
  closed_for_good id s d h = (
    (λ m. rw (get_closed id m s d h) (ground arith)),
    (λ params m m'. let (f, e) = admit_closed id params m s d h in (f, rw e)),
  )

  -- The XvP under `id` awaits payment, and its deadline lies before `now`.
  pub record IsLate (id : String) (now : ℕ) (s : Store) (d : Draft) : Type 0 where
    pub found : get_draft id none s ≡ some d
    pub named : d.id ≡ id
    pub typed : d.type ≡ xvp
    pub waiting : d.status ≡ initialized
    pub deadline : ℕ
    pub date : String
    pub timeout : d.expires_at ≡ some date
    pub dated : (truthy date ≡ true) × (js.date_ms date ≡ some deadline)
    pub passed : deadline < now

  abbrev pub expire : Moment → String → Store → Store
  expire m id s = update_draft m.now id (λ e. record e { status = expired }) s

  deadline-IsLate :
      (id : String) (m : Moment) (s : Store) (d : Draft)
      → IsLate id m.now s d
      → deadline_passed d.expires_at m.now ≡ true
  unfolding deadline_passed
  deadline-IsLate id m s d h = rw (h.timeout, h.dated.0, h.dated.1) (ground (arith, h.passed))

  maybe_expire_late :
      (id : String) (m : Moment) (s : Store) (d : Draft)
      → IsLate id m.now s d
      → maybe_expire m d s ≡ (ok (record d { status = expired }), expire m id s)
  unfolding maybe_expire
  maybe_expire_late id m s d h = rw (h.waiting, deadline-IsLate id m s d h, h.named)

  pub stored-expire :
      (id : String) (m : Moment) (s : Store) (d : Draft)
      → get_draft id none s ≡ some d
      → get_draft id none (expire m id s)
        ≡ some (record d { status = expired; updated_at = js.iso m.now })
  unfolding get_draft
  stored-expire id m s d h =
      lookup-update_draft m.now id id (λ e. record e { status = expired }) s ∙ rw (eq_refl id, h)

  -- What the first observation of a passed deadline leaves: the XvP is expired and closed, nothing
  -- else of it differs but the time of the update, and no cash has moved.
  pub record Expiry (id : String) (s t : Store) (d : Draft) : Type 0 where
    pub after : Draft
    pub closed : IsClosed id t after
    pub ended : after.status ≡ expired
    pub kept : after ≡ record d { status = expired; updated_at = after.updated_at }
    pub frame : KeepsAllButDrafts s t

  expire-Expiry :
      (id : String) (m : Moment) (s : Store) (d : Draft)
      → IsLate id m.now s d
      → Expiry id s (expire m id s) d
  expire-Expiry id m s d h = record {
    after = record d { status = expired; updated_at = js.iso m.now };
    closed = record {
      found = stored-expire id m s d h.found;
      typed = h.typed;
      closed = λ p. cc (p);
    };
    ended = refl;
    kept = refl;
    frame = update_draft-KeepsAllButDrafts m.now id _ s;
  }

  shape-meta :
      (d : Draft) (x : Meta) → read_meta d.supplementary_data ≡ ok x → shape d ≡ ok (shape_with d x)
  unfolding shape
  shape-meta d x e = rw (shape, e)

  admit_late :
      (id : String) (params : XvpPaymentParams) (m : Moment) (s : Store) (d : Draft)
      → IsLate id m.now s d
      → (x : Meta) → read_meta d.supplementary_data ≡ ok x
      → admit_payment id params m s ≡ (err (rejected (xvp_closed id expired)), expire m id s)
  unfolding admit_payment check_payment shape_with
  admit_late id params m s d h x e = rw (
    h.found,
    same_xvp d.type h.typed,
    maybe_expire_late id m s d h,
    shape-meta (record d { status = expired }) x e,
  )

  get_late :
      (id : String) (m : Moment) (s : Store) (d : Draft)
      → IsLate id m.now s d
      → (x : Meta) → read_meta d.supplementary_data ≡ ok x
      → get id m s ≡ (ok (some (shape_with (record d { status = expired }) x)), expire m id s)
  unfolding get observe
  get_late id m s d h x e = rw (
    h.found,
    same_xvp d.type h.typed,
    maybe_expire_late id m s d h,
    shape-meta (record d { status = expired }) x e,
  )

  -- A payment after the deadline of an XvP that stands under its own identifier with readable metadata
  -- is refused with 409, whatever it asks: the XvP is expired then, and no cash has moved. A mere
  -- reading after the deadline leaves the same.
  pub pay_late :
      (id : String) (params : XvpPaymentParams) (m m' : Moment) (s : Store) (d : Draft) (x : Meta)
      → IsLate id m.now s d
      → read_meta d.supplementary_data ≡ ok x
      → ((pay id params m m' s).0 ≡ err (rejected (xvp_closed id expired)))
        × Expiry id s (pay id params m m' s).1 d
        × Expiry id s (get id m s).1 d
  unfolding pay
  pay_late id params m m' s d x h e = (
    rw (admit_late id params m s d h x e),
    rw (admit_late id params m s d h x e) (expire-Expiry id m s d h),
    rw (get_late id m s d h x e) (expire-Expiry id m s d h),
  )
