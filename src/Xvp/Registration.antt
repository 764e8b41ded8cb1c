-- ===== src/Xvp/Registration.antt =====
-- What `init` of workflows/xvp.ts leaves.
use mock_pontes.Base.{
  String, ◌≡◌, refl, ◌∙◌, ◌⊎◌, inl, inr, Option, or_else, Option-cases, some, none, eq_iff, eq_refl,
  arith, ◌==◌, false, not, ◌&&◌,
}
use mock_pontes.Platform.{Platform}
use mock_pontes.Result.{ok, err, thrown}
use mock_pontes.State.Types.{Draft, initialized, xvp}
use mock_pontes.State.Record.{Store}
use mock_pontes.State.Store.{get_draft}
use mock_pontes.State.Store.Frame.{KeepsAllButDrafts, lookup-add_draft, add_draft-KeepsAllButDrafts}
use mock_pontes.Workflow.{Moment}
use mock_pontes.Xvp.Types.{Services, XvpInitParams, XvpInitResult}
use mock_pontes.Xvp.Commitment.{generate_xvp_commitments, xvp_commitment_hash}
use mock_pontes.Xvp.{XvpOptions, init, init_until, the_draft}

module _ ⦃js : Platform⦄ ⦃sv : Services⦄ where
  -- The text of the instant that lies as many seconds after the moment as the request asks for, or as
  -- is the default.
  abbrev pub seconds_later : XvpOptions → XvpInitParams → Moment → Option String
  seconds_later o p m =
      let seconds = or_else p.timeout_sec o.default_timeout_sec in
      js.iso_time (js.add (js.time_of m.now) (js.mul seconds (js.num_of 1000)))

  -- The XvP awaits payment under its identifier, with a fresh deadline, and its answer commits to the two
  -- keys; every other draft, all wallets and all transactions are as before.
  pub record Registered (o : XvpOptions) (p : XvpInitParams) (k k' : String) (m : Moment)
      (s t : Store) (r : XvpInitResult) : Type 0 where
    pub draft : Draft
    pub stored : get_draft p.xvp_transaction_id none t ≡ some draft
    pub waiting : draft.status ≡ initialized
    pub typed : draft.type ≡ xvp
    pub dated : draft.expires_at ≡ some r.timeout
    pub deadline : seconds_later o p m ≡ some r.timeout
    pub payee : draft.credited_wallet_alias ≡ p.seller_wallet_alias
    pub execution : r.execution_hash ≡ xvp_commitment_hash k o.hash_method
    pub cancellation : r.cancellation_hash ≡ xvp_commitment_hash k' o.hash_method
    pub others :
        (j : String) → (p.xvp_transaction_id == j) ≡ false → get_draft j none t ≡ get_draft j none s
    pub frame : KeepsAllButDrafts s t

  init-registers :
      (o : XvpOptions) (p : XvpInitParams) (k k' timeout : String) (m : Moment) (s : Store)
      → seconds_later o p m ≡ some timeout
      → let keys = generate_xvp_commitments o.hash_method k k' in
        (r : XvpInitResult) × ((init_until o p keys (some timeout) m s).0 ≡ ok r)
        × Registered o p k k' m s (init_until o p keys (some timeout) m s).1 r
  unfolding init_until the_draft get_draft generate_xvp_commitments
  init-registers o p k k' timeout m s until =
      let keys = generate_xvp_commitments o.hash_method k k' in
      let d = the_draft o p keys timeout m in
      (
        _,
        refl,
        record {
          draft = d;
          stored = lookup-add_draft d p.xvp_transaction_id s ∙ rw (eq_refl p.xvp_transaction_id);
          waiting = refl;
          typed = refl;
          dated = refl;
          deadline = until;
          payee = refl;
          execution = refl;
          cancellation = refl;
          others = λ j ne. lookup-add_draft d j s ∙ rw ne;
          frame = add_draft-KeepsAllButDrafts d s;
        },
      )

  -- A registration of a known type, whose deadline, as many seconds from now as it asks for or as is the
  -- default, is a date, succeeds whatever is stored under its identifier, and leaves an XvP that awaits
  -- payment there until that deadline, also where a settled or expired one stood; one whose deadline is
  -- no date throws, and nothing has changed.
  pub init-Registered :
      (o : XvpOptions) (p : XvpInitParams) (k k' : String) (m : Moment) (s : Store)
      → (p.transaction_type ≡ "DVP") ⊎ (p.transaction_type ≡ "PVP")
      → ((r : XvpInitResult) × ((init o p k k' m s).0 ≡ ok r)
          × Registered o p k k' m s (init o p k k' m s).1 r)
        ⊎ ((seconds_later o p m ≡ none)
            × (init o p k k' m s ≡ (err (thrown "Invalid time value"), s)))
  unfolding init init_until
  init-Registered o p k k' m s known =
      let accepted : (not (p.transaction_type == "DVP") && not (p.transaction_type == "PVP"))
          ≡ false =
        ground (arith, eq_iff p.transaction_type "DVP", eq_iff p.transaction_type "PVP") in
      elim (Option-cases (seconds_later o p m)) [
        | inl never ↦ inr (never, rw (accepted, never) refl)
        | inr (timeout, until) ↦
            inl (rw (accepted, until) (init-registers o p k k' timeout m s until))
      ]
