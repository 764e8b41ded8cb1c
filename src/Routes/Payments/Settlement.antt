-- ===== src/Routes/Payments/Settlement.antt =====
-- A payment over the bridge is settled at once, or not at all.
use mock_pontes.Base.{
  ℕ, ◌+◌, ◌≤◌, ◌∙◌, String, ◌≡◌, ◌≢◌, refl, sym, ap, ◌⊎◌, inl, inr, Option, some, none, List, [],
  ◌∷◌, given, or_else, arith, eq_iff, Option-cases, false, not,
}
use mathlib.Core.Path.{subst}
use mock_pontes.Base.Lists.{filter_none, map_none}
use mock_pontes.Base.Dict.{lookup}
use mock_pontes.Base.Lists.{push}
use mock_pontes.Platform.{Platform, IsExact}
use mock_pontes.Result.{Failure, ok, err, rejected}
use mock_pontes.Exec.{ran}
use mock_pontes.State.Record.{Store}
use mock_pontes.State.Types.{Transaction, DraftStatus}
use mock_pontes.State.Dcw.Balances.{Denotes}
use mock_pontes.Workflow.{Moment, execute, build_record, settled_transaction}
use mock_pontes.Kinds.Conservation.{AliasKeyed}
use mock_pontes.Kinds.Refinement.{Ledger, Represents, transfer, move_funds-Represents}
use mock_pontes.Kinds.{payment_workflow}
use mock_pontes.Kinds.Atomicity.{payment-MovesFunds}
use mock_pontes.Kinds.Payments.{Paid, CanPay, execute-Paid}
use mock_pontes.Http.{AuthContext}
use mock_pontes.Http.Validation.{supplementary_data_error}
use mock_pontes.Routes.{validation_error}
use mock_pontes.Window.Update.{join}
use mock_pontes.Routes.Payments.{
  PaymentRequest, required, missing_fields, payment_init, payer_of, payment_settled, pay_bridge,
}

List-cases : (xs : List String) → (xs ≡ []) ⊎ ((f : String) × (fs : List String) × (xs ≡ f ∷ fs))
List-cases [] = inl refl
List-cases (f ∷ fs) = inr (f, fs, refl)

or_else-given : (o : Option String) → not (given o) ≡ false → or_else o "" ≢ ""
or_else-given none h e = absurd (cc)
or_else-given (some s) h e = ground (arith, eq_iff s "")

text_given : (o : Option String) → not (given o) ≡ false → (t : String) × (o ≡ some t)
text_given none h = absurd (cc)
text_given (some t) h = (t, refl)

-- Where no field is missing, the credited alias is given.
credited_given :
    (q : PaymentRequest) → missing_fields q ≡ [] → (payment_init q).credited_wallet_alias ≢ ""
unfolding missing_fields payment_init
credited_given q h =
    let given_all =
      filter_none (λ (e : String × Option String). not (given e.1)) (required q)
        (map_none (λ (e : String × Option String). e.0) _ h) in
    or_else-given q.credited_cash_wallet_alias given_all.1.1.1.0

-- The wallets and the amount that a request names.
pub record Names (q : PaymentRequest) (source target amount : String) : Type 0 where
  pub debited : q.debited_cash_wallet_alias ≡ some source
  pub credited : q.credited_cash_wallet_alias ≡ some target
  pub asked : q.amount ≡ some amount

names_all :
    (q : PaymentRequest)
    → missing_fields q ≡ []
    → (source : String) × (target : String) × (amount : String) × Names q source target amount
unfolding missing_fields
names_all q h =
    let given_all =
      filter_none (λ (e : String × Option String). not (given e.1)) (required q)
        (map_none (λ (e : String × Option String). e.0) _ h) in
    let (amount, asked) = text_given q.amount given_all.0 in
    let (target, credited) = text_given q.credited_cash_wallet_alias given_all.1.1.1.0 in
    let (source, debited) = text_given q.debited_cash_wallet_alias given_all.1.1.1.1.1.0 in
    (source, target, amount, record { debited = debited; credited = credited; asked = asked })

module _ ⦃js : Platform⦄ where
  -- Every required field is given, the supplementary data are fine, the checks pass and the amount can
  -- move.
  abbrev pub IsPayable : AuthContext → PaymentRequest → Moment → Store → Type 0
  IsPayable auth q m s =
      (missing_fields q ≡ [])
      × (supplementary_data_error q.supplementary_data ≡ none)
      × CanPay payment_workflow (payment_init q) (payer_of auth) m s

  -- Every way through the payment, in the terms of the workflow.
  pay_bridge-cases :
      (auth : AuthContext) (q : PaymentRequest) (m : Moment) (s : Store)
      → let t = (pay_bridge auth q m s).1 in
        (((pay_bridge auth q m s).0 ≡ ok payment_settled)
          × (missing_fields q ≡ [])
          × Paid payment_workflow (payment_init q) (payer_of auth) m s t)
        ⊎ ((f : Failure) × (pay_bridge auth q m s ≡ (err f, s)) × (IsPayable auth q m s → ⊥))
  unfolding pay_bridge
  pay_bridge-cases auth q m s = elim (List-cases (missing_fields q)) [
    | inr (f, fs, missing) ↦ inr (
      rejected
          (validation_error (Prim.Native.String.◌++◌ "Missing required fields: " (join (f ∷ fs)))),
      rw missing refl,
      λ can. cc (missing, can.0),
    )
    | inl complete ↦ elim (Option-cases (supplementary_data_error q.supplementary_data)) [
      | inr (r, wrong) ↦ inr (rejected r, rw (complete, wrong) refl, λ can. cc (wrong, can.1))
      | inl fine ↦
          let run = execute payment_workflow (payment_init q) (payer_of auth) m in
          elim (execute-Paid payment_workflow payment-MovesFunds (payment_init q) (payer_of auth) m
            s (credited_given q complete)) [
              | inr (f, e, cannot) ↦ inr (f, rw (complete, fine, e) refl, λ can. cannot can.2)
              | inl (done, paid) ↦
                  let e = ran (run s) done refl in
                  let all : pay_bridge auth q m s ≡ (ok payment_settled, (run s).1) =
                    rw (complete, fine, e) refl in
                  inl (
                    ap (λ x. x.0) all,
                    complete,
                    subst (Paid payment_workflow (payment_init q) (payer_of auth) m s)
                        (sym (ap (λ x. x.1) all)) paid,
                  )
            ]
    ]
  ]

module _ ⦃js : Platform⦄ (ex : IsExact js) where
  -- What a settled payment leaves: the amount of the request has moved in the ledger of the wallets, from
  -- the wallet that the request debits to the one that it credits, which had it to give; one transaction
  -- is appended, which says so; the drafts are as they were.
  pub record Settled (q : PaymentRequest) (a : ℕ) (L : Ledger) (s t : Store) : Type 0 where
    pub source : String
    pub target : String
    pub amount : String
    pub names : Names q source target amount
    pub cover : a ≤ L source
    pub moved : Represents ex t (transfer source target a L)
    pub entry : Transaction
    pub appended : t.transactions ≡ push s.transactions entry
    pub entry_source : entry.debited_wallet_alias ≡ source
    pub entry_target : entry.credited_wallet_alias ≡ target
    pub entry_amount : entry.amount ≡ amount
    pub drafts : t.drafts ≡ s.drafts

  Settled-of :
      (auth : AuthContext) (q : PaymentRequest) (m : Moment) (s t : Store) (L : Ledger) (a : ℕ)
      → AliasKeyed s
      → Represents ex s L
      → Denotes ex (or_else q.amount "") a
      → L (or_else q.credited_cash_wallet_alias "") + a ≤ ex.limit
      → missing_fields q ≡ []
      → Paid payment_workflow (payment_init q) (payer_of auth) m s t
      → Settled q a L s t
  unfolding payment_init build_record settled_transaction
  Settled-of auth q m s t L a keyed rep den fits complete paid =
      let (source, target, amount, names) = names_all q complete in
      let d = build_record payment_workflow (payment_init q) DraftStatus.settled m in
      let from : or_else q.debited_cash_wallet_alias "" ≡ source =
        ap (λ o. or_else o "") names.debited in
      let to : or_else q.credited_cash_wallet_alias "" ≡ target =
        ap (λ o. or_else o "") names.credited in
      let (cover, after) =
        move_funds-Represents ex d (payer_of auth).caller m s L a keyed rep fits den paid.moved in
      record {
        source = source;
        target = target;
        amount = amount;
        names = names;
        cover = subst (λ k. a ≤ L k) from cover;
        moved = λ k v found.
            subst (λ i. Denotes ex v.balance (transfer i target a L k)) from
              (subst
                (λ j.
                  Denotes ex v.balance (transfer (or_else q.debited_cash_wallet_alias "") j a L k))
                to (after k v (ap (lookup k) (sym paid.wallets) ∙ found)));
        entry = settled_transaction payment_workflow d m;
        appended = paid.transactions;
        entry_source = from;
        entry_target = to;
        entry_amount = ap (λ o. or_else o "") names.asked;
        drafts = paid.drafts;
      }

  -- Where doubles are exact up to a limit, every wallet stands under its alias, a ledger gives the
  -- available balance of every wallet, the amount of the request is a number of cents and crediting it
  -- stays within the limit, a payment over the bridge is answered that it is settled, and then the wallet
  -- that the request debits had the amount, the amount has gone from it to the wallet that the request
  -- credits, one transaction with these two wallets and this amount is appended and the drafts are as
  -- they were; or it is refused, and nothing has changed, and this only where a required field is
  -- missing, the supplementary data are wrong, a check fails or the amount cannot move.
  pub pay_bridge-Paid :
      (auth : AuthContext) (q : PaymentRequest) (m : Moment) (s : Store) (L : Ledger) (a : ℕ)
      → AliasKeyed s
      → Represents ex s L
      → Denotes ex (or_else q.amount "") a
      → L (or_else q.credited_cash_wallet_alias "") + a ≤ ex.limit
      → (((pay_bridge auth q m s).0 ≡ ok payment_settled)
          × Settled q a L s (pay_bridge auth q m s).1)
        ⊎ ((f : Failure) × (pay_bridge auth q m s ≡ (err f, s)) × (IsPayable auth q m s → ⊥))
  pay_bridge-Paid auth q m s L a keyed rep den fits = elim (pay_bridge-cases auth q m s) [
    | inr refused ↦ inr refused
    | inl (done, complete, paid) ↦
        inl (
          done,
          Settled-of auth q m s (pay_bridge auth q m s).1 L a keyed rep den fits complete paid,
        )
  ]
