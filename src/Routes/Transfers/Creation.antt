-- ===== src/Routes/Transfers/Creation.antt =====
-- The creation of a transfer draft, on all its branches.
use mock_pontes.Base.{String, ◌≡◌, ◌≢◌, some, none, or_text}
use mock_pontes.Platform.{Platform}
use mock_pontes.Result.{Result, ok, err}
use mock_pontes.State.Types.{Draft, pending_approval, transfer}
use mock_pontes.State.Record.{Store, get_business_day}
use mock_pontes.State.Store.{get_draft, next_id}
use mock_pontes.State.Identifiers.{resolve_draft_id}
use mock_pontes.Workflow.{Moment, Phase, admit, build_record}
use mock_pontes.Kinds.{transfer_workflow}
use mock_pontes.Http.{Reply, AuthContext}
use mock_pontes.Routes.Transfers.{
  TransferRequest, TransferView, check_transfer, transfer_init, nobody,
}

module _ ⦃js : Platform⦄ where
  abbrev stored : AuthContext → TransferRequest → String → String → Moment → Draft
  stored auth q id today m =
      build_record transfer_workflow (transfer_init auth q id today m) pending_approval m

  -- What a created transfer leaves: under the identifier that the store mints next, a draft that awaits
  -- approval, between the wallets of the request, with the user of the request as its initiator and the
  -- entity of the request as its instructing party; the number is used up, and all else but the cache is
  -- as it was. The answer shows the draft initialized.
  pub record Created (auth : AuthContext) (q : TransferRequest) (m : Moment)
      (r : Reply TransferView) (s t : Store) : Type 0 where
    pub draft : Draft
    pub minted : draft.id ≡ (next_id m.now "TR" s).0
    pub sequences : t.sequences ≡ (next_id m.now "TR" s).1.sequences
    pub credited : draft.credited_wallet_alias ≡ or_text q.credited_cash_wallet_alias ""
    pub debited : draft.debited_wallet_alias ≡ or_text q.debited_cash_wallet_alias ""
    pub business_window : t.business_window ≡ s.business_window
    pub valid_ncbs : t.valid_ncbs ≡ s.valid_ncbs
    pub named : r.body.instruction_id ≡ draft.id
    pub there : get_draft draft.id none t ≡ some draft
    pub pending : draft.status ≡ pending_approval
    pub typed : draft.type ≡ transfer
    pub shown : r.body.etats_ux ≡ "INITIALIZED"
    pub initiator : draft.initiator_user_uuid ≡ auth.user_uuid
    pub party : draft.instructing_party_id ≡ auth.entity_bic
    pub others : (j : String) → draft.id ≢ j → get_draft j none t ≡ get_draft j none s
    pub wallets : t.wallets ≡ s.wallets
    pub transactions : t.transactions ≡ s.transactions

  -- The parties pass the check, an identifier is given out, and the workflow admits the draft.
  abbrev pub IsAccepted : AuthContext → TransferRequest → Moment → Store → Type 0
  IsAccepted auth q m s =
      let mint = resolve_draft_id m.now "TR" q.instruction_id s in
      let today = (get_business_day s).business_date in
      ((check_transfer auth q s).0 ≡ ok tt)
      × (id : String) × (mint.0 ≡ ok id)
      × ((admit transfer_workflow Phase.create (stored auth q id today m) nobody.caller m mint.1).0
          ≡ ok tt)

  id_of : String → Result String → String
  id_of _ (ok id) = id
  id_of none_such (err _) = none_such
