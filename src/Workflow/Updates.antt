-- ===== src/Workflow/Updates.antt =====
-- What approval and cancellation write to a draft, and that they touch no other draft.
use mock_pontes.Base.{ℕ, String, ◌≡◌, refl, ◌≢◌, Option, none, some, List, arith, eq_iff, eq_refl}
use mock_pontes.Base.Dict.{Dict, lookup}
use mock_pontes.Platform.{Platform}
use mock_pontes.State.Types.{Draft, DraftStatus, Stamp, canceled}
use mock_pontes.State.Record.{Store, get_business_day}
use mock_pontes.State.Store.{update_draft}
use mock_pontes.State.Store.Frame.{lookup-update_draft}
use mock_pontes.Workflow.{
  Moment, Actor, settle_draft, cancel_draft, append_status, lifecycle_append,
}

-- `e` is the draft `d` in a new state, with the instruction itself unchanged.
pub record IsUpdate (status : DraftStatus) (d e : Draft) : Type 0 where
  pub status_set : e.status ≡ status
  pub id : e.id ≡ d.id
  pub type : e.type ≡ d.type
  pub amount : e.amount ≡ d.amount
  pub currency : e.currency ≡ d.currency
  pub credited : e.credited_wallet_alias ≡ d.credited_wallet_alias
  pub debited : e.debited_wallet_alias ≡ d.debited_wallet_alias
  pub initiator : e.initiator_user_uuid ≡ d.initiator_user_uuid

IsUpdate-stamp :
    (stamp : String) (status : DraftStatus) (d e : Draft)
    → IsUpdate status d e
    → IsUpdate status d (record e { updated_at = stamp })
IsUpdate-stamp stamp status d e h = record {
  status_set = h.status_set;
  id = h.id;
  type = h.type;
  amount = h.amount;
  currency = h.currency;
  credited = h.credited;
  debited = h.debited;
  initiator = h.initiator;
}

reflexive :
    (status : DraftStatus) (d : Draft) (uuid name : Option String)
    → IsUpdate status d
        (record d { status = status; approver_user_uuid = uuid; approver_user_name = name })
reflexive status d uuid name = record {
  status_set = refl;
  id = refl;
  type = refl;
  amount = refl;
  currency = refl;
  credited = refl;
  debited = refl;
  initiator = refl;
}

module _ ⦃js : Platform⦄ where
  append_status-IsUpdate :
      (m : Moment) (today text : String) (status : DraftStatus) (o : Option (List String))
      (stamps : Option (Dict Stamp)) (e e' : Draft)
      → IsUpdate status e e'
      → IsUpdate status e (append_status m today text o stamps e')
  unfolding append_status
  append_status-IsUpdate m today text status none stamps e e' h = h
  append_status-IsUpdate m today text status (some trail) stamps e e' h = record {
    status_set = h.status_set;
    id = h.id;
    type = h.type;
    amount = h.amount;
    currency = h.currency;
    credited = h.credited;
    debited = h.debited;
    initiator = h.initiator;
  }

  append_status-approver :
      (m : Moment) (today text : String) (o : Option (List String)) (stamps : Option (Dict Stamp))
      (e : Draft)
      → (append_status m today text o stamps e).approver_user_uuid ≡ e.approver_user_uuid
  unfolding append_status
  append_status-approver m today text none stamps e = refl
  append_status-approver m today text (some trail) stamps e = refl

  -- A draft under `id` that is overwritten by an update of it.
  found_after :
      (now : ℕ) (id : String) (f : Draft → Draft) (d : Draft) (s : Store)
      → lookup id s.drafts ≡ some d
      → lookup id (update_draft now id f s).drafts ≡ some (record (f d) { updated_at = js.iso now })
  found_after now id f d s h = rw (lookup-update_draft now id id f s, eq_refl id, h)

  others_after :
      (now : ℕ) (id j : String) (f : Draft → Draft) (s : Store)
      → id ≢ j
      → lookup j (update_draft now id f s).drafts ≡ lookup j s.drafts
  others_after now id j f s ne = rw (lookup-update_draft now id j f s) (ground (arith, eq_iff id j))

  -- Settlement puts the draft in the settled state, signed by the approver.
  pub settle_draft-found :
      (m : Moment) (actor : Actor) (id : String) (d : Draft) (s : Store)
      → lookup id s.drafts ≡ some d
      → (e : Draft) × (lookup id (settle_draft m actor id d s).drafts ≡ some e)
        × IsUpdate DraftStatus.settled d e
        × (e.approver_user_uuid ≡ actor.approver_user_uuid)
  unfolding settle_draft lifecycle_append
  settle_draft-found m actor id d s h =
      let signed : Draft = record d {
        status = DraftStatus.settled;
        approver_user_uuid = actor.approver_user_uuid;
        approver_user_name = actor.approver_user_name;
      } in
      let today = (get_business_day s).business_date in
      let updated = append_status m today "SETTLED" d.historic_status d.timestamps signed in
      (
        record updated { updated_at = js.iso m.now },
        found_after m.now id _ d s h,
        IsUpdate-stamp (js.iso m.now) DraftStatus.settled d updated (
            append_status-IsUpdate m today "SETTLED" DraftStatus.settled d.historic_status
              d.timestamps d signed
              (reflexive DraftStatus.settled d actor.approver_user_uuid actor.approver_user_name)),
        append_status-approver m today "SETTLED" d.historic_status d.timestamps signed,
      )

  pub settle_draft-others :
      (m : Moment) (actor : Actor) (id j : String) (d : Draft) (s : Store)
      → id ≢ j
      → lookup j (settle_draft m actor id d s).drafts ≡ lookup j s.drafts
  unfolding settle_draft
  settle_draft-others m actor id j d s ne = others_after m.now id j _ s ne

  -- Cancellation puts the draft in the canceled state.
  pub cancel_draft-found :
      (m : Moment) (id : String) (d : Draft) (s : Store)
      → lookup id s.drafts ≡ some d
      → (e : Draft) × (lookup id (cancel_draft m id d s).drafts ≡ some e) × IsUpdate canceled d e
  unfolding cancel_draft lifecycle_append
  cancel_draft-found m id d s h =
      let ended : Draft = record d { status = canceled } in
      let today = (get_business_day s).business_date in
      let updated = append_status m today "CANCELED" d.historic_status d.timestamps ended in
      (
        record updated { updated_at = js.iso m.now },
        found_after m.now id _ d s h,
        IsUpdate-stamp (js.iso m.now) canceled d updated (
            append_status-IsUpdate m today "CANCELED" canceled d.historic_status d.timestamps d
              ended (reflexive canceled d d.approver_user_uuid d.approver_user_name)),
      )

  pub cancel_draft-others :
      (m : Moment) (id j : String) (d : Draft) (s : Store)
      → id ≢ j
      → lookup j (cancel_draft m id d s).drafts ≡ lookup j s.drafts
  unfolding cancel_draft
  cancel_draft-others m id j d s ne = others_after m.now id j _ s ne
