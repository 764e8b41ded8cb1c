-- ===== src/Routes/Transfers/Secrecy.antt =====
-- The list of cash token transactions does not depend on XvP drafts, which hold the keys.
use mock_pontes.Base.{
  String, ◌≡◌, refl, sym, ◌∙◌, ap, Bool, Option, some, none, List, [], ◌∷◌, map, arith,
}
use mock_pontes.Base.Dict.{values}
use mock_pontes.Base.Lists.{filter}
use mock_pontes.State.Types.{Draft, Caller}
use mock_pontes.State.Record.{Store, get_business_day}
use mock_pontes.State.Store.{get_drafts, can_read_draft, scoped}
use mock_pontes.State.Store.Frame.{can_read_draft-wallets}
use mock_pontes.Http.{AuthContext, entity_caller}
use mock_pontes.Routes.Transfers.{ImsView, ims_transaction_view, list_transactions, is_not_xvp}

-- The entries of the drafts that are no XvP, in their order.
abbrev pub without_xvps : Store → List Draft
without_xvps s = filter is_not_xvp (values s.drafts)

filter_swap :
    (p q : Draft → Bool) (xs : List Draft) → filter p (filter q xs) ≡ filter q (filter p xs)
filter_swap p q [] = refl
filter_swap p q (x ∷ xs) = ground (arith, filter_swap p q xs)

-- The list as it would be without any XvP in the store.
listed-without_xvps :
    (caller : Option Caller) (s : Store)
    → filter is_not_xvp (get_drafts caller s) ≡ scoped (can_read_draft s) caller (without_xvps s)
unfolding get_drafts
listed-without_xvps none s = refl
listed-without_xvps (some c) s = filter_swap is_not_xvp (can_read_draft s c) (values s.drafts)

filter_same :
    (p q : Draft → Bool) → ((x : Draft) → p x ≡ q x) → (xs : List Draft) → filter p xs ≡ filter q xs
filter_same p q same [] = refl
filter_same p q same (x ∷ xs) = ground (arith, same x, filter_same p q same xs)

map_same :
    (f g : Draft → ImsView) → ((x : Draft) → f x ≡ g x) → (xs : List Draft) → map f xs ≡ map g xs
map_same f g same [] = refl
map_same f g same (x ∷ xs) = λ i. same x i ∷ map_same f g same xs i

scoped_same :
    (s t : Store) (caller : Option Caller) (xs : List Draft)
    → s.wallets ≡ t.wallets
    → scoped (can_read_draft s) caller xs ≡ scoped (can_read_draft t) caller xs
scoped_same s t none xs e = refl
scoped_same s t (some c) xs e =
    filter_same (can_read_draft s c) (can_read_draft t c) (can_read_draft-wallets s t e c) xs

view_same :
    (network : String) (s t : Store)
    → s.business_window ≡ t.business_window
    → (d : Draft) → ims_transaction_view network s d ≡ ims_transaction_view network t d
unfolding ims_transaction_view get_business_day
view_same network s t e d =
    ap (λ w. ims_transaction_view network (record t { business_window = w }) d) e

-- Two stores with the same wallets, the same business day and the same drafts other than XvPs answer
-- the list of cash token transactions alike, to everyone: nothing in it depends on an XvP, or even
-- shows that there is one.
pub list_transactions-independent :
    (network : String) (auth : AuthContext) (s t : Store)
    → s.wallets ≡ t.wallets
    → s.business_window ≡ t.business_window
    → without_xvps s ≡ without_xvps t
    → list_transactions network auth s ≡ list_transactions network auth t
unfolding list_transactions
list_transactions-independent network auth s t wallets day others =
    let caller = entity_caller auth in
    ap (map (ims_transaction_view network s)) (
      listed-without_xvps caller s
      ∙ ap (scoped (can_read_draft s) caller) others
      ∙ scoped_same s t caller (without_xvps t) wallets
      ∙ sym (listed-without_xvps caller t))
    ∙ map_same (ims_transaction_view network s) (ims_transaction_view network t)
        (view_same network s t day) (filter is_not_xvp (get_drafts caller t))
