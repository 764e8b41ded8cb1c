-- ===== src/State/Participant.antt =====
-- state/participant-wallet.ts: the wallet that a participant uses, and how routes/xvp.ts answers where
-- there is none.
use mock_pontes.Base.{
  String, ◌≡◌, ◌≢◌, ◌⊎◌, ◌↔◌, inl, inr, ◌==◌, Bool, true, false, not, ◌&&◌, Option, none, some,
  List, [], ◌∷◌, if◌then◌else◌, given, or_else, is_text, arith, eq_iff, Option-cases, Bool-cases,
}
use mathlib.Core.Path.{subst}
use mock_pontes.Base.Dict.{lookup, values}
use mock_pontes.Base.Lists.{filter, find, first}
use mock_pontes.State.Types.{Wallet}
use mock_pontes.State.Record.{Store}
use mock_pontes.State.Store.{get_wallet, get_wallets}

pub data FailureReason : Type 0 where
  wallet_not_found no_participant_wallet : FailureReason

pub data Resolved : Type 0 where
  resolved : Wallet → Resolved
  unresolved : FailureReason → Resolved

-- `bic && wallet.ownerEntityID !== bic`
abbrev other_owner : Option String → Wallet → Bool
other_owner bic w = given bic && not (is_text bic w.owner_entity_id)

named_wallet : Option String → Option Wallet → Resolved
named_wallet bic none = unresolved wallet_not_found
named_wallet bic (some w) = if other_owner bic w then unresolved wallet_not_found else resolved w

-- `owned.find((w) => w.isMainWallet) ?? owned[0]`
chosen_wallet : Option Wallet → Option Wallet → Resolved
chosen_wallet (some main) fallback = resolved main
chosen_wallet none (some w) = resolved w
chosen_wallet none none = unresolved no_participant_wallet

abbrev owned_by : Option String → List Wallet → List Wallet
owned_by bic ws = if given bic then filter (λ w. is_text bic w.owner_entity_id) ws else []

unfoldable pub resolve_participant_wallet : Store → Option String → Option String → Resolved
unfolding named_wallet chosen_wallet
resolve_participant_wallet s bic explicit_alias =
    if given explicit_alias
    then named_wallet bic (get_wallet (or_else explicit_alias "") none s)
    else (let owned = owned_by bic (get_wallets none s) in
        chosen_wallet (find (λ w. w.is_main_wallet) owned) (first owned))

abbrev pub Member : {A : Type 0} → A → List A → Type 0
Member x [] = ⊥
Member x (y ∷ ys) = (y ≡ x) ⊎ Member x ys

module _ {A : Type 0} (p : A → Bool) where
  filter_iff : (x : A) (ys : List A) → Member x (filter p ys) ↔ (Member x ys × (p x ≡ true))
  filter_iff x [] = ground arith
  filter_iff x (y ∷ ys) = elim (Bool-cases (p y)) [
    | inl hit ↦ rw hit (ground (arith, filter_iff x ys, hit))
    | inr miss ↦ rw miss (ground (arith, filter_iff x ys, miss))
  ]

  find-some : (x : A) (ys : List A) → find p ys ≡ some x → Member x ys × (p x ≡ true)
  find-some x [] h = absurd (cc)
  find-some x (y ∷ ys) h = elim (Bool-cases (p y)) [
    | inl hit ↦ ground (arith, hit)
    | inr miss ↦ ground (arith, miss, find-some x ys)
  ]

  find-none : (x : A) (ys : List A) → find p ys ≡ none → Member x ys → p x ≡ false
  find-none x [] h m = absurd m
  find-none x (y ∷ ys) h m = ground (arith, find-none x ys)

first-some : {A : Type 0} (x : A) (ys : List A) → first ys ≡ some x → Member x ys
first-some x [] h = absurd (cc)
first-some x (y ∷ ys) h = ground arith

first-none : {A : Type 0} (x : A) (ys : List A) → first ys ≡ none → Member x ys → ⊥
first-none x [] h m = m
first-none x (y ∷ ys) h m = cc (h)

-- The wallet is stored, and the participant owns it.
abbrev pub Owns : String → Store → Wallet → Type 0
Owns b s w = Member w (values s.wallets) × (w.owner_entity_id ≡ b)

owned_by_iff :
    (b : String) (w : Wallet) (s : Store)
    → b ≢ ""
    → Member w (owned_by (some b) (get_wallets none s)) ↔ Owns b s w
unfolding get_wallets
owned_by_iff b w s ne =
    let known : (b == "") ≡ false = ground (arith, eq_iff b "") in
    rw known (
      ground (
        arith,
        filter_iff (λ (w : Wallet). b == w.owner_entity_id) w (values s.wallets),
        eq_iff b w.owner_entity_id,
      ))

named_wallet_iff :
    (b : String) (o : Option Wallet) (w : Wallet)
    → b ≢ ""
    → (named_wallet (some b) o ≡ resolved w) ↔ ((o ≡ some w) × (w.owner_entity_id ≡ b))
unfolding named_wallet
named_wallet_iff b none w ne = ground arith
named_wallet_iff b (some v) w ne = ground (arith, eq_iff b "", eq_iff b v.owner_entity_id)

explicit_iff :
    (s : Store) (b : String) (w : Wallet) (alias : String)
    → b ≢ ""
    → alias ≢ ""
    → (resolve_participant_wallet s (some b) (some alias) ≡ resolved w)
      ↔ ((lookup alias s.wallets ≡ some w) × (w.owner_entity_id ≡ b))
unfolding resolve_participant_wallet get_wallet
explicit_iff s b w alias ne named =
    let known : (alias == "") ≡ false = ground (arith, eq_iff alias "") in
    rw known (named_wallet_iff b (lookup alias s.wallets) w ne)

chosen : (ws : List Wallet) → Resolved
chosen ws = chosen_wallet (find (λ w. w.is_main_wallet) ws) (first ws)

chosen_resolved :
    (ws : List Wallet) (w : Wallet)
    → chosen ws ≡ resolved w
    → Member w ws × ((v : Wallet) → Member v ws → v.is_main_wallet ≡ true → w.is_main_wallet ≡ true)
unfolding chosen chosen_wallet
chosen_resolved ws w h = elim (Option-cases (find (λ (w : Wallet). w.is_main_wallet) ws)) [
  | inr (main, found) ↦
      let (there, is_main) = find-some (λ (w : Wallet). w.is_main_wallet) main ws found in
      let same : main ≡ w = ground (arith, found) in
      (subst (λ x. Member x ws) same there, λ v m p. rw (← same) is_main)
  | inl gone ↦ elim (Option-cases (first ws)) [
    | inl empty ↦ absurd (ground (arith, gone, empty))
    | inr (head, found) ↦
        let same : head ≡ w = ground (arith, gone, found) in
        (
          subst (λ x. Member x ws) same (first-some head ws found),
          λ v m p. absurd (cc (p, find-none (λ (w : Wallet). w.is_main_wallet) v ws gone m)),
        )
  ]
]

chosen_unresolved :
    (ws : List Wallet) (r : FailureReason)
    → chosen ws ≡ unresolved r
    → (v : Wallet) → Member v ws
    → ⊥
unfolding chosen chosen_wallet
chosen_unresolved [] r h v m = m
chosen_unresolved (x ∷ ws) r h v m =
    elim (Option-cases (find (λ (w : Wallet). w.is_main_wallet) (x ∷ ws))) [
      | inr (main, found) ↦ ground (arith, found)
      | inl gone ↦ ground (arith, gone)
    ]

-- The wallet of a participant with a BIC. Under an explicit alias it is the stored wallet of that
-- alias, provided the participant owns it. Otherwise it is a wallet that the participant owns, and a
-- main wallet if there is one among them, and there is none exactly if the participant owns none.
pub resolve_participant_wallet_iff :
    (s : Store) (b : String) (w : Wallet)
    → b ≢ ""
    → ((alias : String)
        → alias ≢ ""
        → (resolve_participant_wallet s (some b) (some alias) ≡ resolved w)
          ↔ ((lookup alias s.wallets ≡ some w) × (w.owner_entity_id ≡ b)))
      × (resolve_participant_wallet s (some b) none ≡ resolved w
          → Owns b s w
            × ((v : Wallet) → Owns b s v → v.is_main_wallet ≡ true → w.is_main_wallet ≡ true))
      × ((r : FailureReason)
          → resolve_participant_wallet s (some b) none ≡ unresolved r
          → (v : Wallet) → Owns b s v
          → ⊥)
unfolding resolve_participant_wallet chosen
resolve_participant_wallet_iff s b w ne =
    let ws = owned_by (some b) (get_wallets none s) in
    (
      (λ alias named. explicit_iff s b w alias ne named),
      (λ h.
          let (there, main) = chosen_resolved ws w h in
          ((owned_by_iff b w s ne).0 there, λ v owns. main v ((owned_by_iff b v s ne).1 owns))),
      (λ r h v owns. chosen_unresolved ws r h v ((owned_by_iff b v s ne).1 owns)),
    )
