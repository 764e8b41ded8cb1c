-- ===== src/State/Record.antt =====
-- The state of state/memory-store.ts, its write-through to the cache, and the operations on the
-- whole of it. A write to the cache is taken to have finished when the operation returns.
use mock_pontes.Base.{ℕ, String, Option, none, some, List, [], ◌∷◌, or_else}
use mathlib.Core.Option
use mock_pontes.Base.Dict.{Dict, insert, values}
use mock_pontes.State.Types.{Wallet, Transaction, Draft, BusinessDay}

-- The four keys that the store writes to the cache, each absent until the first write.
pub record Cache : Type 0 where
  pub wallets : Option (List Wallet)
  pub drafts : Option (List Draft)
  pub transactions : Option (List Transaction)
  pub sequences : Option (Dict ℕ)

pub record Store : Type 0 where
  pub wallets : Dict Wallet
  pub transactions : List Transaction
  pub drafts : Dict Draft
  pub sequences : Dict ℕ
  pub business_window : BusinessDay
  pub valid_ncbs : List String
  -- absent when no cache is configured
  pub cache : Option Cache

-- `Partial<BusinessDay>`
pub record BusinessDayUpdate : Type 0 where
  pub business_date : Option String
  pub sod_start : Option String
  pub ofa_start : Option String
  pub ofa_end : Option String
  pub eod_end : Option String

-- `OFFICIAL_NCBS` of auth/ncb-middleware.ts
abbrev pub official_ncbs : List String
official_ncbs =
    "OENB" ∷ "NBB" ∷ "BNB" ∷ "CBC" ∷ "BBK" ∷ "EP" ∷ "BDE" ∷ "ECB" ∷ "BOF" ∷ "BDF" ∷ "BOG" ∷ "CNB"
    ∷ "CBI" ∷ "BDI" ∷ "BOL" ∷ "BCL" ∷ "LB" ∷ "CBM" ∷ "DNB" ∷ "BDP" ∷ "BSI" ∷ "NBS" ∷ "SPCB" ∷ []

-- `DEFAULT_BUSINESS_DAY`; the date is that of the start of the process.
abbrev pub default_business_day : String → BusinessDay
default_business_day today = record {
  business_date = today;
  sod_start = "00:00";
  ofa_start = "00:01";
  ofa_end = "23:58";
  eod_end = "23:59";
}

-- `new MemoryStore(cache)`
abbrev pub new_store : String → Option Cache → Store
new_store today cache = record {
  wallets = [];
  transactions = [];
  drafts = [];
  sequences = [];
  business_window = default_business_day today;
  valid_ncbs = official_ncbs;
  cache = cache;
}

-- `persist`: nothing without a cache.
unfoldable pub persist : (Cache → Cache) → Store → Store
persist put s = record s { cache = Option.map put s.cache }

unfoldable pub persist_wallets : Store → Store
unfolding persist
persist_wallets s = persist (λ c. record c { wallets = some (values s.wallets) }) s

unfoldable pub persist_drafts : Store → Store
unfolding persist
persist_drafts s = persist (λ c. record c { drafts = some (values s.drafts) }) s

unfoldable pub persist_transactions : Store → Store
unfolding persist
persist_transactions s = persist (λ c. record c { transactions = some s.transactions }) s

unfoldable pub persist_sequences : Store → Store
unfolding persist
persist_sequences s = persist (λ c. record c { sequences = some s.sequences }) s

-- `new Map(list.map((x) => [key(x), x]))`, added to the map so far
unfoldable pub index {ℓ} : {V : Type ℓ} → (V → String) → List V → Dict V → Dict V
index key [] d = d
index key (v ∷ vs) d = index key vs (insert (key v) v d)

-- `new Map(entries)`, added to the map so far
unfoldable pub from_entries {ℓ} : {V : Type ℓ} → Dict V → Dict V → Dict V
from_entries [] d = d
from_entries ((k, v) ∷ es) d = from_entries es (insert k v d)

-- `hydrate`
unfoldable pub hydrate : Store → Store
unfolding index from_entries insert
hydrate s = elim s.cache [
  | none ↦ s
  | some c ↦ record s {
    wallets = elim c.wallets [ none ↦ s.wallets | some ws ↦ index (λ w. w.alias) ws [] ];
    drafts = elim c.drafts [ none ↦ s.drafts | some ds ↦ index (λ d. d.id) ds [] ];
    transactions = elim c.transactions [ none ↦ s.transactions | some ts ↦ ts ];
    sequences = elim c.sequences [ none ↦ s.sequences | some es ↦ from_entries es [] ];
  }
]

unfoldable pub get_business_day : Store → BusinessDay
get_business_day s = s.business_window

-- `{ ...day, ...update }`
unfoldable pub merge_day : BusinessDay → BusinessDayUpdate → BusinessDay
merge_day day u = record {
  business_date = or_else u.business_date day.business_date;
  sod_start = or_else u.sod_start day.sod_start;
  ofa_start = or_else u.ofa_start day.ofa_start;
  ofa_end = or_else u.ofa_end day.ofa_end;
  eod_end = or_else u.eod_end day.eod_end;
}

unfoldable pub set_business_day : BusinessDayUpdate → Store → Store
unfolding merge_day
set_business_day u s = record s { business_window = merge_day s.business_window u }

unfoldable get_valid_ncbs : Store → List String
get_valid_ncbs s = s.valid_ncbs

unfoldable reset : String → Store → Store
unfolding persist_wallets persist_drafts persist_transactions persist_sequences
reset today s = persist_sequences (
    persist_transactions (
      persist_drafts (
        persist_wallets (record s {
          wallets = [];
          transactions = [];
          drafts = [];
          sequences = [];
          business_window = default_business_day today;
        }))))
