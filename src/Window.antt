-- ===== src/Window.antt =====
-- state/business-window.ts: the windows of a business day, and the validation of an update of its
-- boundary times. The wall-clock time in Frankfurt is an argument.
pub mod Day
pub mod Shapes
pub mod Update
pub mod Views
pub mod Guard
use mock_pontes.Base.{
  ℕ, zero, suc, ◌+◌, ◌%◌, String, ◌++◌, ◌==◌, Bool, true, false, not, Option, none, some, List, [],
  ◌∷◌, map, if◌then◌else◌, or_else, str_lt,
}
use mock_pontes.State.Types.{BusinessDay}

pub data BusinessWindowName : Type 0 where
  start_of_day open_for_all end_of_day closed : BusinessWindowName

-- `WINDOW_SEQUENCE`
abbrev pub window_sequence : List BusinessWindowName
window_sequence = start_of_day ∷ open_for_all ∷ end_of_day ∷ closed ∷ []

-- `DISPLAY_NAME`
abbrev pub window_display_name : BusinessWindowName → String
window_display_name start_of_day = "Start of Day"
window_display_name open_for_all = "Open for All"
window_display_name end_of_day = "End of Day"
window_display_name closed = "Closed"

-- `WINDOW_ID`
abbrev pub window_id : BusinessWindowName → String
window_id start_of_day = "9c1f7b1a-0000-4000-8000-000000000001"
window_id open_for_all = "9c1f7b1a-0000-4000-8000-000000000002"
window_id end_of_day = "9c1f7b1a-0000-4000-8000-000000000003"
window_id closed = "9c1f7b1a-0000-4000-8000-000000000004"

abbrev all_roles : List String
all_roles =
    "Operator" ∷ "NationalCashTokenSupervisor" ∷ "CashTokenSupervisor"
    ∷ "DedicatedCashWalletManager" ∷ "DedicatedCashWalletCustodian" ∷ "DedicatedCashWalletOwner"
    ∷ "DedicatedCashWalletUser" ∷ []

-- `AUTHORIZED_ROLES`
abbrev pub authorized_roles : BusinessWindowName → List String
authorized_roles closed = "Operator" ∷ []
authorized_roles _ = all_roles

abbrev same_window : BusinessWindowName → BusinessWindowName → Bool
same_window start_of_day start_of_day = true
same_window open_for_all open_for_all = true
same_window end_of_day end_of_day = true
same_window closed closed = true
same_window _ _ = false

-- `list.indexOf(name)` for a name that is there
index_of : BusinessWindowName → List BusinessWindowName → ℕ
index_of name [] = 0
index_of name (n ∷ ns) = let later = index_of name ns in if same_window n name then 0 else suc later

-- `list[i]` for an index that is there
window_at : ℕ → List BusinessWindowName → BusinessWindowName
window_at i [] = closed
window_at zero (n ∷ ns) = n
window_at (suc i) (n ∷ ns) = window_at i ns

unfoldable pub next_window_name : BusinessWindowName → BusinessWindowName
unfolding index_of window_at
next_window_name name = window_at ((index_of name window_sequence + 1) % 4) window_sequence

pub record BusinessWindowInfo : Type 0 where
  pub window : String
  pub next_window : String
  pub name : String
  pub start_time : String
  pub roles : List String

-- `startTimeOf`
abbrev pub start_time_of : BusinessDay → BusinessWindowName → String
start_time_of day start_of_day = day.sod_start
start_time_of day open_for_all = day.ofa_start
start_time_of day end_of_day = day.ofa_end
start_time_of day closed = day.eod_end

abbrev window_info : BusinessDay → BusinessWindowName → BusinessWindowInfo
window_info day n = record {
  window = window_id n;
  next_window = window_id (next_window_name n);
  name = window_display_name n;
  start_time = start_time_of day n;
  roles = authorized_roles n;
}

unfoldable pub business_windows : BusinessDay → List BusinessWindowInfo
business_windows day = map (window_info day) window_sequence

-- `frankfurtTimeHHmm`, of the hour and the minute that the runtime formats
unfoldable frankfurt_time : Option String → Option String → String
frankfurt_time hour minute =
    let hh = or_else hour "00" in (if hh == "24" then "00" else hh) ++ ":" ++ or_else minute "00"

pub record CurrentWindow : Type 0 where
  pub name : BusinessWindowName
  pub display_name : String
  pub start_time : String
  pub end_time : String
  pub next_name : BusinessWindowName

abbrev window_from : BusinessWindowName → String → String → CurrentWindow
window_from n start end = record {
  name = n;
  display_name = window_display_name n;
  start_time = start;
  end_time = end;
  next_name = next_window_name n;
}

unfoldable pub current_window : BusinessDay → String → CurrentWindow
current_window day t =
    if str_lt t day.sod_start
    then window_from closed day.eod_end day.sod_start
    else if str_lt t day.ofa_start
    then window_from start_of_day day.sod_start day.ofa_start
    else if str_lt t day.ofa_end
    then window_from open_for_all day.ofa_start day.ofa_end
    else if str_lt t day.eod_end
    then window_from end_of_day day.ofa_end day.eod_end
    else window_from closed day.eod_end day.sod_start

unfoldable pub is_business_open : BusinessDay → String → Bool
is_business_open day t = not (same_window (current_window day t).name closed)
