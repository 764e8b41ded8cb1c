-- ===== src/Window/Day.antt =====
-- The windows partition the day.
use mock_pontes.Base.{String, ◌≡◌, ◌↔◌, ◌⊎◌, true, false, str_lt, arith}
use mock_pontes.Base.Order.{str_lt_trans}
use mock_pontes.State.Types.{BusinessDay}
use mock_pontes.Window.{
  BusinessWindowName, start_of_day, open_for_all, end_of_day, closed, next_window_name,
  start_time_of, current_window, is_business_open,
}

-- The boundary times are in order, none before its predecessor.
abbrev pub IsOrdered : BusinessDay → Type 0
IsOrdered day =
    (str_lt day.ofa_start day.sod_start ≡ false)
    × (str_lt day.ofa_end day.ofa_start ≡ false)
    × (str_lt day.eod_end day.ofa_end ≡ false)

-- The time `t` is not before `a`, and before `b`.
abbrev pub IsWithin : String → String → String → Type 0
IsWithin a b t = (str_lt t a ≡ false) × (str_lt t b ≡ true)

-- The half-open intervals of the windows; the closed one is what lies outside the whole day.
abbrev pub Spans : BusinessDay → BusinessWindowName → String → Type 0
Spans day start_of_day t = IsWithin day.sod_start day.ofa_start t
Spans day open_for_all t = IsWithin day.ofa_start day.ofa_end t
Spans day end_of_day t = IsWithin day.ofa_end day.eod_end t
Spans day closed t = (str_lt t day.sod_start ≡ true) ⊎ (str_lt t day.eod_end ≡ false)

-- On a day whose boundaries are in order, the current window is the one whose interval holds the
-- time, and no other window's does; it ends where the next one starts, and the market is open
-- exactly in the windows other than the closed one.
pub current_window_iff :
    (day : BusinessDay) (t : String) (n : BusinessWindowName)
    → IsOrdered day
    → (((current_window day t).name ≡ n) ↔ Spans day n t)
      × ((current_window day t).start_time ≡ start_time_of day (current_window day t).name)
      × ((current_window day t).end_time ≡ start_time_of day (current_window day t).next_name)
      × ((is_business_open day t ≡ true) ↔ IsWithin day.sod_start day.eod_end t)
unfolding current_window is_business_open next_window_name
current_window_iff day t n (a, b, c) = ground (
  arith,
  str_lt_trans t day.sod_start day.ofa_start,
  str_lt_trans t day.ofa_start day.ofa_end,
  str_lt_trans t day.ofa_end day.eod_end,
)
