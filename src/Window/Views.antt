-- ===== src/Window/Views.antt =====
-- routes/business-window.ts and admin/business-window.ts: what the endpoints answer about the business
-- day, and the update of the day by an administrator, after the test of the token.
use mock_pontes.Base.{String, ◌≡◌, refl, Bool, List, [], ◌∷◌}
use mock_pontes.Result.{Rejection, rejected}
use mock_pontes.Exec.{Exec, throw, modify, gets, ◌>>◌}
use mock_pontes.State.Types.{BusinessDay}
use mock_pontes.State.Record.{Store, get_business_day, set_business_day}
use mock_pontes.Window.{
  BusinessWindowName, BusinessWindowInfo, window_display_name, business_windows, current_window,
  is_business_open,
}
use mock_pontes.Window.Day.{IsOrdered}
use mock_pontes.Window.Update.{
  Body, Validated, accepted, refused, validate_business_day_update, accepted-IsCoherent,
}

pub record BridgeView : Type 0 where
  pub window_name : String
  pub start_time : String
  pub end_time : String

unfoldable pub bridge_view : String → Store → BridgeView
bridge_view t s =
    let cw = current_window (get_business_day s) t in
    record { window_name = cw.display_name; start_time = cw.start_time; end_time = cw.end_time }

pub record GrsView : Type 0 where
  pub window_name : String
  pub start_time : String
  pub end_time : String
  pub next_window_name : String

unfoldable pub grs_view : String → Store → GrsView
grs_view t s =
    let cw = current_window (get_business_day s) t in
    record {
      window_name = cw.display_name;
      start_time = cw.start_time;
      end_time = cw.end_time;
      next_window_name = window_display_name cw.next_name;
    }

pub record BusinessDateView : Type 0 where
  pub business_date : String
  pub update_bd_status : String

unfoldable pub business_date_view : Store → BusinessDateView
business_date_view s = record {
  business_date = (get_business_day s).business_date;
  update_bd_status = "UPDATE_NOT_ALLOWED";
}

unfoldable pub business_windows_view : Store → List BusinessWindowInfo
business_windows_view s = business_windows (get_business_day s)

pub record AdminView : Type 0 where
  pub day : BusinessDay
  pub current : BusinessWindowName
  pub window_name : String
  pub window_start_time : String
  pub window_end_time : String
  pub next_window_name : String
  pub is_open : Bool

-- `businessWindowView`
unfoldable pub business_window_view : String → Store → AdminView
business_window_view t s =
    let cw = current_window (get_business_day s) t in
    record {
      day = get_business_day s;
      current = cw.name;
      window_name = cw.display_name;
      window_start_time = cw.start_time;
      window_end_time = cw.end_time;
      next_window_name = window_display_name cw.next_name;
      is_open = is_business_open (get_business_day s) t;
    }

abbrev invalid_day : String → Rejection
invalid_day why = record { status_code = 400; error_code = "HL-VAL-001"; error_description = why }

apply_update : String → Validated → Exec Store AdminView
apply_update t (refused why) = throw (rejected (invalid_day why))
apply_update t (accepted u) = modify (set_business_day u) >> gets (business_window_view t)

unfoldable pub update_business_day : Body → String → Exec Store AdminView
unfolding apply_update
update_business_day body t s =
    apply_update t (validate_business_day_update body (get_business_day s)) s

-- The store after a sequence of updates, refused ones included.
unfoldable pub updates : List (Body × String) → Store → Store
updates [] s = s
updates ((body, t) ∷ rest) s = updates rest (update_business_day body t s).1

update-IsOrdered :
    (body : Body) (t : String) (s : Store)
    → IsOrdered s.business_window
    → IsOrdered (update_business_day body t s).1.business_window
unfolding update_business_day apply_update get_business_day
update-IsOrdered body t s h = go (validate_business_day_update body s.business_window) refl
  where
    go :
        (v : Validated)
        → validate_business_day_update body s.business_window ≡ v
        → IsOrdered (apply_update t v s).1.business_window
    go (refused why) e = h
    go (accepted u) e = (accepted-IsCoherent body s.business_window u e).1 s refl

-- Whatever updates administrators send, the boundary times of the stored day stay in order.
pub updates-IsOrdered :
    (us : List (Body × String)) (s : Store)
    → IsOrdered s.business_window
    → IsOrdered (updates us s).business_window
unfolding updates
updates-IsOrdered [] s h = h
updates-IsOrdered ((body, t) ∷ rest) s h =
    updates-IsOrdered rest (update_business_day body t s).1 (update-IsOrdered body t s h)
