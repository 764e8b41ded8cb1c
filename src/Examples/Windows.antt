-- ===== src/Examples/Windows.antt =====
-- The theorems on the business day, at its default and one update.
use mock_pontes.Base.{◌==◌, List, ◌≡◌, refl, ◌↔◌, true, none, some, [], ◌∷◌}
use mock_pontes.Base.Dict.{lookup}
use mock_pontes.State.Types.{BusinessDay}
use mock_pontes.State.Record.{
  Store, BusinessDayUpdate, default_business_day, set_business_day, merge_day,
}
use mock_pontes.Window.{
  BusinessWindowName, current_window, is_business_open, start_time_of, open_for_all,
}
use mock_pontes.Window.Day.{IsOrdered, IsWithin, Spans, current_window_iff}
use mock_pontes.Window.Guard.{
  Paths, WindowRule, segments_match, Matches, segments_match_iff, business_window_decision,
  is_official_api_path, allowed_windows_for_request, Allows, blocked_iff,
}
use mock_pontes.Window.Views.{updates, updates-IsOrdered}
use mock_pontes.Examples.Books.{books}
use mock_pontes.Window.Shapes.{is_hhmm}
use mock_pontes.Window.Update.{
  text, object, validate_business_day_update, check_order, IsCoherent, accepted-IsCoherent,
}

abbrev today : BusinessDay
today = default_business_day "2024-02-01"

current_window_iff_example :
    (((current_window today "09:30").name ≡ open_for_all) ↔ Spans today open_for_all "09:30")
    × ((current_window today "09:30").start_time
        ≡ start_time_of today (current_window today "09:30").name)
    × ((current_window today "09:30").end_time
        ≡ start_time_of today (current_window today "09:30").next_name)
    × ((is_business_open today "09:30" ≡ true) ↔ IsWithin today.sod_start today.eod_end "09:30")
current_window_iff_example = current_window_iff today "09:30" open_for_all (refl, refl, refl)

-- The market opens later.
abbrev later_opening : BusinessDayUpdate
later_opening = record {
  business_date = none;
  sod_start = none;
  ofa_start = some "07:00";
  ofa_end = none;
  eod_end = none;
}

accepted-IsCoherent_example :
    IsCoherent later_opening today
    × ((s : Store)
        → s.business_window ≡ today
        → IsOrdered (set_business_day later_opening s).business_window)
unfolding validate_business_day_update check_order merge_day is_hhmm lookup
accepted-IsCoherent_example =
    accepted-IsCoherent (object (("ofaStart", text "07:00") ∷ [])) today later_opening refl

instance abbrev paths : Paths
paths = record {
  segments = λ s. "" ∷ "igw" ∷ "BDF" ∷ "v1" ∷ "xvps" ∷ [];
  upper = λ s. s;
  ends_with = λ s t. s == "{ncb}";
}

abbrev xvp_rule : WindowRule
xvp_rule = record {
  method = "POST";
  segs = "" ∷ "igw" ∷ "{ncb}" ∷ "v1" ∷ "xvps" ∷ [];
  windows = open_for_all ∷ [];
}

segments_match_iff_example :
    (segments_match ("" ∷ "igw" ∷ "BDF" ∷ []) ("" ∷ "igw" ∷ "{ncb}" ∷ []) ≡ true)
    ↔ Matches ("" ∷ "igw" ∷ "BDF" ∷ []) ("" ∷ "igw" ∷ "{ncb}" ∷ [])
segments_match_iff_example =
    segments_match_iff ("" ∷ "igw" ∷ "BDF" ∷ []) ("" ∷ "igw" ∷ "{ncb}" ∷ [])

blocked_iff_example :
    let rules = xvp_rule ∷ [] in
    ((business_window_decision rules "POST" "/igw/BDF/v1/xvps" today "23:59").blocked ≡ true) ↔ (
      (is_official_api_path "/igw/BDF/v1/xvps" ≡ true)
      × (ws : List BusinessWindowName) × (allowed_windows_for_request rules "POST"
            "/igw/BDF/v1/xvps"
          ≡ some ws)
      × (Allows ws (current_window today "23:59").name → ⊥))
blocked_iff_example = blocked_iff (xvp_rule ∷ []) "POST" "/igw/BDF/v1/xvps" today "23:59"

updates-IsOrdered_example :
    IsOrdered
      (updates ((object (("ofaStart", text "07:00") ∷ []), "09:30") ∷ []) books).business_window
updates-IsOrdered_example =
    updates-IsOrdered ((object (("ofaStart", text "07:00") ∷ []), "09:30") ∷ []) books
      (refl, refl, refl)
