-- ===== src/Window/Update.antt =====
-- `validateBusinessDayUpdate` of state/business-window.ts: the fields of the body are checked one by
-- one, then the order of the merged times. A JSON value that is not a text is `other`.
use mock_pontes.Base.{
  String, ◌++◌, Bool, true, false, not, Option, none, some, List, [], ◌∷◌, map, if◌then◌else◌,
  str_lt, ◌≡◌, arith, Bool-cases, inl, inr,
}
use mock_pontes.Base.Dict.{Dict, lookup}
use mock_pontes.Base.Lists.{filter, includes}
use mock_pontes.State.Types.{BusinessDay}
use mock_pontes.State.Record.{Store, BusinessDayUpdate, merge_day, set_business_day}
use mock_pontes.Window.Day.{IsOrdered}
use mock_pontes.Window.Shapes.{is_hhmm, is_date}

pub data Json : Type 0 where
  text : String → Json
  other : Json

pub data Body : Type 0 where
  not_an_object : Body
  object : Dict Json → Body

pub data Validated : Type 0 where
  accepted : BusinessDayUpdate → Validated
  refused : String → Validated

abbrev business_day_fields : List String
business_day_fields = "businessDate" ∷ "sodStart" ∷ "ofaStart" ∷ "ofaEnd" ∷ "eodEnd" ∷ []

-- `list.join(", ")`
abbrev pub join : List String → String
join [] = ""
join (s ∷ []) = s
join (s ∷ t ∷ ts) = s ++ ", " ++ join (t ∷ ts)

-- A field of the body: absent, of the right shape, or neither.
pub data Field : Type 0 where
  absent wrong : Field
  given_text : String → Field

check_field : (String → Bool) → Option Json → Field
check_field p none = absent
check_field p (some (text s)) = if p s then given_text s else wrong
check_field p (some other) = wrong

abbrev field_text : Field → Option String
field_text (given_text s) = some s
field_text _ = none

abbrev is_wrong : Field → Bool
is_wrong wrong = true
is_wrong _ = false

abbrev time_error : String → String
time_error field = field ++ " must be a 24-hour HH:mm value (00:00–23:59)."

-- One round of the loop that checks the order.
abbrev order_error : String → String → String → String → String
order_error cur cur_time prev prev_time =
    "Times must be in increasing order (sodStart ≤ ofaStart ≤ ofaEnd ≤ eodEnd): " ++ cur ++ " ("
    ++ cur_time ++ ") is before " ++ prev ++ " (" ++ prev_time ++ ")."

unfoldable pub check_order : BusinessDay → BusinessDayUpdate → Validated
check_order merged u =
    if str_lt merged.ofa_start merged.sod_start
    then refused (order_error "ofaStart" merged.ofa_start "sodStart" merged.sod_start)
    else if str_lt merged.ofa_end merged.ofa_start
    then refused (order_error "ofaEnd" merged.ofa_end "ofaStart" merged.ofa_start)
    else if str_lt merged.eod_end merged.ofa_end
    then refused (order_error "eodEnd" merged.eod_end "ofaEnd" merged.ofa_end)
    else accepted u

check_fields : BusinessDay → Field → Field → Field → Field → Field → Validated
check_fields current date sod ofa ofa_end eod =
    if is_wrong sod
    then refused (time_error "sodStart")
    else if is_wrong ofa
    then refused (time_error "ofaStart")
    else if is_wrong ofa_end
    then refused (time_error "ofaEnd")
    else if is_wrong eod
    then refused (time_error "eodEnd")
    else if is_wrong date
    then refused "businessDate must be an ISO date (YYYY-MM-DD)."
    else (let u : BusinessDayUpdate = record {
      business_date = field_text date;
      sod_start = field_text sod;
      ofa_start = field_text ofa;
      ofa_end = field_text ofa_end;
      eod_end = field_text eod;
    } in
        check_order (merge_day current u) u)

unknown_fields : Dict Json → List String
unknown_fields input = filter (λ k. not (includes business_day_fields k)) (map (λ e. e.0) input)

check_unknown : List String → Validated → Validated
check_unknown [] next = next
check_unknown (k ∷ ks) next =
    refused
      ("Unknown field(s): " ++ join (k ∷ ks) ++ ". Allowed: " ++ join business_day_fields ++ ".")

check_object : Dict Json → BusinessDay → Validated
check_object [] current = refused ("Provide at least one of: " ++ join business_day_fields ++ ".")
check_object (e ∷ es) current =
    let input = e ∷ es in
    check_unknown (unknown_fields input) (
      check_fields current (check_field is_date (lookup "businessDate" input))
        (check_field is_hhmm (lookup "sodStart" input))
        (check_field is_hhmm (lookup "ofaStart" input))
        (check_field is_hhmm (lookup "ofaEnd" input)) (check_field is_hhmm (lookup "eodEnd" input)))

unfoldable pub validate_business_day_update : Body → BusinessDay → Validated
unfolding check_object check_unknown unknown_fields check_fields check_field is_hhmm is_date
validate_business_day_update not_an_object current = refused "Request body must be a JSON object."
validate_business_day_update (object input) current = check_object input current

-- A field of an update, if given, has the shape.
abbrev pub HasShape : (String → Bool) → Option String → Type 0
HasShape p none = Unit
HasShape p (some s) = p s ≡ true

-- The texts of an update have the shapes of their fields, and it leaves a day whose times are in order.
pub record IsCoherent (u : BusinessDayUpdate) (day : BusinessDay) : Type 0 where
  pub date : HasShape is_date u.business_date
  pub sod : HasShape is_hhmm u.sod_start
  pub ofa : HasShape is_hhmm u.ofa_start
  pub ofa_end : HasShape is_hhmm u.ofa_end
  pub eod : HasShape is_hhmm u.eod_end
  pub ordered : IsOrdered (merge_day day u)

check_field-HasShape :
    (p : String → Bool) (o : Option Json) → HasShape p (field_text (check_field p o))
unfolding check_field
check_field-HasShape p none = tt
check_field-HasShape p (some (text s)) = elim (Bool-cases (p s)) [
  | inl right ↦ rw right right
  | inr mistaken ↦ rw mistaken tt
]
check_field-HasShape p (some other) = tt

check_order-IsOrdered :
    (d : BusinessDay) (u v : BusinessDayUpdate)
    → check_order d u ≡ accepted v
    → (u ≡ v) × IsOrdered d
unfolding check_order
check_order-IsOrdered d u v h = ground arith

check_fields_accepted :
    (day : BusinessDay) (a b c d e : Field) (v : BusinessDayUpdate)
    → check_fields day a b c d e ≡ accepted v
    → let u : BusinessDayUpdate = record {
      business_date = field_text a;
      sod_start = field_text b;
      ofa_start = field_text c;
      ofa_end = field_text d;
      eod_end = field_text e;
    } in
      (u ≡ v) × IsOrdered (merge_day day u)
unfolding check_fields
check_fields_accepted day a b c d e v h =
    let u : BusinessDayUpdate = record {
      business_date = field_text a;
      sod_start = field_text b;
      ofa_start = field_text c;
      ofa_end = field_text d;
      eod_end = field_text e;
    } in
    check_order-IsOrdered (merge_day day u) u v (ground arith)

check_unknown_accepted :
    (ks : List String) (next : Validated) (v : BusinessDayUpdate)
    → check_unknown ks next ≡ accepted v
    → next ≡ accepted v
unfolding check_unknown
check_unknown_accepted [] next v h = h
check_unknown_accepted (k ∷ ks) next v h = absurd (cc)

-- An update that is accepted has texts of the right shapes only, and leaves a day whose times are
-- in order, whatever the day was before: the store keeps such a day.
pub accepted-IsCoherent :
    (body : Body) (day : BusinessDay) (u : BusinessDayUpdate)
    → validate_business_day_update body day ≡ accepted u
    → IsCoherent u day
      × ((s : Store) → s.business_window ≡ day → IsOrdered (set_business_day u s).business_window)
unfolding validate_business_day_update check_object set_business_day
accepted-IsCoherent not_an_object day u h = absurd (cc)
accepted-IsCoherent (object []) day u h = absurd (cc)
accepted-IsCoherent (object (e ∷ es)) day u h =
    let input = e ∷ es in
    let date = check_field is_date (lookup "businessDate" input) in
    let sod = check_field is_hhmm (lookup "sodStart" input) in
    let ofa = check_field is_hhmm (lookup "ofaStart" input) in
    let ofa_end = check_field is_hhmm (lookup "ofaEnd" input) in
    let eod = check_field is_hhmm (lookup "eodEnd" input) in
    let (same, ordered) =
      check_fields_accepted day date sod ofa ofa_end eod u
        (check_unknown_accepted (unknown_fields input) _ u h) in
    rw (← same) (
      record {
        date = check_field-HasShape is_date (lookup "businessDate" input);
        sod = check_field-HasShape is_hhmm (lookup "sodStart" input);
        ofa = check_field-HasShape is_hhmm (lookup "ofaStart" input);
        ofa_end = check_field-HasShape is_hhmm (lookup "ofaEnd" input);
        eod = check_field-HasShape is_hhmm (lookup "eodEnd" input);
        ordered = ordered;
      },
      λ s e. rw e ordered,
    )
