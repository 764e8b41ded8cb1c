-- ===== src/Window/Guard.antt =====
-- http/business-window-guard.ts and the lookup of http/business-window-rules.ts, with `segmentsMatch` of
-- http/not-implemented.ts. The rules, which the code reads from the vendored specification, are an
-- argument; the query string, the segments of a path and upper case are the runtime's.
use mock_pontes.Base.{
  ℕ, ◌+◌, nat_eq, ◌⊎◌, inl, inr, Option-cases, String, ◌≡◌, ◌↔◌, ◌==◌, Bool, true, false, not, ◌&&◌,
  ◌||◌, Option, none, some, List, [], ◌∷◌, map, if◌then◌else◌, arith, eq_iff,
}
use text.Mathlib.Text.{starts_with}
use mock_pontes.Base.Lists.{find}
use mock_pontes.State.Types.{BusinessDay}
use mock_pontes.Window.{BusinessWindowName, window_display_name, current_window, same_window}

-- `path.split("?")[0].split("/")`, `method.toUpperCase()` and `s.endsWith(t)`
pub record Paths : Type 0 where
  pub segments : String → List String
  pub upper : String → String
  pub ends_with : String → String → Bool

pub record WindowRule : Type 0 where
  pub method : String
  pub segs : List String
  pub windows : List BusinessWindowName

unfoldable pub is_official_api_path : String → Bool
is_official_api_path path = starts_with path "/dlt/" || starts_with path "/igw/"

abbrev has_window : List BusinessWindowName → BusinessWindowName → Bool
has_window [] n = false
has_window (m ∷ ms) n = same_window m n || has_window ms n

abbrev pub size : List String → ℕ
size [] = 0
size (s ∷ ss) = size ss + 1

pub record BusinessWindowDecision : Type 0 where
  pub blocked : Bool
  pub window_name : Option String
  pub allowed : Option (List String)

module _ ⦃ps : Paths⦄ where
  abbrev is_parameter : String → Bool
  is_parameter t = starts_with t "{" && ps.ends_with t "}"

  -- the loop, for two lists of one length
  segments_agree : List String → List String → Bool
  segments_agree (r ∷ rs) (t ∷ ts) = (is_parameter t || t == r) && segments_agree rs ts
  segments_agree _ _ = true

  unfoldable pub segments_match : List String → List String → Bool
  unfolding segments_agree
  segments_match req_segs tmpl_segs =
      if not (nat_eq (size req_segs) (size tmpl_segs))
      then false
      else segments_agree req_segs tmpl_segs

  unfoldable pub allowed_windows_for_request :
      List WindowRule → String → String → Option (List BusinessWindowName)
  unfolding segments_match
  allowed_windows_for_request rules method path =
      elim (find (λ r. r.method == ps.upper method && segments_match (ps.segments path) r.segs)
        rules) [ none ↦ none | some r ↦ some r.windows ]

  decide_for : Option (List BusinessWindowName) → BusinessDay → String → BusinessWindowDecision
  decide_for none day t = record { blocked = false; window_name = none; allowed = none }
  decide_for (some windows) day t =
      let cw = current_window day t in
      record {
        blocked = not (has_window windows cw.name);
        window_name = some cw.display_name;
        allowed = some (map window_display_name windows);
      }

  unfoldable pub business_window_decision :
      List WindowRule → String → String → BusinessDay → String → BusinessWindowDecision
  unfolding decide_for
  business_window_decision rules method path day t =
      if not (is_official_api_path path)
      then record { blocked = false; window_name = none; allowed = none }
      else decide_for (allowed_windows_for_request rules method path) day t

-- The window is in the list.
abbrev pub Allows : List BusinessWindowName → BusinessWindowName → Type 0
Allows [] n = ⊥
Allows (m ∷ ms) n = (m ≡ n) ⊎ Allows ms n

same_window_iff : (m n : BusinessWindowName) → (same_window m n ≡ true) ↔ (m ≡ n)
same_window_iff m n = ground arith

has_window_iff :
    (ms : List BusinessWindowName) (n : BusinessWindowName) → (has_window ms n ≡ true) ↔ Allows ms n
has_window_iff [] n = ground arith
has_window_iff (m ∷ ms) n = ground (arith, same_window_iff m n, has_window_iff ms n)

module _ ⦃ps : Paths⦄ where
  -- A segment of the template is a parameter, or is the segment of the request.
  abbrev pub Matches : List String → List String → Type 0
  Matches [] [] = Unit
  Matches (r ∷ rs) (t ∷ ts) = ((is_parameter t ≡ true) ⊎ (t ≡ r)) × Matches rs ts
  Matches _ _ = ⊥

  -- The match of a request with a template holds segment by segment.
  pub segments_match_iff : (rs ts : List String) → (segments_match rs ts ≡ true) ↔ Matches rs ts
  unfolding segments_match segments_agree
  segments_match_iff [] [] = ground arith
  segments_match_iff [] (t ∷ ts) = ground arith
  segments_match_iff (r ∷ rs) [] = ground arith
  segments_match_iff (r ∷ rs) (t ∷ ts) = ground (arith, eq_iff t r, segments_match_iff rs ts)

  -- A request is blocked exactly if its path is on the official surface, a rule governs it, and the
  -- current window is not one that the rule allows.
  pub blocked_iff :
      (rules : List WindowRule) (method path : String) (day : BusinessDay) (t : String)
      → ((business_window_decision rules method path day t).blocked ≡ true) ↔ (
          (is_official_api_path path ≡ true)
          × (ws : List BusinessWindowName) × (allowed_windows_for_request rules method path
              ≡ some ws)
          × (Allows ws (current_window day t).name → ⊥))
  unfolding business_window_decision decide_for
  blocked_iff rules method path day t =
      elim (Option-cases (allowed_windows_for_request rules method path)) [
        | inl none_there ↦
            (λ h. absurd (ground (arith, none_there)), λ h. absurd (cc (h.2, none_there)))
        | inr (ws, there) ↦ (
          (λ h. (
            ground (arith, there),
            ws,
            there,
            ground (arith, there, has_window_iff ws (current_window day t).name),
          )),
          λ h.
              let (official, ws', there', outside) = h in
              let blocked : has_window ws' (current_window day t).name ≡ false =
                ground (arith, has_window_iff ws' (current_window day t).name, outside) in
              ground (arith, official, there', blocked),
        )
      ]
