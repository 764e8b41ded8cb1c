-- ===== src/Profiles.antt =====
-- auth/profile-enforcement.ts and auth/profile-authorization-middleware.ts: which client belongs to the
-- profile of a user, and which paths a profile may call.
use Prim.Native.Char.{Char, code}
use Prim.Native.String.{String, [], ◌∷◌}
use mathlib.Core.List.{List, [], ◌∷◌}
use text.Mathlib.Text.{starts_with}
use mock_pontes.Base.{
  ◌++◌, ◌==◌, Bool, true, false, not, ◌&&◌, ◌||◌, Option, some, none, nat_eq, if◌then◌else◌, given,
  or_else,
}
use mock_pontes.Result.{Rejection}

abbrev backend_service : String
backend_service = "esydlt-backend-service"

abbrev web_app : String
web_app = "esydlt-web-app"

abbrev is_backend_profile : String → Bool
is_backend_profile p = p == "EXTERNAL_USER"

abbrev is_web_app_profile : String → Bool
is_web_app_profile p =
    p == "PILOT_READ_WRITE"
    || (p == "PILOT_READ_ONLY" || (p == "REFERENTIAL_READ_ONLY" || p == "REFERENTIAL_READ_WRITE"))

unfoldable is_known_profile : String → Bool
is_known_profile p = is_backend_profile p || is_web_app_profile p

abbrev requires : String → String → String → String
requires profile name value = "Profile " ++ profile ++ " requires " ++ name ++ "=" ++ value

-- `validateClientIdForProfile`: nothing where the client is valid, else the error.
unfoldable client_error : String → String → Option String → Option String
client_error profile client secret =
    if is_backend_profile profile
    then if not (client == backend_service)
      then some (requires profile "client_id" backend_service)
      else if not (or_else secret "" == backend_service)
      then some (requires profile "client_secret" backend_service)
      else none
    else if is_web_app_profile profile && not (client == web_app)
    then some (requires profile "client_id" web_app)
    else none

-- A piece of a pattern: a fixed text, or `[^/]+`, which a fixed text from `/` on follows.
data Piece : Type 0 where
  fixed : String → Piece
  segment : Piece

is_slash : Char → Bool
is_slash c = nat_eq (code c) 47

drop_segment : String → String
drop_segment [] = []
drop_segment (c ∷ s) = let rest = drop_segment s in if is_slash c then c ∷ s else rest

-- The text after a fixed one.
strip : String → String → Option String
strip [] s = some s
strip (c ∷ p) [] = none
strip (c ∷ p) (d ∷ s) = let rest = strip p s in if nat_eq (code c) (code d) then rest else none

after_segment : String → Option String
after_segment [] = none
after_segment (c ∷ s) = if is_slash c then none else some (drop_segment s)

after_piece : Piece → String → Option String
after_piece (fixed p) s = strip p s
after_piece segment s = after_segment s

-- The pattern matches from the start of the text.
matches_here : List Piece → Option String → Bool
matches_here [] (some s) = true
matches_here (p ∷ ps) (some s) = matches_here ps (after_piece p s)
matches_here _ none = false

-- `p.test(path)`: the patterns are not anchored.
matches : List Piece → String → Bool
matches ps [] = matches_here ps (some [])
matches ps (c ∷ s) = matches_here ps (some (c ∷ s)) || matches ps s

matches_any : List (List Piece) → String → Bool
matches_any [] s = false
matches_any (ps ∷ rest) s = matches ps s || matches_any rest s

abbrev api : String → List Piece
api tail = fixed "/dlt/" ∷ segment ∷ fixed ("/api/" ++ tail) ∷ []

abbrev draft_action : String → List Piece
draft_action action =
    fixed "/dlt/"
    ∷ segment
    ∷ fixed "/api/octopus/rvs/transactions-drafts/"
    ∷ segment
    ∷ fixed action
    ∷ []

abbrev one_step_patterns : List (List Piece)
one_step_patterns =
    api "bridge/payments"
    ∷ api "bridge/direct-rtgs/"
    ∷ api "bridge/initpfod"
    ∷ api "bridge/pfod/"
    ∷ api "bridge/xvp/"
    ∷ []

abbrev draft_approve_patterns : List (List Piece)
draft_approve_patterns =
    api "octopus/rvs/transactions-requests"
    ∷ draft_action "/approve"
    ∷ draft_action "/cancel"
    ∷ api "octopus/tms/funding-requests"
    ∷ api "octopus/tms/funding-requests-drafts/"
    ∷ api "octopus/tms/defunding-requests"
    ∷ api "octopus/tms/defunding-requests-drafts/"
    ∷ api "octopus/tms/direct-rtgs/"
    ∷ []

abbrev not_authorized : String → String → Rejection
not_authorized profile needed = record {
  status_code = 403;
  error_code = "HL-AUTH-001";
  error_description =
      "Profile '" ++ profile ++ "' is not authorized for this operation. Required: " ++ needed;
}

-- The middleware, for a request that carries a profile under `/dlt`.
refuse_profile : String → String → Option Rejection
unfolding matches_any matches matches_here after_piece after_segment strip drop_segment is_slash
refuse_profile profile path =
    if matches_any one_step_patterns path && not (profile == "EXTERNAL_USER")
    then some (not_authorized profile "EXTERNAL_USER")
    else if matches_any draft_approve_patterns path && not (profile == "PILOT_READ_WRITE")
    then some (not_authorized profile "PILOT_READ_WRITE")
    else none

-- `createProfileAuthorizationMiddleware`: nothing where the request goes on.
unfoldable profile_error : Option String → String → Option Rejection
unfolding refuse_profile
profile_error profile path =
    if not (starts_with path "/dlt") || not (given profile)
    then none
    else refuse_profile (or_else profile "") path
