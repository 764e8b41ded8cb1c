-- ===== src/Http/ErrorResponse/Kept.antt =====
-- The error bodies that the normalisation keeps, told from the fields that they have.
use mock_pontes.Base.{
  String, ◌≡◌, ◌⊎◌, inl, inr, Bool, true, false, ◌||◌, Option, none, some, arith, refl,
  Option-cases, Bool-cases,
}
use mock_pontes.Http.Json.{Value, prop, is_in, is_object, num, text, is_num}
use mock_pontes.Http.ErrorResponse.{is_error_response_shape, is_session_error_shape, given_text}

-- The body has the field `k`.
abbrev pub Has : String → Value → Type 0
Has k body = (v : Value) × (prop k body ≡ some v)

abbrev pub Lacks : String → Value → Type 0
Lacks k body = prop k body ≡ none

-- Fields `status`, `title` and `businessErrors`.
abbrev pub IsShaped : Value → Type 0
IsShaped body = Has "status" body × Has "title" body × Has "businessErrors" body

-- A number as `status` and texts as `message` and `code`, and none of the fields of the other shapes.
abbrev pub IsSession : Value → Type 0
IsSession body =
    ((n : String) × (prop "status" body ≡ some (num n)))
    × ((m : String) × (prop "message" body ≡ some (text m)))
    × ((c : String) × (prop "code" body ≡ some (text c)))
    × Lacks "title" body
    × Lacks "businessErrors" body
    × Lacks "error" body

-- A field of the errors of OAuth.
abbrev pub IsOauth : Value → Type 0
IsOauth body = Has "error" body ⊎ Has "error_description" body

-- What is left as it is: the official shape, a session error, an OAuth error of the token endpoint, and
-- what has no field of an error.
abbrev pub IsKept : Bool → Value → Type 0
IsKept token_endpoint body =
    IsShaped body
    ⊎ IsSession body
    ⊎ ((token_endpoint ≡ true) × IsOauth body)
    ⊎ (Lacks "error" body × Lacks "error_description" body × Lacks "businessErrors" body)

is_in-Has : (k : String) (body : Value) → is_in k body ≡ true → Has k body
is_in-Has k body h = elim (Option-cases (prop k body)) [
  | inl gone ↦ absurd (ground (arith, h, gone))
  | inr found ↦ found
]

pub not_in-Lacks : (k : String) (body : Value) → is_in k body ≡ false → Lacks k body
not_in-Lacks k body h = elim (Option-cases (prop k body)) [
  | inl gone ↦ gone
  | inr (v, found) ↦ absurd (ground (arith, h, found))
]

Has-in : (k : String) (body : Value) → Has k body → is_in k body ≡ true
Has-in k body (v, found) = rw (is_in, found) refl

Lacks-in : (k : String) (body : Value) → Lacks k body → is_in k body ≡ false
Lacks-in k body gone = rw (is_in, gone) refl

num_of : (o : Option Value) → is_num o ≡ true → (n : String) × (o ≡ some (num n))
num_of (some (num n)) h = (n, refl)
num_of o h = absurd (ground (arith, h))

text_of : (o : Option Value) → given_text o ≡ true → (s : String) × (o ≡ some (text s))
text_of (some (text s)) h = (s, refl)
text_of o h = absurd (ground (arith, h))

pub IsShaped-of : (body : Value) → is_error_response_shape body ≡ true → IsShaped body
unfolding is_error_response_shape
IsShaped-of body h = (
  is_in-Has "status" body (ground (arith, h)),
  is_in-Has "title" body (ground (arith, h)),
  is_in-Has "businessErrors" body (ground (arith, h)),
)

shape-IsShaped :
    (body : Value) → is_object body ≡ true → IsShaped body → is_error_response_shape body ≡ true
unfolding is_error_response_shape
shape-IsShaped body o (a, b, c) =
    rw (o, Has-in "status" body a, Has-in "title" body b, Has-in "businessErrors" body c) refl

pub IsSession-of : (body : Value) → is_session_error_shape body ≡ true → IsSession body
unfolding is_session_error_shape
IsSession-of body h = (
  num_of (prop "status" body) (ground (arith, h)),
  text_of (prop "message" body) (ground (arith, h)),
  text_of (prop "code" body) (ground (arith, h)),
  not_in-Lacks "title" body (ground (arith, h)),
  not_in-Lacks "businessErrors" body (ground (arith, h)),
  not_in-Lacks "error" body (ground (arith, h)),
)

session-IsSession : (body : Value) → IsSession body → is_session_error_shape body ≡ true
unfolding is_session_error_shape
session-IsSession body ((n, a), (m, b), (c, d), x, y, z) =
    rw (a, b, d, Lacks-in "title" body x, Lacks-in "businessErrors" body y, Lacks-in "error" body z)
      refl

abbrev pub marks : Value → Bool
marks body = is_in "error" body || is_in "error_description" body

pub IsOauth-of : (body : Value) → marks body ≡ true → IsOauth body
IsOauth-of body h = elim (Bool-cases (is_in "error" body)) [
  | inl e ↦ inl (is_in-Has "error" body e)
  | inr e ↦ inr (is_in-Has "error_description" body (ground (arith, h, e)))
]

marks-IsOauth : (body : Value) → IsOauth body → marks body ≡ true
marks-IsOauth body (inl e) = rw (Has-in "error" body e) refl
marks-IsOauth body (inr e) = ground (arith, Has-in "error_description" body e)

-- Whatever is kept, one of the tests says so.
pub kept_tests :
    (token_endpoint : Bool) (body : Value)
    → is_object body ≡ true
    → IsKept token_endpoint body
    → (is_error_response_shape body ≡ true)
      ⊎ (is_session_error_shape body ≡ true)
      ⊎ ((token_endpoint ≡ true) × (marks body ≡ true))
      ⊎ ((marks body ≡ false) × (is_in "businessErrors" body ≡ false))
kept_tests tok body o (inl shaped) = inl (shape-IsShaped body o shaped)
kept_tests tok body o (inr (inl session)) = inr (inl (session-IsSession body session))
kept_tests tok body o (inr (inr (inl (t, oauth)))) = inr (inr (inl (t, marks-IsOauth body oauth)))
kept_tests tok body o (inr (inr (inr (a, b, c)))) = inr (
    inr (
      inr (
        rw (Lacks-in "error" body a, Lacks-in "error_description" body b) refl,
        Lacks-in "businessErrors" body c,
      )))
