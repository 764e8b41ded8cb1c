-- ===== src/Result.antt =====
-- What the code throws, and functions that return a value or throw. The messages of `Error` objects
-- are tags with a payload: each is a constructor of `DcwError`.
use mock_pontes.Base.{ℕ, String, ◌≡◌, refl, ◌⊎◌, inl, inr}

-- `new Error("TAG:payload")` as thrown by the store and the wallet operations
pub data DcwError : Type 0 where
  wallet_not_found : String → DcwError
  debit_denied : String → DcwError
  invalid_amount : String → DcwError
  negative_amount : DcwError
  insufficient_available : DcwError
  insufficient_locked : DcwError

-- `class WorkflowRejection`
pub record Rejection : Type 0 where
  pub status_code : ℕ
  pub error_code : String
  pub error_description : String

pub data Failure : Type 0 where
  dcw_error : DcwError → Failure
  rejected : Rejection → Failure
  -- an error of the runtime, or one that no handler tells apart, with its message
  thrown : String → Failure

pub data Result {ℓ} (A : Type ℓ) : Type ℓ where
  ok : A → Result A
  err : Failure → Result A

infixl 5 ◌>>=◌
abbrev pub ◌>>=◌ {ℓ κ} : {A : Type ℓ} {B : Type κ} → Result A → (A → Result B) → Result B
ok a >>= f = f a
err e >>= f = err e

pub Result-cases {ℓ} :
    {A : Type ℓ} (r : Result A) → ((a : A) × (r ≡ ok a)) ⊎ ((e : Failure) × (r ≡ err e))
Result-cases (ok a) = inl (a, refl)
Result-cases (err e) = inr (e, refl)
