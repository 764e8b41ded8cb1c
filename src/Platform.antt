-- ===== src/Platform.antt =====
-- What the code takes from the JavaScript runtime and does not implement: IEEE doubles with their
-- parsing and printing, and dates. It is a parameter of the model. Instants are counted in
-- milliseconds from the earliest instant that a `Date` holds, so they are natural numbers.
use mock_pontes.Base.{ℕ, ◌+◌, ◌-◌, ◌≤◌, String, ◌≡◌, Bool, true, Option, ltb}

pub record Platform : Type 1 where
  pub Num : Type 0
  -- `Number.parseFloat(s)` and `Number.isFinite(n)`
  pub parse_float : String → Num
  pub is_finite : Num → Bool
  pub num_zero : Num
  pub add : Num → Num → Num
  pub sub : Num → Num → Num
  pub mul : Num → Num → Num
  -- the double nearest to a natural number
  pub num_of : ℕ → Num
  -- `a < b`, false where one of them is NaN
  pub lt : Num → Num → Bool
  -- `n.toFixed(2)`
  pub to_fixed : Num → String
  -- `s.trim()`
  pub trim : String → String
  -- `new Date(s).getTime()`, where `none` is an invalid date
  pub date_ms : String → Option ℕ
  -- `new Date(t).toISOString()`
  pub iso : ℕ → String
  -- `date.getTime()`
  pub time_of : ℕ → Num
  -- `new Date(n).toISOString()`, where `none` is the RangeError of an invalid date
  pub iso_time : Num → Option String

-- Doubles are exact on amounts of whole cents up to `limit`: what IEEE arithmetic with rounding by
-- `toFixed(2)` gives well below 2^53 units in the last place. `cents n` is the double nearest to
-- n / 100, and `text n` its two-decimal string.
pub record IsExact (js : Platform) : Type 0 where
  pub limit : ℕ
  pub cents : ℕ → js.Num
  pub text : ℕ → String
  pub parse_text : (n : ℕ) → n ≤ limit → js.parse_float (text n) ≡ cents n
  pub finite_cents : (n : ℕ) → n ≤ limit → js.is_finite (cents n) ≡ true
  pub zero_cents : js.num_zero ≡ cents 0
  pub lt_cents : (a b : ℕ) → a ≤ limit → b ≤ limit → js.lt (cents a) (cents b) ≡ ltb a b
  pub fixed_add :
      (a b : ℕ) → a + b ≤ limit → js.to_fixed (js.add (cents a) (cents b)) ≡ text (a + b)
  pub fixed_sub :
      (a b : ℕ) → a ≤ limit → b ≤ a → js.to_fixed (js.sub (cents a) (cents b)) ≡ text (a - b)
