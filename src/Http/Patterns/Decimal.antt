-- ===== src/Http/Patterns/Decimal.antt =====
-- What the money pattern accepts, told from the characters.
use Prim.Native.Char.{Char, code}
use Prim.Native.String.{String, [], ◌∷◌}
use text.Mathlib.TextLemmas.{cons-append, nil-append}
use mock_pontes.Base.{
  ℕ, zero, suc, ◌≤◌, ◌≡◌, refl, sym, ◌∙◌, ap, ◌⊎◌, inl, inr, ◌++◌, true, arith, Bool-cases,
}
use mock_pontes.Http.Patterns.{is_digit, digits_to_end, fraction_to_end, amount_to_end, is_money}

-- Every character is one of `0` to `9`, and there are at most `n`.
abbrev pub Digits : ℕ → String → Type 0
Digits n [] = Unit
Digits zero (c ∷ s) = ⊥
Digits (suc n) (c ∷ s) = (48 ≤ code c) × (code c ≤ 57) × Digits n s

-- Nothing, or a point and at most two digits.
abbrev pub IsFraction : String → Type 0
IsFraction s =
    (s ≡ "") ⊎ ((point : Char) × (f : String) × (s ≡ point ∷ f) × (code point ≡ 46) × Digits 2 f)

-- At most `n` digits, and a fraction after them.
abbrev pub IsDecimal : ℕ → String → Type 0
IsDecimal n s =
    (whole : String) × (rest : String) × (s ≡ whole ++ rest) × Digits n whole × IsFraction rest

-- A text that starts with a digit.
abbrev pub StartsInDigit : String → Type 0
StartsInDigit s = (c : Char) × (t : String) × (s ≡ c ∷ t) × (48 ≤ code c) × (code c ≤ 57)

low : (c : Char) → is_digit c ≡ true → 48 ≤ code c
unfolding is_digit
low c h = ground arith

high : (c : Char) → is_digit c ≡ true → code c ≤ 57
unfolding is_digit
high c h = ground arith

digits : (n : ℕ) (s : String) → digits_to_end n s ≡ true → Digits n s
unfolding digits_to_end
digits n [] h = tt
digits zero (c ∷ s) h = absurd (cc)
digits (suc n) (c ∷ s) h =
    let digit : is_digit c ≡ true = ground (arith, h) in
    (low c digit, high c digit, digits n s (ground (arith, h)))

fraction : (s : String) → fraction_to_end s ≡ true → IsFraction s
unfolding fraction_to_end
fraction [] h = inl refl
fraction (c ∷ s) h =
    let point : code c ≡ 46 = ground (arith, h) in
    inr (c, s, refl, point, digits 2 s (ground (arith, h)))

-- One digit more.
another :
    (n : ℕ) (c : Char) (s : String) → is_digit c ≡ true → IsDecimal n s → IsDecimal (suc n) (c ∷ s)
another n c s digit (whole, rest, e, all, end) = (
  c ∷ whole,
  rest,
  ap (λ x. c ∷ x) e ∙ sym (cons-append c whole rest),
  (low c digit, high c digit, all),
  end,
)

no_digit : (n : ℕ) (s : String) → IsFraction s → IsDecimal n s
no_digit n s end = ([], s, sym (nil-append s), tt, end)

tail_of : (n : ℕ) (s : String) → amount_to_end n s ≡ true → IsDecimal n s
unfolding amount_to_end
tail_of n [] h = no_digit n [] (inl refl)
tail_of zero (c ∷ s) h = no_digit zero (c ∷ s) (fraction (c ∷ s) h)
tail_of (suc n) (c ∷ s) h = elim (Bool-cases (is_digit c)) [
  | inl digit ↦ another n c s digit (tail_of n s (rw digit at h))
  | inr other ↦ no_digit (suc n) (c ∷ s) (fraction (c ∷ s) (rw other at h))
]

pub is_money-IsDecimal : (s : String) → is_money s ≡ true → StartsInDigit s × IsDecimal 15 s
unfolding is_money
is_money-IsDecimal [] h = absurd (cc)
is_money-IsDecimal (c ∷ s) h =
    let digit : is_digit c ≡ true = ground (arith, h) in
    (
      (c, s, refl, low c digit, high c digit),
      another 14 c s digit (tail_of 14 s (ground (arith, h))),
    )
