-- ===== src/Http/Patterns.antt =====
-- The two regular expressions of http/request-validation.ts, and the path of a field in a message.
pub mod Decimal
use Prim.Native.Char.{Char, code}
use Prim.Native.String.{String, [], ◌∷◌, count}
use mock_pontes.Base.{
  ℕ, zero, suc, ◌+◌, ◌-◌, ◌*◌, ◌^◌, ◌≤◌, ◌<◌, ◌≡◌, refl, arith, Bool, true, false, ◌&&◌, ◌||◌, leb,
  nat_eq, if◌then◌else◌,
}

is_digit : Char → Bool
is_digit c = leb 48 (code c) && leb (code c) 57

-- `\d{0,n}$`
digits_to_end : ℕ → String → Bool
digits_to_end n [] = true
digits_to_end zero (c ∷ s) = false
digits_to_end (suc n) (c ∷ s) = is_digit c && digits_to_end n s

-- `(\.\d{0,2})?$`
fraction_to_end : String → Bool
fraction_to_end [] = true
fraction_to_end (c ∷ s) = nat_eq (code c) 46 && digits_to_end 2 s

-- `\d{0,n}(\.\d{0,2})?$`
amount_to_end : ℕ → String → Bool
amount_to_end n [] = true
amount_to_end zero (c ∷ s) = fraction_to_end (c ∷ s)
amount_to_end (suc n) (c ∷ s) = if is_digit c then amount_to_end n s else fraction_to_end (c ∷ s)

-- `MONEY_PATTERN`, `^\d{1,15}(\.\d{0,2})?$`
unfoldable pub is_money : String → Bool
unfolding is_digit digits_to_end fraction_to_end amount_to_end
is_money [] = false
is_money (c ∷ s) = is_digit c && amount_to_end 14 s

-- `[A-Za-z0-9_-]`
is_plain : Char → Bool
is_plain c =
    is_digit c
    || (leb 65 (code c) && leb (code c) 90)
    || (leb 97 (code c) && leb (code c) 122)
    || nat_eq (code c) 95
    || nat_eq (code c) 45

all_plain : String → Bool
all_plain [] = true
all_plain (c ∷ s) = is_plain c && all_plain s

-- `SUPPLEMENTARY_DATA_PATTERN`, `^[A-Za-z0-9_-]{0,30}$`
unfoldable pub is_supplementary : String → Bool
unfolding all_plain is_plain is_digit
is_supplementary s = leb (count s) 30 && all_plain s

dots : String → String
dots [] = []
dots (c ∷ s) = let rest = dots s in if nat_eq (code c) 47 then "." ∷ rest else c ∷ rest

drop_slash : String → String
drop_slash [] = []
drop_slash (c ∷ s) = if nat_eq (code c) 47 then s else c ∷ s

-- `p ? p.replace(/^\//, "").replace(/\//g, ".") : "(body)"`
unfoldable pub field_path : String → String
unfolding dots drop_slash
field_path [] = "(body)"
field_path (c ∷ s) = dots (drop_slash (c ∷ s))

-- The whole euros of an amount, read from what was read so far.
whole_from : ℕ → String → ℕ
whole_from acc [] = acc
whole_from acc (c ∷ s) =
    let rest = whole_from (acc * 10 + (code c - 48)) s in if is_digit c then rest else acc

-- The number of whole euros that a text starts with.
unfoldable pub whole_euros : String → ℕ
unfolding whole_from is_digit
whole_euros s = whole_from 0 s

-- The bound that n more digits take the bound b to.
grow : ℕ → ℕ → ℕ
grow zero b = b
grow (suc n) b = grow n (b * 10)

le-grow : (n b : ℕ) → b ≤ grow n b
unfolding grow
le-grow zero b = omega arith
le-grow (suc n) b = omega (arith, le-grow n (b * 10))

whole_from-fraction : (acc : ℕ) (s : String) → fraction_to_end s ≡ true → whole_from acc s ≡ acc
unfolding whole_from fraction_to_end is_digit
whole_from-fraction acc [] h = refl
whole_from-fraction acc (c ∷ s) h = ground arith

digit-bound : (c : Char) → is_digit c ≡ true → code c - 48 ≤ 9
unfolding is_digit
digit-bound c h = ground arith

whole_from-bound :
    (n acc b : ℕ) (s : String) → amount_to_end n s ≡ true → acc < b → whole_from acc s < grow n b
unfolding whole_from amount_to_end grow
whole_from-bound n acc b [] h le = omega (arith, le-grow n b)
whole_from-bound zero acc b (c ∷ s) h le = omega (arith, whole_from-fraction acc (c ∷ s) h)
whole_from-bound (suc n) acc b (c ∷ s) h le = ground (
  arith,
  whole_from-bound n (acc * 10 + (code c - 48)) (b * 10) s,
  whole_from-fraction acc (c ∷ s),
  le-grow (suc n) b,
  digit-bound c,
)

-- An amount that the pattern accepts is below 10^15 euros.
pub is_money-bound : (s : String) → is_money s ≡ true → whole_euros s < 10 ^ 15
unfolding is_money whole_euros whole_from grow
is_money-bound [] h = absurd (cc)
is_money-bound (c ∷ s) h = ground (arith, whole_from-bound 14 (code c - 48) 10 s, digit-bound c)
