-- ===== src/Base/Text.antt =====
-- Text: the slicing, padding and printing of numbers that the store mints identifiers with.
use Prim.Native.Nat.{ℕ, zero, suc, ◌+◌, ◌-◌, ◌*◌, ◌/◌, ◌%◌, ◌<◌}
use Prim.Native.Char.{Char, code}
use Prim.Native.String.{String, [], ◌∷◌, count}
use mathlib.Core.Path.{◌≡◌, refl, ◌∙◌, sym, ap}
use native.Mathlib.Omega.{arith}
use mock_pontes.Base.Tests.{ltb, nat_eq, if◌then◌else◌, Bool-cases}
use mathlib.Core.Logic.{inl, inr}

drop_chars : ℕ → String → String
drop_chars zero s = s
drop_chars (suc n) [] = []
drop_chars (suc n) (c ∷ s) = drop_chars n s

take_chars : ℕ → String → String
take_chars zero s = []
take_chars (suc n) [] = []
take_chars (suc n) (c ∷ s) = c ∷ take_chars n s

-- `s.slice(a, b)` for 0 ≤ a ≤ b
unfoldable pub slice_text : ℕ → ℕ → String → String
unfolding drop_chars take_chars
slice_text a b s = take_chars (b - a) (drop_chars a s)

-- `s.replace(/c/g, "")` for one character
unfoldable pub remove_char : ℕ → String → String
remove_char x [] = []
remove_char x (c ∷ s) = let rest = remove_char x s in if nat_eq (code c) x then rest else c ∷ rest

digit : ℕ → Char
digit zero = "0"
digit (suc zero) = "1"
digit (suc (suc zero)) = "2"
digit (suc (suc (suc zero))) = "3"
digit (suc (suc (suc (suc zero)))) = "4"
digit (suc (suc (suc (suc (suc zero))))) = "5"
digit (suc (suc (suc (suc (suc (suc zero)))))) = "6"
digit (suc (suc (suc (suc (suc (suc (suc zero))))))) = "7"
digit (suc (suc (suc (suc (suc (suc (suc (suc zero)))))))) = "8"
digit _ = "9"

-- Digits are produced from the last to the first, in front of what is there.
decimal_from : ℕ → ℕ → String → String
decimal_from zero n acc = acc
decimal_from (suc f) n acc =
    let longer = decimal_from f (n / 10) (digit (n % 10) ∷ acc) in
    if ltb n 10 then digit (n % 10) ∷ acc else longer

-- `String(n)`
unfoldable pub decimal : ℕ → String
unfolding decimal_from digit
decimal n = decimal_from (suc n) n []

zeros : ℕ → String → String
zeros zero s = s
zeros (suc n) s = "0" ∷ zeros n s

-- `s.padStart(width, "0")`
unfoldable pub pad_start : ℕ → String → String
unfolding zeros
pad_start width s = zeros (width - count s) s

-- The number that a string of digits stands for.
value_from : ℕ → String → ℕ
value_from acc [] = acc
value_from acc (c ∷ s) = value_from (acc * 10 + (code c - 48)) s

code-digit : (d : ℕ) → d < 10 → code (digit d) ≡ d + 48
unfolding digit
code-digit zero h = refl
code-digit (suc zero) h = refl
code-digit (suc (suc zero)) h = refl
code-digit (suc (suc (suc zero))) h = refl
code-digit (suc (suc (suc (suc zero)))) h = refl
code-digit (suc (suc (suc (suc (suc zero))))) h = refl
code-digit (suc (suc (suc (suc (suc (suc zero)))))) h = refl
code-digit (suc (suc (suc (suc (suc (suc (suc zero))))))) h = refl
code-digit (suc (suc (suc (suc (suc (suc (suc (suc zero)))))))) h = refl
code-digit (suc (suc (suc (suc (suc (suc (suc (suc (suc zero))))))))) h = refl
code-digit (suc (suc (suc (suc (suc (suc (suc (suc (suc (suc n)))))))))) h = absurd (omega arith)

value_from-decimal_from :
    (f n : ℕ) (acc : String) → n < f → value_from 0 (decimal_from f n acc) ≡ value_from n acc
unfolding decimal_from value_from
value_from-decimal_from zero n acc h = absurd (omega arith)
value_from-decimal_from (suc f) n acc h = elim (Bool-cases (ltb n 10)) [
  | inl small ↦
      let h' : n < 10 = ground arith in
      rw small (ap (λ k. value_from k acc) (omega (arith, code-digit (n % 10))))
  | inr large ↦ rw large (
      value_from-decimal_from f (n / 10) (digit (n % 10) ∷ acc) (ground arith)
      ∙ ap (λ k. value_from k acc) (omega (arith, code-digit (n % 10))))
]

value_from-zeros : (k : ℕ) (s : String) → value_from 0 (zeros k s) ≡ value_from 0 s
unfolding zeros value_from
value_from-zeros zero s = refl
value_from-zeros (suc k) s = value_from-zeros k s

value-padded : (width n : ℕ) → value_from 0 (pad_start width (decimal n)) ≡ n
unfolding pad_start decimal value_from
value-padded width n =
    value_from-zeros (width - count (decimal n)) (decimal n)
    ∙ value_from-decimal_from (suc n) n [] (omega arith)

-- Different numbers print differently, also when padded.
pub pad_start-decimal_inj :
    (width m n : ℕ) → pad_start width (decimal m) ≡ pad_start width (decimal n) → m ≡ n
pad_start-decimal_inj width m n e =
    sym (value-padded width m) ∙ ap (value_from 0) e ∙ value-padded width n
