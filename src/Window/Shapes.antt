-- ===== src/Window/Shapes.antt =====
-- The patterns `HHMM` and `DATE` of state/business-window.ts.
use Prim.Native.Char.{Char, code}
use Prim.Native.String.{String, [], ◌∷◌}
use mock_pontes.Base.{ℕ, Bool, false, ◌&&◌, ◌||◌, leb, nat_eq}

is_digit : Char → Bool
is_digit c = leb 48 (code c) && leb (code c) 57

between : ℕ → ℕ → Char → Bool
between a b c = leb a (code c) && leb (code c) b

-- `HHMM`, the pattern `^([01]\d|2[0-3]):[0-5]\d$`
unfoldable pub is_hhmm : String → Bool
unfolding is_digit between
is_hhmm (a ∷ b ∷ c ∷ d ∷ e ∷ []) =
    ((between 48 49 a && is_digit b) || (nat_eq (code a) 50 && between 48 51 b))
    && nat_eq (code c) 58
    && between 48 53 d
    && is_digit e
is_hhmm _ = false

-- `DATE`, the pattern `^\d{4}-\d{2}-\d{2}$`
unfoldable pub is_date : String → Bool
unfolding is_digit
is_date (a ∷ b ∷ c ∷ d ∷ h ∷ e ∷ f ∷ i ∷ j ∷ k ∷ []) =
    is_digit a
    && is_digit b
    && is_digit c
    && is_digit d
    && nat_eq (code h) 45
    && is_digit e
    && is_digit f
    && nat_eq (code i) 45
    && is_digit j
    && is_digit k
is_date _ = false
