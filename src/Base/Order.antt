-- ===== src/Base/Order.antt =====
-- The order of texts by code units, as far as the code relies on it.
use Prim.Native.Nat.{compare as compare_ℕ, Ordering}
use Prim.Native.Char.{Char, code}
use Prim.Native.String.compare as compare_text
use Prim.Native.String.{String, [], ◌∷◌, compare, then}
use mathlib.Core.Path.{◌≡◌, refl, sym, ◌∙◌, ap}
use mathlib.Core.Bool.{Bool, true, false, ◌&&◌, ◌||◌}
use native.Mathlib.Omega.{arith}
use mock_pontes.Base.Tests.{str_lt, ltb, nat_eq}

is_lt : Ordering → Bool
is_lt Ordering.lt = true
is_lt _ = false

is_eq : Ordering → Bool
is_eq Ordering.eq = true
is_eq _ = false

is_lt-then : (o p : Ordering) → is_lt (then o p) ≡ (is_lt o || (is_eq o && is_lt p))
unfolding is_lt is_eq
is_lt-then Ordering.lt p = refl
is_lt-then Ordering.eq p = refl
is_lt-then Ordering.gt p = refl

less : (s t : String) → str_lt s t ≡ is_lt (compare s t)
unfolding is_lt
less s t = go (compare s t)
  where
    go : (o : Ordering) → (elim o as (λ k. Bool) [ Ordering.lt ↦ true | _ ↦ false ]) ≡ is_lt o
    go Ordering.lt = refl
    go Ordering.eq = refl
    go Ordering.gt = refl

str_lt-cons :
    (a b : Char) (s t : String)
    → str_lt (a ∷ s) (b ∷ t) ≡ (ltb (code a) (code b) || (nat_eq (code a) (code b) && str_lt s t))
unfolding is_lt is_eq
str_lt-cons a b s t =
    less (a ∷ s) (b ∷ t)
    ∙ ap is_lt (compare_text.cons-cons a b s t)
    ∙ is_lt-then (compare_ℕ (code a) (code b)) (compare s t)

nil-cons : (d : Char) (t : String) → str_lt [] (d ∷ t) ≡ true
unfolding is_lt
nil-cons d t = less [] (d ∷ t) ∙ ap is_lt (compare_text.nil-cons d t)

cons-nil : (c : Char) (s : String) → str_lt (c ∷ s) [] ≡ false
unfolding is_lt
cons-nil c s = less (c ∷ s) [] ∙ ap is_lt (compare_text.cons-nil c s)

nil-nil : str_lt [] [] ≡ false
unfolding is_lt
nil-nil = less [] [] ∙ ap is_lt compare_text.nil-nil

-- A text before another one is before everything that is not before that one.
pub str_lt_trans : (t x y : String) → str_lt t x ≡ true → str_lt y x ≡ false → str_lt t y ≡ true
str_lt_trans [] [] y h k = absurd (cc (h, nil-nil))
str_lt_trans [] (b ∷ x) [] h k = absurd (cc (k, nil-cons b x))
str_lt_trans [] (b ∷ x) (d ∷ y) h k = nil-cons d y
str_lt_trans (a ∷ t) [] y h k = absurd (cc (h, cons-nil a t))
str_lt_trans (a ∷ t) (b ∷ x) [] h k = absurd (cc (k, nil-cons b x))
str_lt_trans (a ∷ t) (b ∷ x) (d ∷ y) h k =
    let tx : (ltb (code a) (code b) || (nat_eq (code a) (code b) && str_lt t x)) ≡ true =
      sym (str_lt-cons a b t x) ∙ h in
    let yx : (ltb (code d) (code b) || (nat_eq (code d) (code b) && str_lt y x)) ≡ false =
      sym (str_lt-cons d b y x) ∙ k in
    str_lt-cons a d t y ∙ ground (arith, tx, yx, str_lt_trans t x y)
