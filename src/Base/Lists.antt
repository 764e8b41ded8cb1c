-- ===== src/Base/Lists.antt =====
-- The array methods that the code calls, and a predicate on every element.
use Prim.Native.String.{String}
use mathlib.Core.Bool.{Bool, false, ◌||◌}
use mathlib.Core.Option.{Option, none, some}
use mathlib.Core.List.{List, [], ◌∷◌, ◌++◌, map}
use native.Mathlib.Omega.{arith}
use text.Mathlib.Text.{◌==◌}
use mathlib.Core.Path.{refl}
use mock_pontes.Base.Tests.{if◌then◌else◌}

module _ {ℓ} {A : Type ℓ} where
  -- `xs.filter(p)`
  abbrev pub filter : (A → Bool) → List A → List A
  filter p [] = []
  filter p (x ∷ xs) = let rest = filter p xs in if p x then x ∷ rest else rest

  -- `xs.find(p)`
  abbrev pub find : (A → Bool) → List A → Option A
  find p [] = none
  find p (x ∷ xs) = if p x then some x else find p xs

  -- `xs[0]`
  abbrev pub first : List A → Option A
  first [] = none
  first (x ∷ xs) = some x

  -- `[...xs, x]` and `xs.push(x)`
  abbrev pub push : List A → A → List A
  push xs x = xs ++ x ∷ []

abbrev pub All {ℓ κ} : {A : Type ℓ} → (A → Type κ) → List A → Type κ
All P [] = Unit
All P (first ∷ rest) = P first × All P rest

-- `xs.includes(x)`
abbrev pub includes : List String → String → Bool
includes [] x = false
includes (y ∷ ys) x = (y == x) || includes ys x

-- The second list starts with the first one.
abbrev pub IsPrefix : {A : Type 0} → List A → List A → Type 0
IsPrefix [] ys = Unit
IsPrefix (x ∷ xs) [] = ⊥
IsPrefix (x ∷ xs) (y ∷ ys) = Path _ x y × IsPrefix xs ys

module _ {A : Type 0} where
  pub IsPrefix-refl : (xs : List A) → IsPrefix xs xs
  IsPrefix-refl [] = tt
  IsPrefix-refl (x ∷ xs) = (refl, IsPrefix-refl xs)

  pub IsPrefix-push : (xs ys : List A) (x : A) → IsPrefix xs ys → IsPrefix xs (push ys x)
  IsPrefix-push [] ys x h = tt
  IsPrefix-push (a ∷ xs) [] x h = absurd h
  IsPrefix-push (a ∷ xs) (b ∷ ys) x h = (h.0, IsPrefix-push xs ys x h.1)

  -- `filter` drops everything only where no element passes.
  pub filter_none :
      (p : A → Bool) (xs : List A) → Path _ (filter p xs) [] → All (λ x. Path Bool (p x) false) xs
  filter_none p [] h = tt
  filter_none p (x ∷ xs) h = ground (arith, filter_none p xs)

  pub map_none : {B : Type 0} (f : A → B) (xs : List A) → Path _ (map f xs) [] → Path _ xs []
  map_none f [] h = refl
  map_none f (x ∷ xs) h = absurd (cc)

  pub All-map : {P Q : A → Type 0} → ((x : A) → P x → Q x) → (xs : List A) → All P xs → All Q xs
  All-map f [] h = tt
  All-map f (x ∷ xs) h = (f x h.0, All-map f xs h.1)

  pub All-of : {P : A → Type 0} → ((x : A) → P x) → (xs : List A) → All P xs
  All-of f [] = tt
  All-of f (x ∷ xs) = (f x, All-of f xs)
