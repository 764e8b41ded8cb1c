-- ===== src/Exec.antt =====
-- The monad of methods that change the store and may throw. What was written before a throw stays
-- written, so the state comes back beside the failure.
use mathlib.Core.Path.{subst}
use mock_pontes.Base.{◌⊎◌, inl, inr, ◌≡◌, refl, ap, sym, ◌∙◌, Bool, true, false}
use mock_pontes.Result.{Failure, Rejection, rejected, Result, ok, err}

abbrev pub Exec {ℓ κ} : Type ℓ → Type κ → Type (ℓ ⊔ κ)
Exec S A = S → Result A × S

module _ {ℓ κ} {S : Type ℓ} {A : Type κ} where
  abbrev pub pure : A → Exec S A
  pure a s = (ok a, s)

  abbrev pub throw : Failure → Exec S A
  throw e s = (err e, s)

  abbrev pub gets : (S → A) → Exec S A
  gets f s = (ok (f s), s)

  abbrev pub lift : Result A → Exec S A
  lift r s = (r, s)

module _ {ℓ} {S : Type ℓ} where
  abbrev pub modify : (S → S) → Exec S (Unit {0})
  modify f s = (ok tt, f s)

  -- `if (c) throw new WorkflowRejection(...)`
  abbrev pub throw_if : Bool → Rejection → Exec S (Unit {0})
  throw_if true r s = (err (rejected r), s)
  throw_if false r s = (ok tt, s)

module _ {ℓ κ μ} {S : Type ℓ} {A : Type κ} {B : Type μ} where
  abbrev pub continue : Result A → (A → Exec S B) → Exec S B
  continue (ok a) f s = f a s
  continue (err e) f s = (err e, s)

  infixl 5 ◌>>=◌
  infixr 5 ◌>>◌
  abbrev pub ◌>>=◌ : Exec S A → (A → Exec S B) → Exec S B
  ◌>>=◌ first next s = let (outcome, t) = first s in continue outcome next t

  abbrev pub ◌>>◌ : Exec S A → Exec S B → Exec S B
  first >> second = first >>= λ _. second

-- `try { m } catch (e) { throw f(e) }`
abbrev pub rethrow {ℓ κ} : {S : Type ℓ} {A : Type κ} → (Failure → Failure) → Exec S A → Exec S A
rethrow f m s = let (r, s') = m s in (elim r [ ok a ↦ ok a | err e ↦ err (f e) ], s')

module _ {ℓ κ μ} {S : Type ℓ} {A : Type κ} {B : Type μ} where
  continue_ok :
      (r : Result A) (f : A → Exec S B) (s : S) {b : B}
      → (continue r f s).0 ≡ ok b
      → (a : A) × (r ≡ ok a) × (continue r f s ≡ f a s)
  continue_ok (ok a) f s h = (a, refl, refl)
  continue_ok (err e) f s h = cc

  -- A block that returned has run its first action to a value, and gone on from there.
  pub >>=-ok :
      (m : Exec S A) (f : A → Exec S B) (s : S) {b : B}
      → ((m >>= f) s).0 ≡ ok b
      → (a : A) × ((m s).0 ≡ ok a) × ((m >>= f) s ≡ f a (m s).1)
  >>=-ok m f s h = continue_ok (m s).0 f (m s).1 h

  -- The same, where the first action leaves the state alone.
  pub >>=-ok_reads :
      (m : Exec S A) (f : A → Exec S B) (s : S) {b : B}
      → (m s).1 ≡ s
      → ((m >>= f) s).0 ≡ ok b
      → (a : A) × ((m s).0 ≡ ok a) × ((m >>= f) s ≡ f a s)
  >>=-ok_reads m f s same h = let (a, e, q) = >>=-ok m f s h in (a, e, q ∙ ap (f a) same)

  continue_err :
      (r : Result A) (f : A → Exec S B) (s : S) {e : Failure}
      → (continue r f s).0 ≡ err e
      → ((continue r f s).1 ≡ s) ⊎ ((a : A) × (r ≡ ok a) × (continue r f s ≡ f a s))
  continue_err (ok a) f s h = inr (a, refl, refl)
  continue_err (err x) f s h = inl refl

  -- A block that threw, and whose first action leaves the state alone, has stopped there and left
  -- the state alone, or has gone on.
  pub >>=-err_reads :
      (m : Exec S A) (f : A → Exec S B) (s : S) {e : Failure}
      → (m s).1 ≡ s
      → ((m >>= f) s).0 ≡ err e
      → (((m >>= f) s).1 ≡ s) ⊎ ((a : A) × ((m s).0 ≡ ok a) × ((m >>= f) s ≡ f a s))
  >>=-err_reads m f s same h = elim (continue_err (m s).0 f (m s).1 h) [
    | inl kept ↦ inl (kept ∙ same)
    | inr (a, e, q) ↦ inr (a, e, q ∙ ap (f a) same)
  ]

  -- A block whose first action leaves the state alone and whose rest does so too.
  pub >>=-reads :
      (m : Exec S A) (f : A → Exec S B) (s : S)
      → (m s).1 ≡ s
      → ((a : A) → (f a s).1 ≡ s)
      → ((m >>= f) s).1 ≡ s
  >>=-reads m f s same rest = go (m s).0 (m s).1 same
    where
      go : (r : Result A) (t : S) → t ≡ s → (continue r f t).1 ≡ s
      go (ok a) t e = rw e (rest a)
      go (err x) t e = e

module _ {ℓ κ μ ν} {S : Type ℓ} {A : Type κ} {B : Type μ} where
  -- What holds after the first action, and after the rest from there, holds after the block.
  pub >>=-keeps :
      (P : S → Type ν) (m : Exec S A) (f : A → Exec S B) (s : S)
      → P (m s).1
      → ((a : A) → (m s).0 ≡ ok a → P (f a (m s).1).1)
      → P ((m >>= f) s).1
  >>=-keeps P m f s first rest = go (m s).0 rest
    where
      go : (r : Result A) → ((a : A) → r ≡ ok a → P (f a (m s).1).1) → P (continue r f (m s).1).1
      go (ok a) k = k a refl
      go (err e) k = first

  -- The same, where the first action leaves the state alone.
  pub >>=-keeps_reads :
      (P : S → Type ν) (m : Exec S A) (f : A → Exec S B) (s : S)
      → (m s).1 ≡ s
      → P s
      → ((a : A) → P (f a s).1)
      → P ((m >>= f) s).1
  >>=-keeps_reads P m f s same first rest =
      >>=-keeps P m f s (subst P (sym same) first)
        (λ a e. subst (λ t. P (f a t).1) (sym same) (rest a))

-- A value that was read off the final state.
pub returned_read {ℓ κ} :
    {S : Type ℓ} {A : Type κ} (p : Result A × S) (r : A) (f : S → A) (t : S)
    → p.0 ≡ ok r
    → p ≡ (ok (f t), t)
    → r ≡ f p.1
returned_read p r f t h e = cc (h, ap (λ x. x.0) e, ap (λ x. x.1) e)

-- An action by its value and its final state.
pub ran {ℓ κ} :
    {S : Type ℓ} {A : Type κ} {r : Result A} {t : S} (p : Result A × S)
    → p.0 ≡ r
    → p.1 ≡ t
    → p ≡ (r, t)
ran p e q = λ i. (e i, q i)
