-- ===== src/Prelude/Members.antt =====
-- What the tests on lists say of their members.
use mathlib.Core.Path.{◌≡◌, refl, sym, ap, ◌∙◌}
use mathlib.Core.Logic.{◌⊎◌, inl, inr}
use mathlib.Core.Bool.{Bool, true, false, ◌&&◌}
use mathlib.Core.List.{List, [], ◌∷◌, map}
use native.Mathlib.Omega.{arith}
use nestjs_api_starter.Prelude.Tests.{Bool-cases}
use nestjs_api_starter.Prelude.Lists.{any, every, change, IsIn}

pub and-both : (a b : Bool) → (a && b) ≡ true → (a ≡ true) × (b ≡ true)
and-both true b e = (refl, e)
and-both false b e = absurd (ground arith)

pub and-true : (a b : Bool) → a ≡ true → b ≡ true → (a && b) ≡ true
and-true a b e e' = rw (e, e') refl

module _ {A : Type 0} (p : A → Bool) where
  pub any-IsIn : (xs : List A) → any p xs ≡ true → (x : A) × IsIn x xs × (p x ≡ true)
  any-IsIn [] e = absurd (ground arith)
  any-IsIn (y ∷ ys) e = elim (Bool-cases (p y)) [
    | inl holds ↦ (y, inl refl, holds)
    | inr fails ↦ let (x, i, h) = any-IsIn ys (rw fails at e) in (x, inr i, h)
  ]

  pub IsIn-any : (x : A) (xs : List A) → IsIn x xs → p x ≡ true → any p xs ≡ true
  IsIn-any x [] i h = absurd i
  IsIn-any x (y ∷ ys) (inl e) h = rw (ap p e, h) refl
  IsIn-any x (y ∷ ys) (inr i) h = ground (arith, IsIn-any x ys i h)

  pub every-IsIn : (x : A) (xs : List A) → every p xs ≡ true → IsIn x xs → p x ≡ true
  every-IsIn x [] h i = absurd i
  every-IsIn x (y ∷ ys) h (inl e) = ap p (sym e) ∙ ground arith
  every-IsIn x (y ∷ ys) h (inr i) = every-IsIn x ys (ground arith) i

  pub IsIn-every : (xs : List A) → ((x : A) → IsIn x xs → p x ≡ true) → every p xs ≡ true
  IsIn-every [] h = refl
  IsIn-every (y ∷ ys) h = rw (h y (inl refl), IsIn-every ys (λ x i. h x (inr i))) refl

module _ {A B : Type 0} (f : A → B) where
  pub map-IsIn : (x : A) (xs : List A) → IsIn x xs → IsIn (f x) (map f xs)
  map-IsIn x [] i = absurd i
  map-IsIn x (y ∷ ys) (inl e) = inl (ap f e)
  map-IsIn x (y ∷ ys) (inr i) = inr (map-IsIn x ys i)

  pub IsIn-map : (b : B) (xs : List A) → IsIn b (map f xs) → (x : A) × IsIn x xs × (f x ≡ b)
  IsIn-map b [] i = absurd i
  IsIn-map b (y ∷ ys) (inl e) = (y, inl refl, e)
  IsIn-map b (y ∷ ys) (inr i) = let (x, j, e) = IsIn-map b ys i in (x, inr j, e)

-- Where a row of an updated table comes from.
pub change-IsIn :
    {A : Type 0} (p : A → Bool) (f : A → A) (y : A) (xs : List A)
    → IsIn y (change p f xs)
    → (x : A) × IsIn x xs × (((p x ≡ true) × (f x ≡ y)) ⊎ ((p x ≡ false) × (x ≡ y)))
change-IsIn p f y [] i = absurd i
change-IsIn p f y (x ∷ xs) (inl e) = elim (Bool-cases (p x)) [
  | inl holds ↦ (x, inl refl, inl (holds, rw holds at e))
  | inr fails ↦ (x, inl refl, inr (fails, rw fails at e))
]
change-IsIn p f y (x ∷ xs) (inr i) = let (z, j, h) = change-IsIn p f y xs i in (z, inr j, h)
