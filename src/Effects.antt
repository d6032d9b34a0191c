-- ===== src/Effects.antt =====
-- What the services do besides computing: throw (`throw new ...Exception(...)` and the errors of
-- the Prisma client), and change the database. An `await` of a failing promise is a throw.
use nestjs_api_starter.Prelude.{String, ◌≡◌, refl, ap, ◌⊎◌, inl, inr}

-- The exception classes of @nestjs/common that the program throws.
pub data HttpKind : Type 0 where
  bad_request unauthorized forbidden not_found conflict service_unavailable : HttpKind

-- `known code` is a `PrismaClientKnownRequestError` with that code; `other` is any other value.
pub data Exception : Type 0 where
  http : HttpKind → String → Exception
  known : String → Exception
  other : String → Exception

abbrev pub unique_violation : Exception
unique_violation = known "P2002"

abbrev pub record_not_found : Exception
record_not_found = known "P2025"

pub data Result {ℓ} (A : Type ℓ) : Type ℓ where
  ok : A → Result A
  err : Exception → Result A

-- A transaction, or one statement: the new state only if it succeeds.
abbrev pub Tx : Type 0 → Type 0 → Type 0
Tx S A = S → Result (A × S)

-- A service method: what was written before a throw stays written.
abbrev pub Eff : Type 0 → Type 0 → Type 0
Eff S A = S → Result A × S

abbrev pub map_result : {A B : Type 0} → (A → B) → Result A → Result B
map_result f (ok a) = ok (f a)
map_result f (err e) = err e

pub ok_injective : {A : Type 0} {a b : A} → ok a ≡ ok b → a ≡ b
ok_injective e = cc

pub err-ne-ok : {A : Type 0} {x : Exception} {a : A} → ◌≡◌ {A = Result A} (err x) (ok a) → ⊥
err-ne-ok e = cc

-- To split on a computed result and keep the equation.
pub Result-cases :
    {A : Type 0} (r : Result A) → ((a : A) × (r ≡ ok a)) ⊎ ((e : Exception) × (r ≡ err e))
Result-cases (ok a) = inl (a, refl)
Result-cases (err e) = inr (e, refl)

module _ {S A B : Type 0} where
  abbrev pub tx_then : Result (A × S) → (A → Tx S B) → Result (B × S)
  tx_then (ok (a, s)) f = f a s
  tx_then (err e) f = err e

  abbrev pub eff_then : Result A → (A → Eff S B) → Eff S B
  eff_then (ok a) f s = f a s
  eff_then (err e) f s = (err e, s)

  infixl 10 ◌>>=◌ ◌>>◌
  abbrev pub ◌>>=◌ : Eff S A → (A → Eff S B) → Eff S B
  ◌>>=◌ m f s = let (r, s') = m s in eff_then r f s'

  abbrev pub ◌>>◌ : Eff S A → Eff S B → Eff S B
  m >> n = m >>= λ _. n

module _ {S A : Type 0} where
  abbrev pub pure : A → Eff S A
  pure a s = (ok a, s)

  abbrev pub throw : Exception → Eff S A
  throw e s = (err e, s)

  abbrev pub lift : Result A → Eff S A
  lift r s = (r, s)

  -- a read of the state, which may fail and changes nothing
  abbrev pub reads : (S → Result A) → Eff S A
  reads f s = (f s, s)

  abbrev outcome : Result (A × S) → S → Result A × S
  outcome (ok (a, s')) s = (ok a, s')
  outcome (err e) s = (err e, s)

  -- A failed statement or transaction leaves the state as it was.
  abbrev pub exec : Tx S A → Eff S A
  exec t s = outcome (t s) s

module _ {S A : Type 0} where
  -- Inversion of an effect that returned.
  pub exec-ok : (t : Tx S A) (s s' : S) (a : A) → exec t s ≡ (ok a, s') → t s ≡ ok (a, s')
  exec-ok t s s' a e = elim (Result-cases (t s)) [
    | inl ((b, s₁), done) ↦
        rw done (ap (λ (r : Result A × S). map_result (λ x. (x, r.1)) r.0) (rw done at e))
    | inr (x, failed) ↦ absurd (err-ne-ok (ap (λ (r : Result A × S). r.0) (rw failed at e)))
  ]

  pub >>=-ok :
      {B : Type 0} (m : Eff S A) (f : A → Eff S B) (s s' : S) (b : B)
      → (m >>= f) s ≡ (ok b, s')
      → (a : A) × (s₁ : S) × (m s ≡ (ok a, s₁)) × (f a s₁ ≡ (ok b, s'))
  >>=-ok {B} m f s s' b e = elim (Result-cases (m s).0) [
    | inl (a, done) ↦ (a, (m s).1, ap (λ (r : Result A). (r, (m s).1)) done, rw done at e)
    | inr (x, failed) ↦ absurd (err-ne-ok (ap (λ (r : Result B × S). r.0) (rw failed at e)))
  ]
