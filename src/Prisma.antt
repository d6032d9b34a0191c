-- ===== src/Prisma.antt =====
-- The generated Prisma client, which is not in the repository: one model delegate
-- (`prisma.refreshToken`, `prisma.idempotencyKey`, ...) as an interface. `where` objects are tests
-- on rows, `data` objects of updates are functions on rows. The laws are the documented behaviour
-- of PostgreSQL and the client: each statement is atomic, any statement may fail, and a failed one
-- changes nothing.
pub mod Memory
use nestjs_api_starter.Prelude.{
  ℕ, String, ◌≡◌, ◌⊎◌, Bool, true, false, Option, none, some, List, ◌∷◌, Any, All, IsIn, count,
  keep, change, not,
}
use nestjs_api_starter.Effects.{Exception, Result, ok, err, Tx, unique_violation, record_not_found}

-- `conflicts` is the model's unique constraint in prisma/schema.prisma.
pub record Delegate (Row : Type 0) (conflicts : Row → Row → Bool) : Type 1 where
  pub State : Type 0
  -- the rows that a state holds, the latest first
  pub rows : State → List Row
  pub find_first : (Row → Bool) → State → Result (Option Row)
  pub update_many : (Row → Bool) → (Row → Row) → Tx State ℕ
  pub delete_many : (Row → Bool) → Tx State ℕ
  -- the generated id comes from the client
  pub create : (String → Row) → Tx State Row
  pub transaction : {A : Type 0} → Tx State A → Tx State A
  pub find_first_law :
      (p : Row → Bool) (s : State)
      → ((find_first p s ≡ ok none) × All (λ r. p r ≡ false) (rows s))
        ⊎ ((r : Row) × (find_first p s ≡ ok (some r)) × IsIn r (rows s) × (p r ≡ true))
        ⊎ ((e : Exception) × (find_first p s ≡ err e))
  pub update_many_law :
      (p : Row → Bool) (f : Row → Row) (s : State)
      → ((s' : State) × (update_many p f s ≡ ok (count p (rows s), s'))
          × (rows s' ≡ change p f (rows s)))
        ⊎ ((e : Exception) × (update_many p f s ≡ err e))
  pub delete_many_law :
      (p : Row → Bool) (s : State)
      → ((s' : State) × (delete_many p s ≡ ok (count p (rows s), s'))
          × (rows s' ≡ keep (λ r. not (p r)) (rows s)))
        ⊎ ((e : Exception) × (delete_many p s ≡ err e))
  pub create_law :
      (mk : String → Row) (s : State)
      → ((id : String) × (s' : State) × (create mk s ≡ ok (mk id, s'))
          × (rows s' ≡ mk id ∷ rows s)
          × All (λ r. conflicts (mk id) r ≡ false) (rows s))
        ⊎ ((id : String) × (create mk s ≡ err unique_violation)
            × Any (λ r. conflicts (mk id) r ≡ true) (rows s))
        ⊎ ((e : Exception) × (create mk s ≡ err e) × (e ≡ unique_violation → ⊥))
  pub transaction_law :
      {A : Type 0} (body : Tx State A) (s : State)
      → (transaction body s ≡ body s) ⊎ ((e : Exception) × (transaction body s ≡ err e))

-- The database answers: no statement fails, but for the unique constraint.
pub record IsUp {Row : Type 0} {conflicts : Row → Row → Bool} (t : Delegate Row conflicts)
    : Type 0 where
  pub finds : (p : Row → Bool) (s : t.State) (e : Exception) → t.find_first p s ≡ err e → ⊥
  pub updates :
      (p : Row → Bool) (f : Row → Row) (s : t.State) (e : Exception)
      → t.update_many p f s ≡ err e
      → ⊥
  pub deletes : (p : Row → Bool) (s : t.State) (e : Exception) → t.delete_many p s ≡ err e → ⊥
  pub creates :
      (mk : String → Row) (s : t.State) (e : Exception)
      → t.create mk s ≡ err e
      → e ≡ unique_violation

module _ {Row : Type 0} {conflicts : Row → Row → Bool} (t : Delegate Row conflicts) where
  -- `findUniqueOrThrow`: a row by a unique column, or P2025.
  abbrev pub or_not_found : Result (Option Row) → Result Row
  or_not_found (ok none) = err record_not_found
  or_not_found (ok (some r)) = ok r
  or_not_found (err e) = err e

  abbrev pub find_unique_or_throw : (Row → Bool) → t.State → Result Row
  find_unique_or_throw p s = or_not_found (t.find_first p s)
