-- ===== src/Prisma/Memory.antt =====
-- A delegate that keeps its rows in a list and never loses its connection: it shows that the laws
-- of the interface can hold together, and the tests run on it.
use nestjs_api_starter.Prelude.{
  String, ◌≡◌, refl, ◌⊎◌, inl, inr, Bool, true, false, Option, none, some, List, [], ◌∷◌, Any, All,
  IsIn, count, keep, change, any, not, if◌then◌else◌, Bool-cases, arith,
}
use nestjs_api_starter.Effects.{Exception, Result, ok, err, Tx, unique_violation}
use nestjs_api_starter.Prisma.{Delegate, IsUp}

module _ {Row : Type 0} where
  abbrev pub first : (Row → Bool) → List Row → Option Row
  first p [] = none
  first p (r ∷ rs) = if p r then some r else first p rs

  pub first-cases :
      (p : Row → Bool) (rs : List Row)
      → ((first p rs ≡ none) × All (λ r. p r ≡ false) rs)
        ⊎ ((r : Row) × (first p rs ≡ some r) × IsIn r rs × (p r ≡ true))
  first-cases p [] = inl (refl, tt)
  first-cases p (x ∷ rs) = elim (Bool-cases (p x)) [
    | inl yes_x ↦ inr (x, ground arith, inl refl, yes_x)
    | inr no_x ↦ elim (first-cases p rs) [
      | inl (e, h) ↦ inl (ground arith, (no_x, h))
      | inr (r, e, i, h) ↦ inr (r, ground arith, inr i, h)
    ]
  ]

  pub any-cases :
      (p : Row → Bool) (rs : List Row)
      → ((any p rs ≡ true) × Any (λ r. p r ≡ true) rs)
        ⊎ ((any p rs ≡ false) × All (λ r. p r ≡ false) rs)
  any-cases p [] = inr (refl, tt)
  any-cases p (x ∷ rs) = elim (Bool-cases (p x)) [
    | inl h ↦ inl (ground arith, inl h)
    | inr h ↦ elim (any-cases p rs) [
      | inl (e, i) ↦ inl (ground arith, inr i)
      | inr (e, a) ↦ inr (ground arith, (h, a))
    ]
  ]

module _ {Row : Type 0} (conflicts : Row → Row → Bool) (fresh : List Row → String) where
  abbrev pub insert : (String → Row) → Tx (List Row) Row
  insert mk rs =
      let r = mk (fresh rs) in if any (conflicts r) rs then err unique_violation else ok (r, r ∷ rs)

  pub find_cases :
      (p : Row → Bool) (rs : List Row)
      → ((◌≡◌ {A = Result (Option Row)} (ok (first p rs)) (ok none)) × All (λ r. p r ≡ false) rs)
        ⊎ ((r : Row) × (◌≡◌ {A = Result (Option Row)} (ok (first p rs)) (ok (some r)))
            × IsIn r rs
            × (p r ≡ true))
        ⊎ ((e : Exception) × (◌≡◌ {A = Result (Option Row)} (ok (first p rs)) (err e)))
  find_cases p rs = elim (first-cases p rs) [
    | inl (e, h) ↦ inl (cc, h)
    | inr (r, e, i, h) ↦ inr (inl (r, cc, i, h))
  ]

  pub insert_cases :
      (mk : String → Row) (s : List Row)
      → ((id : String) × (s' : List Row) × (insert mk s ≡ ok (mk id, s'))
          × (s' ≡ mk id ∷ s)
          × All (λ r. conflicts (mk id) r ≡ false) s)
        ⊎ ((id : String) × (insert mk s ≡ err unique_violation)
            × Any (λ r. conflicts (mk id) r ≡ true) s)
        ⊎ ((e : Exception) × (insert mk s ≡ err e) × (e ≡ unique_violation → ⊥))
  insert_cases mk s = elim (any-cases (conflicts (mk (fresh s))) s) [
    | inl (e, i) ↦ inr (inl (fresh s, rw e, i))
    | inr (e, h) ↦ inl (fresh s, mk (fresh s) ∷ s, rw e, refl, h)
  ]

  abbrev pub memory : Delegate Row conflicts
  memory = record {
    State = List Row;
    rows = λ s. s;
    find_first = λ p s. ok (first p s);
    update_many = λ p f s. ok (count p s, change p f s);
    delete_many = λ p s. ok (count p s, keep (λ r. not (p r)) s);
    create = insert;
    transaction = λ body. body;
    find_first_law = find_cases;
    update_many_law = λ p f s. inl (change p f s, refl, refl);
    delete_many_law = λ p s. inl (keep (λ r. not (p r)) s, refl, refl);
    create_law = insert_cases;
    transaction_law = λ body s. inl refl;
  }

  pub memory-IsUp : IsUp memory
  memory-IsUp = record {
    finds = λ p s e h. cc;
    updates = λ p f s e h. cc;
    deletes = λ p s e h. cc;
    creates = λ mk s e h. ground arith;
  }
