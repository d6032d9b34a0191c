-- ===== src/Idempotency/Store/Reserve.antt =====
-- `reserve` run alone: what it answers, by the row that the identity has.
use nestjs_api_starter.Prelude.{
  ℕ, String, ◌≡◌, ◌∙◌, inl, inr, Bool, true, false, none, some, ◌∷◌, arith, Apart, All, IsIn,
  All-IsIn, keep, not, ◌≤◌, ◌<◌, All-map, not-All-Any,
}
use nestjs_api_starter.Effects.{ok, err, unique_violation}
use nestjs_api_starter.Prisma.{Delegate, IsUp}
use nestjs_api_starter.Process.{run, steps}
use nestjs_api_starter.Idempotency.Store.{
  IdempotencyKey, same_key, has_identity, expired_where, valid_where, ReserveIdempotencyInput,
  started, reserve, find_valid, classify, pending_row, is_unique_violation,
}
use nestjs_api_starter.Idempotency.Store.Rows.{
  one_row, keep-All, swept_none, by_identity, same_identity_iff, same_identity_refl,
}

module _ (t : Delegate IdempotencyKey same_key) (up : IsUp t) (clock : ℕ → ℕ) where
  delete_up :
      (p : IdempotencyKey → Bool) (s : t.State)
      → (n : ℕ) × (s' : t.State) × (t.delete_many p s ≡ ok (n, s'))
        × (t.rows s' ≡ keep (λ r. not (p r)) (t.rows s))
  delete_up p s = elim (t.delete_many_law p s) [
    | inl (s', e, h) ↦ (_, s', e, h)
    | inr (x, e) ↦ absurd (up.deletes p s x e)
  ]

  find_none_up :
      (p : IdempotencyKey → Bool) (s : t.State)
      → All (λ r. p r ≡ false) (t.rows s)
      → t.find_first p s ≡ ok none
  find_none_up p s h = elim (t.find_first_law p s) [
    | inl (e, _) ↦ e
    | inr (inl (r, e, i, k)) ↦ absurd (ground (arith, All-IsIn (λ r. p r ≡ false) r (t.rows s) h i))
    | inr (inr (x, e)) ↦ absurd (up.finds p s x e)
  ]

  -- with the number of calls made
  pub reserve-fresh_steps :
      (input : ReserveIdempotencyInput) (s : t.State)
      → All (λ r. valid_where input.identity (clock 0) r ≡ false) (t.rows s)
      → (id : String) × (s' : t.State) × (run clock (reserve t input) s ≡ (ok started, s'))
        × (steps clock (reserve t input) s ≡ 3)
        × (t.rows s'
            ≡ pending_row input (clock 2) id
              ∷ keep (λ r. not (expired_where input.identity (clock 0) r)) (t.rows s))
  unfolding run steps reserve find_valid
  reserve-fresh_steps input s free =
      let (n, s₁, e, rows) = delete_up (expired_where input.identity (clock 0)) s in
      let gone : All (λ r. has_identity input.identity r ≡ false) (t.rows s₁) =
        rw rows (swept_none input.identity (clock 0) (t.rows s) free) in
      let e₁ =
        find_none_up (valid_where input.identity (clock 1)) s₁
          (All-map (λ r h. ground arith) (t.rows s₁) gone) in
      elim (t.create_law (pending_row input (clock 2)) s₁) [
        | inl (id, s', e₂, h, new) ↦
            (id, s', rw (reserve, run, e, e₁, e₂), rw (reserve, steps, e, e₁, e₂), rw (h, rows))
        | inr (inl (id, e₂, clash)) ↦ absurd (
            not-All-Any
              (λ r a b. ground (
                arith,
                same_identity_iff input.identity r.identity b,
                same_identity_refl input.identity,
              ))
              (t.rows s₁) gone clash)
        | inr (inr (x, e₂, other)) ↦ absurd (other (up.creates _ s₁ x e₂))
      ]

  -- While the database answers, a key with no unexpired row is reserved: the caller is told to run
  -- the handler, and the table has lost the expired row, if any, and gained a pending one with the
  -- hash of the request.
  pub reserve-fresh :
      (input : ReserveIdempotencyInput) (s : t.State)
      → All (λ r. valid_where input.identity (clock 0) r ≡ false) (t.rows s)
      → (id : String) × (s' : t.State) × (run clock (reserve t input) s ≡ (ok started, s'))
        × (t.rows s'
            ≡ pending_row input (clock 2) id
              ∷ keep (λ r. not (expired_where input.identity (clock 0) r)) (t.rows s))
  reserve-fresh input s free =
      let (id, s', e, _, rows) = reserve-fresh_steps input s free in (id, s', e, rows)

  module _ (input : ReserveIdempotencyInput) (s : t.State) (r : IdempotencyKey)
      (unique : Apart same_key (t.rows s)) (listed : IsIn r (t.rows s))
      (of_identity : has_identity input.identity r ≡ true) where
    -- the row is found if the `where` selects it, whatever else the table holds
    find_row_up :
        (p : IdempotencyKey → Bool) (s₁ : t.State)
        → t.rows s₁ ≡ t.rows s
        → ((x : IdempotencyKey) → p x ≡ true → has_identity input.identity x ≡ true)
        → p r ≡ true
        → t.find_first p s₁ ≡ ok (some r)
    find_row_up p s₁ same within selected = elim (t.find_first_law p s₁) [
      | inl (e, h) ↦
          absurd (ground (arith, All-IsIn (λ r. p r ≡ false) r (t.rows s) (rw same at h) listed))
      | inr (inl (x, e, i, k)) ↦
          rw
            (one_row input.identity r x (t.rows s) unique listed (rw same at i) of_identity
              (within x k))
            e
      | inr (inr (x, e)) ↦ absurd (up.finds p s₁ x e)
    ]

    kept :
        (s₁ : t.State)
        → clock 0 < r.expires_at
        → t.rows s₁ ≡ keep (λ r. not (expired_where input.identity (clock 0) r)) (t.rows s)
        → t.rows s₁ ≡ t.rows s
    kept s₁ l e =
        e
        ∙ keep-All (expired_where input.identity (clock 0)) (t.rows s) (
            by_identity (λ x. expired_where input.identity (clock 0) x ≡ false) input.identity r
              (t.rows s) unique listed of_identity (ground arith) (λ x h. ground arith))

    lapsed :
        (now : ℕ) (s₁ : t.State)
        → t.rows s₁ ≡ t.rows s
        → r.expires_at ≤ now
        → All (λ x. valid_where input.identity now x ≡ false) (t.rows s₁)
    lapsed now s₁ same l = rw same (
        by_identity (λ x. valid_where input.identity now x ≡ false) input.identity r (t.rows s)
          unique listed of_identity (ground arith) (λ x h. ground arith))

    -- While the database answers and its keys are unique: if the row of a key is unexpired at the
    -- sweep and at the lookup, then the answer is `classify` of the row, and the table is as it
    -- was.
    pub reserve-live :
        clock 0 < r.expires_at
        → clock 1 < r.expires_at
        → (s' : t.State) × (run clock (reserve t input) s
            ≡ (ok (classify r input.request_hash), s'))
          × (t.rows s' ≡ t.rows s)
    unfolding run reserve find_valid
    reserve-live l₀ l₁ =
        let (n, s₁, e, rows) = delete_up (expired_where input.identity (clock 0)) s in
        let same = kept s₁ l₀ rows in
        let e₁ =
          find_row_up (valid_where input.identity (clock 1)) s₁ same (λ x k. ground arith)
            (ground arith) in
        (s₁, rw (reserve, run, e, e₁), same)

    -- While the database answers and its keys are unique: if the row of a key is unexpired at the
    -- sweep and expired at the lookup and at the second lookup, then `reserve` neither reclaims the
    -- slot nor classifies the row, and rejects with the unique violation of its insert.
    pub reserve-race :
        clock 0 < r.expires_at
        → r.expires_at ≤ clock 1
        → r.expires_at ≤ clock 3
        → (s' : t.State) × (run clock (reserve t input) s ≡ (err unique_violation, s'))
          × (t.rows s' ≡ t.rows s)
    unfolding run reserve find_valid is_unique_violation
    reserve-race l₀ l₁ l₃ =
        let (n, s₁, e, rows) = delete_up (expired_where input.identity (clock 0)) s in
        let same = kept s₁ l₀ rows in
        let e₁ =
          find_none_up (valid_where input.identity (clock 1)) s₁ (lapsed (clock 1) s₁ same l₁) in
        let e₃ =
          find_none_up (valid_where input.identity (clock 3)) s₁ (lapsed (clock 3) s₁ same l₃) in
        elim (t.create_law (pending_row input (clock 2)) s₁) [
          | inl (id, s', e₂, h, new) ↦ absurd (
              ground (
                arith,
                All-IsIn (λ x. same_key (pending_row input (clock 2) id) x ≡ false) r (t.rows s)
                    (rw same at new) listed,
                same_identity_iff r.identity input.identity,
                same_identity_refl input.identity,
              ))
          | inr (inl (id, e₂, clash)) ↦ (s₁, rw (reserve, run, e, e₁, e₂, e₃), same)
          | inr (inr (x, e₂, other)) ↦ absurd (other (up.creates _ s₁ x e₂))
        ]
