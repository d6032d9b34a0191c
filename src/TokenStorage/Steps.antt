-- ===== src/TokenStorage/Steps.antt =====
-- The methods of the token storage as steps of its table: what each may do to the rows.
use nestjs_api_starter.Prelude.{
  ℕ, String, sym, ◌∙◌, ap, ◌≡◌, refl, inl, inr, Bool, true, false, ◌∷◌, ◌⊎◌, arith, change,
  Bool-cases, count, ◌==◌, All, IsIn, str_eq,
}
use nestjs_api_starter.Effects.{
  Result, ok, err, Exception, exec, http, unauthorized, unique_violation, record_not_found, ◌>>◌,
  ◌>>=◌, pure,
}
use nestjs_api_starter.Prisma.{Delegate, find_unique_or_throw}
use nestjs_api_starter.TokenStorage.{
  RefreshToken, same_token, CreateRefreshTokenInput, RotateRefreshTokenInput, StoredRefreshToken,
  create, rotate, rotate_tx, mint, revoke, revoke_all_for_user, new_row, to_stored, valid_where,
  revoke_at,
}
use nestjs_api_starter.TokenStorage.Rows.{Evolves, same, revoking, adding, both}

-- The calls of the interface that write, with the clock readings of each.
pub data Call : Type 0 where
  creates : CreateRefreshTokenInput → Call
  rotates : RotateRefreshTokenInput → (now stamp : ℕ) → Call
  revokes : (token user_id : String) → (stamp : ℕ) → Call
  revokes_all : (user_id : String) → (stamp : ℕ) → Call

module _ (sha256 : String → String) (t : Delegate RefreshToken same_token) where
  unfoldable pub step : Call → t.State → t.State
  step (creates input) s = (create sha256 t input s).1
  step (rotates input now stamp) s = (rotate sha256 t input now stamp s).1
  step (revokes token user_id stamp) s = (revoke sha256 t token user_id stamp s).1
  step (revokes_all user_id stamp) s = (revoke_all_for_user sha256 t user_id stamp s).1

  -- What a rotation that returns has done.
  pub record Rotated (input : RotateRefreshTokenInput) (now stamp : ℕ) (s s' : t.State)
      (stored : StoredRefreshToken) : Type 0 where
    pub owner : RefreshToken
    pub id : String
    pub once : count (valid_where (sha256 input.current_token) now) (t.rows s) ≡ 1
    pub presented : str_eq owner.token_hash (sha256 input.current_token) ≡ true
    pub listed :
        IsIn owner
          (change (valid_where (sha256 input.current_token) now) (revoke_at stamp) (t.rows s))
    pub returned :
        stored ≡ to_stored (new_row sha256 t owner.user_id input.next_token input.expires_at id)
    pub written :
        t.rows s'
        ≡ new_row sha256 t owner.user_id input.next_token input.expires_at id
          ∷ change (valid_where (sha256 input.current_token) now) (revoke_at stamp) (t.rows s)
    pub fresh :
        All
          (λ r.
            same_token (new_row sha256 t owner.user_id input.next_token input.expires_at id) r
            ≡ false)
          (change (valid_where (sha256 input.current_token) now) (revoke_at stamp) (t.rows s))

  mint-cases :
      (input : RotateRefreshTokenInput) (now stamp : ℕ) (s s₁ : t.State)
      → count (valid_where (sha256 input.current_token) now) (t.rows s) ≡ 1
      → t.rows s₁
        ≡ change (valid_where (sha256 input.current_token) now) (revoke_at stamp) (t.rows s)
      → (let r =
            mint sha256 t input
              (find_unique_or_throw t (λ r. str_eq r.token_hash (sha256 input.current_token)) s₁)
              s₁ in
          ((e : Exception) × (r ≡ err e))
          ⊎ ((stored : StoredRefreshToken) × (s' : t.State) × (r ≡ ok (stored, s'))
              × Rotated input now stamp s s' stored))
  mint-cases input now stamp s s₁ n h =
      elim (t.find_first_law (λ r. str_eq r.token_hash (sha256 input.current_token)) s₁) [
        | inl (e, _) ↦ inl (record_not_found, rw e)
        | inr (inl (owner, e, i, p)) ↦
            elim (t.create_law (new_row sha256 t owner.user_id input.next_token input.expires_at)
              s₁) [
                | inl (id, s', e', h', new) ↦ inr (
                  _,
                  s',
                  rw (e, e'),
                  record {
                    owner = owner;
                    id = id;
                    once = n;
                    presented = p;
                    listed = rw h at i;
                    returned = refl;
                    written = rw (h', h);
                    fresh = rw h at new;
                  },
                )
                | inr (inl (id, e', _)) ↦ inl (unique_violation, rw (e, e'))
                | inr (inr (x, e', _)) ↦ inl (x, rw (e, e'))
              ]
        | inr (inr (x, e)) ↦ inl (x, rw e)
      ]

  rotate_tx-cases :
      (input : RotateRefreshTokenInput) (now stamp : ℕ) (s : t.State)
      → ((e : Exception) × (rotate_tx sha256 t input now stamp s ≡ err e))
        ⊎ ((stored : StoredRefreshToken) × (s' : t.State) × (rotate_tx sha256 t input now stamp s
              ≡ ok (stored, s'))
            × Rotated input now stamp s s' stored)
  unfolding rotate_tx
  rotate_tx-cases input now stamp s =
      let p = valid_where (sha256 input.current_token) now in
      elim (t.update_many_law p (revoke_at stamp) s) [
        | inl (s₁, e, h) ↦ elim (Bool-cases (count p (t.rows s) == 1)) [
          | inl one ↦ rw (e, one) (mint-cases input now stamp s s₁ (ground arith) h)
          | inr other ↦ inl (http unauthorized "Invalid refresh token.", rw (e, other))
        ]
        | inr (x, e) ↦ inl (x, rw e)
      ]

  pub rotate-cases :
      (input : RotateRefreshTokenInput) (now stamp : ℕ) (s : t.State)
      → ((e : Exception) × (rotate sha256 t input now stamp s ≡ (err e, s)))
        ⊎ ((stored : StoredRefreshToken) × (s' : t.State) × (rotate sha256 t input now stamp s
              ≡ (ok stored, s'))
            × Rotated input now stamp s s' stored)
  unfolding rotate
  rotate-cases input now stamp s = elim (t.transaction_law (rotate_tx sha256 t input now stamp) s) [
    | inl same_as ↦ elim (rotate_tx-cases input now stamp s) [
      | inl (x, e) ↦ inl (x, rw (same_as, e))
      | inr (stored, s', e, r) ↦ inr (stored, s', rw (same_as, e), r)
    ]
    | inr (x, e) ↦ inl (x, rw e)
  ]

  update_many-Evolves :
      (p : RefreshToken → Bool) (stamp : ℕ) (s : t.State)
      → Evolves (t.rows s) (t.rows ((exec (t.update_many p (revoke_at stamp)) >> pure tt) s).1)
  update_many-Evolves p stamp s = elim (t.update_many_law p (revoke_at stamp) s) [
    | inl (s', e, h) ↦ rw (e, h) (revoking p stamp)
    | inr (x, e) ↦ rw e same
  ]

  create-Evolves :
      (mk : String → RefreshToken) (s : t.State)
      → Evolves (t.rows s) (t.rows ((exec (t.create mk) >>= λ row. pure (to_stored row)) s).1)
  create-Evolves mk s = elim (t.create_law mk s) [
    | inl (id, s', e, h, new) ↦ rw (e, h) (adding (mk id) new)
    | inr (inl (id, e, _)) ↦ rw e same
    | inr (inr (x, e, _)) ↦ rw e same
  ]

  rotate-Evolves :
      (input : RotateRefreshTokenInput) (now stamp : ℕ) (s : t.State)
      → Evolves (t.rows s) (t.rows (rotate sha256 t input now stamp s).1)
  rotate-Evolves input now stamp s = elim (rotate-cases input now stamp s) [
    | inl (x, e) ↦ rw e same
    | inr (stored, s', e, r) ↦ rw (e, r.written) (both (revoking _ stamp) (adding _ r.fresh))
  ]

  pub step-Evolves : (c : Call) (s : t.State) → Evolves (t.rows s) (t.rows (step c s))
  unfolding step create revoke revoke_all_for_user
  step-Evolves (creates input) s = create-Evolves _ s
  step-Evolves (rotates input now stamp) s = rotate-Evolves input now stamp s
  step-Evolves (revokes token user_id stamp) s = update_many-Evolves _ stamp s
  step-Evolves (revokes_all user_id stamp) s = update_many-Evolves _ stamp s

  -- A rotation that returns found exactly one live, unexpired row with the presented digest; it
  -- revoked that row, added one row for the same user with the digest and the expiry of the
  -- successor, changed nothing else, and returned the new row without its digest.
  pub rotate-Rotated :
      (input : RotateRefreshTokenInput) (now stamp : ℕ) (s s' : t.State)
      (stored : StoredRefreshToken)
      → rotate sha256 t input now stamp s ≡ (ok stored, s')
      → Rotated input now stamp s s' stored
  rotate-Rotated input now stamp s s' stored done = elim (rotate-cases input now stamp s) [
    | inl (x, e) ↦ absurd (cc)
    | inr (stored', s₁, e, r) ↦
        let same = sym e ∙ done in
        let state : s₁ ≡ s' = ap (λ (r : Result StoredRefreshToken × t.State). r.1) same in
        let value : stored' ≡ stored = ground arith in rw (← state, ← value) r
  ]
