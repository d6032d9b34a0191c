-- ===== src/TokenStorage/Refinement.antt =====
-- The token storage over its table does what its specification does.
use nestjs_api_starter.Prelude.{
  ℕ, String, ◌≡◌, refl, ap, fun_ext, sym, ◌∙◌, ◌⊎◌, inl, inr, some, List, [], ◌∷◌, arith, Apart,
  Option-cases, str_eq, eq_refl, ◌&&◌,
}
use nestjs_api_starter.Effects.{ok, err, Tx, unique_violation}
use nestjs_api_starter.Prisma.{Delegate, IsUp, find_unique_or_throw}
use nestjs_api_starter.TokenStorage.{
  RefreshToken, same_token, StoredRefreshToken, CreateRefreshTokenInput, RotateRefreshTokenInput,
  create, find_valid, find_revoked, rotate, rotate_tx, mint, revoke, revoke_all_for_user, new_row,
  to_stored, valid_where, owned_where, user_where,
}
use nestjs_api_starter.TokenStorage.Spec.{
  TokenEntry, Digests, Operation, creating, finding, finding_revoked, rotating, revoking_all,
  stored, refused, put, only_if, is_usable, is_reused, is_open_of, closed, rotate_entry, spec_step,
  spec_run,
}
use nestjs_api_starter.TokenStorage.Spec.{revoking as revoking_one}
use nestjs_api_starter.TokenStorage.View.{view, view-none, view-at, view-count}
use nestjs_api_starter.TokenStorage.Operate.{shown, operate, operate_all}
use nestjs_api_starter.TokenStorage.Statements.{
  close_only, closed_one, insertion, lookup, revocation,
}

module _ (sha256 : String → String) (t : Delegate RefreshToken same_token) (up : IsUp t) where
  abbrev pub Refines : Operation → t.State → Type 0
  Refines c s =
      (s' : t.State) × (operate sha256 t c s ≡ ((spec_step sha256 c (view (t.rows s))).0, s'))
      × Apart same_token (t.rows s')
      × (view (t.rows s') ≡ (spec_step sha256 c (view (t.rows s))).1)

  create-Refines :
      (input : CreateRefreshTokenInput) (s : t.State)
      → Apart same_token (t.rows s)
      → Refines (creating input) s
  unfolding create
  create-Refines input s a =
      elim (insertion sha256 t up input.user_id input.token input.expires_at s a) [
        | inl (id, s', e, a', free, v) ↦ (s', rw (create, e, free) refl, a', rw (v, free) refl)
        | inr (x, e, v) ↦ (s, rw (create, e, v) refl, a, rw v refl)
      ]

  find_valid-Refines :
      (token : String) (now : ℕ) (s : t.State)
      → Apart same_token (t.rows s)
      → Refines (finding token now) s
  unfolding find_valid
  find_valid-Refines token now s a =
      (s, lookup sha256 t up token _ (is_usable now) (λ r. ground arith) s a, a, refl)

  find_revoked-Refines :
      (token : String) (now : ℕ) (s : t.State)
      → Apart same_token (t.rows s)
      → Refines (finding_revoked token now) s
  unfolding find_revoked
  find_revoked-Refines token now s a =
      (s, lookup sha256 t up token _ (is_reused now) (λ r. ground arith) s a, a, refl)

  revoke_all-Refines :
      (user_id : String) (stamp : ℕ) (s : t.State)
      → Apart same_token (t.rows s)
      → Refines (revoking_all user_id stamp) s
  unfolding revoke_all_for_user
  revoke_all-Refines user_id stamp s a =
      let (s', e, a', v) =
        revocation sha256 t up (user_where user_id) (λ x. is_open_of user_id) stamp s
          (λ r. ground arith) a in
      (s', rw (revoke_all_for_user, e) refl, a', v)

  revoke-Refines :
      (token user_id : String) (stamp : ℕ) (s : t.State)
      → Apart same_token (t.rows s)
      → Refines (revoking_one token user_id stamp) s
  unfolding revoke
  revoke-Refines token user_id stamp s a =
      let (s', e, a', v) =
        revocation sha256 t up (owned_where (sha256 token) user_id)
          (λ x entry. str_eq x (sha256 token) && is_open_of user_id entry) stamp s
          (λ r. ground arith) a in
      (
        s',
        rw (revoke, e) refl,
        a',
        v ∙ fun_ext λ x. close_only (sha256 token) x _ stamp (view (t.rows s) x),
      )

  mint-Refines :
      (input : RotateRefreshTokenInput) (stamp : ℕ) (s s₁ : t.State) (e : TokenEntry)
      → Apart same_token (t.rows s₁)
      → view (t.rows s₁) ≡ put (sha256 input.current_token) (closed stamp e) (view (t.rows s))
      → (let minted =
            mint sha256 t input
              (find_unique_or_throw t (λ r. str_eq r.token_hash (sha256 input.current_token)) s₁)
              s₁ in
          let promised = rotate_entry sha256 input stamp (view (t.rows s)) (some e) in
          ((x : StoredRefreshToken) × (s' : t.State) × (minted ≡ ok (x, s'))
            × Apart same_token (t.rows s')
            × (promised ≡ (stored (shown x), view (t.rows s'))))
          ⊎ ((minted ≡ err unique_violation)
              × (promised ≡ (refused unique_violation, view (t.rows s)))))
  mint-Refines input stamp s s₁ e a v =
      let cur = sha256 input.current_token in
      let there : view (t.rows s₁) cur ≡ some (closed stamp e) = rw (v, eq_refl cur) refl in
      elim (t.find_first_law (λ r. str_eq r.token_hash cur) s₁) [
        | inl (f, h) ↦ absurd (ground (arith, view-none cur (t.rows s₁) h))
        | inr (inl (owner, f, i, h)) ↦
            let user : owner.user_id ≡ e.user_id =
              ground (arith, view-at cur owner (t.rows s₁) a i h) in
            elim (insertion sha256 t up owner.user_id input.next_token input.expires_at s₁ a) [
              | inl (id, s', c, a', free, v') ↦
                  let unused = ap (λ (d : Digests). d (sha256 input.next_token)) (sym v) ∙ free in
                  let row = new_row sha256 t owner.user_id input.next_token input.expires_at id in
                  inl (to_stored row, s', rw (f, c) refl, a', rw (unused, v', v, user) refl)
              | inr (x, c, taken) ↦
                  let used = ap (λ (d : Digests). d (sha256 input.next_token)) (sym v) ∙ taken in
                  inr (rw (f, c) refl, rw used refl)
            ]
        | inr (inr (x, f)) ↦ absurd (up.finds _ s₁ x f)
      ]

  rotate-Refines :
      (commits : (body : Tx t.State StoredRefreshToken) (s : t.State)
        → t.transaction body s ≡ body s)
      (input : RotateRefreshTokenInput) (now stamp : ℕ) (s : t.State)
      → Apart same_token (t.rows s)
      → Refines (rotating input now stamp) s
  unfolding rotate rotate_tx
  rotate-Refines commits input now stamp s a =
      let cur = sha256 input.current_token in
      let p = valid_where cur now in
      let (s₁, u, a₁, v₁) =
        revocation sha256 t up p (λ x e. str_eq x cur && is_usable now e) stamp s
          (λ r. ground arith) a in
      let n = view-count cur p (is_usable now) (λ r. ground arith) (t.rows s) a in
      elim (Option-cases (only_if (is_usable now) (view (t.rows s) cur))) [
        | inl no_entry ↦ (
          s,
          rw (rotate, commits (rotate_tx sha256 t input now stamp) s, rotate_tx, u, n, no_entry)
              refl,
          a,
          rw no_entry refl,
        )
        | inr (e, passed) ↦
            let v = v₁ ∙ closed_one cur (is_usable now) stamp e (view (t.rows s)) passed in
            elim (mint-Refines input stamp s s₁ e a₁ v) [
              | inl (x, s', minted, a', promised) ↦ (
                s',
                rw
                    (
                      rotate,
                      commits (rotate_tx sha256 t input now stamp) s,
                      rotate_tx,
                      u,
                      n,
                      passed,
                      minted,
                      promised,
                    )
                    refl,
                a',
                rw (passed, promised) refl,
              )
              | inr (minted, promised) ↦ (
                s,
                rw
                    (
                      rotate,
                      commits (rotate_tx sha256 t input now stamp) s,
                      rotate_tx,
                      u,
                      n,
                      passed,
                      minted,
                      promised,
                    )
                    refl,
                a,
                rw (passed, promised) refl,
              )
            ]
      ]

  module _
      (commits : (body : Tx t.State StoredRefreshToken) (s : t.State)
        → t.transaction body s ≡ body s) where
    step-Refines : (c : Operation) (s : t.State) → Apart same_token (t.rows s) → Refines c s
    step-Refines (creating input) = create-Refines input
    step-Refines (finding token now) = find_valid-Refines token now
    step-Refines (finding_revoked token now) = find_revoked-Refines token now
    step-Refines (rotating input now stamp) = rotate-Refines commits input now stamp
    step-Refines (revoking_one token user_id stamp) = revoke-Refines token user_id stamp
    step-Refines (revoking_all user_id stamp) = revoke_all-Refines user_id stamp

    -- While the database answers and its transactions commit, from a table with unique digests: for
    -- every list of calls of the six methods, in any order and at any times, each call returns or
    -- throws what the specification does. A creation stores an entry under a digest that has none,
    -- and else throws P2002; the lookups return the entry if it is usable, or reused; a rotation
    -- closes a usable entry and gives its user a successor, or throws and changes nothing; the
    -- revocations close the open entries of the user, under the digest or all. The entries of the
    -- table afterwards are those of the specification. Generated ids are left out of the
    -- comparison.
    pub operate_all-spec_run :
        (cs : List Operation) (s : t.State)
        → Apart same_token (t.rows s)
        → (s' : t.State) × (operate_all sha256 t cs s
            ≡ ((spec_run sha256 cs (view (t.rows s))).0, s'))
          × Apart same_token (t.rows s')
          × (view (t.rows s') ≡ (spec_run sha256 cs (view (t.rows s))).1)
    operate_all-spec_run [] s a = (s, refl, a, refl)
    operate_all-spec_run (c ∷ cs) s a =
        let (s₁, e, a₁, v) = step-Refines c s a in
        let (s', e', a', v') = operate_all-spec_run cs s₁ a₁ in
        (s', rw (e, e', v) refl, a', v' ∙ rw v refl)
