-- ===== src/Auth/Refresh.antt =====
-- The refresh of a token pair: rotation, reuse of a revoked token, failures.
use nestjs_api_starter.Prelude.{
  ℕ, String, ◌≡◌, ◌≢◌, refl, ap, sym, ◌∙◌, ◌⊎◌, inl, inr, Bool, true, Option, none, some,
  Bool-cases, str_eq,
}
use nestjs_api_starter.Effects.{
  Result, ok, err, Exception, http, unauthorized, ok_injective, err-ne-ok, Result-cases,
}
use nestjs_api_starter.Prisma.{Delegate}
use nestjs_api_starter.TokenStorage.{
  RefreshToken, same_token, StoredRefreshToken, find_valid, find_revoked, rotate,
  revoke_all_for_user, user_where, revoke_at,
}
use nestjs_api_starter.TokenStorage.Revocation.{revoke_all_for_user-find_valid}
use nestjs_api_starter.TokenStorage.Steps.{rotate-cases}
use nestjs_api_starter.Directory.{Directory, User}
use nestjs_api_starter.Users.{find_by_id}
use nestjs_api_starter.Auth.{
  AuthResponseDto, AccessTokenPayload, Stores, refresh, refresh_token_expiry, rotate_for,
  with_stored,
}

module _ (sha256 : String → String) (t : Delegate RefreshToken same_token) (d : Directory)
    (hash : String → Result String) (compare : String → String → Result Bool)
    (sign : AccessTokenPayload → ℕ → Result String) (ttl : Option String) (clock : ℕ → ℕ)
    (fresh token : String) (w : Stores d.State t.State) where
  abbrev Answer : Type 0
  Answer = Result AuthResponseDto × Stores d.State t.State

  -- What the rotation of the presented token for a user gives.
  abbrev pub Rotates : User → AuthResponseDto → Stores d.State t.State → Type 0
  Rotates user pair w' =
      (rotated : StoredRefreshToken) × (expires_at : ℕ) × (sign
          (record { sub = user.id; email = user.email }) (clock 3)
        ≡ ok pair.access_token)
      × (pair.refresh_token ≡ fresh)
      × (refresh_token_expiry sha256 t d hash compare sign ttl (clock 4) ≡ ok expires_at)
      × (rotate sha256 t
            (record { current_token = token; next_token = fresh; expires_at = expires_at })
            (clock 5) (clock 6) w.tokens
          ≡ (ok rotated, w'.tokens))
      × (w'.directory ≡ w.directory)

  abbrev refreshed : Answer
  refreshed = refresh sha256 t d hash compare sign ttl clock fresh token w

  rotate_for-ok :
      (user : User) (pair : AuthResponseDto)
      → (rotate_for sha256 t d hash compare sign ttl clock fresh token user w).0 ≡ ok pair
      → Rotates user pair (rotate_for sha256 t d hash compare sign ttl clock fresh token user w).1
  rotate_for-ok user pair e =
      elim (Result-cases (sign (record { sub = user.id; email = user.email }) (clock 3))) [
        | inr (x, failed) ↦ absurd (err-ne-ok (rw failed at e))
        | inl (access, signed) ↦
            elim (Result-cases (refresh_token_expiry sha256 t d hash compare sign ttl (clock 4))) [
              | inr (x, failed) ↦ absurd (err-ne-ok (rw (signed, failed) at e))
              | inl (expires_at, until) ↦
                  elim (rotate-cases sha256 t
                    (record { current_token = token; next_token = fresh; expires_at = expires_at })
                    (clock 5) (clock 6) w.tokens) [
                      | inl (x, failed) ↦ absurd (err-ne-ok (rw (signed, until, failed) at e))
                      | inr (rotated, s', is_rotated, r) ↦
                          let rotating =
                            rotate_for sha256 t d hash compare sign ttl clock fresh token user w in
                          let answer : AuthResponseDto = record {
                            access_token = access;
                            refresh_token = fresh;
                          } in
                          let same : rotating ≡ (ok answer, record w { tokens = s' }) =
                            rw (signed, until, is_rotated) refl in
                          let value : answer ≡ pair =
                            ok_injective (sym (ap (λ (x : Answer). x.0) same) ∙ e) in
                          (
                            rotated,
                            expires_at,
                            signed ∙ ap (λ (p : AuthResponseDto). ok p.access_token) value,
                            ap (λ (p : AuthResponseDto). p.refresh_token) (sym value),
                            until,
                            is_rotated ∙ ap (λ (x : Answer). (ok rotated, x.1.tokens)) (sym same),
                            ap (λ (x : Answer). x.1.directory) same,
                          )
                    ]
            ]
      ]

  none-ne-ok :
      (pair : AuthResponseDto)
      → (with_stored sha256 t d hash compare sign ttl clock fresh token none w).0 ≡ ok pair
      → ⊥
  none-ne-ok pair e = elim (Result-cases (find_revoked sha256 t token (clock 1) w.tokens)) [
    | inr (x, failed) ↦ err-ne-ok (rw failed at e)
    | inl (none, unknown) ↦ err-ne-ok (rw unknown at e)
    | inl (some revoked, found) ↦
        elim (Result-cases (revoke_all_for_user sha256 t revoked.user_id (clock 2) w.tokens).0) [
          | inr (x, failed) ↦ err-ne-ok (rw (found, failed) at e)
          | inl (done, gone) ↦ err-ne-ok (rw (found, gone) at e)
        ]
  ]

  -- A token that is not valid, but revoked and not expired, is being reused, and the request fails.
  -- Either the storage revokes all tokens of the user: then the error is the one of an invalid
  -- token, and no lookup of any token at any time finds a valid one of the same user. Or the
  -- storage fails to: then the request fails with its error, and both stores are as they were.
  pub refresh-reuse :
      (revoked x : StoredRefreshToken) (any_token : String) (now : ℕ)
      → find_valid sha256 t token (clock 0) w.tokens ≡ ok none
      → find_revoked sha256 t token (clock 1) w.tokens ≡ ok (some revoked)
      → x.user_id ≡ revoked.user_id
      → (((revoke_all_for_user sha256 t revoked.user_id (clock 2) w.tokens).0 ≡ ok tt)
          × (refreshed.0 ≡ err (http unauthorized "Invalid refresh token."))
          × (find_valid sha256 t any_token now refreshed.1.tokens ≢ ok (some x)))
        ⊎ ((e : Exception) × ((revoke_all_for_user sha256 t revoked.user_id (clock 2) w.tokens).0
              ≡ err e)
            × (refreshed ≡ (err e, w)))
  unfolding refresh revoke_all_for_user
  refresh-reuse revoked x any_token now invalid found owner =
      elim (t.update_many_law (user_where revoked.user_id) (revoke_at (clock 2)) w.tokens) [
        | inl (s', e, rows) ↦
            let gone : revoke_all_for_user sha256 t revoked.user_id (clock 2) w.tokens
                ≡ (ok tt, s') =
              rw (revoke_all_for_user, e) refl in
            let ends : refreshed
                ≡ (err (http unauthorized "Invalid refresh token."), record w { tokens = s' }) =
              rw (invalid, found, e) refl in
            inl (
              ap (λ (r : Result (Unit {0}) × t.State). r.0) gone,
              ap (λ (x : Answer). x.0) ends,
              λ valid.
                  revoke_all_for_user-find_valid sha256 t revoked.user_id (clock 2) w.tokens s' gone
                    any_token now x (rw ends at valid) owner,
            )
        | inr (x, e) ↦ inr (x, rw (revoke_all_for_user, e) refl, rw (invalid, found, e) refl)
      ]

  -- A refresh that returns: the presented token was valid, its owner is an active user for whom the
  -- access token is signed, and the rotation of the token to the new one returned; the directory is
  -- unchanged.
  pub refresh-ok :
      (pair : AuthResponseDto)
      → refreshed.0 ≡ ok pair
      → (stored : StoredRefreshToken) × (user : User) × (find_valid sha256 t token
            (clock 0)
            w.tokens
          ≡ ok (some stored))
        × (find_by_id d stored.user_id w.directory ≡ ok (some user))
        × (user.is_active ≡ true)
        × Rotates user pair refreshed.1
  unfolding refresh find_by_id
  refresh-ok pair e = elim (Result-cases (find_valid sha256 t token (clock 0) w.tokens)) [
    | inr (x, failed) ↦ absurd (err-ne-ok (rw failed at e))
    | inl (none, invalid) ↦ absurd (none-ne-ok pair (rw invalid at e))
    | inl (some stored, valid) ↦
        elim (Result-cases (d.find_user (λ user. str_eq user.id stored.user_id) w.directory)) [
          | inr (x, failed) ↦ absurd (err-ne-ok (rw (valid, failed) at e))
          | inl (none, missing) ↦ absurd (err-ne-ok (rw (valid, missing) at e))
          | inl (some user, found) ↦ elim (Bool-cases user.is_active) [
            | inr inactive ↦ absurd (err-ne-ok (rw (valid, found, inactive) at e))
            | inl active ↦
                let same : refreshed
                    ≡ rotate_for sha256 t d hash compare sign ttl clock fresh token user w =
                  rw (valid, found, active) refl in
                (
                  stored,
                  user,
                  valid,
                  found,
                  active,
                  rw same (rotate_for-ok user pair (rw same at e)),
                )
          ]
        ]
  ]

  -- If no access token can be signed, then the refresh of a valid token fails and leaves both
  -- stores as they were.
  pub refresh-unsigned :
      (stored : StoredRefreshToken)
      → find_valid sha256 t token (clock 0) w.tokens ≡ ok (some stored)
      → ((payload : AccessTokenPayload) (now : ℕ) → (e : Exception) × (sign payload now ≡ err e))
      → (e : Exception) × (refreshed ≡ (err e, w))
  unfolding refresh find_by_id
  refresh-unsigned stored valid unsigned =
      elim (d.find_user_law (λ user. str_eq user.id stored.user_id) w.directory) [
        | inl (missing, h) ↦ (http unauthorized "Account is inactive.", rw (valid, missing) refl)
        | inr (inl (user, found, i, h)) ↦ elim (Bool-cases user.is_active) [
          | inl active ↦
              let (e, failed) = unsigned (record { sub = user.id; email = user.email }) (clock 3) in
              (e, rw (valid, found, active, failed) refl)
          | inr inactive ↦
              (http unauthorized "Account is inactive.", rw (valid, found, inactive) refl)
        ]
        | inr (inr (e, failed)) ↦ (e, rw (valid, failed) refl)
      ]
