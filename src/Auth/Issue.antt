-- ===== src/Auth/Issue.antt =====
-- What the issue of a token pair to a user does.
use nestjs_api_starter.Prelude.{ℕ, String, ◌≡◌, refl, ap, sym, ◌∙◌, inl, inr, Bool, Option}
use nestjs_api_starter.Effects.{Result, ok, ok_injective, err-ne-ok, Result-cases}
use nestjs_api_starter.Prisma.{Delegate}
use nestjs_api_starter.TokenStorage.{
  RefreshToken, same_token, CreateRefreshTokenInput, StoredRefreshToken, create,
}
use nestjs_api_starter.Directory.{Directory}
use nestjs_api_starter.Auth.{
  AuthResponseDto, AccessTokenPayload, Stores, refresh_token_expiry, issue_token_pair,
}

module _ (sha256 : String → String) (t : Delegate RefreshToken same_token) (d : Directory)
    (hash : String → Result String) (compare : String → String → Result Bool)
    (sign : AccessTokenPayload → ℕ → Result String) (ttl : Option String) (clock : ℕ → ℕ)
    (fresh : String) where
  abbrev pub Answer : Type 0
  Answer = Result AuthResponseDto × Stores d.State t.State

  -- A pair for a user: a stored token for that user with the configured lifetime, and a signed
  -- access token.
  abbrev pub Issues :
      String → String → AuthResponseDto → (before after : Stores d.State t.State) → Type 0
  Issues user_id email pair before after =
      (stored : StoredRefreshToken) × (expires_at : ℕ) × (refresh_token_expiry sha256 t d hash
          compare sign ttl (clock 0)
        ≡ ok expires_at)
      × (create sha256 t (record { user_id = user_id; token = fresh; expires_at = expires_at })
            before.tokens
          ≡ (ok stored, after.tokens))
      × (sign (record { sub = user_id; email = email }) (clock 1) ≡ ok pair.access_token)
      × (pair.refresh_token ≡ fresh)
      × (after.directory ≡ before.directory)

  pub issue_token_pair-Issues :
      (user_id email : String) (w : Stores d.State t.State) (pair : AuthResponseDto)
      → (issue_token_pair sha256 t d hash compare sign ttl clock fresh user_id email w).0 ≡ ok pair
      → Issues user_id email pair w
          (issue_token_pair sha256 t d hash compare sign ttl clock fresh user_id email w).1
  unfolding issue_token_pair
  issue_token_pair-Issues user_id email w pair e =
      elim (Result-cases (refresh_token_expiry sha256 t d hash compare sign ttl (clock 0))) [
        | inr (x, failed) ↦ absurd (err-ne-ok (rw failed at e))
        | inl (expires_at, until) ↦
            let input : CreateRefreshTokenInput = record {
              user_id = user_id;
              token = fresh;
              expires_at = expires_at;
            } in
            let created = create sha256 t input w.tokens in
            elim (Result-cases created.0) [
              | inr (x, failed) ↦ absurd (err-ne-ok (rw (until, failed) at e))
              | inl (stored, made) ↦
                  elim (Result-cases (sign (record { sub = user_id; email = email }) (clock 1))) [
                    | inr (x, failed) ↦ absurd (err-ne-ok (rw (until, made, failed) at e))
                    | inl (access, signed) ↦
                        let answer : AuthResponseDto = record {
                          access_token = access;
                          refresh_token = fresh;
                        } in
                        let same : issue_token_pair sha256 t d hash compare sign ttl clock fresh
                              user_id email w
                            ≡ (ok answer, record w { tokens = created.1 }) =
                          rw (until, made, signed) refl in
                        let value : answer ≡ pair =
                          ok_injective (sym (ap (λ (x : Answer). x.0) same) ∙ e) in
                        let whole : created ≡ (ok stored, created.1) =
                          ap (λ (x : Result StoredRefreshToken). (x, created.1)) made in
                        (
                          stored,
                          expires_at,
                          until,
                          whole ∙ ap (λ (x : Answer). (ok stored, x.1.tokens)) (sym same),
                          signed ∙ ap (λ (p : AuthResponseDto). ok p.access_token) value,
                          ap (λ (p : AuthResponseDto). p.refresh_token) (sym value),
                          ap (λ (x : Answer). x.1.directory) same,
                        )
                  ]
            ]
      ]
