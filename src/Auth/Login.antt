-- ===== src/Auth/Login.antt =====
-- Login and logout.
use nestjs_api_starter.Prelude.{
  ℕ, String, ◌≡◌, ◌≢◌, refl, ap, ◌⊎◌, inl, inr, Bool, true, false, Option, none, some, List, Apart,
  Bool-cases,
}
use nestjs_api_starter.Effects.{Result, ok, err, http, unauthorized, err-ne-ok, Result-cases}
use nestjs_api_starter.Prisma.{Delegate}
use nestjs_api_starter.TokenStorage.{RefreshToken, same_token, StoredRefreshToken, find_valid}
use nestjs_api_starter.TokenStorage.Steps.{Call}
use nestjs_api_starter.TokenStorage.Revocation.{run, revoke-final}
use nestjs_api_starter.Directory.{Directory, User}
use nestjs_api_starter.Users.{find_by_email}
use nestjs_api_starter.Auth.{
  AuthResponseDto, AccessTokenPayload, LoginDto, Stores, refresh, issue_token_pair, login, logout,
}
use nestjs_api_starter.Auth.Refresh.{refresh-ok}
use nestjs_api_starter.Auth.Issue.{Issues, issue_token_pair-Issues}

module _ (sha256 : String → String) (t : Delegate RefreshToken same_token) (d : Directory)
    (hash : String → Result String) (compare : String → String → Result Bool)
    (sign : AccessTokenPayload → ℕ → Result String) (ttl : Option String) (clock : ℕ → ℕ)
    (fresh : String) where
  -- Login refuses an unknown address, a wrong password and an inactive account with one and the
  -- same error, and changes nothing.
  pub login-refused :
      (dto : LoginDto) (w : Stores d.State t.State)
      → (find_by_email d dto.email w.directory ≡ ok none)
        ⊎ ((user : User) × (find_by_email d dto.email w.directory ≡ ok (some user))
            × ((compare dto.password user.password_hash ≡ ok false)
                ⊎ ((compare dto.password user.password_hash ≡ ok true) × (user.is_active ≡ false))))
      → login sha256 t d hash compare sign ttl clock fresh dto w
        ≡ (err (http unauthorized "Invalid credentials."), w)
  unfolding login
  login-refused dto w (inl unknown) = rw unknown refl
  login-refused dto w (inr (user, found, inl wrong)) = rw (found, wrong) refl
  login-refused dto w (inr (user, found, inr (right, inactive))) = rw (found, right, inactive) refl

  -- A login that returns: there is an active user with the address, the password matches the stored
  -- hash, and the pair was issued to that user.
  pub login-ok :
      (dto : LoginDto) (w : Stores d.State t.State) (pair : AuthResponseDto)
      → (login sha256 t d hash compare sign ttl clock fresh dto w).0 ≡ ok pair
      → (user : User) × (find_by_email d dto.email w.directory ≡ ok (some user))
        × (compare dto.password user.password_hash ≡ ok true)
        × (user.is_active ≡ true)
        × Issues sha256 t d hash compare sign ttl clock fresh user.id user.email pair w
            (login sha256 t d hash compare sign ttl clock fresh dto w).1
  unfolding login
  login-ok dto w pair e = elim (Result-cases (find_by_email d dto.email w.directory)) [
    | inr (x, failed) ↦ absurd (err-ne-ok (rw failed at e))
    | inl (none, unknown) ↦ absurd (err-ne-ok (rw unknown at e))
    | inl (some user, found) ↦ elim (Result-cases (compare dto.password user.password_hash)) [
      | inr (x, failed) ↦ absurd (err-ne-ok (rw (found, failed) at e))
      | inl (false, wrong) ↦ absurd (err-ne-ok (rw (found, wrong) at e))
      | inl (true, right) ↦ elim (Bool-cases user.is_active) [
        | inr inactive ↦ absurd (err-ne-ok (rw (found, right, inactive) at e))
        | inl active ↦
            let same : login sha256 t d hash compare sign ttl clock fresh dto w
                ≡ issue_token_pair sha256 t d hash compare sign ttl clock fresh user.id user.email
                    w =
              rw (found, right, active) refl in
            (
              user,
              found,
              right,
              active,
              rw same (
                  issue_token_pair-Issues sha256 t d hash compare sign ttl clock fresh user.id
                    user.email w pair (rw same at e)),
            )
      ]
    ]
  ]

  -- In a table whose digests are unique, after the logout of a valid token by its owner returns, no
  -- refresh with the token returns a pair, whatever calls of the token storage come between and
  -- whatever has become of the users.
  pub logout-refresh :
      (token user_id : String) (now : ℕ) (w w' : Stores d.State t.State) (x : StoredRefreshToken)
      → Apart same_token (t.rows w.tokens)
      → find_valid sha256 t token now w.tokens ≡ ok (some x)
      → x.user_id ≡ user_id
      → logout sha256 t d hash compare sign ttl clock token user_id w ≡ (ok tt, w')
      → (calls : List Call) (later : ℕ → ℕ) (users : d.State) (pair : AuthResponseDto)
      → (refresh sha256 t d hash compare sign ttl later fresh token
          (record { directory = users; tokens = run sha256 t calls w'.tokens })).0
        ≢ ok pair
  unfolding logout
  logout-refresh token user_id now w w' x apart valid owner done calls later users pair e =
      let (stored, user, again, known, active, rotates) =
        refresh-ok sha256 t d hash compare sign ttl later fresh token
          (record { directory = users; tokens = run sha256 t calls w'.tokens }) pair e in
      revoke-final sha256 t token user_id now (clock 0) w.tokens w'.tokens x apart valid owner
        (ap (λ (r : Result (Unit {0}) × Stores d.State t.State). (r.0, r.1.tokens)) done) calls
        (later 0) stored again
