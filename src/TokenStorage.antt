-- ===== src/TokenStorage.antt =====
-- src/auth/storage: the refresh tokens at rest (token-storage.interface.ts and
-- prisma-token-storage.service.ts). The Prisma delegate and SHA-256 are parameters. A time is a
-- number of milliseconds; `now` and `stamp` are what the calls of `new Date()` return, in the order
-- of the source. The columns createdAt and updatedAt, which no code here reads, are left out.
pub mod Rows
pub mod Steps
pub mod Rotation
pub mod Revocation
pub mod Successor
pub mod Spec
pub mod View
pub mod Operate
pub mod Statements
pub mod Refinement
pub mod Tests
use nestjs_api_starter.Prelude.{
  ℕ, String, Bool, true, false, ◌&&◌, ◌||◌, Option, none, some, List, [], ◌∷◌, str_eq, ◌==◌, ltb,
  not, is_some, if◌then◌else◌,
}
use nestjs_api_starter.Effects.{
  Result, ok, err, Tx, Eff, http, unauthorized, tx_then, ◌>>=◌, ◌>>◌, pure, reads, exec, map_result,
}
use nestjs_api_starter.Prisma.{Delegate, find_unique_or_throw}
use mathlib.Core.Option

pub record RefreshToken : Type 0 where
  pub id : String
  pub user_id : String
  pub token_hash : String
  pub expires_at : ℕ
  pub revoked_at : Option ℕ

-- the unique column `tokenHash`; ids are generated by `cuid()` and taken to be new
abbrev pub same_token : RefreshToken → RefreshToken → Bool
same_token a b = str_eq a.token_hash b.token_hash

pub record CreateRefreshTokenInput : Type 0 where
  pub user_id : String
  pub token : String
  pub expires_at : ℕ

pub record RotateRefreshTokenInput : Type 0 where
  pub current_token : String
  pub next_token : String
  pub expires_at : ℕ

pub record StoredRefreshToken : Type 0 where
  pub id : String
  pub user_id : String
  pub expires_at : ℕ
  pub revoked_at : Option ℕ

abbrev pub to_stored : RefreshToken → StoredRefreshToken
to_stored r = record {
  id = r.id;
  user_id = r.user_id;
  expires_at = r.expires_at;
  revoked_at = r.revoked_at;
}

-- The `where` objects: `revokedAt: null`, `expiresAt: { gt: new Date() }` and the digest.
abbrev pub is_live : RefreshToken → Bool
is_live r = not (is_some r.revoked_at)

abbrev pub valid_where : String → ℕ → RefreshToken → Bool
valid_where hash now r = str_eq r.token_hash hash && is_live r && ltb now r.expires_at

abbrev pub revoked_where : String → ℕ → RefreshToken → Bool
revoked_where hash now r = str_eq r.token_hash hash && is_some r.revoked_at && ltb now r.expires_at

abbrev pub owned_where : String → String → RefreshToken → Bool
owned_where hash user_id r = str_eq r.token_hash hash && is_live r && str_eq r.user_id user_id

abbrev pub user_where : String → RefreshToken → Bool
user_where user_id r = str_eq r.user_id user_id && is_live r

-- `data: { revokedAt: new Date() }`
abbrev pub revoke_at : ℕ → RefreshToken → RefreshToken
revoke_at stamp r = record r { revoked_at = some stamp }

module _ (sha256 : String → String) (t : Delegate RefreshToken same_token) where
  abbrev pub new_row : String → String → ℕ → String → RefreshToken
  new_row user_id token expires_at id = record {
    id = id;
    user_id = user_id;
    token_hash = sha256 token;
    expires_at = expires_at;
    revoked_at = none;
  }

  unfoldable pub create : CreateRefreshTokenInput → Eff t.State StoredRefreshToken
  create input = do
    row ← exec (t.create (new_row input.user_id input.token input.expires_at))
    pure (to_stored row)

  unfoldable pub find_valid : String → ℕ → t.State → Result (Option StoredRefreshToken)
  find_valid token now s =
      map_result (Option.map to_stored) (t.find_first (valid_where (sha256 token) now) s)

  unfoldable pub find_revoked : String → ℕ → t.State → Result (Option StoredRefreshToken)
  find_revoked token now s =
      map_result (Option.map to_stored) (t.find_first (revoked_where (sha256 token) now) s)

  -- the callback of `$transaction`, its second and third statements
  abbrev pub mint : RotateRefreshTokenInput → Result RefreshToken → Tx t.State StoredRefreshToken
  mint input (err e) s = err e
  mint input (ok current) s =
      tx_then (t.create (new_row current.user_id input.next_token input.expires_at) s)
        λ row s'. ok (to_stored row, s')

  unfoldable pub rotate_tx : RotateRefreshTokenInput → ℕ → ℕ → Tx t.State StoredRefreshToken
  rotate_tx input now stamp s =
      let hash = sha256 input.current_token in
      tx_then (t.update_many (valid_where hash now) (revoke_at stamp) s) λ count s'.
        if count == 1
        then mint input (find_unique_or_throw t (λ r. str_eq r.token_hash hash) s') s'
        else err (http unauthorized "Invalid refresh token.")

  unfoldable pub rotate : RotateRefreshTokenInput → ℕ → ℕ → Eff t.State StoredRefreshToken
  unfolding rotate_tx
  rotate input now stamp = exec (t.transaction (rotate_tx input now stamp))

  unfoldable pub revoke : String → String → ℕ → Eff t.State (Unit {0})
  revoke token user_id stamp = do
    exec (t.update_many (owned_where (sha256 token) user_id) (revoke_at stamp))
    pure tt

  unfoldable pub revoke_all_for_user : String → ℕ → Eff t.State (Unit {0})
  revoke_all_for_user user_id stamp = do
    exec (t.update_many (user_where user_id) (revoke_at stamp))
    pure tt
