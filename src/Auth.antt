-- ===== src/Auth.antt =====
-- src/auth/auth.service.ts. bcrypt, the JWT service and SHA-256 are parameters; the random bytes of
-- a refresh token are an argument, and the readings of the clock are a function of their number.
pub mod Refresh
pub mod Issue
pub mod Login
pub mod Register
pub mod Unissued
pub mod Tests
use Prim.Native.String
use nestjs_api_starter.Prelude.{
  ℕ, suc, ◌+◌, ◌-◌, ◌*◌, String, Bool, true, false, Option, none, some, List, [], ◌∷◌, ◌++◌,
  or_default, if◌then◌else◌, ◌==◌, ◌&&◌, ◌||◌, leb, any,
}
use nestjs_api_starter.Effects.{
  Result, ok, err, Exception, http, other, unauthorized, Eff, pure, throw, lift, reads, ◌>>=◌, ◌>>◌,
}
use nestjs_api_starter.Double.{Double, whole, infinity}
use nestjs_api_starter.Json.{units}
use nestjs_api_starter.Ttl.{parse_ttl_to_ms}
use nestjs_api_starter.Prisma.{Delegate}
use nestjs_api_starter.TokenStorage.{
  RefreshToken, same_token, StoredRefreshToken, create, find_valid, find_revoked, rotate, revoke,
  revoke_all_for_user,
}
use nestjs_api_starter.Directory.{Directory, User}
use nestjs_api_starter.Users.{UserProfile, find_by_email, find_by_id, create_user, get_current_user}

-- src/auth/dto: the bodies of the requests
pub record RegisterDto : Type 0 where
  pub email : String
  pub password : String
  pub name : Option String

pub record LoginDto : Type 0 where
  pub email : String
  pub password : String

pub record AuthResponseDto : Type 0 where
  pub access_token : String
  pub refresh_token : String

-- its `type` is always 'access'
pub record AccessTokenPayload : Type 0 where
  pub sub : String
  pub email : String

-- The last date of JavaScript, in milliseconds. `new Date` of a later time, or of Infinity, is an
-- invalid date, which does not throw, but which the Prisma client refuses to write: here it is an
-- error at once. A sum of doubles that is no date is not rounded to one, since the last date is
-- below 2 ^ 53.
abbrev pub max_date : ℕ
max_date = 8640000000000000

abbrev pub invalid_date : Exception
invalid_date = other "Invalid Date"

abbrev pub invalid_ttl : String → Exception
invalid_ttl ttl = other (String.◌++◌ "Invalid refresh TTL: \"" (String.◌++◌ ttl "\"."))

abbrev pub expiry_of : String → ℕ → Option Double → Result ℕ
expiry_of ttl now none = err (invalid_ttl ttl)
expiry_of ttl now (some infinity) = err invalid_date
expiry_of ttl now (some (whole ms)) =
    if leb (now + ms) max_date then ok (now + ms) else err invalid_date

-- The two stores that the service works on.
pub record Stores (D T : Type 0) : Type 0 where
  pub directory : D
  pub tokens : T

module _ {D T A : Type 0} where
  abbrev pub on_directory : Eff D A → Eff (Stores D T) A
  on_directory m w = let (r, s) = m w.directory in (r, record w { directory = s })

  abbrev pub on_tokens : Eff T A → Eff (Stores D T) A
  on_tokens m w = let (r, s) = m w.tokens in (r, record w { tokens = s })

module _ (sha256 : String → String) (t : Delegate RefreshToken same_token) (d : Directory)
    (hash : String → Result String) (compare : String → String → Result Bool)
    (sign : AccessTokenPayload → ℕ → Result String) (ttl : Option String) where
  abbrev pub Auth : Type 0 → Type 0
  Auth A = Eff (Stores d.State t.State) A

  abbrev pub refresh_token_expiry : ℕ → Result ℕ
  refresh_token_expiry now =
      let text = or_default ttl "7d" in expiry_of text now (parse_ttl_to_ms (units text))

  abbrev pub sign_access_token : String → String → ℕ → Result String
  sign_access_token user_id email now = sign (record { sub = user_id; email = email }) now

  unfoldable pub issue_token_pair : (ℕ → ℕ) → String → String → String → Auth AuthResponseDto
  issue_token_pair clock fresh user_id email = do
    expires_at ← lift (refresh_token_expiry (clock 0))
    on_tokens
        (create sha256 t (record { user_id = user_id; token = fresh; expires_at = expires_at }))
    access_token ← lift (sign_access_token user_id email (clock 1))
    pure (record { access_token = access_token; refresh_token = fresh })

  unfoldable pub register : (ℕ → ℕ) → String → RegisterDto → Auth AuthResponseDto
  register clock fresh dto = do
    password_hash ← lift (hash dto.password)
    user ← on_directory (
        create_user d
          (record {
            email = dto.email;
            password_hash = password_hash;
            name = dto.name;
            role_name = some "user";
          })
          (clock 2))
    issue_token_pair clock fresh user.id user.email

  abbrev pub invalid_credentials : Exception
  invalid_credentials = http unauthorized "Invalid credentials."

  abbrev pub after_compare : (ℕ → ℕ) → String → User → Bool → Auth AuthResponseDto
  after_compare clock fresh user false = throw invalid_credentials
  after_compare clock fresh user true =
      if user.is_active
      then issue_token_pair clock fresh user.id user.email
      else throw invalid_credentials

  abbrev pub with_user : (ℕ → ℕ) → String → LoginDto → Option User → Auth AuthResponseDto
  with_user clock fresh dto none = throw invalid_credentials
  with_user clock fresh dto (some user) =
      lift (compare dto.password user.password_hash) >>= after_compare clock fresh user

  unfoldable pub login : (ℕ → ℕ) → String → LoginDto → Auth AuthResponseDto
  login clock fresh dto =
      on_directory (reads (find_by_email d dto.email)) >>= with_user clock fresh dto

  abbrev pub invalid_refresh_token : Exception
  invalid_refresh_token = http unauthorized "Invalid refresh token."

  -- a token that is not valid: if it was revoked, it is being reused
  abbrev pub reused : (ℕ → ℕ) → Option StoredRefreshToken → Auth AuthResponseDto
  reused clock none = throw invalid_refresh_token
  reused clock (some revoked) =
      on_tokens (revoke_all_for_user sha256 t revoked.user_id (clock 2))
      >> throw invalid_refresh_token

  abbrev pub rotate_for : (ℕ → ℕ) → String → String → User → Auth AuthResponseDto
  rotate_for clock fresh token user = do
    access_token ← lift (sign_access_token user.id user.email (clock 3))
    expires_at ← lift (refresh_token_expiry (clock 4))
    on_tokens (
        rotate sha256 t
          (record { current_token = token; next_token = fresh; expires_at = expires_at }) (clock 5)
          (clock 6))
    pure (record { access_token = access_token; refresh_token = fresh })

  abbrev pub with_owner : (ℕ → ℕ) → String → String → Option User → Auth AuthResponseDto
  with_owner clock fresh token none = throw (http unauthorized "Account is inactive.")
  with_owner clock fresh token (some user) =
      if user.is_active
      then rotate_for clock fresh token user
      else throw (http unauthorized "Account is inactive.")

  abbrev pub with_stored :
      (ℕ → ℕ) → String → String → Option StoredRefreshToken → Auth AuthResponseDto
  with_stored clock fresh token none =
      on_tokens (reads (find_revoked sha256 t token (clock 1))) >>= reused clock
  with_stored clock fresh token (some stored) =
      on_directory (reads (find_by_id d stored.user_id)) >>= with_owner clock fresh token

  unfoldable pub refresh : (ℕ → ℕ) → String → String → Auth AuthResponseDto
  refresh clock fresh token =
      on_tokens (reads (find_valid sha256 t token (clock 0))) >>= with_stored clock fresh token

  unfoldable pub logout : (ℕ → ℕ) → String → String → Auth (Unit {0})
  logout clock token user_id = on_tokens (revoke sha256 t token user_id (clock 0))

  unfoldable pub me : String → Auth UserProfile
  me user_id = on_directory (get_current_user d user_id)
