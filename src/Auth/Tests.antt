-- ===== src/Auth/Tests.antt =====
-- The auth service on a small directory: a password matches the hash that is it behind a mark, and
-- a signed token is the user's id behind another.
use Prim.Native.String
use nestjs_api_starter.Prelude.{
  ℕ, ◌+◌, ◌^◌, String, ◌≡◌, ◌≢◌, ◌⊎◌, refl, inl, inr, Bool, true, false, Option, none, some, List,
  [], ◌∷◌, All, IsIn, str_eq,
}
use nestjs_api_starter.Effects.{Result, ok, err, Exception, other, http, unauthorized}
use nestjs_api_starter.Json.{units}
use nestjs_api_starter.TokenStorage.{
  RefreshToken, StoredRefreshToken, create, find_valid, find_revoked, rotate, revoke,
  revoke_all_for_user,
}
use nestjs_api_starter.TokenStorage.Revocation.{run}
use nestjs_api_starter.TokenStorage.Tests.{digest, table, history}
use nestjs_api_starter.Directory.{User, Role}
use nestjs_api_starter.Directory.Memory.{directory}
use nestjs_api_starter.Directory.Tables.{Tables}
use nestjs_api_starter.Directory.Sample.{sample, user}
use nestjs_api_starter.Users.{find_by_id, find_by_email, create_user}
use nestjs_api_starter.Auth.{
  AuthResponseDto, AccessTokenPayload, LoginDto, RegisterDto, Stores, refresh, login, logout,
  register, issue_token_pair,
}
use nestjs_api_starter.Double.{whole, infinity, nearest, excess}
use nestjs_api_starter.Ttl.{parse_ttl_to_ms, scan, trim_start, trim_end}
use nestjs_api_starter.Auth.Refresh.{Rotates, refresh-ok, refresh-reuse, refresh-unsigned}
use nestjs_api_starter.Auth.Login.{login-refused, login-ok, logout-refresh}
use nestjs_api_starter.Auth.Issue.{Issues}
use nestjs_api_starter.Auth.Register.{register-ok}
use nestjs_api_starter.Auth.Unissued.{register-unparsed}

abbrev hash : String → Result String
hash password = ok (String.◌++◌ "#" password)

abbrev compare : String → String → Result Bool
compare password stored = ok (str_eq (String.◌++◌ "#" password) stored)

abbrev sign : AccessTokenPayload → ℕ → Result String
sign payload now = ok (String.◌++◌ "jwt:" payload.sub)

abbrev broken_sign : AccessTokenPayload → ℕ → Result String
broken_sign payload now = err (other "no key")

-- 1m
abbrev minute : Option String
minute = some "1m"

abbrev ticking : ℕ → ℕ
ticking n = 10 + n

parse_run : parse_ttl_to_ms (32 ∷ 49 ∷ 53 ∷ 109 ∷ []) ≡ some (whole 900000)
unfolding parse_ttl_to_ms scan trim_start trim_end nearest excess units
parse_run = refl

-- 285,000 years and more: 9007199254740993 seconds are rounded twice, and 400 digits are Infinity.
parse_large :
    (parse_ttl_to_ms (units "9007199254740993s") ≡ some (whole 9007199254740992000))
    × (nearest (10 ^ 400) ≡ infinity)
unfolding parse_ttl_to_ms scan trim_start trim_end nearest excess units
parse_large = (refl, refl)

parse_refused : parse_ttl_to_ms (49 ∷ 119 ∷ []) ≡ none
unfolding parse_ttl_to_ms scan trim_start trim_end nearest excess units
parse_refused = refl

abbrev Answer : Type 0
Answer = Result AuthResponseDto × Stores Tables (List RefreshToken)

-- ann's token t1
abbrev owned : String → Option ℕ → RefreshToken
owned token revoked_at = record {
  id = "id";
  user_id = "u1";
  token_hash = digest token;
  expires_at = 100;
  revoked_at = revoked_at;
}

abbrev stores : Option ℕ → Stores Tables (List RefreshToken)
stores revoked_at = record { directory = sample; tokens = owned "t1" revoked_at ∷ [] }

abbrev pair : AuthResponseDto
pair = record { access_token = "jwt:u1"; refresh_token = "t2" }

abbrev stored_t1 : Option ℕ → StoredRefreshToken
stored_t1 revoked_at = record {
  id = "id";
  user_id = "u1";
  expires_at = 100;
  revoked_at = revoked_at;
}

refresh-ok_example :
    (stored : StoredRefreshToken) × (u : User) × (find_valid digest table "t1" 10
        (stores none).tokens
      ≡ ok (some stored))
    × (find_by_id directory stored.user_id sample ≡ ok (some u))
    × (u.is_active ≡ true)
    × Rotates digest table directory hash compare sign minute ticking "t2" "t1"
        (stores none)
        u
        pair
        (refresh digest table directory hash compare sign minute ticking "t2" "t1" (stores none)).1
unfolding refresh find_valid find_by_id rotate parse_ttl_to_ms scan trim_start trim_end nearest
    excess units
refresh-ok_example =
    refresh-ok digest table directory hash compare sign minute ticking "t2" "t1" (stores none) pair
      refl

abbrev reused_t1 : Answer
reused_t1 =
    refresh digest table directory hash compare sign minute ticking "t2" "t1" (stores (some 5))

refresh-reuse_example :
    (((revoke_all_for_user digest table "u1" 12 (stores (some 5)).tokens).0 ≡ ok tt)
      × (reused_t1.0 ≡ err (http unauthorized "Invalid refresh token."))
      × (find_valid digest table "t3" 20 reused_t1.1.tokens ≢ ok (some (stored_t1 none))))
    ⊎ ((e : Exception) × ((revoke_all_for_user digest table "u1" 12 (stores (some 5)).tokens).0
          ≡ err e)
        × (reused_t1 ≡ (err e, stores (some 5))))
unfolding find_valid find_revoked
refresh-reuse_example =
    refresh-reuse digest table directory hash compare sign minute ticking "t2" "t1"
      (stores (some 5)) (stored_t1 (some 5)) (stored_t1 none) "t3" 20 refl refl refl

refresh-unsigned_example :
    (e : Exception) × (refresh digest table directory hash compare broken_sign minute ticking "t2"
        "t1"
        (stores none)
      ≡ (err e, stores none))
unfolding find_valid
refresh-unsigned_example =
    refresh-unsigned digest table directory hash compare broken_sign minute ticking "t2" "t1"
      (stores none) (stored_t1 none) refl (λ payload now. (other "no key", refl))

abbrev ann_login : String → LoginDto
ann_login password = record { email = "ann@x"; password = password }

login-refused_example :
    login digest table directory hash compare sign minute ticking "t2"
      (ann_login "guess")
      (stores none)
    ≡ (err (http unauthorized "Invalid credentials."), stores none)
unfolding find_by_email
login-refused_example =
    login-refused digest table directory hash compare sign minute ticking "t2" (ann_login "guess")
      (stores none) (inr (user "u1" "ann@x" "#pw" true, refl, inl refl))

login-ok_example :
    (u : User) × (find_by_email directory "ann@x" sample ≡ ok (some u))
    × (compare "pw" u.password_hash ≡ ok true)
    × (u.is_active ≡ true)
    × Issues digest table directory hash compare sign minute ticking "t2" u.id u.email pair
        (stores none)
        (login digest table directory hash compare sign minute ticking "t2"
          (ann_login "pw")
          (stores none)).1
unfolding login find_by_email issue_token_pair create parse_ttl_to_ms scan trim_start trim_end
    nearest excess units
login-ok_example =
    login-ok digest table directory hash compare sign minute ticking "t2" (ann_login "pw")
      (stores none) pair refl

logout-refresh_example :
    (refresh digest table directory hash compare sign minute ticking "t2" "t1" (record {
      directory = sample;
      tokens =
          run digest table history
            (logout digest table directory hash compare sign minute ticking "t1" "u1"
              (stores none)).1.tokens;
    })).0
    ≢ ok pair
unfolding logout find_valid revoke
logout-refresh_example =
    logout-refresh digest table directory hash compare sign minute ticking "t2" "t1" "u1" 10
      (stores none) _ (stored_t1 none) (tt, tt) refl refl refl history ticking sample pair

abbrev carl : RegisterDto
carl = record { email = "carl@x"; password = "pw"; name = none }

abbrev registered : Stores Tables (List RefreshToken)
registered =
    (register digest table directory hash compare sign minute ticking "t2" carl (stores none)).1

register-ok_example :
    (u : User) × (r : Role) × ((u.email ≡ "carl@x")
      × (u.is_active ≡ true)
      × (hash "pw" ≡ ok u.password_hash)
      × (registered.directory.users ≡ u ∷ sample.users)
      × All (λ (x : User). str_eq x.email "carl@x" ≡ false) sample.users
      × IsIn r sample.roles
      × (r.name ≡ "user")
      × (directory.has_role registered.directory u.id r.id ≡ true)
      × Issues digest table directory hash compare sign minute ticking "t2" u.id u.email
          (record { access_token = "jwt:new"; refresh_token = "t2" })
          (record (stores none) { directory = registered.directory })
          registered)
unfolding register create_user issue_token_pair create parse_ttl_to_ms scan trim_start trim_end
    nearest excess units
register-ok_example =
    register-ok digest table directory hash compare sign minute ticking "t2" carl (stores none)
      (record { access_token = "jwt:new"; refresh_token = "t2" }) refl

-- 1w
abbrev week : Option String
week = some "1w"

abbrev carl_row : User
carl_row = record (user "new" "carl@x" "#pw" true) { created_at = 12; updated_at = 12 }

register-unparsed_example :
    (register digest table directory hash compare sign week ticking "t2" carl (stores none) ≡ (
      err (other "Invalid refresh TTL: \"1w\"."),
      record (stores none) {
        directory = record sample {
          users = carl_row ∷ sample.users;
          user_roles = ("new", "r2") ∷ sample.user_roles;
        };
      },
    ))
    × IsIn carl_row (carl_row ∷ sample.users)
unfolding parse_ttl_to_ms scan trim_start trim_end nearest excess units
register-unparsed_example =
    register-unparsed digest table directory hash compare sign week ticking "t2" carl (stores none)
      "#pw" carl_row
      (record sample {
        users = carl_row ∷ sample.users;
        user_roles = ("new", "r2") ∷ sample.user_roles;
      })
      refl refl refl
