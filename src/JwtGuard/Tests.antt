-- ===== src/JwtGuard/Tests.antt =====
-- The guard of access tokens on a small directory, where one token verifies.
use nestjs_api_starter.Prelude.{ℕ, ◌≡◌, refl, false, Option, none, some, [], ◌∷◌, if◌then◌else◌}
use nestjs_api_starter.Effects.{Result, ok, err, http, other, unauthorized}
use nestjs_api_starter.Json.{Text}
use nestjs_api_starter.Directory.Memory.{directory}
use nestjs_api_starter.Directory.Sample.{sample}
use nestjs_api_starter.Users.{find_by_id}
use nestjs_api_starter.JwtGuard.{
  AccessTokenPayload, AuthenticatedRequestUser, extract_bearer_token, can_activate, before_space,
  after_space, same_units,
}
use nestjs_api_starter.JwtGuard.Access.{IsSignedIn, can_activate-IsSignedIn}

-- the token a is ann's, and no other verifies
abbrev verify : Text → Result AccessTokenPayload
verify token =
    if same_units token (97 ∷ [])
    then ok (record { sub = some "u1"; email = none; token_type = some "access" })
    else err (other "jwt malformed")

abbrev header : ℕ → Option Text
header token = some (66 ∷ 101 ∷ 97 ∷ 114 ∷ 101 ∷ 114 ∷ 32 ∷ token ∷ [])

abbrev ann : AuthenticatedRequestUser
ann = record { id = "u1"; email = "ann@x" }

refused_run :
    can_activate directory verify sample false (header 98)
    ≡ err (http unauthorized "Invalid or expired token.")
unfolding can_activate extract_bearer_token before_space after_space
refused_run = refl

can_activate-IsSignedIn_example :
    (token : Text) × (user : AuthenticatedRequestUser) × (extract_bearer_token (header 97)
      ≡ some token)
    × (◌≡◌ {A = Option AuthenticatedRequestUser} (some ann) (some user))
    × IsSignedIn directory verify sample token user
unfolding can_activate extract_bearer_token before_space after_space find_by_id
can_activate-IsSignedIn_example =
    can_activate-IsSignedIn directory verify sample (header 97) (some ann) refl
