-- ===== src/JwtGuard.antt =====
-- src/auth/guards/jwt-auth.guard.ts. The verification of a token by the JWT service, with the
-- configured secret, is a parameter, and the metadata of the reflector an argument.
pub mod Access
pub mod Tests
use nestjs_api_starter.Prelude.{
  ℕ, String, Bool, true, false, Option, none, some, List, [], ◌∷◌, str_eq, if◌then◌else◌, ◌==◌,
}
use nestjs_api_starter.Effects.{Result, ok, err, http, unauthorized}
use nestjs_api_starter.Json.{Text}
use nestjs_api_starter.Directory.{Directory, User}
use nestjs_api_starter.Users.{find_by_id}

-- the fields that the guard reads of a verified token
pub record AccessTokenPayload : Type 0 where
  pub sub : Option String
  pub email : Option String
  pub token_type : Option String

-- src/common/decorators/current-user.decorator.ts
pub record AuthenticatedRequestUser : Type 0 where
  pub id : String
  pub email : String

-- The first two items of `header.split(' ')`; the second is absent if there is no space.
unfoldable pub before_space : Text → Text
before_space [] = []
before_space (c ∷ cs) = let rest = before_space cs in if c == 32 then [] else c ∷ rest

unfoldable pub after_space : Text → Option Text
after_space [] = none
after_space (c ∷ cs) = let rest = after_space cs in if c == 32 then some cs else rest

-- 'Bearer'
abbrev pub bearer : Text
bearer = 66 ∷ 101 ∷ 97 ∷ 114 ∷ 101 ∷ 114 ∷ []

abbrev pub same_units : Text → Text → Bool
same_units [] [] = true
same_units [] (d ∷ ds) = false
same_units (c ∷ cs) [] = false
same_units (c ∷ cs) (d ∷ ds) = let rest = same_units cs ds in if c == d then rest else false

-- an empty text counts as absent
abbrev pub non_empty_text : Text → Option Text
non_empty_text [] = none
non_empty_text (c ∷ cs) = some (c ∷ cs)

abbrev pub second_item : Option Text → Option Text
second_item none = none
second_item (some rest) = non_empty_text (before_space rest)

unfoldable pub extract_bearer_token : Option Text → Option Text
extract_bearer_token none = none
extract_bearer_token (some []) = none
extract_bearer_token (some (c ∷ cs)) =
    if same_units (before_space (c ∷ cs)) bearer then second_item (after_space (c ∷ cs)) else none

abbrev pub admit : Result (Option User) → Result (Option AuthenticatedRequestUser)
admit (err e) = err e
admit (ok none) = err (http unauthorized "Account is inactive.")
admit (ok (some user)) =
    if user.is_active
    then ok (some (record { id = user.id; email = user.email }))
    else err (http unauthorized "Account is inactive.")

-- `payload.sub`, where an empty one counts as absent
abbrev pub subject_of : Option String → Option String
subject_of none = none
subject_of (some sub) = if str_eq sub "" then none else some sub

-- `payload.type`
abbrev pub is_access : Option String → Bool
is_access none = false
is_access (some kind) = str_eq kind "access"

module _ (d : Directory) (verify : Text → Result AccessTokenPayload) (s : d.State) where
  abbrev pub with_subject : Option String → Result (Option AuthenticatedRequestUser)
  with_subject none = err (http unauthorized "Invalid token.")
  with_subject (some sub) = admit (find_by_id d sub s)

  abbrev pub with_payload : Result AccessTokenPayload → Result (Option AuthenticatedRequestUser)
  with_payload (err e) = err (http unauthorized "Invalid or expired token.")
  with_payload (ok payload) =
      if is_access payload.token_type
      then with_subject (subject_of payload.sub)
      else err (http unauthorized "Invalid token type.")

  abbrev pub with_token : Option Text → Result (Option AuthenticatedRequestUser)
  with_token none = err (http unauthorized "Authentication is required.")
  with_token (some token) = with_payload (verify token)

  -- The guard passes the request, with the user that it sets on it, if any, or throws.
  unfoldable pub can_activate : Bool → Option Text → Result (Option AuthenticatedRequestUser)
  unfolding extract_bearer_token
  can_activate true header = ok none
  can_activate false header = with_token (extract_bearer_token header)
