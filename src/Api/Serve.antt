-- ===== src/Api/Serve.antt =====
-- What happens to a request for a handler: src/app.module.ts lists the guards of every route and
-- `@UseGuards` those of a class. Nest runs the global guards first, then those of the class, then
-- the handler, and stops at the first that throws. Its reflector, the verdict of the rate limiter
-- and the JWT service are parameters. The idempotency interceptor passes every handler through,
-- since none has its metadata.
use nestjs_api_starter.Prelude.{
  ℕ, String, ◌≡◌, Bool, true, false, Option, none, some, List, or_default, if◌then◌else◌,
}
use nestjs_api_starter.Effects.{Result, ok, err, http, forbidden, Eff, lift, reads, ◌>>=◌, ◌>>◌}
use nestjs_api_starter.Json.{Text}
use nestjs_api_starter.Prisma.{Delegate}
use nestjs_api_starter.TokenStorage.{RefreshToken, same_token}
use nestjs_api_starter.Directory.{Directory}
use nestjs_api_starter.Auth
use nestjs_api_starter.Auth.{Stores, on_directory}
use nestjs_api_starter.Guards.{roles_can_activate, permissions_can_activate}
use nestjs_api_starter.JwtGuard
use nestjs_api_starter.JwtGuard.{AuthenticatedRequestUser, can_activate}
use nestjs_api_starter.Api.{
  Handler, public_handler, public_class, roles_handler, roles_class, permissions_handler,
  has_guards,
}
use nestjs_api_starter.Api.Handle.{Args, Answer, handle}

-- `Reflector.getAllAndOverride(key, [handler, class])` of @nestjs/core: the first that is defined.
pub record Reflector : Type 1 where
  pub get_all_and_override : {A : Type 0} → Option A → Option A → Option A
  pub handler_first :
      {A : Type 0} (a : A) (of_class : Option A) → get_all_and_override (some a) of_class ≡ some a
  pub class_next :
      {A : Type 0} (of_class : Option A) → get_all_and_override none of_class ≡ of_class

-- A guard that returns false.
abbrev pub or_forbidden : Result Bool → Result Bool
or_forbidden (ok true) = ok true
or_forbidden (ok false) = err (http forbidden "Forbidden resource")
or_forbidden (err e) = err e

abbrev pub both_guards : Result Bool → Result Bool → Result Bool
both_guards (ok true) second = or_forbidden second
both_guards (ok false) second = err (http forbidden "Forbidden resource")
both_guards (err e) second = err e

abbrev pub user_id : Option AuthenticatedRequestUser → Option String
user_id none = none
user_id (some user) = some user.id

module _ (reflector : Reflector) (h : Handler) where
  unfoldable pub is_public : Bool
  is_public = or_default (reflector.get_all_and_override (public_handler h) (public_class h)) false

  unfoldable pub required_roles : Option (List String)
  required_roles = reflector.get_all_and_override (roles_handler h) (roles_class h)

  unfoldable pub required_permissions : Option (List String)
  required_permissions = reflector.get_all_and_override (permissions_handler h) none

  unfoldable pub class_guards :
      (d : Directory) → Option AuthenticatedRequestUser → d.State → Result Bool
  class_guards d user s =
      if has_guards h
      then both_guards (roles_can_activate d required_roles (user_id user) s)
          (permissions_can_activate d required_permissions (user_id user) s)
      else ok true

module _ (sha256 : String → String) (t : Delegate RefreshToken same_token) (d : Directory)
    (hash : String → Result String) (compare : String → String → Result Bool)
    (sign : Auth.AccessTokenPayload → ℕ → Result String) (ttl : Option String)
    (query_raw : Stores d.State t.State → Result (Unit {0})) (clock : ℕ → ℕ) (fresh : String)
    (reflector : Reflector) (verify : Text → Result JwtGuard.AccessTokenPayload)
    (throttle : Result (Unit {0})) where
  unfoldable pub serve :
      (h : Handler) → Args h → Option Text → Eff (Stores d.State t.State) (Answer h)
  serve h a header = do
    lift throttle
    user ← on_directory (reads (λ s. can_activate d verify s (is_public reflector h) header))
    on_directory (reads (λ s. class_guards reflector h d user s))
    handle sha256 t d hash compare sign ttl query_raw clock fresh h a user
