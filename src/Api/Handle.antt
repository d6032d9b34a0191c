-- ===== src/Api/Handle.antt =====
-- The bodies of the handlers, and src/health/health.service.ts. The pipe that validates a request
-- is @nestjs/common's: a handler gets the body, the path parameter and the query as values of their
-- DTO types. The services' parameters are those of Auth; the answer of `SELECT 1` is an argument.
use nestjs_api_starter.Prelude.{ℕ, String, Bool, false, Option, none, some, List, or_default}
use nestjs_api_starter.Effects.{
  Result, ok, err, other, http, service_unavailable, Eff, pure, lift, reads, ◌>>=◌, ◌>>◌,
}
use nestjs_api_starter.Prisma.{Delegate}
use nestjs_api_starter.TokenStorage.{RefreshToken, same_token}
use nestjs_api_starter.Directory.{Directory, Role, Permission}
use nestjs_api_starter.Pagination.{PaginationInput, PaginatedResponse}
use nestjs_api_starter.Roles
use nestjs_api_starter.Roles.{CreateDto, UpdateDto}
use nestjs_api_starter.Users
use nestjs_api_starter.Users.{SafeUser, UserProfile, UpdateUserDto}
use nestjs_api_starter.Auth
use nestjs_api_starter.Auth.{
  AccessTokenPayload, RegisterDto, LoginDto, AuthResponseDto, Stores, on_directory,
}
use nestjs_api_starter.JwtGuard.{AuthenticatedRequestUser}
use nestjs_api_starter.Api.{
  UsersController, get_current_user, update_current_user, find_many, get_user, update_user,
  deactivate_user, AuthController, register, login, refresh, logout, me, RolesController,
  PermissionsController, HealthController, live, ready, Handler, users, auth, roles, permissions,
  health,
}

pub record LiveResponse : Type 0 where
  pub status : String

pub record Checks : Type 0 where
  pub database : String

pub record ReadyResponse : Type 0 where
  pub status : String
  pub checks : Checks

-- What a handler takes from the request,
abbrev pub Args : Handler → Type 0
Args (users get_current_user) = Unit
Args (users update_current_user) = Option String
Args (users find_many) = PaginationInput
Args (users get_user) = String
Args (users update_user) = String × UpdateUserDto
Args (users deactivate_user) = String
Args (auth register) = RegisterDto
Args (auth login) = LoginDto
Args (auth refresh) = String
Args (auth logout) = String
Args (auth me) = Unit
Args (roles RolesController.find_all) = Option Bool
Args (roles RolesController.create) = CreateDto
Args (roles RolesController.update) = String × UpdateDto
Args (permissions PermissionsController.find_all) = Option Bool
Args (permissions PermissionsController.create) = CreateDto
Args (permissions PermissionsController.update) = String × UpdateDto
Args (health h) = Unit

-- and what it answers.
abbrev pub Answer : Handler → Type 0
Answer (users find_many) = PaginatedResponse SafeUser
Answer (users deactivate_user) = SafeUser
Answer (users h) = UserProfile
Answer (auth logout) = Unit
Answer (auth me) = UserProfile
Answer (auth h) = AuthResponseDto
Answer (roles RolesController.find_all) = List Role
Answer (roles h) = Role
Answer (permissions PermissionsController.find_all) = List Permission
Answer (permissions h) = Permission
Answer (health live) = LiveResponse
Answer (health ready) = ReadyResponse

-- `user.id` of `@CurrentUser()`, which is undefined on a request without a user
abbrev pub current_user_id : Option AuthenticatedRequestUser → Result String
current_user_id none = err (other "TypeError")
current_user_id (some user) = ok user.id

abbrev pub after_query : Result (Unit {0}) → Result (Unit {0})
after_query (ok r) = ok tt
after_query (err e) = err (http service_unavailable "Database is unavailable.")

module _ (sha256 : String → String) (t : Delegate RefreshToken same_token) (d : Directory)
    (hash : String → Result String) (compare : String → String → Result Bool)
    (sign : AccessTokenPayload → ℕ → Result String) (ttl : Option String)
    (query_raw : Stores d.State t.State → Result (Unit {0})) (clock : ℕ → ℕ) (fresh : String) where
  abbrev pub Action : Type 0 → Type 0
  Action A = Eff (Stores d.State t.State) A

  unfoldable pub check_database : Action (Unit {0})
  check_database = reads (λ w. after_query (query_raw w))

  abbrev pub handle_users :
      (h : UsersController)
      → Args (users h)
      → Option AuthenticatedRequestUser
      → Action (Answer (users h))
  handle_users get_current_user a user =
      lift (current_user_id user) >>= λ id. on_directory (Users.get_current_user d id)
  handle_users update_current_user name user = lift (current_user_id user) >>= λ id.
      on_directory (Users.update_current_user d id name (clock 0))
  handle_users find_many query user = on_directory (reads (Users.find_many d query))
  handle_users get_user id user = on_directory (Users.get_current_user d id)
  handle_users update_user (id, dto) user = on_directory (Users.update_user d id dto (clock 0))
  handle_users deactivate_user id user = on_directory (Users.deactivate_user d id (clock 0))

  abbrev pub handle_auth :
      (h : AuthController)
      → Args (auth h)
      → Option AuthenticatedRequestUser
      → Action (Answer (auth h))
  handle_auth register dto user = Auth.register sha256 t d hash compare sign ttl clock fresh dto
  handle_auth login dto user = Auth.login sha256 t d hash compare sign ttl clock fresh dto
  handle_auth refresh token user = Auth.refresh sha256 t d hash compare sign ttl clock fresh token
  handle_auth logout token user =
      lift (current_user_id user) >>= Auth.logout sha256 t d hash compare sign ttl clock token
  handle_auth me a user = lift (current_user_id user) >>= Auth.me sha256 t d hash compare sign ttl

  abbrev pub handle_roles : (h : RolesController) → Args (roles h) → Action (Answer (roles h))
  handle_roles RolesController.find_all include_inactive =
      on_directory (reads (Roles.find_all_roles d (or_default include_inactive false)))
  handle_roles RolesController.create dto = on_directory (Roles.create_role d dto (clock 0))
  handle_roles RolesController.update (id, dto) =
      on_directory (Roles.update_role d id dto (clock 0))

  abbrev pub handle_permissions :
      (h : PermissionsController) → Args (permissions h) → Action (Answer (permissions h))
  handle_permissions PermissionsController.find_all include_inactive =
      on_directory (reads (Roles.find_all_permissions d (or_default include_inactive false)))
  handle_permissions PermissionsController.create dto =
      on_directory (Roles.create_permission d dto (clock 0))
  handle_permissions PermissionsController.update (id, dto) =
      on_directory (Roles.update_permission d id dto (clock 0))

  abbrev pub handle_health : (h : HealthController) → Action (Answer (health h))
  handle_health live = pure (record { status = "ok" })
  handle_health ready =
      check_database >> pure (record { status = "ok"; checks = record { database = "ok" } })

  unfoldable pub handle :
      (h : Handler) → Args h → Option AuthenticatedRequestUser → Action (Answer h)
  handle (users h) a user = handle_users h a user
  handle (auth h) a user = handle_auth h a user
  handle (roles h) a user = handle_roles h a
  handle (permissions h) a user = handle_permissions h a
  handle (health h) a user = handle_health h
