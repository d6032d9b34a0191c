-- ===== src/Api.antt =====
-- The controllers: src/users/users.controller.ts, src/auth/auth.controller.ts,
-- src/roles/roles.controller.ts, src/roles/permissions.controller.ts and
-- src/health/health.controller.ts: their handlers, decorators and metadata. What Nest makes of the
-- metadata is in Api/Serve.
pub mod Handle
pub mod Serve
pub mod Policy
pub mod Access
pub mod Reach
pub mod Refusal
pub mod Deactivated
pub mod Tests
use nestjs_api_starter.Prelude.{String, Bool, true, false, Option, none, some, List, [], ◌∷◌, map}

pub data UsersController : Type 0 where
  get_current_user update_current_user find_many get_user update_user deactivate_user :
      UsersController

pub data AuthController : Type 0 where
  register login refresh logout me : AuthController

pub data RolesController : Type 0 where
  find_all create update : RolesController

pub data PermissionsController : Type 0 where
  find_all create update : PermissionsController

pub data HealthController : Type 0 where
  live ready : HealthController

-- A handler with its class.
pub data Handler : Type 0 where
  users : UsersController → Handler
  auth : AuthController → Handler
  roles : RolesController → Handler
  permissions : PermissionsController → Handler
  health : HealthController → Handler

-- `@Get`, `@Post`, `@Patch`, `@Delete` with the path after the prefix of `@Controller`.
pub data Method : Type 0 where
  get post patch delete : Method

pub data Segment : Type 0 where
  fixed : String → Segment
  param : Segment

abbrev pub Pattern : Type 0
Pattern = Method × List Segment

abbrev pub users_pattern : UsersController → Pattern
users_pattern get_current_user = (get, fixed "users" ∷ fixed "me" ∷ [])
users_pattern update_current_user = (patch, fixed "users" ∷ fixed "me" ∷ [])
users_pattern find_many = (get, fixed "users" ∷ [])
users_pattern get_user = (get, fixed "users" ∷ param ∷ [])
users_pattern update_user = (patch, fixed "users" ∷ param ∷ [])
users_pattern deactivate_user = (delete, fixed "users" ∷ param ∷ [])

abbrev pub auth_pattern : AuthController → Pattern
auth_pattern register = (post, fixed "auth" ∷ fixed "register" ∷ [])
auth_pattern login = (post, fixed "auth" ∷ fixed "login" ∷ [])
auth_pattern refresh = (post, fixed "auth" ∷ fixed "refresh" ∷ [])
auth_pattern logout = (post, fixed "auth" ∷ fixed "logout" ∷ [])
auth_pattern me = (get, fixed "auth" ∷ fixed "me" ∷ [])

abbrev pub roles_pattern : RolesController → Pattern
roles_pattern RolesController.find_all = (get, fixed "roles" ∷ [])
roles_pattern RolesController.create = (post, fixed "roles" ∷ [])
roles_pattern RolesController.update = (patch, fixed "roles" ∷ param ∷ [])

abbrev pub permissions_pattern : PermissionsController → Pattern
permissions_pattern PermissionsController.find_all = (get, fixed "permissions" ∷ [])
permissions_pattern PermissionsController.create = (post, fixed "permissions" ∷ [])
permissions_pattern PermissionsController.update = (patch, fixed "permissions" ∷ param ∷ [])

abbrev pub health_pattern : HealthController → Pattern
health_pattern live = (get, fixed "health" ∷ fixed "live" ∷ [])
health_pattern ready = (get, fixed "health" ∷ fixed "ready" ∷ [])

abbrev pub pattern_of : Handler → Pattern
pattern_of (users h) = users_pattern h
pattern_of (auth h) = auth_pattern h
pattern_of (roles h) = roles_pattern h
pattern_of (permissions h) = permissions_pattern h
pattern_of (health h) = health_pattern h

-- `@Public()` on a handler, and on its class.
abbrev pub public_handler : Handler → Option Bool
public_handler (auth register) = some true
public_handler (auth login) = some true
public_handler (auth refresh) = some true
public_handler _ = none

abbrev pub public_class : Handler → Option Bool
public_class (health h) = some true
public_class _ = none

-- `@Roles('admin')`
abbrev pub roles_handler : Handler → Option (List String)
roles_handler (users find_many) = some ("admin" ∷ [])
roles_handler (users get_user) = some ("admin" ∷ [])
roles_handler (users update_user) = some ("admin" ∷ [])
roles_handler (users deactivate_user) = some ("admin" ∷ [])
roles_handler _ = none

abbrev pub roles_class : Handler → Option (List String)
roles_class (roles h) = some ("admin" ∷ [])
roles_class (permissions h) = some ("admin" ∷ [])
roles_class _ = none

-- `@RequirePermissions(...)`, which no class has
abbrev pub permissions_handler : Handler → Option (List String)
permissions_handler (users find_many) = some ("users:read" ∷ [])
permissions_handler (users get_user) = some ("users:read" ∷ [])
permissions_handler (users update_user) = some ("users:write" ∷ [])
permissions_handler (users deactivate_user) = some ("users:write" ∷ [])
permissions_handler (roles RolesController.find_all) = some ("roles:read" ∷ [])
permissions_handler (roles h) = some ("roles:write" ∷ [])
permissions_handler (permissions PermissionsController.find_all) = some ("permissions:read" ∷ [])
permissions_handler (permissions h) = some ("permissions:write" ∷ [])
permissions_handler _ = none

-- `@UseGuards(RolesGuard, PermissionsGuard)`
abbrev pub has_guards : Handler → Bool
has_guards (users h) = true
has_guards (roles h) = true
has_guards (permissions h) = true
has_guards _ = false
