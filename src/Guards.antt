-- ===== src/Guards.antt =====
-- src/common/guards/roles.guard.ts and src/common/guards/permissions.guard.ts. The metadata that
-- the reflector gives and the request's user are arguments.
pub mod Access
pub mod Tests
use nestjs_api_starter.Prelude.{
  String, Bool, true, false, Option, none, some, List, [], ◌∷◌, any, every, str_eq, if◌then◌else◌,
}
use nestjs_api_starter.Effects.{Result, ok, err, http, unauthorized, forbidden}
use nestjs_api_starter.Directory.{Directory}
use nestjs_api_starter.Roles.{find_user_role_names, find_user_permission_names}

-- Array.prototype.includes
abbrev pub includes : List String → String → Bool
includes names name = any (λ x. str_eq x name) names

abbrev pub check_roles : List String → Result (List String) → Result Bool
check_roles required (ok active) =
    if any (includes active) required
    then ok true
    else err (http forbidden "You do not have the required role to access this resource.")
check_roles required (err e) = err e

abbrev pub check_permissions : List String → Result (List String) → Result Bool
check_permissions required (ok active) =
    if every (includes active) required
    then ok true
    else err (http forbidden "You do not have the required permissions to access this resource.")
check_permissions required (err e) = err e

module _ (d : Directory) where
  unfoldable pub roles_can_activate : Option (List String) → Option String → d.State → Result Bool
  roles_can_activate none user s = ok true
  roles_can_activate (some []) user s = ok true
  roles_can_activate (some (name ∷ names)) none s =
      err (http unauthorized "Authentication is required.")
  roles_can_activate (some (name ∷ names)) (some id) s =
      check_roles (name ∷ names) (find_user_role_names d id s)

  unfoldable pub permissions_can_activate :
      Option (List String) → Option String → d.State → Result Bool
  permissions_can_activate none user s = ok true
  permissions_can_activate (some []) user s = ok true
  permissions_can_activate (some (name ∷ names)) none s =
      err (http unauthorized "Authentication is required.")
  permissions_can_activate (some (name ∷ names)) (some id) s =
      check_permissions (name ∷ names) (find_user_permission_names d id s)
