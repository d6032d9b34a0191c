-- ===== src/Api/Policy.antt =====
-- The access policy of the API, and that the decorators of the controllers carry it out.
use nestjs_api_starter.Prelude.{
  String, ◌≡◌, refl, inl, inr, Bool, true, false, Option, none, some, List, [], ◌∷◌, or_default,
  Bool-cases, arith,
}
use nestjs_api_starter.Effects.{Result}
use nestjs_api_starter.Directory.{Directory}
use nestjs_api_starter.Guards.{roles_can_activate, permissions_can_activate}
use nestjs_api_starter.JwtGuard.{AuthenticatedRequestUser}
use nestjs_api_starter.Api.{
  get_current_user, update_current_user, find_many, get_user, update_user, deactivate_user,
  register, login, refresh, logout, me, RolesController, PermissionsController, live, ready,
  Handler, users, auth, roles, permissions, health, has_guards, public_handler, public_class,
  roles_handler, roles_class, permissions_handler,
}
use nestjs_api_starter.Api.Serve.{
  Reflector, is_public, required_roles, required_permissions, class_guards, both_guards, user_id,
}

-- The access to each route, written down apart from the decorators: anyone may register, log in,
-- refresh and probe; a signed-in user has the routes on the own account; management needs the role
-- admin, and the permission to read or to write the resource.
pub data Policy : Type 0 where
  anyone signed_in : Policy
  admin_with : String → Policy

abbrev pub policy : Handler → Policy
policy (auth register) = anyone
policy (auth login) = anyone
policy (auth refresh) = anyone
policy (auth logout) = signed_in
policy (auth me) = signed_in
policy (users get_current_user) = signed_in
policy (users update_current_user) = signed_in
policy (users find_many) = admin_with "users:read"
policy (users get_user) = admin_with "users:read"
policy (users update_user) = admin_with "users:write"
policy (users deactivate_user) = admin_with "users:write"
policy (roles RolesController.find_all) = admin_with "roles:read"
policy (roles h) = admin_with "roles:write"
policy (permissions PermissionsController.find_all) = admin_with "permissions:read"
policy (permissions h) = admin_with "permissions:write"
policy (health h) = anyone

abbrev pub is_anyone : Policy → Bool
is_anyone anyone = true
is_anyone _ = false

abbrev pub policy_roles : Policy → Option (List String)
policy_roles (admin_with p) = some ("admin" ∷ [])
policy_roles _ = none

abbrev pub policy_permissions : Policy → Option (List String)
policy_permissions (admin_with p) = some (p ∷ [])
policy_permissions _ = none

abbrev first_defined : {A : Type 0} → Option A → Option A → Option A
first_defined none second = second
first_defined (some a) second = some a

-- The decorators say what the policy says.
decorators-policy :
    (h : Handler)
    → (or_default (first_defined (public_handler h) (public_class h)) false ≡ is_anyone (policy h))
      × (first_defined (roles_handler h) (roles_class h) ≡ policy_roles (policy h))
      × (first_defined (permissions_handler h) none ≡ policy_permissions (policy h))
decorators-policy (auth register) = (refl, refl, refl)
decorators-policy (auth login) = (refl, refl, refl)
decorators-policy (auth refresh) = (refl, refl, refl)
decorators-policy (auth logout) = (refl, refl, refl)
decorators-policy (auth me) = (refl, refl, refl)
decorators-policy (users get_current_user) = (refl, refl, refl)
decorators-policy (users update_current_user) = (refl, refl, refl)
decorators-policy (users find_many) = (refl, refl, refl)
decorators-policy (users get_user) = (refl, refl, refl)
decorators-policy (users update_user) = (refl, refl, refl)
decorators-policy (users deactivate_user) = (refl, refl, refl)
decorators-policy (roles RolesController.find_all) = (refl, refl, refl)
decorators-policy (roles RolesController.create) = (refl, refl, refl)
decorators-policy (roles RolesController.update) = (refl, refl, refl)
decorators-policy (permissions PermissionsController.find_all) = (refl, refl, refl)
decorators-policy (permissions PermissionsController.create) = (refl, refl, refl)
decorators-policy (permissions PermissionsController.update) = (refl, refl, refl)
decorators-policy (health live) = (refl, refl, refl)
decorators-policy (health ready) = (refl, refl, refl)

abbrev pub policy_guards :
    (d : Directory) → Policy → Option AuthenticatedRequestUser → d.State → Result Bool
policy_guards d p user s =
    both_guards (roles_can_activate d (policy_roles p) (user_id user) s)
      (permissions_can_activate d (policy_permissions p) (user_id user) s)

-- A class without the guards has no handler that needs them.
unguarded-policy :
    (h : Handler)
    → has_guards h ≡ false
    → (policy_roles (policy h) ≡ none) × (policy_permissions (policy h) ≡ none)
unguarded-policy (auth register) e = (refl, refl)
unguarded-policy (auth login) e = (refl, refl)
unguarded-policy (auth refresh) e = (refl, refl)
unguarded-policy (auth logout) e = (refl, refl)
unguarded-policy (auth me) e = (refl, refl)
unguarded-policy (health h) e = (refl, refl)
unguarded-policy (users h) e = absurd (ground arith)
unguarded-policy (roles h) e = absurd (ground arith)
unguarded-policy (permissions h) e = absurd (ground arith)

module _ (reflector : Reflector) (h : Handler) where
  override :
      {A : Type 0}
      → (of_handler of_class : Option A)
      → reflector.get_all_and_override of_handler of_class ≡ first_defined of_handler of_class
  override none of_class = reflector.class_next of_class
  override (some a) of_class = reflector.handler_first a of_class

  pub is_public-policy : is_public reflector h ≡ is_anyone (policy h)
  unfolding is_public
  is_public-policy = rw (override (public_handler h) (public_class h)) (decorators-policy h).0

  required_roles-policy : required_roles reflector h ≡ policy_roles (policy h)
  unfolding required_roles
  required_roles-policy = rw (override (roles_handler h) (roles_class h)) (decorators-policy h).1

  required_permissions-policy : required_permissions reflector h ≡ policy_permissions (policy h)
  unfolding required_permissions
  required_permissions-policy = rw (override (permissions_handler h) none) (decorators-policy h).2

  pub class_guards-policy :
      (d : Directory) (user : Option AuthenticatedRequestUser) (s : d.State)
      → class_guards reflector h d user s ≡ policy_guards d (policy h) user s
  unfolding class_guards roles_can_activate permissions_can_activate
  class_guards-policy d user s = elim (Bool-cases (has_guards h)) [
    | inl e ↦ rw (e, required_roles-policy, required_permissions-policy) refl
    | inr e ↦ let (r, p) = unguarded-policy h e in rw (e, r, p) refl
  ]
