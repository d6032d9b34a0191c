-- ===== src/Roles.antt =====
-- src/roles/roles.service.ts and src/roles/permissions.service.ts. A method that only reads is a
-- function from the state to a result.
pub mod Grants
pub mod Deactivation
use nestjs_api_starter.Prelude.{
  ℕ, String, Bool, true, false, ◌&&◌, Option, none, some, List, map, any, str_eq, or_default,
  if◌then◌else◌,
}
use nestjs_api_starter.Effects.{Result, map_result, Eff, exec}
use nestjs_api_starter.Directory.{Directory, User, Role, Permission, unordered, by_name}

-- src/roles/dto/create-role.dto.ts, create-permission.dto.ts: both have these fields
pub record CreateDto : Type 0 where
  pub name : String
  pub description : Option String
  pub is_active : Option Bool

-- their `PartialType`: an absent field is `none`. A `null`, which `@IsOptional` lets through, is
-- not modelled.
pub record UpdateDto : Type 0 where
  pub name : Option String
  pub description : Option String
  pub is_active : Option Bool

-- A field of `data` that is spread in only if it is defined.
abbrev pub defined_or {ℓ} : {A : Type ℓ} → Option A → A → A
defined_or none old = old
defined_or (some new) old = new

abbrev pub some_or {ℓ} : {A : Type ℓ} → Option A → Option A → Option A
some_or none old = old
some_or (some new) old = some new

abbrev pub role_data : CreateDto → ℕ → String → Role
role_data input now id = record {
  id = id;
  name = input.name;
  description = input.description;
  is_active = or_default input.is_active true;
  created_at = now;
  updated_at = now;
}

abbrev pub update_role_data : UpdateDto → ℕ → Role → Role
update_role_data input now role = record role {
  name = defined_or input.name role.name;
  description = some_or input.description role.description;
  is_active = defined_or input.is_active role.is_active;
  updated_at = now;
}

abbrev pub permission_data : CreateDto → ℕ → String → Permission
permission_data input now id = record {
  id = id;
  name = input.name;
  description = input.description;
  is_active = or_default input.is_active true;
  created_at = now;
  updated_at = now;
}

abbrev pub update_permission_data : UpdateDto → ℕ → Permission → Permission
update_permission_data input now permission = record permission {
  name = defined_or input.name permission.name;
  description = some_or input.description permission.description;
  is_active = defined_or input.is_active permission.is_active;
  updated_at = now;
}

module _ (d : Directory) where
  -- `users: { some: { id: userId, isActive: true } }` of a role
  abbrev pub some_user : String → d.State → Role → Bool
  some_user user_id s role =
      any (λ user. (str_eq user.id user_id && user.is_active) && d.has_role s user.id role.id)
        (d.users s)

  abbrev pub role_where : String → d.State → Role → Bool
  role_where user_id s role = role.is_active && some_user user_id s role

  abbrev pub permission_where : String → d.State → Permission → Bool
  permission_where user_id s permission =
      permission.is_active
      && any (λ role. role_where user_id s role && d.has_permission s role.id permission.id)
          (d.roles s)

  unfoldable pub find_user_role_names : String → d.State → Result (List String)
  find_user_role_names user_id s =
      map_result (map (λ (role : Role). role.name))
        (d.find_roles unordered (role_where user_id s) s)

  -- `distinct: ['name']` changes nothing, since the names are unique
  unfoldable pub find_user_permission_names : String → d.State → Result (List String)
  find_user_permission_names user_id s =
      map_result (map (λ (permission : Permission). permission.name))
        (d.find_permissions unordered (permission_where user_id s) s)

  unfoldable pub find_all_roles : Bool → d.State → Result (List Role)
  find_all_roles include_inactive s =
      d.find_roles by_name (λ role. if include_inactive then true else role.is_active) s

  unfoldable pub create_role : CreateDto → ℕ → Eff d.State Role
  create_role input now = exec (d.create_role (role_data input now))

  unfoldable pub update_role : String → UpdateDto → ℕ → Eff d.State Role
  update_role id input now = exec (d.update_role id (update_role_data input now))

  unfoldable pub find_all_permissions : Bool → d.State → Result (List Permission)
  find_all_permissions include_inactive s =
      d.find_permissions by_name
        (λ permission. if include_inactive then true else permission.is_active) s

  unfoldable pub create_permission : CreateDto → ℕ → Eff d.State Permission
  create_permission input now = exec (d.create_permission (permission_data input now))

  unfoldable pub update_permission : String → UpdateDto → ℕ → Eff d.State Permission
  update_permission id input now = exec (d.update_permission id (update_permission_data input now))
