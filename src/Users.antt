-- ===== src/Users.antt =====
-- src/users/users.service.ts. Two lookups that run at once under `Promise.all` are made one after
-- the other: they read one state.
pub mod Missing
pub mod Listing
pub mod Deactivation
pub mod Tests
use nestjs_api_starter.Prelude.{ℕ, String, Bool, true, false, Option, none, some, List, map, str_eq}
use nestjs_api_starter.Effects.{
  Result, ok, err, map_result, Eff, exec, http, not_found, pure, throw, lift, reads, ◌>>=◌, ◌>>◌,
}
use nestjs_api_starter.Pagination.{
  PaginationInput, PaginationParams, PaginatedResponse, get_pagination_params,
  build_pagination_meta, to_paginated_response,
}
use nestjs_api_starter.Directory.{Directory, User}
use nestjs_api_starter.Roles.{defined_or, some_or, find_user_role_names, find_user_permission_names}

-- `Omit<User, 'passwordHash'>`
pub record SafeUser : Type 0 where
  pub id : String
  pub email : String
  pub name : Option String
  pub is_active : Bool
  pub created_at : ℕ
  pub updated_at : ℕ

pub record UserProfile : Type 0 where
  pub user : SafeUser
  pub roles : List String
  pub permissions : List String

pub record CreateUserInput : Type 0 where
  pub email : String
  pub password_hash : String
  pub name : Option String
  pub role_name : Option String

-- src/users/dto/update-user.dto.ts
pub record UpdateUserDto : Type 0 where
  pub name : Option String
  pub is_active : Option Bool
  pub role_ids : Option (List String)

abbrev pub to_safe_user : User → SafeUser
to_safe_user user = record {
  id = user.id;
  email = user.email;
  name = user.name;
  is_active = user.is_active;
  created_at = user.created_at;
  updated_at = user.updated_at;
}

abbrev pub user_data : CreateUserInput → ℕ → String → User
user_data input now id = record {
  id = id;
  email = input.email;
  password_hash = input.password_hash;
  name = input.name;
  is_active = true;
  created_at = now;
  updated_at = now;
}

abbrev pub update_data : UpdateUserDto → ℕ → User → User
update_data input now user = record user {
  name = some_or input.name user.name;
  is_active = defined_or input.is_active user.is_active;
  updated_at = now;
}

abbrev pub deactivate : ℕ → User → User
deactivate now user = record user { is_active = false; updated_at = now }

abbrev pub rename : Option String → ℕ → User → User
rename name now user = record user { name = some_or name user.name; updated_at = now }

module _ (d : Directory) where
  unfoldable pub find_by_email : String → d.State → Result (Option User)
  find_by_email email = d.find_user (λ user. str_eq user.email email)

  unfoldable pub find_by_id : String → d.State → Result (Option User)
  find_by_id id = d.find_user (λ user. str_eq user.id id)

  unfoldable pub create_user : CreateUserInput → ℕ → Eff d.State User
  create_user input now = exec (d.create_user (user_data input now) input.role_name)

  abbrev pub or_user_not_found : {A : Type 0} → Option A → Eff d.State A
  or_user_not_found none = throw (http not_found "User not found.")
  or_user_not_found (some a) = pure a

  unfoldable pub ensure_user_exists : String → Eff d.State User
  unfolding find_by_id
  ensure_user_exists id = reads (find_by_id id) >>= or_user_not_found

  unfoldable pub to_user_profile : User → Eff d.State UserProfile
  to_user_profile user = do
    roles ← reads (find_user_role_names d user.id)
    permissions ← reads (find_user_permission_names d user.id)
    pure (record { user = to_safe_user user; roles = roles; permissions = permissions })

  unfoldable pub get_current_user : String → Eff d.State UserProfile
  get_current_user id = (reads (find_by_id id) >>= or_user_not_found) >>= to_user_profile

  unfoldable pub update_current_user : String → Option String → ℕ → Eff d.State UserProfile
  update_current_user id name now = do
    ensure_user_exists id
    user ← exec (d.update_user id (rename name now) none)
    to_user_profile user

  unfoldable pub update_user : String → UpdateUserDto → ℕ → Eff d.State UserProfile
  update_user id input now = do
    ensure_user_exists id
    user ← exec (d.update_user id (update_data input now) input.role_ids)
    to_user_profile user

  unfoldable pub deactivate_user : String → ℕ → Eff d.State SafeUser
  deactivate_user id now = do
    ensure_user_exists id
    user ← exec (d.update_user id (deactivate now) none)
    pure (to_safe_user user)

  abbrev pub paginated : PaginationParams → List User × ℕ → PaginatedResponse SafeUser
  paginated params (users, total) =
      to_paginated_response (map to_safe_user users)
        (build_pagination_meta params.page params.limit total)

  unfoldable pub find_many : PaginationInput → d.State → Result (PaginatedResponse SafeUser)
  find_many query s =
      let params = get_pagination_params query in
      map_result (paginated params) (d.page_of_users params.skip params.take s)
